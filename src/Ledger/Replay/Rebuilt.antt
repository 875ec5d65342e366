-- ===== src/Ledger/Replay/Rebuilt.antt =====
-- A ledger whose admissions, in the course of its log, might as well have come before it.
use qnty_spot.Prelude.{
  ◌∷◌, ◌≡◌, refl, ◌∙◌, ap, sym, none, List, [], ◌++◌, Distinct, inl, inr, arith,
}
use qnty_spot.Errors.{ok, Result-cases}
use qnty_spot.Domain.{Key, Policy}
use qnty_spot.Ledger.Rows.{Db}
use qnty_spot.Ledger.Held.{action_of}
use qnty_spot.Ledger.Frames.{admit_policy-Untouched}
use qnty_spot.Ledger.Policies.{admit_policy}
use qnty_spot.Ledger.History.{empty_db}
use qnty_spot.Ledger.Replay.{ReplayState, replay_events, admit_all}
use qnty_spot.Ledger.Replay.Enrolled.{enrolled, Extends, Extends-same}
use qnty_spot.Ledger.Replay.Enrolled.Events.{replay_events-enrolled, replay_events-registry}
use qnty_spot.Ledger.Replay.Enrolled.Admission.{admit_policy-Registers}
use qnty_spot.Ledger.Replay.Mirror.{mirror, Replayed}

-- A ledger that holds registrations alone.
pub record Bare (db : Db) : Type 0 where
  pub intents : db.intents ≡ []
  pub reservations : db.reservations ≡ []
  pub state_events : db.state_events ≡ []
  pub surface : db.surface ≡ none

-- The ledger that the admissions alone lead to, of which the log makes the database.
pub record Rebuilt (policies : List Policy) (db : Db) : Type 0 where
  pub base : Db
  pub admitted : admit_all policies empty_db ≡ ok base
  pub bare : Bare base
  pub replayed : Replayed base db
  pub surface : db.surface ≡ none
  pub one_each : Distinct action_of db.reservations

admit_all-append :
    (policies : List Policy) (p : Policy) (a b c : Db)
    → admit_all policies a ≡ ok b
    → admit_policy p b ≡ ok c
    → admit_all (policies ++ p ∷ []) a ≡ ok c
unfolding admit_all
admit_all-append [] p a b c h k = ground arith
admit_all-append (q ∷ rest) p a b c h k = elim (Result-cases (admit_policy q a)) [
  | inl (mid, e) ↦ ground (arith, admit_all-append rest p mid b c (ground arith) k)
  | inr (x, e) ↦ absurd (ground arith)
]

pub replay_from :
    (base db : Db)
    → base.intents ≡ []
    → (m : Replayed base db)
    → (seen : List Key) × (replay_events [] m.events (mirror base []) ≡ ok (mirror db seen))
replay_from base db none_yet m =
    let (seen, covers, replays) = m.replays [] (λ j. rw none_yet refl) in (seen, replays)

-- The log registers nothing.
Replayed-registry : (base db : Db) → base.intents ≡ [] → Replayed base db → db ≡ enrolled base db
Replayed-registry base db none_yet m =
    let (seen, replays) = replay_from base db none_yet m in
    ap (λ (r : ReplayState). r.target)
      (replay_events-registry m.events (mirror base []) (mirror db seen) replays)

Replayed-enrolled :
    (x base db : Db)
    → Extends base x
    → Replayed base db
    → Replayed (enrolled x base) (enrolled x db)
Replayed-enrolled x base db e m = record {
  events = m.events;
  appended = m.appended;
  replays = λ seen covers.
      let (seen', covers', h) = m.replays seen covers in
      (seen', covers', replay_events-enrolled x m.events (mirror base seen) (mirror db seen') e h);
}

ok-injective : (db db' : Db) → ok db ≡ ok db' → db ≡ db'
ok-injective db db' h = ground arith

-- An admission in the course of the log might as well have come before it.
pub admit_policy-Rebuilt :
    (policies : List Policy) (p : Policy) (db db' : Db)
    → Rebuilt policies db
    → admit_policy p db ≡ ok db'
    → Rebuilt (policies ++ p ∷ []) db'
admit_policy-Rebuilt policies p db db' b h =
    let g = admit_policy-Registers p db db' h in
    let same = admit_policy-Untouched p db db' h in
    let registry = Replayed-registry b.base db b.bare.intents b.replayed in
    let at_base : enrolled db b.base ≡ b.base = ap (λ x. enrolled x b.base) registry in
    let at_end : enrolled db' db ≡ db' =
      ok-injective (enrolled db' db) db' (sym (g.anywhere db) ∙ h) in
    let extends = Extends-same db b.base db' (sym at_base) g.extends in
    record {
      base = enrolled db' b.base;
      admitted =
          admit_all-append policies p empty_db b.base (enrolled db' b.base) b.admitted
            (ap (admit_policy p) (sym at_base) ∙ g.anywhere b.base);
      bare = record {
        intents = b.bare.intents;
        reservations = b.bare.reservations;
        state_events = b.bare.state_events;
        surface = b.bare.surface;
      };
      replayed = rw at_end at (Replayed-enrolled db' b.base db extends b.replayed);
      surface = same.surface ∙ b.surface;
      one_each = rw same.actions.reservations b.one_each;
    }
