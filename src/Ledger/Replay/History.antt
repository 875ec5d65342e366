-- ===== src/Ledger/Replay/History.antt =====
-- The replay of the whole log of a ledger that has no execution tables, and of its policies.
use qnty_spot.Prelude.{
  ◌∷◌, ℕ, ◌≡◌, refl, ◌∙◌, ap, sym, Option, none, List, [], ◌++◌, Distinct, arith,
}
use qnty_spot.Errors.{ok}
use qnty_spot.States.{IntentState}
use qnty_spot.Domain.{Key, Policy}
use qnty_spot.Ledger.Rows.{EventRow, Db, Surface}
use qnty_spot.Ledger.Events.{max_seq}
use qnty_spot.Ledger.ChainTruth.{recover_safe_halt}
use qnty_spot.Ledger.Held.{action_of}
use qnty_spot.Ledger.Caps.{Change-Distinct}
use qnty_spot.Ledger.Policies.{admit_policy}
use qnty_spot.Ledger.History.{
  empty_db, Trade, creates, moves, recovers, receives, opens, closes, continues, executes,
}
use qnty_spot.Ledger.History.Invariants.{Trade-Change}
use qnty_spot.Ledger.Replay.{replay_events, admit_all, replay_into}
use qnty_spot.Ledger.Replay.Rebuilt.{Rebuilt, replay_from, admit_policy-Rebuilt}
use qnty_spot.Ledger.Replay.Mirror.{mirror, Replayed, Replayed-refl, Replayed-then}
use qnty_spot.Ledger.Replay.Steps.{transition-Replayed}
use qnty_spot.Ledger.Replay.Creation.{create_intent-Replayed}
use qnty_spot.Ledger.Replay.Receipts.{append_receipt-Replayed}
use qnty_spot.Ledger.Replay.Cycles.{open_cycle-Replayed, close_cycle-Replayed}
use qnty_spot.Ledger.Replay.Continuation.{continue_inventory-Replayed}

-- A ledger whose execution tables are never there, from its creation on, and the policies that the calls
-- of `admit_policy` were given, in their order.
pub data Recorded : List Policy → Db → Type 0 where
  new_ledger : Recorded [] empty_db
  then_admitted :
      (policies : List Policy) (p : Policy) (mid db : Db)
      → Recorded policies mid
      → admit_policy p mid ≡ ok db
      → Recorded (policies ++ p ∷ []) db
  then_traded :
      (policies : List Policy) (mid db : Db)
      → Recorded policies mid
      → Trade mid db
      → db.surface ≡ none
      → Recorded policies db

no_recovery :
    (key : Key) (to : IntentState) (now : ℕ) (db : Db)
    → db.surface ≡ none
    → (db' : Db) → recover_safe_halt key to now db ≡ ok db'
    → Replayed db db'
unfolding recover_safe_halt
no_recovery key to now db bare db' h = absurd (ground arith)

surface-eq_self :
    (s : Option Surface) (db : Db) → s ≡ none → db.surface ≡ none → record db { surface = s } ≡ db
surface-eq_self s db e bare = ap (λ (x : Option Surface). record db { surface = x }) (e ∙ sym bare)

Trade-Replayed :
    (db db' : Db)
    → db.surface ≡ none
    → db'.surface ≡ none
    → Distinct action_of db.reservations
    → Trade db db'
    → Replayed db db'
Trade-Replayed db db' bare bare' d (creates i now _ h) = create_intent-Replayed i now db db' h
Trade-Replayed db db' bare bare' d (moves key to now payload _ h) =
    transition-Replayed key to now payload db db' bare d h
Trade-Replayed db db' bare bare' d (recovers key to now _ h) = no_recovery key to now db bare db' h
Trade-Replayed db db' bare bare' d (receives r now within _ h) =
    append_receipt-Replayed r now within db db' bare d h
Trade-Replayed db db' bare bare' d (opens p index now _ h) =
    open_cycle-Replayed p index now db db' h
Trade-Replayed db db' bare bare' d (closes key status now _ h) =
    close_cycle-Replayed key status now db db' h
Trade-Replayed db db' bare bare' d (continues source p index now _ h) =
    continue_inventory-Replayed source p index now db db' h
Trade-Replayed db _ bare bare' d (executes s) =
    rw (surface-eq_self s db bare' bare) (Replayed-refl db)

Recorded-Rebuilt : (policies : List Policy) (db : Db) → Recorded policies db → Rebuilt policies db
unfolding admit_all
Recorded-Rebuilt _ _ new_ledger = record {
  base = empty_db;
  admitted = refl;
  bare = record { intents = refl; reservations = refl; state_events = refl; surface = refl };
  replayed = Replayed-refl empty_db;
  surface = refl;
  one_each = tt;
}
Recorded-Rebuilt _ db' (then_admitted policies p db _ before h) =
    admit_policy-Rebuilt policies p db db' (Recorded-Rebuilt policies db before) h
Recorded-Rebuilt _ db' (then_traded policies db _ before t surface) =
    let b = Recorded-Rebuilt policies db before in
    record {
      base = b.base;
      admitted = b.admitted;
      bare = b.bare;
      replayed =
          Replayed-then b.base db db' b.replayed
            (Trade-Replayed db db' b.surface surface b.one_each t);
      surface = surface;
      one_each = Change-Distinct db db'.reservations b.one_each (Trade-Change db db' t);
    }

replay_into-ok :
    (policies : List Policy) (events : List EventRow) (db db' : Db) (seen : List Key)
    → admit_all policies empty_db ≡ ok db
    → db.state_events ≡ []
    → replay_events [] events (mirror db []) ≡ ok (mirror db' seen)
    → replay_into [] policies events empty_db ≡ ok db'
unfolding replay_into
replay_into-ok policies events db db' seen admitted fresh h =
    let start : mirror db [] ≡ record { target = db; seen = []; last_seq = 0 } =
      ap (λ es. record { target = db; seen = []; last_seq = max_seq es }) fresh in
    let h' : replay_events [] events (record { target = db; seen = []; last_seq = 0 })
        ≡ ok (mirror db' seen) =
      ap (replay_events [] events) (sym start) ∙ h in
    ground arith

-- The policies and the log are the ledger: whatever methods of the ledger were called and returned since
-- it was created, admissions of policies among them and at any time, where there never were execution
-- tables, the replay into a new ledger of the admitted policies, in the order of their admission, and
-- of the events that the ledger has, raises nothing and gives the whole database back, every row of
-- every table.
pub replay_reproduces :
    (policies : List Policy) (db : Db)
    → Recorded policies db
    → replay_into [] policies db.state_events empty_db ≡ ok db
replay_reproduces policies db history =
    let b = Recorded-Rebuilt policies db history in
    let m = b.replayed in
    let (seen, replays) = replay_from b.base db b.bare.intents m in
    replay_into-ok policies db.state_events b.base db seen b.admitted b.bare.state_events (
      ap (λ es. replay_events [] es (mirror b.base []))
        (m.appended ∙ ap (λ es. es ++ m.events) b.bare.state_events)
      ∙ replays)
