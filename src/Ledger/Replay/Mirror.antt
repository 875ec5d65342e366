-- ===== src/Ledger/Replay/Mirror.antt =====
-- A replay in step with the ledger that it replays, and the round of one event of it.
use qnty_spot.Prelude.{
  sym, append-nil, append_assoc, ℕ, ◌+◌, ◌≡◌, refl, ◌∙◌, ap, true, Option, List, [], ◌∷◌, ◌++◌, max,
  arith, inl, inr,
}
use qnty_spot.Errors.{ok, Result-cases}
use qnty_spot.Domain.{Key, CycleId}
use qnty_spot.Ledger.Rows.{EventRow, EventType, Label, Payload, Db}
use qnty_spot.Ledger.Tables.{is_some, intent_of, policy_of, insert_event}
use qnty_spot.Ledger.Events.{max_seq}
use qnty_spot.Ledger.Replay.{ReplayState, among, apply_event, replay_event, replay_events}

-- The replay has reproduced the database, its events included.
abbrev pub mirror : Db → List Key → ReplayState
mirror db seen = record { target = db; seen = seen; last_seq = max_seq db.state_events }

-- The actions that a replay has seen are those of the intents.
abbrev pub Covers : Db → List Key → Type 0
Covers db seen = (j : Key) → among j seen ≡ is_some (intent_of db j)

max_seq-append :
    (es : List EventRow) (e : EventRow) → max_seq (es ++ e ∷ []) ≡ max (max_seq es) e.seq
max_seq-append [] e = omega arith
max_seq-append (x ∷ es) e = omega (arith, max_seq-append es e)

pub replay_events-append :
    (trusted : List Key) (xs ys : List EventRow) (r mid : ReplayState)
    → replay_events trusted xs r ≡ ok mid
    → replay_events trusted (xs ++ ys) r ≡ replay_events trusted ys mid
unfolding replay_events
replay_events-append trusted [] ys r mid h = ground arith
replay_events-append trusted (e ∷ xs) ys r mid h = elim (Result-cases (replay_event trusted e r)) [
  | inl (next, h1) ↦ rw h1 (replay_events-append trusted xs ys next mid (rw h1 at h))
  | inr (x, h1) ↦ absurd (ground arith)
]

-- the event that an append writes
abbrev pub event_row :
    EventType
    → Key
    → CycleId
    → Option Key
    → Option Label
    → Option Label
    → ℕ
    → Payload
    → Db
    → EventRow
event_row type policy cycle action from to now payload db = record {
  seq = max_seq db.state_events + 1;
  event_type = type;
  policy_id = policy;
  cycle_id = cycle;
  economic_action_id = action;
  from_state = from;
  to_state = to;
  occurred_epoch_s = now;
  payload = payload;
}

-- What a stretch of the ledger's life has added to the log, and that its replay ends in step again.
pub record Replayed (db db' : Db) : Type 0 where
  pub events : List EventRow
  pub appended : db'.state_events ≡ db.state_events ++ events
  pub replays :
      (seen : List Key)
      → Covers db seen
      → (seen' : List Key) × Covers db' seen'
        × (replay_events [] events (mirror db seen) ≡ ok (mirror db' seen'))

pub inserted-events :
    (e : EventRow) (db db' : Db)
    → insert_event e db ≡ ok db'
    → db'.state_events ≡ db.state_events ++ e ∷ []
unfolding insert_event
inserted-events e db db' h = ground arith

pub inserted-intent_of :
    (e : EventRow) (db db' : Db) (j : Key)
    → insert_event e db ≡ ok db'
    → intent_of db' j ≡ intent_of db j
unfolding insert_event
inserted-intent_of e db db' j h = ground arith

inserted-policy :
    (e : EventRow) (db db' : Db)
    → insert_event e db ≡ ok db'
    → is_some (policy_of db e.policy_id) ≡ true
unfolding insert_event
inserted-policy e db db' h = ground arith

-- A round in step: where the event applies to the mirror as the operation applied to the ledger, it
-- is numbered above the ones before, and the ledger's append of it succeeded.
pub round-ok :
    (e : EventRow) (db body db' : Db) (seen seen' : List Key)
    → e.seq ≡ max_seq db.state_events + 1
    → body.state_events ≡ db.state_events
    → body.policies ≡ db.policies
    → apply_event [] e.event_type e (mirror db seen)
      ≡ ok (record { target = body; seen = seen'; last_seq = max_seq db.state_events })
    → insert_event e body ≡ ok db'
    → replay_events [] (e ∷ []) (mirror db seen) ≡ ok (mirror db' seen')
unfolding replay_events replay_event
round-ok e db body db' seen seen' numbered same policies applied written =
    let known = inserted-policy e body db' written in
    let last : max_seq db'.state_events ≡ e.seq =
      ap max_seq (inserted-events e body db' written)
      ∙ ap (λ es. max_seq (es ++ e ∷ [])) same
      ∙ omega (arith, max_seq-append db.state_events e) in
    ground arith

pub Replayed-refl : (db : Db) → Replayed db db
unfolding replay_events
Replayed-refl db = record {
  events = [];
  appended = sym (append-nil db.state_events);
  replays = λ seen covers. (seen, covers, refl);
}

pub Replayed-then : (a b c : Db) → Replayed a b → Replayed b c → Replayed a c
Replayed-then a b c p q = record {
  events = p.events ++ q.events;
  appended =
      q.appended
      ∙ ap (λ es. es ++ q.events) p.appended
      ∙ append_assoc a.state_events p.events q.events;
  replays = λ seen covers.
      let (mid, covered, first) = p.replays seen covers in
      let (last, covered', second) = q.replays mid covered in
      (
        last,
        covered',
        replay_events-append [] p.events q.events (mirror a seen) (mirror b mid) first ∙ second,
      );
}
