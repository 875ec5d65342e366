-- ===== src/Ledger/Replay/Enrolled/Events.antt =====
-- The rounds of a replay in a ledger that has more policies than the events need.
use qnty_spot.Prelude.{◌≡◌, ap, sym, ◌∙◌, inl, inr, Option-cases, List, [], ◌∷◌, arith}
use qnty_spot.Errors.{ok, Result-cases}
use qnty_spot.Domain.{completed, halted}
use qnty_spot.Ledger.Rows.{
  EventRow, EventType, Db, cycle_opened, cycle_completed, cycle_halted, intent_created,
  intent_transition, fill_receipt_appended, exact_bytes_resumed, chain_truth_recovered,
}
use qnty_spot.Ledger.Tables.{insert_event}
use qnty_spot.Ledger.Replay.{
  ReplayState, open_replayed, close_replayed, create_replayed, transition_replayed, resume_replayed,
  recover_replayed, receipt_replayed, apply_event, replay_event, replay_events,
}
use qnty_spot.Ledger.Replay.Enrolled.{
  enrolled, Extends, Extends-refl, Extends-same, known, insert_event-enrolled,
}
use qnty_spot.Ledger.Replay.Enrolled.Cycles.{open_replayed-enrolled, close_replayed-enrolled}
use qnty_spot.Ledger.Replay.Enrolled.Actions.{
  create_replayed-enrolled, transition_replayed-enrolled, resume_replayed-enrolled,
  recover_replayed-enrolled, receipt_replayed-enrolled,
}

-- The replay, its target enrolled.
abbrev pub enroll : Db → ReplayState → ReplayState
enroll x r = record r { target = enrolled x r.target }

target_of : (r r' : ReplayState) → ok r ≡ ok r' → r ≡ r'
target_of r r' h = ground arith

module _ (x : Db) where
  apply_event-enrolled :
      (t : EventType) (e : EventRow) (r r' : ReplayState)
      → Extends r.target x
      → apply_event [] t e r ≡ ok r'
      → apply_event [] t e (enroll x r) ≡ ok (enroll x r')
  unfolding apply_event
  apply_event-enrolled cycle_opened e r r' h k =
      elim (Result-cases (open_replayed e e.payload r.target)) [
        | inr (y, g) ↦ absurd (ground arith)
        | inl (db, g) ↦ ground (arith, open_replayed-enrolled x e e.payload r.target db h g)
      ]
  apply_event-enrolled cycle_completed e r r' h k =
      elim (Result-cases (close_replayed e completed e.payload r.target)) [
        | inr (y, g) ↦ absurd (ground arith)
        | inl (db, g) ↦
            ground (arith, close_replayed-enrolled x e completed e.payload r.target db g)
      ]
  apply_event-enrolled cycle_halted e r r' h k =
      elim (Result-cases (close_replayed e halted e.payload r.target)) [
        | inr (y, g) ↦ absurd (ground arith)
        | inl (db, g) ↦ ground (arith, close_replayed-enrolled x e halted e.payload r.target db g)
      ]
  apply_event-enrolled intent_created e r r' h k = elim (Option-cases e.economic_action_id) [
    | inl f ↦ absurd (ground arith)
    | inr (key, f) ↦ elim (Result-cases (create_replayed key e.payload r.target)) [
      | inr (y, g) ↦ absurd (ground arith)
      | inl (db, g) ↦ ground (arith, create_replayed-enrolled x key e.payload r.target db h g)
    ]
  ]
  apply_event-enrolled intent_transition e r r' h k = elim (Option-cases e.economic_action_id) [
    | inl f ↦ absurd (ground arith)
    | inr (key, f) ↦ elim (Result-cases (transition_replayed [] key e r.target)) [
      | inr (y, g) ↦ absurd (ground arith)
      | inl (db, g) ↦ ground (arith, transition_replayed-enrolled x key e r.target db h g)
    ]
  ]
  apply_event-enrolled exact_bytes_resumed e r r' h k = elim (Option-cases e.economic_action_id) [
    | inl f ↦ absurd (ground arith)
    | inr (key, f) ↦ elim (Result-cases (resume_replayed key e r.target)) [
      | inr (y, g) ↦ absurd (ground arith)
      | inl (db, g) ↦ ground (arith, resume_replayed-enrolled x key e r.target db g)
    ]
  ]
  apply_event-enrolled chain_truth_recovered e r r' h k = elim (Option-cases e.economic_action_id) [
    | inl f ↦ absurd (ground arith)
    | inr (key, f) ↦ elim (Result-cases (recover_replayed [] key e r.target)) [
      | inr (y, g) ↦ absurd (ground arith)
      | inl (db, g) ↦ ground (arith, recover_replayed-enrolled x key e r.target db g)
    ]
  ]
  apply_event-enrolled fill_receipt_appended e r r' h k = elim (Option-cases e.economic_action_id) [
    | inl f ↦ absurd (ground arith)
    | inr (key, f) ↦ elim (Result-cases (receipt_replayed key e e.payload r.target)) [
      | inr (y, g) ↦ absurd (ground arith)
      | inl (db, g) ↦ ground (arith, receipt_replayed-enrolled x key e e.payload r.target db g)
    ]
  ]

-- An event does not register anything.
apply_event-registry :
    (t : EventType) (e : EventRow) (r r' : ReplayState)
    → apply_event [] t e r ≡ ok r'
    → r' ≡ enroll r.target r'
apply_event-registry t e r r' h =
    target_of r' (enroll r.target r')
      (sym h ∙ apply_event-enrolled r.target t e r r' (Extends-refl r.target) h)

module _ (x : Db) where
  replay_event-enrolled :
      (e : EventRow) (r r' : ReplayState)
      → Extends r.target x
      → replay_event [] e r ≡ ok r'
      → replay_event [] e (enroll x r) ≡ ok (enroll x r')
  unfolding replay_event
  replay_event-enrolled e r r' h k = elim (Result-cases (apply_event [] e.event_type e r)) [
    | inr (y, f) ↦ absurd (ground arith)
    | inl (mid, f) ↦ elim (Result-cases (insert_event e mid.target)) [
      | inr (y, g) ↦ absurd (ground arith)
      | inl (db, g) ↦
          let same = apply_event-registry e.event_type e r mid f in
          let h' = Extends-same r.target mid.target x (ap (λ (q : ReplayState). q.target) same) h in
          ground (
            arith,
            known r.target x e.policy_id h,
            apply_event-enrolled x e.event_type e r mid h f,
            insert_event-enrolled x e mid.target db h' g,
          )
    ]
  ]

replay_event-registry :
    (e : EventRow) (r r' : ReplayState) → replay_event [] e r ≡ ok r' → r' ≡ enroll r.target r'
replay_event-registry e r r' h =
    target_of r' (enroll r.target r')
      (sym h ∙ replay_event-enrolled r.target e r r' (Extends-refl r.target) h)

-- A replay that succeeds does so whatever else is registered, with the same result.
pub replay_events-enrolled :
    (x : Db) (es : List EventRow) (r r' : ReplayState)
    → Extends r.target x
    → replay_events [] es r ≡ ok r'
    → replay_events [] es (enroll x r) ≡ ok (enroll x r')
unfolding replay_events
replay_events-enrolled x [] r r' h k = ground arith
replay_events-enrolled x (e ∷ es) r r' h k = elim (Result-cases (replay_event [] e r)) [
  | inr (y, f) ↦ absurd (ground arith)
  | inl (mid, f) ↦
      let same = replay_event-registry e r mid f in
      let h' = Extends-same r.target mid.target x (ap (λ (q : ReplayState). q.target) same) h in
      let rest = replay_events-enrolled x es mid r' h' (ground arith) in
      ground (arith, replay_event-enrolled x e r mid h f, rest)
]

pub replay_events-registry :
    (es : List EventRow) (r r' : ReplayState)
    → replay_events [] es r ≡ ok r'
    → r' ≡ enroll r.target r'
replay_events-registry es r r' h =
    target_of r' (enroll r.target r')
      (sym h ∙ replay_events-enrolled r.target es r r' (Extends-refl r.target) h)
