-- ===== src/Ledger/Replay/Enrolled/Actions.antt =====
-- The events of economic actions, where more is registered than they need.
use qnty_spot.Prelude.{ℕ, ◌≡◌, inl, inr, Option-cases, [], arith}
use qnty_spot.Errors.{ok, Result-cases}
use qnty_spot.States.{IntentState, reserved, filled, cancelled, expired, rejected, safe_halt}
use qnty_spot.Domain.{Key}
use qnty_spot.Ledger.Rows.{IntentRow, EventRow, Payload, created, filled_by, Db}
use qnty_spot.Ledger.Tables.{intent_of}
use qnty_spot.Ledger.Intents.{new_intent}
use qnty_spot.Ledger.Receipts.{new_receipt}
use qnty_spot.Ledger.Replay.{
  replayed_reservation, state_in, create_replayed, reserve_replayed, release_replayed,
  replayed_consequence, transition_replayed, resume_replayed, recover_replayed, receipt_replayed,
  settle_replayed,
}
use qnty_spot.Ledger.Replay.Enrolled.{
  enrolled, Extends, insert_intent-enrolled, insert_reservation-enrolled, insert_receipt-enrolled,
}

module _ (x : Db) where
  pub create_replayed-enrolled :
      (key : Key) (p : Payload) (db db' : Db)
      → Extends db x
      → create_replayed key p db ≡ ok db'
      → create_replayed key p (enrolled x db) ≡ ok (enrolled x db')
  unfolding create_replayed
  create_replayed-enrolled key (created i) db db' e h = ground (
    arith,
    insert_intent-enrolled x (record (new_intent i) { economic_action_id = key }) db db' e,
  )
  create_replayed-enrolled key _ db db' e h = absurd (ground arith)

  pub receipt_replayed-enrolled :
      (key : Key) (r : EventRow) (p : Payload) (db db' : Db)
      → receipt_replayed key r p db ≡ ok db'
      → receipt_replayed key r p (enrolled x db) ≡ ok (enrolled x db')
  unfolding receipt_replayed
  receipt_replayed-enrolled key r (filled_by f) db db' h =
      insert_receipt-enrolled x (record (new_receipt f r.seq) { economic_action_id = key }) db db' h
  receipt_replayed-enrolled key r _ db db' h = absurd (ground arith)

  reserve_replayed-enrolled :
      (i : IntentRow) (key : Key) (seq : ℕ) (db db' : Db)
      → Extends db x
      → reserve_replayed i key seq db ≡ ok db'
      → reserve_replayed i key seq (enrolled x db) ≡ ok (enrolled x db')
  unfolding reserve_replayed
  reserve_replayed-enrolled i key seq db db' e h =
      ground (arith, insert_reservation-enrolled x (replayed_reservation i key seq) db db' e)

  release_replayed-enrolled :
      (i : IntentRow) (key : Key) (seq : ℕ) (db db' : Db)
      → release_replayed [] i key seq db ≡ ok db'
      → release_replayed [] i key seq (enrolled x db) ≡ ok (enrolled x db')
  unfolding release_replayed settle_replayed
  release_replayed-enrolled i key seq db db' h = ground arith

  consequence-enrolled :
      (to : IntentState) (i : IntentRow) (key : Key) (seq : ℕ) (db db' : Db)
      → Extends db x
      → replayed_consequence [] to i key seq db ≡ ok db'
      → replayed_consequence [] to i key seq (enrolled x db) ≡ ok (enrolled x db')
  unfolding replayed_consequence settle_replayed
  consequence-enrolled reserved i key seq db db' e h =
      reserve_replayed-enrolled i key seq db db' e h
  consequence-enrolled filled i key seq db db' e h = ground arith
  consequence-enrolled cancelled i key seq db db' e h = release_replayed-enrolled i key seq db db' h
  consequence-enrolled expired i key seq db db' e h = release_replayed-enrolled i key seq db db' h
  consequence-enrolled rejected i key seq db db' e h = release_replayed-enrolled i key seq db db' h
  consequence-enrolled safe_halt i key seq db db' e h = ground arith
  consequence-enrolled _ i key seq db db' e h = ground arith

  pub transition_replayed-enrolled :
      (key : Key) (r : EventRow) (db db' : Db)
      → Extends db x
      → transition_replayed [] key r db ≡ ok db'
      → transition_replayed [] key r (enrolled x db) ≡ ok (enrolled x db')
  unfolding transition_replayed
  transition_replayed-enrolled key r db db' e h = elim (Option-cases (intent_of db key)) [
    | inl f ↦ absurd (ground arith)
    | inr (row, f) ↦ elim (Result-cases (state_in r.to_state)) [
      | inr (y, g) ↦ absurd (ground arith)
      | inl (to, g) ↦ elim (Result-cases (replayed_consequence [] to row key r.seq db)) [
        | inr (y, k) ↦ absurd (ground arith)
        | inl (mid, k) ↦ ground (arith, consequence-enrolled to row key r.seq db mid e k)
      ]
    ]
  ]

  pub resume_replayed-enrolled :
      (key : Key) (r : EventRow) (db db' : Db)
      → resume_replayed key r db ≡ ok db'
      → resume_replayed key r (enrolled x db) ≡ ok (enrolled x db')
  unfolding resume_replayed
  resume_replayed-enrolled key r db db' h = ground arith

  pub recover_replayed-enrolled :
      (key : Key) (r : EventRow) (db db' : Db)
      → recover_replayed [] key r db ≡ ok db'
      → recover_replayed [] key r (enrolled x db) ≡ ok (enrolled x db')
  unfolding recover_replayed
  recover_replayed-enrolled key r db db' h = ground arith
