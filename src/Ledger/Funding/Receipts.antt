-- ===== src/Ledger/Funding/Receipts.antt =====
-- The same for fill receipts and for new intents.
use qnty_spot.Prelude.{
  ℕ, ◌⊎◌, ◌≡◌, refl, ap, ◌∙◌, Bool, true, false, Option, none, some, ◌∷◌, ◌==◌, if◌then◌else◌,
  arith, Option-cases, inl, inr, ==_iff,
}
use qnty_spot.Errors.{Result, ok, Result-cases}
use qnty_spot.States.{safe_halt, is_legal_transition, assert_legal_transition}
use qnty_spot.Domain.{Key, Intent, FillReceipt, quarantined}
use qnty_spot.Ledger.Rows.{
  IntentRow, ReservationRow, intent_label, filled_by, fill_receipt_appended, Db,
}
use qnty_spot.Ledger.Tables.{insert_receipt, insert_intent, insert_event, intent_of, reservation_of}
use qnty_spot.Ledger.Events.{append_event, next_seq}
use qnty_spot.Ledger.Budget.{settle_reservation}
use qnty_spot.Ledger.Intents.{set_state, create_intent, new_intent}
use qnty_spot.Ledger.Receipts.{append_receipt, insert_or_duplicate, halt, new_receipt}
use qnty_spot.Ledger.Views.{intent_of-set_state, reservation_of-settle}
use qnty_spot.Ledger.Funding.{
  IsFunded, fits_row, fits_row-moved, fits-settled, found_at, same_lookups,
}
use qnty_spot.Ledger.Funding.Recovery.{row_at}

-- What appending a receipt does to the two tables: nothing, or it halts the intent.
pub data Received (key : Key) (db db' : Db) : Type 0 where
  kept : db'.intents ≡ db.intents → db'.reservations ≡ db.reservations → Received key db db'
  stopped :
      (row : IntentRow) (mid : Db)
      → intent_of db key ≡ some row
      → is_legal_transition row.state safe_halt ≡ true
      → mid.intents ≡ db.intents
      → mid.reservations ≡ db.reservations
      → mid.policies ≡ db.policies
      → db'.intents ≡ (set_state row.economic_action_id safe_halt mid).intents
      → db'.reservations ≡ (settle_reservation row.economic_action_id quarantined mid).reservations
      → Received key db db'

-- the two writes before the bounds are checked leave intents, reservations and policies alone
pub receipt_written :
    (r : FillReceipt) (now : ℕ) (db db1 db2 : Db) (row : IntentRow)
    → insert_or_duplicate (new_receipt r (next_seq db)) db ≡ ok db1
    → append_event fill_receipt_appended row.policy_id row.cycle_id
        (some r.economic_action_id)
        (some (intent_label row.state))
        none
        now
        (filled_by r)
        db1
      ≡ ok db2
    → (db2.intents ≡ db.intents)
      × (db2.reservations ≡ db.reservations)
      × (db2.policies ≡ db.policies)
unfolding insert_or_duplicate insert_receipt append_event insert_event
receipt_written r now db db1 db2 row h1 h2 = ground arith

pub halt-written :
    (row : IntentRow) (now : ℕ) (mid db' : Db)
    → halt row now mid ≡ ok db'
    → (is_legal_transition row.state safe_halt ≡ true)
      × (db'.intents ≡ (set_state row.economic_action_id safe_halt mid).intents)
      × (db'.reservations
          ≡ (settle_reservation row.economic_action_id quarantined mid).reservations)
unfolding halt assert_legal_transition append_event insert_event settle_reservation
halt-written row now mid db' h = ground arith

abbrev pub received : IntentRow → FillReceipt → ℕ → Db → Result Db
received row r now =
    append_event fill_receipt_appended row.policy_id row.cycle_id (some r.economic_action_id)
      (some (intent_label row.state)) none now (filled_by r)

-- What a successful append consists of.
pub receipt_steps :
    (r : FillReceipt) (now : ℕ) (db db' : Db) (within : Bool)
    → append_receipt r now db ≡ ok (within, db')
    → (row : IntentRow) × (mid : Db) × (db1 : Db) × (intent_of db r.economic_action_id ≡ some row)
      × (insert_or_duplicate (new_receipt r (next_seq db)) db ≡ ok db1)
      × (append_event fill_receipt_appended row.policy_id row.cycle_id
            (some r.economic_action_id)
            (some (intent_label row.state))
            none
            now
            (filled_by r)
            db1
          ≡ ok mid)
      × ((db' ≡ mid) ⊎ (halt row now mid ≡ ok db'))
unfolding append_receipt
receipt_steps r now db db' within h = elim (Option-cases (intent_of db r.economic_action_id)) [
  | inl unknown ↦ absurd (ground arith)
  | inr (row, found) ↦ elim (Result-cases (insert_or_duplicate (new_receipt r (next_seq db)) db)) [
    | inr (e, h1) ↦ absurd (ground arith)
    | inl (db1, h1) ↦ elim (Result-cases (received row r now db1)) [
      | inr (e, h2) ↦ absurd (ground arith)
      | inl (mid, h2) ↦ (row, mid, db1, found, h1, h2, ground arith)
    ]
  ]
]

pub append_receipt-Received :
    (r : FillReceipt) (now : ℕ) (db db' : Db) (within : Bool)
    → append_receipt r now db ≡ ok (within, db')
    → Received r.economic_action_id db db'
append_receipt-Received r now db db' within h =
    let (row, mid, db1, found, h1, h2, ended) = receipt_steps r now db db' within h in
    let (ei, er, ep) = receipt_written r now db db1 mid row h1 h2 in
    elim ended [
      | inl e ↦ kept (ap (λ (d : Db). d.intents) e ∙ ei) (ap (λ (d : Db). d.reservations) e ∙ er)
      | inr e ↦
          let (legal, hi, hr) = halt-written row now mid db' e in
          stopped row mid found legal ei er ep hi hr
    ]

Received-IsFunded : (key : Key) (db db' : Db) → IsFunded db → Received key db db' → IsFunded db'
Received-IsFunded key db db' f (kept ei er) = same_lookups db db' ei er f
Received-IsFunded key db db' f (stopped row mid found legal ei er ep hi hr) = record {
  at_key = λ j.
      rw
        (
          hi,
          hr,
          intent_of-set_state row.economic_action_id safe_halt mid j,
          reservation_of-settle row.economic_action_id quarantined mid j,
          ei,
          er,
        )
        (fits_row-moved safe_halt row (reservation_of db j) _ (row.economic_action_id == j)
          (intent_of db j) (f.at_key j)
          (λ same. found_at db key j (row_at db key j row found same) found)
          (λ same. fits-settled safe_halt quarantined row _ (reservation_of db j) refl refl legal));
}

-- Appending a fill receipt, within the bounds or not, keeps every reservation in step with its intent.
pub append_receipt-IsFunded :
    (r : FillReceipt) (now : ℕ) (db db' : Db) (within : Bool)
    → IsFunded db
    → append_receipt r now db ≡ ok (within, db')
    → IsFunded db'
append_receipt-IsFunded r now db db' within f h =
    Received-IsFunded r.economic_action_id db db' f (append_receipt-Received r now db db' within h)

pub created_rows :
    (i : Intent) (now : ℕ) (db db' : Db)
    → create_intent i now db ≡ ok db'
    → (intent_of db i.economic_action_id ≡ none)
      × (db'.intents ≡ new_intent i ∷ db.intents)
      × (db'.reservations ≡ db.reservations)
unfolding create_intent insert_intent append_event insert_event
created_rows i now db db' h = ground arith

created-fits :
    (i : Intent) (o : Option IntentRow) (v : Option ReservationRow) (here : Bool)
    → (here ≡ true → o ≡ none)
    → fits_row o v ≡ true
    → fits_row (if here then some (new_intent i) else o) v ≡ true
created-fits i none none true fresh h = refl
created-fits i none (some v) true fresh h = cc
created-fits i (some r) v true fresh h = absurd (ground (arith, fresh refl))
created-fits i o v false fresh h = h

-- A new intent starts with no reservation.
pub create_intent-IsFunded :
    (i : Intent) (now : ℕ) (db db' : Db)
    → IsFunded db
    → create_intent i now db ≡ ok db'
    → IsFunded db'
create_intent-IsFunded i now db db' f h =
    let (fresh, ei, er) = created_rows i now db db' h in
    record {
      at_key = λ j.
          rw (ei, er)
            (created-fits i (intent_of db j) (reservation_of db j) (i.economic_action_id == j)
              (λ same. rw (← (==_iff i.economic_action_id j).0 same) fresh) (f.at_key j));
    }
