-- ===== src/Ledger/Receipts/Outcome.antt =====
-- What the answer of `append_fill_receipt` of qntyspot/ledger/store.py means.
use qnty_spot.Prelude.{
  ℕ, ◌*◌, ◌≤◌, ◌<◌, ◌≡◌, ◌⊎◌, refl, sym, Bool, true, false, ◌||◌, some, if◌then◌else◌, arith,
  Bool-cases, ltb, leb, inl, inr, ==_iff,
}
use qnty_spot.Errors.{ok, Result-cases}
use qnty_spot.States.{IntentState, safe_halt, is_state}
use qnty_spot.Domain.{Key, Bounds, FillReceipt, ceiling}
use qnty_spot.Domain.Ceiling.{ceiling-le_iff}
use qnty_spot.Ledger.Rows.{IntentRow, Db}
use qnty_spot.Ledger.Tables.{intent_of}
use qnty_spot.Ledger.Events.{next_seq}
use qnty_spot.Ledger.ChainTruth.{total_input, total_output}
use qnty_spot.Ledger.Receipts.{
  append_receipt, receipt_within_bounds, insert_or_duplicate, halt, new_receipt,
}
use qnty_spot.Ledger.Views.{intent_of-key, intent_of-set_state}
use qnty_spot.Ledger.Funding.Receipts.{received, receipt_written, halt-written}

answer :
    (r : FillReceipt) (now : ℕ) (db db' : Db) (within : Bool) (row : IntentRow)
    → intent_of db r.economic_action_id ≡ some row
    → append_receipt r now db ≡ ok (within, db')
    → (mid : Db) × (mid.intents ≡ db.intents)
      × (within ≡ receipt_within_bounds r.economic_action_id row.bounds mid)
      × ((((within || is_state row.state safe_halt) ≡ true) × (db' ≡ mid))
          ⊎ ((within ≡ false) × (halt row now mid ≡ ok db')))
unfolding append_receipt
answer r now db db' within row found h =
    elim (Result-cases (insert_or_duplicate (new_receipt r (next_seq db)) db)) [
      | inr (e, h1) ↦ absurd (ground arith)
      | inl (db1, h1) ↦ elim (Result-cases (received row r now db1)) [
        | inr (e, h2) ↦ absurd (ground arith)
        | inl (mid, h2) ↦
            (mid, (receipt_written r now db db1 mid row h1 h2).0, ground arith, ground arith)
      ]
    ]

is_state-halted : (s : IntentState) → is_state s safe_halt ≡ true → s ≡ safe_halt
is_state-halted s h = ground arith

-- A receipt that is recorded and found outside the committed bounds leaves its intent in SAFE_HALT.
pub receipt_outside_halts :
    (r : FillReceipt) (now : ℕ) (db db' : Db) (row : IntentRow)
    → intent_of db r.economic_action_id ≡ some row
    → append_receipt r now db ≡ ok (false, db')
    → (after : IntentRow) × (intent_of db' r.economic_action_id ≡ some after)
      × (after.state ≡ safe_halt)
receipt_outside_halts r now db db' row found h =
    let (mid, ei, e, ended) = answer r now db db' false row found h in
    elim ended [
      | inl (halted, same) ↦ (row, rw (same, ei) found, is_state-halted row.state halted)
      | inr (outside, halts) ↦
          let (legal, hi, hr) = halt-written row now mid db' halts in
          let key = intent_of-key db r.economic_action_id row found in
          (
            record row { state = safe_halt },
            rw
                (
                  hi,
                  intent_of-set_state row.economic_action_id safe_halt mid r.economic_action_id,
                  ei,
                  found,
                  (==_iff row.economic_action_id r.economic_action_id).1 key,
                )
                refl,
            refl,
          )
    ]

totals :
    (most least input output : ℕ)
    → 0 < most
    → true ≡ (if ltb most input then false else leb (ceiling (least * input) most) output)
    → (input ≤ most) × (least * input ≤ output * most)
totals most least input output pos h = elim (Bool-cases (ltb most input)) [
  | inl over ↦ absurd (ground arith)
  | inr inside ↦
      let reached : leb (ceiling (least * input) most) output ≡ true = sym (rw inside at h) in
      (ground arith, (ceiling-le_iff (least * input) most output pos).0 (ground arith))
]

within-totals :
    (key : Key) (b : Bounds) (db : Db)
    → 0 < b.max_input_atomic
    → true ≡ receipt_within_bounds key b db
    → (total_input key db.receipts ≤ b.max_input_atomic)
      × (b.min_output_atomic * total_input key db.receipts
          ≤ total_output key db.receipts * b.max_input_atomic)
unfolding receipt_within_bounds
within-totals key b db pos h =
    totals b.max_input_atomic b.min_output_atomic (total_input key db.receipts)
      (total_output key db.receipts) pos h

-- A receipt that is recorded and found within the bounds, against bounds with a positive maximum input:
-- all receipts of the action together, this one included, have an input of at most the maximum and an
-- output per input of at least the committed minimum output per maximum input.
pub receipts_within_bounds :
    (r : FillReceipt) (now : ℕ) (db db' : Db) (row : IntentRow)
    → intent_of db r.economic_action_id ≡ some row
    → 0 < row.bounds.max_input_atomic
    → append_receipt r now db ≡ ok (true, db')
    → (total_input r.economic_action_id db'.receipts ≤ row.bounds.max_input_atomic)
      × (row.bounds.min_output_atomic * total_input r.economic_action_id db'.receipts
          ≤ total_output r.economic_action_id db'.receipts * row.bounds.max_input_atomic)
receipts_within_bounds r now db db' row found pos h =
    let (mid, ei, e, ended) = answer r now db db' true row found h in
    elim ended [
      | inl (always, same) ↦ rw same (within-totals r.economic_action_id row.bounds mid pos e)
      | inr (outside, halts) ↦ cc
    ]
