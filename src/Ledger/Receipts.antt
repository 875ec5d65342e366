-- ===== src/Ledger/Receipts.antt =====
-- The fill receipts of qntyspot/ledger/store.py: `append_fill_receipt`, and the appending inside a
-- transaction that it shares with the execution runtime.
pub mod Outcome
use qnty_spot.Prelude.{
  ℕ, Bool, false, not, ◌||◌, none, some, List, [], ◌∷◌, ltb, leb, if◌then◌else◌,
}
use qnty_spot.Errors.{Result, ok, err, ◌>>=◌, ◌>>◌, require, ledger_error}
use qnty_spot.States.{
  IntentState, reserved, submitted, included, confirmed, reconciled, safe_halt, is_state, in_states,
  assert_legal_transition,
}
use qnty_spot.Domain.{Key, Bounds, FillReceipt, quarantined}
use qnty_spot.Ledger.Rows.{
  IntentRow, ReceiptRow, intent_label, filled_by, outside_bounds, fill_receipt_appended,
  intent_transition, Db,
}
use qnty_spot.Ledger.Tables.{insert_receipt}
use qnty_spot.Ledger.Events.{append_event, next_seq}
use qnty_spot.Ledger.Budget.{settle_reservation}
use qnty_spot.Ledger.Intents.{intent_row, set_state, execution_surface_present}
use qnty_spot.Ledger.ChainTruth.{total_input, total_output, required_output}

-- States in which an external fill may be observed.
abbrev pub receipt_states : List IntentState
receipt_states = reserved ∷ submitted ∷ included ∷ confirmed ∷ reconciled ∷ safe_halt ∷ []

abbrev pub new_receipt : FillReceipt → ℕ → ReceiptRow
new_receipt r seq = record {
  receipt_id = r.receipt_id;
  economic_action_id = r.economic_action_id;
  external_ref = r.external_ref;
  input_atomic_filled = r.input_atomic_filled;
  output_atomic_filled = r.output_atomic_filled;
  fee_atomic = r.fee_atomic;
  observed_at_epoch_s = r.observed_at_epoch_s;
  source = r.source;
  appended_seq = seq;
}

-- All receipts of the action so far, the new one included. Where the maximum input is zero the code
-- answers before it divides.
unfoldable pub receipt_within_bounds : Key → Bounds → Db → Bool
receipt_within_bounds key b db =
    let total_in = total_input key db.receipts in
    let total_out = total_output key db.receipts in
    if ltb b.max_input_atomic total_in then false else leb (required_output b total_in) total_out

unfoldable pub insert_or_duplicate : ReceiptRow → Db → Result Db
insert_or_duplicate r db = elim (insert_receipt r db) [ ok db' ↦ ok db' | err e ↦ err ledger_error ]

-- The fill happened outside the committed bounds: the capital is quarantined, not returned.
unfoldable pub halt : IntentRow → ℕ → Db → Result Db
halt row now db = do
  assert_legal_transition row.state safe_halt
  append_event intent_transition row.policy_id row.cycle_id (some row.economic_action_id)
      (some (intent_label row.state)) (some (intent_label safe_halt)) now outside_bounds
      (set_state row.economic_action_id safe_halt
        (settle_reservation row.economic_action_id quarantined db))

-- Records external truth, and says whether the bounds were respected.
unfoldable pub append_receipt : FillReceipt → ℕ → Db → Result (Bool × Db)
unfolding insert_or_duplicate halt intent_row
append_receipt r now db = do
  row ← intent_row db r.economic_action_id
  require (in_states row.state receipt_states) ledger_error
  db1 ← insert_or_duplicate (new_receipt r (next_seq db)) db
  db2 ←
      append_event fill_receipt_appended row.policy_id row.cycle_id (some r.economic_action_id)
        (some (intent_label row.state)) none now (filled_by r) db1
  let within = receipt_within_bounds r.economic_action_id row.bounds db2
  if within || is_state row.state safe_halt
      then ok (within, db2)
      else (do db3 ← halt row now db2; ok (within, db3))

-- With the execution tables in place only the execution runtime appends receipts.
unfoldable pub append_fill_receipt : FillReceipt → ℕ → Db → Result (Bool × Db)
append_fill_receipt r now db = do
  require (not (execution_surface_present db)) ledger_error
  append_receipt r now db
