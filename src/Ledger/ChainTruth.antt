-- ===== src/Ledger/ChainTruth.antt =====
-- `recover_safe_halt_from_terminal_chain_truth` of qntyspot/ledger/store.py: SAFE_HALT, which is
-- terminal in the transition table, resolved by a durable terminal reconciliation.
use qnty_spot.Prelude.{
  ℕ, ◌*◌, Bool, false, not, ◌&&◌, ◌||◌, Option, none, some, List, map, keep, find, ltb, leb, ◌==◌,
  if◌then◌else◌,
}
use qnty_spot.Errors.{Result, ok, err, ◌>>=◌, ◌>>◌, require, ledger_error, operational}
use qnty_spot.States.{IntentState, reconciled, rejected, safe_halt, is_state}
use qnty_spot.Domain.{Key, Bounds, ceiling, ReservationStatus, active, released}
use qnty_spot.Ledger.Atomics.{atomic_sum}
use qnty_spot.Ledger.Rows.{
  IntentRow, ReservationRow, ReceiptRow, intent_label, chain_truth, chain_truth_recovered,
  ReconciliationRow, Surface, Db, is_quarantined,
}
use qnty_spot.Ledger.Tables.{is_some, reservation_of}
use qnty_spot.Ledger.Events.{append_event, next_seq}
use qnty_spot.Ledger.Budget.{set_reservation}
use qnty_spot.Ledger.Intents.{
  intent_row, set_state, has_settled_receipt, has_bound_reverted_reconciliation, is_settled,
  is_reverted,
}

abbrev pub of_action : Key → ReceiptRow → Bool
of_action key f = f.economic_action_id == key

abbrev pub total_input : Key → List ReceiptRow → ℕ
total_input key receipts =
    atomic_sum (map (λ f. some f.input_atomic_filled) (keep (of_action key) receipts))

abbrev pub total_output : Key → List ReceiptRow → ℕ
total_output key receipts =
    atomic_sum (map (λ f. some f.output_atomic_filled) (keep (of_action key) receipts))

-- `-((-min_output * total_in) // max_input)`
abbrev pub required_output : Bounds → ℕ → ℕ
required_output b total_in = ceiling (b.min_output_atomic * total_in) b.max_input_atomic

-- The receipts of an action together, against its committed bounds.
unfoldable pub settled_fill_within_bounds : IntentRow → Db → Bool
settled_fill_within_bounds row db =
    let total_in = total_input row.economic_action_id db.receipts in
    let total_out = total_output row.economic_action_id db.receipts in
    if leb total_in 0 || ltb row.bounds.max_input_atomic total_in
    then false
    else leb (required_output row.bounds total_in) total_out

abbrev pub reconciliation_in : Option Surface → Key → Option ReconciliationRow
reconciliation_in none key = none
reconciliation_in (some s) key = find (λ r. r.external_action_id == key) s.reconciliations

-- A zero exposure has no reservation; any other has a QUARANTINED one.
abbrev pub reservation_fits : ℕ → Option ReservationRow → Bool
reservation_fits exposure none = exposure == 0
reservation_fits exposure (some r) = not (exposure == 0) && is_quarantined r.status

-- `UPDATE ... WHERE economic_action_id = ? AND status = 'QUARANTINED'`, which the code has found to
-- be the status; an action with no exposure has nothing to move
abbrev pub move_reservation : IntentRow → ReservationStatus → Option ℕ → Db → Db
move_reservation row status seq db =
    if row.quote_exposure_atomic == 0
    then db
    else set_reservation row.economic_action_id status seq db

abbrev recovered : IntentRow → IntentState → ReconciliationRow → ℕ → Db → Result Db
recovered row to r now db =
    append_event chain_truth_recovered row.policy_id row.cycle_id (some row.economic_action_id)
      (some (intent_label safe_halt)) (some (intent_label to)) now
      (chain_truth r.reconciliation_id r.receipt_id r.verdict) db

-- Settled truth: the reservation is active again, for FILLED to commit.
recover_settled : IntentRow → ReconciliationRow → ℕ → Db → Result Db
recover_settled row r now db = do
  require (is_settled r.verdict) ledger_error
  require (has_settled_receipt db row.economic_action_id) ledger_error
  require (settled_fill_within_bounds row db) ledger_error
  db' ← recovered row reconciled r now (move_reservation row active none db)
  ok (set_state row.economic_action_id reconciled db')

-- Reverted truth: the capital is released, under the number of the event that says so.
recover_reverted : IntentRow → ReconciliationRow → ℕ → Db → Result Db
recover_reverted row r now db = do
  require (is_reverted r.verdict) ledger_error
  require (has_bound_reverted_reconciliation db row.economic_action_id) ledger_error
  db' ← recovered row rejected r now db
  ok (
      set_state row.economic_action_id rejected
        (move_reservation row released (some (next_seq db)) db'))

recover_to : IntentState → IntentRow → Option ReconciliationRow → ℕ → Db → Result Db
unfolding recover_settled recover_reverted
recover_to to row none now db = err ledger_error
recover_to reconciled row (some r) now db = recover_settled row r now db
recover_to rejected row (some r) now db = recover_reverted row r now db
recover_to _ row (some r) now db = err ledger_error

-- Without the execution tables the query for a reconciliation fails; nothing is written either way.
unfoldable pub recover_safe_halt : Key → IntentState → ℕ → Db → Result Db
unfolding recover_to intent_row
recover_safe_halt key to now db = do
  require (is_state to reconciled || is_state to rejected) ledger_error
  row ← intent_row db key
  require (is_state row.state safe_halt) ledger_error
  require (reservation_fits row.quote_exposure_atomic (reservation_of db key)) ledger_error
  require (is_some db.surface) operational
  recover_to to row (reconciliation_in db.surface key) now db
