-- ===== src/Ledger/Restart.antt =====
-- qntyspot/ledger/recovery.py: after a restart every intent that is not terminal is moved to a state
-- that is safe to restart from.
pub mod Settled
use qnty_spot.Prelude.{
  ℕ, suc, Bool, true, false, not, ◌&&◌, Option, none, some, List, [], ◌∷◌, keep, map, length, ltb,
  leb, ◌==◌, if◌then◌else◌,
}
use qnty_spot.Errors.{Result, ok, err}
use qnty_spot.States.{
  IntentState, reserved, reconciled, filled, cancelled, safe_halt, terminal_states,
  pre_commitment_states, externally_ambiguous_states, is_state, in_states,
}
use qnty_spot.Domain.{Key}
use qnty_spot.Ledger.Rows.{
  IntentRow, Disposition, abandon, reconciliation_required, complete_from_receipt, recovery_note,
  Surface, Db,
}
use qnty_spot.Ledger.ChainTruth.{of_action}
use qnty_spot.Ledger.Intents.{transition}

pub record RecoveryAction : Type 0 where
  pub economic_action_id : Key
  pub from_state : IntentState
  pub to_state : IntentState
  pub disposition : Disposition

-- SELECT COUNT(*) FROM fill_receipts WHERE economic_action_id = ?
abbrev pub receipts_of : Db → Key → ℕ
receipts_of db key = length (keep (of_action key) db.receipts)

-- The same of external_transaction_refs, zero where there is no such table. A CHECK of that table
-- makes its two action identifiers one.
abbrev pub external_refs : Option Surface → Key → ℕ
external_refs none key = 0
external_refs (some s) key =
    length (keep (λ t. t.external_action_id == key) s.external_transaction_refs)

abbrev pub plan : IntentRow → IntentState → Disposition → RecoveryAction
plan r to why = record {
  economic_action_id = r.economic_action_id;
  from_state = r.state;
  to_state = to;
  disposition = why;
}

-- the ladder of tests for a state that is not terminal
unfoldable pub disposition_of : ℕ → ℕ → IntentRow → RecoveryAction
disposition_of receipts refs r =
    if is_state r.state reserved && ltb 0 refs
    then plan r safe_halt reconciliation_required
    else if in_states r.state pre_commitment_states
    then plan r cancelled abandon
    else if in_states r.state externally_ambiguous_states
    then plan r safe_halt reconciliation_required
    else if is_state r.state reconciled && ltb 0 receipts
    then plan r filled complete_from_receipt
    else plan r safe_halt reconciliation_required

-- ORDER BY economic_action_id ASC: identifiers are numbered in the order of their texts.
abbrev pub insert_ordered : IntentRow → List IntentRow → List IntentRow
insert_ordered r [] = r ∷ []
insert_ordered r (s ∷ rest) =
    if leb r.economic_action_id s.economic_action_id
    then r ∷ s ∷ rest
    else s ∷ insert_ordered r rest

abbrev pub ordered : List IntentRow → List IntentRow
ordered [] = []
ordered (r ∷ rest) = insert_ordered r (ordered rest)

abbrev pub is_pending : IntentRow → Bool
is_pending r = not (in_states r.state terminal_states)

-- Every action is decided on the database as the restart found it.
unfoldable pub planned : Db → List RecoveryAction
unfolding disposition_of
planned db =
    map
      (λ r.
        disposition_of (receipts_of db r.economic_action_id)
          (external_refs db.surface r.economic_action_id) r)
      (keep is_pending (ordered db.intents))

-- Each transition is a transaction of its own: where one raises, the earlier ones stay.
unfoldable pub perform : List RecoveryAction → ℕ → Db → Result (Unit {0}) × Db
perform [] now db = (ok tt, db)
perform (a ∷ rest) now db =
    elim (transition a.economic_action_id a.to_state now (recovery_note a.disposition) db) [
      | ok db' ↦ perform rest now db'
      | err e ↦ (err e, db)
    ]

unfoldable pub recover : ℕ → Db → Result (Unit {0}) × Db
unfolding perform planned
recover now db = perform (planned db) now db
