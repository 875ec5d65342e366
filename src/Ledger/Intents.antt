-- ===== src/Ledger/Intents.antt =====
-- The intents of qntyspot/ledger/store.py: their creation, `transition`, the recovery of SAFE_HALT
-- from terminal chain truth, and what these read of the execution tables. Each is the body of a
-- write transaction (`Ledger.Transaction`): an error leaves the database as it was.
use qnty_spot.Prelude.{
  ℕ, Bool, true, false, not, ◌&&◌, ◌||◌, Option, none, some, List, [], ◌∷◌, any, update, ◌==◌,
  if◌then◌else◌,
}
use qnty_spot.Errors.{
  Result, ok, err, ◌>>=◌, ◌>>◌, require, ledger_error, duplicate_economic_action,
}
use qnty_spot.States.{
  IntentState, armed, reserved, signed, submitted, included, confirmed, reconciled, filled,
  cancelled, expired, rejected, safe_halt, is_state, in_states, assert_legal_transition,
}
use qnty_spot.Domain.{Key, Intent, committed, released, quarantined}
use qnty_spot.Ledger.Rows.{
  IntentRow, ReceiptRow, intent_label, Payload, created, intent_created, intent_transition, Verdict,
  settled, reverted, ReconciliationRow, TransactionRow, ObservationRow, Presence, ReceiptStatus,
  Surface, Db,
}
use qnty_spot.Ledger.Tables.{is_some, is_intent, intent_of, is_duplicate, insert_intent}
use qnty_spot.Ledger.Events.{append_event}
use qnty_spot.Ledger.Budget.{reserve, settle_reservation}

abbrev pub new_intent : Intent → IntentRow
new_intent i = record {
  economic_action_id = i.economic_action_id;
  policy_id = i.policy_id;
  instrument_id = i.instrument_id;
  quote_instrument_id = i.quote_instrument_id;
  network_id = i.network_id;
  cycle_id = i.cycle_id;
  level_id = i.level_id;
  side = i.side;
  kind = i.kind;
  state = armed;
  quote_exposure_atomic = i.quote_exposure_atomic;
  bounds = i.bounds;
}

-- `except sqlite3.IntegrityError`: a key or UNIQUE constraint is checked before a reference is
insert_or_explain : IntentRow → Db → Result Db
insert_or_explain r db =
    if is_duplicate r db
    then err duplicate_economic_action
    else elim (insert_intent r db) [ ok db' ↦ ok db' | err e ↦ err ledger_error ]

unfoldable pub create_intent : Intent → ℕ → Db → Result Db
unfolding insert_or_explain
create_intent i now db = do
  require (is_state i.state armed) ledger_error
  db' ← insert_or_explain (new_intent i) db
  append_event intent_created i.policy_id i.cycle_id (some i.economic_action_id) none
      (some (intent_label armed)) now (created i) db'

abbrev row_or_unknown {ℓ} : {A : Type ℓ} → Option A → Result A
row_or_unknown none = err ledger_error
row_or_unknown (some r) = ok r

unfoldable pub intent_row : Db → Key → Result IntentRow
intent_row db key = row_or_unknown (intent_of db key)

unfoldable pub intent_state : Db → Key → Result IntentState
unfolding intent_row
intent_state db key = do r ← intent_row db key; ok r.state

-- UPDATE intents SET state = ? WHERE economic_action_id = ?
abbrev pub set_state : Key → IntentState → Db → Db
set_state key state db = record db {
  intents = update (is_intent key) (λ r. record r { state = state }) db.intents;
}

-- the table `reconciliations` is there
abbrev pub execution_surface_present : Db → Bool
execution_surface_present db = is_some db.surface

abbrev pub is_key : Option Key → Key → Bool
is_key none key = false
is_key (some k) key = k == key

abbrev pub is_settled : Verdict → Bool
is_settled settled = true
is_settled _ = false

abbrev pub is_reverted : Verdict → Bool
is_reverted reverted = true
is_reverted _ = false

abbrev binds_receipt : Key → List ReceiptRow → ReconciliationRow → Bool
binds_receipt key receipts r =
    r.external_action_id == key
    && is_settled r.verdict
    && any (λ f. is_key r.receipt_id f.receipt_id && f.economic_action_id == key) receipts

abbrev settled_on : Key → Option Surface → List ReceiptRow → Bool
settled_on key none receipts = false
settled_on key (some s) receipts = any (binds_receipt key receipts) s.reconciliations

-- A SETTLED reconciliation of the action with the receipt that it names.
unfoldable pub has_settled_receipt : Db → Key → Bool
has_settled_receipt db key = settled_on key db.surface db.receipts

-- the observation says INCLUDED and REVERTED
abbrev shows_revert : ObservationRow → Bool
shows_revert o = shown o.presence o.receipt_status
  where
    shown : Presence → Option ReceiptStatus → Bool
    shown Presence.included (some ReceiptStatus.status_reverted) = true
    shown _ _ = false

-- the reconciliation and the transaction agree on hash, chain and taker
abbrev pub agrees : ReconciliationRow → TransactionRow → Bool
agrees r t =
    is_key r.transaction_hash t.transaction_hash
    && is_key r.chain_id t.chain_id
    && is_key r.taker_address t.taker_address

abbrev observed_signed : Surface → TransactionRow → Bool
observed_signed s t =
    any
      (λ o.
        o.external_action_id == t.external_action_id
        && is_key o.signed_transaction_id t.transaction_id
        && shows_revert o)
      s.chain_observations

abbrev observed_external : Surface → TransactionRow → Bool
observed_external s t =
    any
      (λ o.
        o.external_action_id == t.external_action_id
        && is_key o.external_transaction_ref_id t.transaction_id
        && shows_revert o)
      s.chain_observations

abbrev binds_revert : Key → Surface → ReconciliationRow → Bool
binds_revert key s r =
    r.external_action_id == key
    && is_reverted r.verdict
    && (any (λ t. t.external_action_id == key && agrees r t && observed_signed s t)
          s.signed_transactions
        || any (λ t. t.external_action_id == key && agrees r t && observed_external s t)
            s.external_transaction_refs)

abbrev reverted_on : Key → Option Surface → Bool
reverted_on key none = false
reverted_on key (some s) = any (binds_revert key s) s.reconciliations

-- Without the execution tables the query itself fails, and the code raises LedgerError as it does
-- for an answer of no.
unfoldable pub has_bound_reverted_reconciliation : Db → Key → Bool
has_bound_reverted_reconciliation db key = reverted_on key db.surface

abbrev pub post_submission : List IntentState
post_submission = signed ∷ submitted ∷ included ∷ confirmed ∷ []

-- RECONCILED and FILLED ask for a receipt only where the execution tables are there.
abbrev receipt_if_surface : Key → Db → Bool
receipt_if_surface key db = not (execution_surface_present db) || has_settled_receipt db key

abbrev release_permitted : IntentState → Key → Db → Bool
release_permitted src key db =
    not (in_states src post_submission) || has_bound_reverted_reconciliation db key

release : IntentRow → Db → Result Db
release row db = do
  require (release_permitted row.state row.economic_action_id db) ledger_error
  ok (settle_reservation row.economic_action_id released db)

-- the budget consequences of moving an intent to a state
unfoldable pub consequence : IntentState → IntentRow → Db → Result Db
unfolding release
consequence reserved row db = reserve row db
consequence filled row db = do
  require (not (is_state row.state reconciled) || receipt_if_surface row.economic_action_id db)
      ledger_error
  ok (settle_reservation row.economic_action_id committed db)
consequence cancelled row db = release row db
consequence expired row db = release row db
consequence rejected row db = release row db
consequence reconciled row db = do
  require (receipt_if_surface row.economic_action_id db) ledger_error
  ok db
consequence safe_halt row db = ok (settle_reservation row.economic_action_id quarantined db)
consequence _ row db = ok db

unfoldable pub transition : Key → IntentState → ℕ → Payload → Db → Result Db
unfolding intent_row
transition key to now payload db = do
  row ← intent_row db key
  assert_legal_transition row.state to
  db' ← consequence to row db
  append_event intent_transition row.policy_id row.cycle_id (some key)
      (some (intent_label row.state)) (some (intent_label to)) now payload (set_state key to db')
