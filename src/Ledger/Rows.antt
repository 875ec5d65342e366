-- ===== src/Ledger/Rows.antt =====
-- qntyspot/ledger/schema.py: the rows of the ledger's tables, with the columns that the code reads,
-- and of the tables of execution_schema.py that the ledger reads where they are present. An atomic
-- amount is the number that its text stands for.
use qnty_spot.Prelude.{ℕ, Bool, true, false, Option, List}
use qnty_spot.States.{IntentState}
use qnty_spot.Domain.{
  Key, CycleId, Side, LadderKind, CycleStatus, ReservationStatus, Bounds, Intent, FillReceipt,
  active, released, quarantined,
}

pub record InstrumentRow : Type 0 where
  pub instrument_id : Key
  pub network_id : Key
  pub decimals : ℕ
  pub identity_digest : Key

pub record PolicyRow : Type 0 where
  pub policy_id : Key
  pub side : Side
  pub instrument_id : Key
  pub quote_instrument_id : Key
  pub network_id : Key
  pub allocation_atomic : ℕ
  pub per_order_cap_atomic : ℕ
  pub per_instrument_cap_atomic : ℕ
  pub per_network_cap_atomic : ℕ
  pub global_cap_atomic : ℕ
  pub reserved_cash_atomic : ℕ
  pub max_cycles : ℕ
  pub canonical_json : Key

pub record LevelRow : Type 0 where
  pub policy_id : Key
  pub level_id : Key
  pub kind : LadderKind
  pub side : Side
  pub level_index : ℕ

pub record CycleRow : Type 0 where
  pub cycle_id : CycleId
  pub policy_id : Key
  pub cycle_index : ℕ
  pub status : CycleStatus

pub record IntentRow : Type 0 where
  pub economic_action_id : Key
  pub policy_id : Key
  pub instrument_id : Key
  pub quote_instrument_id : Key
  pub network_id : Key
  pub cycle_id : CycleId
  pub level_id : Key
  pub side : Side
  pub kind : LadderKind
  pub state : IntentState
  pub quote_exposure_atomic : ℕ
  pub bounds : Bounds

pub data EventType : Type 0 where
  cycle_opened cycle_completed cycle_halted : EventType
  intent_created intent_transition fill_receipt_appended : EventType
  exact_bytes_resumed chain_truth_recovered : EventType

abbrev pub is_cycle_type : EventType → Bool
is_cycle_type cycle_opened = true
is_cycle_type cycle_completed = true
is_cycle_type cycle_halted = true
is_cycle_type _ = false

-- The text of `from_state` and `to_state`: of an intent, or of a cycle.
pub data Label : Type 0 where
  intent_label : IntentState → Label
  cycle_label : CycleStatus → Label

pub record Carry : Type 0 where
  pub amount_atomic : ℕ
  pub source_cycle_id : CycleId

pub data Disposition : Type 0 where
  abandon reconciliation_required complete_from_receipt : Disposition

-- RECONCILIATION verdicts
pub data Verdict : Type 0 where
  settled reverted ambiguous : Verdict

-- What the code writes to `payload_json`; `supplied` is a caller's own object.
pub data Payload : Type 0 where
  empty : Payload
  supplied : Key → Payload
  opening : ℕ → Option Carry → Payload
  created : Intent → Payload
  filled_by : FillReceipt → Payload
  outside_bounds : Payload
  recovery_note : Disposition → Payload
  chain_truth : Key → Option Key → Verdict → Payload
  resumed : Option ReservationStatus → Payload

pub record EventRow : Type 0 where
  pub seq : ℕ
  pub event_type : EventType
  pub policy_id : Key
  pub cycle_id : CycleId
  pub economic_action_id : Option Key
  pub from_state : Option Label
  pub to_state : Option Label
  pub occurred_epoch_s : ℕ
  pub payload : Payload

pub record ReservationRow : Type 0 where
  pub economic_action_id : Key
  pub policy_id : Key
  pub instrument_id : Key
  pub quote_instrument_id : Key
  pub network_id : Key
  pub amount_atomic : ℕ
  pub status : ReservationStatus
  pub reserved_seq : ℕ
  pub settled_seq : Option ℕ

pub record ReceiptRow : Type 0 where
  pub receipt_id : Key
  pub economic_action_id : Key
  pub external_ref : Key
  pub input_atomic_filled : ℕ
  pub output_atomic_filled : ℕ
  pub fee_atomic : ℕ
  pub observed_at_epoch_s : ℕ
  pub source : Key
  pub appended_seq : ℕ

abbrev pub is_active : ReservationStatus → Bool
is_active active = true
is_active _ = false

abbrev pub is_quarantined : ReservationStatus → Bool
is_quarantined quarantined = true
is_quarantined _ = false

-- `status <> 'RELEASED'`
abbrev pub is_held : ReservationStatus → Bool
is_held released = false
is_held _ = true

-- A transaction of an external action: a signed one, or a reference to one made elsewhere.
pub record TransactionRow : Type 0 where
  pub transaction_id : Key
  pub external_action_id : Key
  pub transaction_hash : Key
  pub chain_id : ℕ
  pub taker_address : Key

pub record ReconciliationRow : Type 0 where
  pub reconciliation_id : Key
  pub external_action_id : Key
  pub verdict : Verdict
  pub receipt_id : Option Key
  pub transaction_hash : Option Key
  pub chain_id : Option ℕ
  pub taker_address : Option Key

pub data Presence : Type 0 where
  absent pending included : Presence

pub data ReceiptStatus : Type 0 where
  success status_reverted : ReceiptStatus

pub record ObservationRow : Type 0 where
  pub external_action_id : Key
  pub signed_transaction_id : Option Key
  pub external_transaction_ref_id : Option Key
  pub presence : Presence
  pub receipt_status : Option ReceiptStatus

-- The tables that `execution_schema.py` adds, as far as the ledger reads them.
pub record Surface : Type 0 where
  pub reconciliations : List ReconciliationRow
  pub signed_transactions : List TransactionRow
  pub external_transaction_refs : List TransactionRow
  pub chain_observations : List ObservationRow

pub record Db : Type 0 where
  pub instruments : List InstrumentRow
  pub policies : List PolicyRow
  pub ladder_levels : List LevelRow
  pub cycles : List CycleRow
  pub intents : List IntentRow
  pub state_events : List EventRow
  pub reservations : List ReservationRow
  pub receipts : List ReceiptRow
  pub surface : Option Surface
