-- ===== src/Ledger/Replay.antt =====
-- qntyspot/ledger/replay.py: the reconstruction of a ledger from its policies and its event log. Its INSERTs are under the constraints of the schema; an UPDATE ... WHERE key
-- changes at most one row, by the primary keys.
pub mod Steps
pub mod Creation
pub mod Receipts
pub mod Cycles
pub mod Continuation
pub mod History
pub mod Mirror
pub mod Enrolled
pub mod Rebuilt
use qnty_spot.Prelude.{
  ℕ, ◌+◌, ◌≡◌, Bool, true, false, not, ◌&&◌, ◌||◌, Option, none, some, List, [], ◌∷◌, update, any,
  ltb, leb, ◌==◌, if◌then◌else◌,
}
use qnty_spot.Prelude.Int.{ℤ, pos, negsuc}
use qnty_spot.Errors.{
  Error, Result, ok, err, ◌>>=◌, ◌>>◌, require, replay_divergence, value_error, ledger_error,
}
use qnty_spot.States
use qnty_spot.States.{
  IntentState, reserved, signed, filled, cancelled, expired, rejected, safe_halt, reconciled,
  is_state, in_states, terminal_states, is_legal_transition,
}
use qnty_spot.Domain.{
  Key, CycleId, same_cycle, CycleStatus, opened, completed, halted, Intent, FillReceipt, Policy,
  ReservationStatus, active, committed, released, quarantined,
}
use qnty_spot.Ledger.Rows.{
  PolicyRow, IntentRow, ReservationRow, ReceiptRow, EventRow, EventType, cycle_opened,
  cycle_completed, cycle_halted, intent_created, intent_transition, fill_receipt_appended,
  exact_bytes_resumed, chain_truth_recovered, Label, intent_label, cycle_label, Carry, Payload,
  empty, opening, created, filled_by, chain_truth, resumed, Verdict, settled, reverted, Surface,
  TransactionRow, Db, is_active, is_quarantined,
}
use qnty_spot.Ledger.Tables.{
  is_some, policy_of, cycle_of, intent_of, reservation_of, is_reservation, insert_intent,
  insert_event, insert_cycle, insert_reservation, insert_receipt,
}
use qnty_spot.Ledger.Budget.{with_status}
use qnty_spot.Ledger.Intents.{new_intent, set_state, agrees, is_reverted, post_submission}
use qnty_spot.Ledger.ChainTruth.{reservation_fits}
use qnty_spot.Ledger.Policies.{admit_policy}
use qnty_spot.Ledger.Receipts.{new_receipt}
use qnty_spot.Ledger.Cycles.{
  is_open, is_completed, set_cycle, intents_in, acquired, disposed, sum_over, carry_of,
  carried_amount, opening_event, is_carry_of, carried_out, difference, is_settled_intent,
  same_asset,
}

pub record ReplayState : Type 0 where
  pub target : Db
  pub seen : List Key
  pub last_seq : ℕ

abbrev pub among : Key → List Key → Bool
among k keys = any (λ j. j == k) keys

abbrev pub expect : Bool → Result (Unit {0})
expect test = require test replay_divergence

abbrev pub row_or_diverge {ℓ} : {A : Type ℓ} → Option A → Result A
row_or_diverge none = err replay_divergence
row_or_diverge (some r) = ok r

-- `_replayed_cycle_inventory_atomic`
unfoldable pub replayed_inventory : CycleId → Db → Result ℤ
replayed_inventory key db = do
  start ← row_or_diverge (opening_event key db)
  let came = carried_amount (carry_of start.payload) + sum_over (acquired db) (intents_in key db)
  let went = sum_over (disposed db) (intents_in key db) + carried_out key db.state_events
  ok (difference came went)

abbrev same_integer : ℤ → ℕ → Bool
same_integer (pos n) m = n == m
same_integer (negsuc n) m = false

-- the checks of a carry, before its cycle is opened
unfoldable pub check_carry : Key → CycleId → Option Carry → Db → Result (Unit {0})
check_carry policy cycle none db = ok tt
check_carry policy cycle (some c) db = do
  expect (not (same_cycle c.source_cycle_id cycle))
  expect (ltb 0 c.amount_atomic)
  source ← row_or_diverge (cycle_of db c.source_cycle_id)
  holder ← row_or_diverge (policy_of db source.policy_id)
  expect (is_completed source.status)
  target ← row_or_diverge (policy_of db policy)
  expect (same_asset holder target)
  expect (not (any (λ r. not (is_settled_intent r)) (intents_in c.source_cycle_id db)))
  expect (not (any (is_carry_of c.source_cycle_id) db.state_events))
  inventory ← replayed_inventory c.source_cycle_id db
  expect (same_integer inventory c.amount_atomic)

unfoldable pub open_replayed : EventRow → Payload → Db → Result Db
open_replayed e (opening index carry) db = do
  check_carry e.policy_id e.cycle_id carry db
  insert_cycle
      (record {
        cycle_id = e.cycle_id;
        policy_id = e.policy_id;
        cycle_index = index;
        status = opened;
      })
      db
open_replayed e _ db = err replay_divergence

unfoldable pub close_replayed : EventRow → CycleStatus → Payload → Db → Result Db
close_replayed e status empty db = do
  row ← row_or_diverge (cycle_of db e.cycle_id)
  expect (is_open row.status)
  ok (set_cycle e.cycle_id status db)
close_replayed e status _ db = err replay_divergence

-- `_apply_intent_created`
unfoldable pub create_replayed : Key → Payload → Db → Result Db
create_replayed key (created i) db = do
  expect (i.economic_action_id == key)
  insert_intent (record (new_intent i) { economic_action_id = key }) db
create_replayed key _ db = err replay_divergence

-- UPDATE budget_reservations SET status = ?, settled_seq = ? WHERE key = ? AND status = ?
abbrev pub settle_where : (ReservationStatus → Bool) → Key → ReservationStatus → Option ℕ → Db → Db
settle_where test key status seq db = record db {
  reservations =
      update (λ r. is_reservation key r && test r.status) (with_status status seq) db.reservations;
}

-- `_settle`
unfoldable pub settle_replayed : Key → ReservationStatus → ℕ → Db → Db
settle_replayed key status seq db = settle_where is_active key status (some seq) db

abbrev pub replayed_reservation : IntentRow → Key → ℕ → ReservationRow
replayed_reservation i key seq = record {
  economic_action_id = key;
  policy_id = i.policy_id;
  instrument_id = i.instrument_id;
  quote_instrument_id = i.quote_instrument_id;
  network_id = i.network_id;
  amount_atomic = i.quote_exposure_atomic;
  status = active;
  reserved_seq = seq;
  settled_seq = none;
}

-- Trusted: the guard ran when the event was first written.
unfoldable pub reserve_replayed : IntentRow → Key → ℕ → Db → Result Db
reserve_replayed i key seq db =
    if i.quote_exposure_atomic == 0
    then ok db
    else insert_reservation (replayed_reservation i key seq) db

abbrev bound_revert : Key → Surface → Bool
bound_revert key s =
    any
      (λ r.
        r.external_action_id == key
        && is_reverted r.verdict
        && any (λ t. t.external_action_id == key && agrees r t) s.signed_transactions)
      s.reconciliations

-- The query fails where there are no execution tables.
release_checked : List Key → Key → Option Surface → Result (Unit {0})
release_checked trusted key none = err replay_divergence
release_checked trusted key (some s) = expect (bound_revert key s || among key trusted)

unfoldable pub release_replayed : List Key → IntentRow → Key → ℕ → Db → Result Db
unfolding release_checked
release_replayed trusted i key seq db = do
  (if in_states i.state post_submission then release_checked trusted key db.surface else ok tt)
  ok (settle_replayed key released seq db)

unfoldable pub replayed_consequence : List Key → IntentState → IntentRow → Key → ℕ → Db → Result Db
replayed_consequence trusted reserved i key seq db = reserve_replayed i key seq db
replayed_consequence trusted filled i key seq db = ok (settle_replayed key committed seq db)
replayed_consequence trusted cancelled i key seq db = release_replayed trusted i key seq db
replayed_consequence trusted expired i key seq db = release_replayed trusted i key seq db
replayed_consequence trusted rejected i key seq db = release_replayed trusted i key seq db
replayed_consequence trusted safe_halt i key seq db = ok (settle_replayed key quarantined seq db)
replayed_consequence trusted _ i key seq db = ok db

-- `IntentState(str(event["to_state"]))`
abbrev pub state_in : Option Label → Result IntentState
state_in (some (intent_label s)) = ok s
state_in _ = err value_error

abbrev pub is_label : Option Label → IntentState → Bool
is_label (some (intent_label s)) t = is_state s t
is_label _ t = false

-- `_apply_transition`
unfoldable pub transition_replayed : List Key → Key → EventRow → Db → Result Db
transition_replayed trusted key e db = do
  row ← row_or_diverge (intent_of db key)
  dst ← state_in e.to_state
  expect (is_label e.from_state row.state)
  expect (is_legal_transition row.state dst)
  db' ← replayed_consequence trusted dst row key e.seq db
  ok (set_state key dst db')

abbrev named_quarantine : Option ReservationStatus → ℕ → Bool
named_quarantine none exposure = exposure == 0
named_quarantine (some s) exposure = not (exposure == 0) && is_quarantined s

abbrev prior_of : Payload → Result (Option ReservationStatus)
prior_of (resumed prior) = ok prior
prior_of _ = err replay_divergence

-- `_apply_exact_bytes_resume`
unfoldable pub resume_replayed : Key → EventRow → Db → Result Db
resume_replayed key e db = do
  expect (is_label e.from_state safe_halt && is_label e.to_state signed)
  prior ← prior_of e.payload
  row ← row_or_diverge (intent_of db key)
  expect (is_state row.state safe_halt)
  expect (reservation_fits row.quote_exposure_atomic (reservation_of db key))
  expect (named_quarantine prior row.quote_exposure_atomic)
  let db' = set_state key signed db
  ok (
      if row.quote_exposure_atomic == 0
      then db'
      else settle_where is_quarantined key active none db')

pub record TruthPayload : Type 0 where
  pub receipt_id : Option Key
  pub verdict : Verdict

abbrev truth_of : Payload → Result TruthPayload
truth_of (chain_truth reconciliation receipt verdict) =
    ok (record { receipt_id = receipt; verdict = verdict })
truth_of _ = err replay_divergence

abbrev has_receipt : Option Key → Key → List ReceiptRow → Bool
has_receipt none key receipts = false
has_receipt (some id) key receipts =
    any (λ r. r.receipt_id == id && r.economic_action_id == key) receipts

abbrev is_settled : Verdict → Bool
is_settled settled = true
is_settled _ = false

recover_replayed_to : List Key → Key → IntentState → TruthPayload → IntentRow → ℕ → Db → Result Db
recover_replayed_to trusted key reconciled p row seq db = do
  expect (is_settled p.verdict && is_some p.receipt_id)
  expect (has_receipt p.receipt_id key db.receipts)
  ok (if row.quote_exposure_atomic == 0 then db else settle_where is_quarantined key active none db)
recover_replayed_to trusted key rejected p row seq db = do
  expect (is_reverted p.verdict && not (is_some p.receipt_id))
  expect (among key trusted)
  ok (
      if row.quote_exposure_atomic == 0
      then db
      else settle_where is_quarantined key released (some seq) db)
recover_replayed_to trusted key _ p row seq db = err replay_divergence

-- the state that a recovery names, where one that is none is a divergence
abbrev named_recovery : Option Label → Result IntentState
named_recovery (some (intent_label s)) = ok s
named_recovery _ = err replay_divergence

-- `_apply_chain_truth_recovery`
unfoldable pub recover_replayed : List Key → Key → EventRow → Db → Result Db
unfolding recover_replayed_to
recover_replayed trusted key e db = do
  p ← truth_of e.payload
  expect (is_label e.from_state safe_halt)
  target ← named_recovery e.to_state
  expect (is_state target reconciled || is_state target rejected)
  row ← row_or_diverge (intent_of db key)
  expect (is_state row.state safe_halt)
  expect (reservation_fits row.quote_exposure_atomic (reservation_of db key))
  db' ← recover_replayed_to trusted key target p row e.seq db
  ok (set_state key target db')

-- `_apply_receipt`
unfoldable pub receipt_replayed : Key → EventRow → Payload → Db → Result Db
receipt_replayed key e (filled_by r) db =
    insert_receipt (record (new_receipt r e.seq) { economic_action_id = key }) db
receipt_replayed key e _ db = err replay_divergence

abbrev with_target : ReplayState → Result Db → Result ReplayState
with_target r result = do db ← result; ok (record r { target = db })

cycle_replayed : EventRow → Result Db → ReplayState → Result ReplayState
cycle_replayed e result r = do expect (not (is_some e.economic_action_id)); with_target r result

seen_replayed : Option Key → (Key → Result Db) → ReplayState → Result ReplayState
seen_replayed none body r = err replay_divergence
seen_replayed (some key) body r = do expect (among key r.seen); with_target r (body key)

created_replayed : Option Key → Payload → ReplayState → Result ReplayState
created_replayed none payload r = err replay_divergence
created_replayed (some key) payload r = do
  expect (not (among key r.seen))
  with_target (record r { seen = key ∷ r.seen }) (create_replayed key payload r.target)

unfoldable pub apply_event : List Key → EventType → EventRow → ReplayState → Result ReplayState
unfolding cycle_replayed seen_replayed created_replayed
apply_event trusted cycle_opened e r = cycle_replayed e (open_replayed e e.payload r.target) r
apply_event trusted cycle_completed e r =
    cycle_replayed e (close_replayed e completed e.payload r.target) r
apply_event trusted cycle_halted e r =
    cycle_replayed e (close_replayed e halted e.payload r.target) r
apply_event trusted intent_created e r = created_replayed e.economic_action_id e.payload r
apply_event trusted intent_transition e r =
    seen_replayed e.economic_action_id (λ key. transition_replayed trusted key e r.target) r
apply_event trusted exact_bytes_resumed e r =
    seen_replayed e.economic_action_id (λ key. resume_replayed key e r.target) r
apply_event trusted chain_truth_recovered e r =
    seen_replayed e.economic_action_id (λ key. recover_replayed trusted key e r.target) r
apply_event trusted fill_receipt_appended e r =
    seen_replayed e.economic_action_id (λ key. receipt_replayed key e e.payload r.target) r

-- one round of the loop
unfoldable pub replay_event : List Key → EventRow → ReplayState → Result ReplayState
replay_event trusted e r = do
  expect (ltb r.last_seq e.seq)
  expect (is_some (policy_of r.target e.policy_id))
  r' ← apply_event trusted e.event_type e r
  db ← insert_event e r'.target
  ok (record r' { target = db; last_seq = e.seq })

unfoldable pub replay_events : List Key → List EventRow → ReplayState → Result ReplayState
replay_events trusted [] r = ok r
replay_events trusted (e ∷ rest) r = do r' ← replay_event trusted e r; replay_events trusted rest r'

abbrev is_empty {ℓ} : {A : Type ℓ} → List A → Bool
is_empty [] = true
is_empty (x ∷ rest) = false

-- `target.admit_policy` of each policy, which stands for the canonical text that parses to it
unfoldable pub admit_all : List Policy → Db → Result Db
admit_all [] db = ok db
admit_all (p ∷ rest) db = do db' ← admit_policy p db; admit_all rest db'

-- Without a token of an execution replay, a target that has execution tables is refused.
unfoldable pub replay_into : List Key → List Policy → List EventRow → Db → Result Db
replay_into trusted policies events target = do
  require (not (is_some target.surface)) ledger_error
  require (is_empty target.state_events) ledger_error
  admitted ← admit_all policies target
  r ← replay_events trusted events (record { target = admitted; seen = []; last_seq = 0 })
  ok r.target
