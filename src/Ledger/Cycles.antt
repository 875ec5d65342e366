-- ===== src/Ledger/Cycles.antt =====
-- The cycles of qntyspot/ledger/store.py: `open_cycle`, `close_cycle`, the inventory that a cycle's
-- FILLED intents and carries leave it with, and `continue_inventory_into_successor_cycle`.
use qnty_spot.Prelude.{
  ℕ, ◌+◌, ◌-◌, Bool, true, false, not, ◌&&◌, Option, none, some, List, [], ◌∷◌, keep, find, any,
  update, ltb, leb, ◌==◌, if◌then◌else◌,
}
use qnty_spot.Prelude.Int.{ℤ, pos, negsuc}
use qnty_spot.Errors.{Result, ok, err, ◌>>=◌, ◌>>◌, require, ledger_error}
use qnty_spot.States.{filled, safe_halt, terminal_states, is_state, in_states}
use qnty_spot.Domain.{Key, CycleId, same_cycle, Policy, is_buy, CycleStatus, opened, completed}
use qnty_spot.Ledger.Rows.{
  PolicyRow, CycleRow, IntentRow, EventType, EventRow, cycle_label, Payload, empty, opening, Carry,
  cycle_opened, cycle_completed, cycle_halted, Db,
}
use qnty_spot.Ledger.Tables.{policy_of, cycle_of, is_some, insert_cycle}
use qnty_spot.Ledger.Events.{append_event}
use qnty_spot.Ledger.ChainTruth.{total_input, total_output}

abbrev pub cycle_id_for : Key → ℕ → CycleId
cycle_id_for policy index = record { policy = policy; index = index }

abbrev pub is_open : CycleStatus → Bool
is_open opened = true
is_open _ = false

abbrev pub is_completed : CycleStatus → Bool
is_completed completed = true
is_completed _ = false

abbrev row_or_unknown {ℓ} : {A : Type ℓ} → Option A → Result A
row_or_unknown none = err ledger_error
row_or_unknown (some r) = ok r

abbrev open_event : Key → CycleId → ℕ → Option Carry → ℕ → Db → Result Db
open_event policy cycle index carry now =
    append_event cycle_opened policy cycle none none (some (cycle_label opened)) now
      (opening index carry)

abbrev pub new_cycle : Key → ℕ → CycleRow
new_cycle policy index = record {
  cycle_id = cycle_id_for policy index;
  policy_id = policy;
  cycle_index = index;
  status = opened;
}

unfoldable pub open_cycle : Policy → ℕ → ℕ → Db → Result Db
open_cycle p index now db = do
  require (ltb index p.max_cycles) ledger_error
  require (not (is_some (cycle_of db (cycle_id_for p.policy_id index)))) ledger_error
  db' ← insert_cycle (new_cycle p.policy_id index) db
  open_event p.policy_id (cycle_id_for p.policy_id index) index none now db'

-- UPDATE cycles SET status = ? WHERE cycle_id = ?
abbrev pub set_cycle : CycleId → CycleStatus → Db → Db
set_cycle key status db = record db {
  cycles = update (λ r. same_cycle r.cycle_id key) (λ r. record r { status = status }) db.cycles;
}

abbrev pub closing_type : CycleStatus → EventType
closing_type completed = cycle_completed
closing_type _ = cycle_halted

abbrev close_event : Key → CycleId → CycleStatus → ℕ → Db → Result Db
close_event policy cycle status now =
    append_event (closing_type status) policy cycle none (some (cycle_label opened))
      (some (cycle_label status)) now empty

unfoldable pub close_cycle : CycleId → CycleStatus → ℕ → Db → Result Db
close_cycle key status now db = do
  require (not (is_open status)) ledger_error
  row ← row_or_unknown (cycle_of db key)
  require (is_open row.status) ledger_error
  close_event row.policy_id key status now (set_cycle key status db)

-- SELECT ... FROM intents WHERE cycle_id = ?
abbrev pub intents_in : CycleId → Db → List IntentRow
intents_in key db = keep (λ r. same_cycle r.cycle_id key) db.intents

-- What a FILLED intent brought into the base inventory, and what it took out.
abbrev pub acquired : Db → IntentRow → ℕ
acquired db r =
    if is_state r.state filled && is_buy r.side
    then total_output r.economic_action_id db.receipts
    else 0

abbrev pub disposed : Db → IntentRow → ℕ
disposed db r =
    if is_state r.state filled && not (is_buy r.side)
    then total_input r.economic_action_id db.receipts
    else 0

abbrev pub sum_over : (IntentRow → ℕ) → List IntentRow → ℕ
sum_over f [] = 0
sum_over f (r ∷ rest) = f r + sum_over f rest

abbrev pub carry_of : Payload → Option Carry
carry_of (opening _ carry) = carry
carry_of _ = none

abbrev pub is_opening : EventRow → Bool
is_opening e = opens e.event_type
  where
    opens : EventType → Bool
    opens cycle_opened = true
    opens _ = false

abbrev pub carried_amount : Option Carry → ℕ
carried_amount none = 0
carried_amount (some c) = c.amount_atomic

-- the first opening event of the cycle
abbrev pub opening_event : CycleId → Db → Option EventRow
opening_event key db = find (λ e. is_opening e && same_cycle e.cycle_id key) db.state_events

abbrev pub leaves : CycleId → Option Carry → Bool
leaves key none = false
leaves key (some c) = same_cycle c.source_cycle_id key

-- whether an opening event carries the inventory of the cycle away
abbrev pub is_carry_of : CycleId → EventRow → Bool
is_carry_of key e = is_opening e && leaves key (carry_of e.payload)

-- the amounts of the opening events that carry the inventory of the cycle away
abbrev pub carried_out : CycleId → List EventRow → ℕ
carried_out key [] = 0
carried_out key (e ∷ rest) =
    (if is_carry_of key e then carried_amount (carry_of e.payload) else 0) + carried_out key rest

-- A Python integer: the difference of what came in and what went out.
abbrev pub difference : ℕ → ℕ → ℤ
difference a b = if leb b a then pos (a - b) else negsuc (b - a - 1)

-- `int(cycle_projection(cycle_id)["filled_base_inventory_atomic"])`
unfoldable pub inventory_atomic : CycleId → Db → Result ℤ
inventory_atomic key db = do
  known ← row_or_unknown (cycle_of db key)
  start ← row_or_unknown (opening_event key db)
  let came = carried_amount (carry_of start.payload) + sum_over (acquired db) (intents_in key db)
  let went = sum_over (disposed db) (intents_in key db) + carried_out key db.state_events
  ok (difference came went)

abbrev positive_amount : ℤ → Result ℕ
positive_amount (pos n) = if n == 0 then err ledger_error else ok n
positive_amount (negsuc n) = err ledger_error

-- an intent that is settled for good: terminal, and not SAFE_HALT
abbrev pub is_settled_intent : IntentRow → Bool
is_settled_intent r = in_states r.state terminal_states && not (is_state r.state safe_halt)

abbrev pub same_asset : PolicyRow → PolicyRow → Bool
same_asset a b =
    a.instrument_id == b.instrument_id
    && a.quote_instrument_id == b.quote_instrument_id
    && a.network_id == b.network_id

unfoldable pub continue_inventory : CycleId → Policy → ℕ → ℕ → Db → Result Db
continue_inventory source p index now db = do
  let successor = cycle_id_for p.policy_id index
  require (ltb index p.max_cycles) ledger_error
  require (leb p.valid_from_epoch_s now && ltb now p.expiry_epoch_s) ledger_error
  admitted ← row_or_unknown (policy_of db p.policy_id)
  require (admitted.canonical_json == p.canonical) ledger_error
  cycle ← row_or_unknown (cycle_of db source)
  holder ← row_or_unknown (policy_of db cycle.policy_id)
  require (is_open cycle.status) ledger_error
  require (not (same_cycle successor source)) ledger_error
  require (same_asset holder admitted) ledger_error
  require (not (is_some (cycle_of db successor))) ledger_error
  require (not (any (λ r. not (is_settled_intent r)) (intents_in source db))) ledger_error
  require (not (any (is_carry_of source) db.state_events)) ledger_error
  inventory ← inventory_atomic source db
  carried ← positive_amount inventory
  db1 ← close_event cycle.policy_id source completed now (set_cycle source completed db)
  db2 ← insert_cycle (new_cycle p.policy_id index) db1
  open_event p.policy_id successor index
      (some (record { amount_atomic = carried; source_cycle_id = source })) now db2
