-- ===== src/Tests/Purchase.antt =====
-- The purchase of the tests: its databases, and the calls that lead from one to the next.
use qnty_spot.Prelude.{ℕ, ◌≡◌, refl, true, false, Option, none, some, List, [], ◌∷◌, ◌++◌}
use qnty_spot.Errors.{ok}
use qnty_spot.States.{
  IntentState, armed, triggered, quote_pinned, simulated, reserved, assert_legal_transition,
}
use qnty_spot.Domain.{Key, levels, opened, active}
use qnty_spot.Ledger.Rows.{
  Db, IntentRow, EventRow, ReservationRow, EventType, cycle_opened, intent_created,
  intent_transition, Label, cycle_label, intent_label, Payload, empty, opening, created,
}
use qnty_spot.Ledger.Tables.{
  insert_instrument, insert_policy, insert_level, insert_cycle, insert_intent, insert_event,
  insert_reservation,
}
use qnty_spot.Ledger.Events.{append_event, next_seq}
use qnty_spot.Ledger.Atomics.{atomic_min}
use qnty_spot.Ledger.Budget.{reserve, within_caps, tightest, tightest_global, settle_reservation}
use qnty_spot.Ledger.Intents.{new_intent, create_intent, intent_row, transition, consequence}
use qnty_spot.Ledger.Cycles.{open_cycle}
use qnty_spot.Ledger.Policies.{
  new_instrument, new_policy, level_row, upsert_instrument, insert_levels, admit_found,
  admit_policy,
}
use qnty_spot.Ledger.History.{empty_db}
use qnty_spot.Ledger.Receipts.{
  append_receipt, new_receipt, insert_or_duplicate, receipt_within_bounds, halt,
}
use qnty_spot.Ledger.Tables.{insert_receipt}
use qnty_spot.Ledger.Rows.{fill_receipt_appended, filled_by, outside_bounds}
use qnty_spot.Domain.{FillReceipt, quarantined}
use qnty_spot.States.{safe_halt}
use qnty_spot.Tests.Market.{receipt}
use qnty_spot.Tests.Market.{coin, cash, rung, exit_rung, policy, first_cycle, bought}

abbrev pub event : ℕ → EventType → Option Key → Option Label → Label → ℕ → Payload → EventRow
event seq type action from to now payload = record {
  seq = seq;
  event_type = type;
  policy_id = 7;
  cycle_id = first_cycle;
  economic_action_id = action;
  from_state = from;
  to_state = some to;
  occurred_epoch_s = now;
  payload = payload;
}

abbrev pub move : ℕ → IntentState → IntentState → EventRow
move seq from to =
    event seq intent_transition (some 11) (some (intent_label from)) (intent_label to) 1010 empty

-- the database of the purchase, by the events, the intents and the reservations that it has so far
abbrev pub at : List EventRow → List IntentRow → List ReservationRow → Db
at events intents reservations = record {
  instruments = new_instrument cash ∷ new_instrument coin ∷ [];
  policies = new_policy policy ∷ [];
  ladder_levels = level_row 7 exit_rung ∷ level_row 7 rung ∷ [];
  cycles = record { cycle_id = first_cycle; policy_id = 7; cycle_index = 0; status = opened } ∷ [];
  intents = intents;
  state_events = events;
  reservations = reservations;
  receipts = [];
  surface = none;
}

abbrev pub admitted : Db
admitted = record (at [] [] []) { cycles = [] }

abbrev pub log_0 : List EventRow
log_0 = event 1 cycle_opened none none (cycle_label opened) 1005 (opening 0 none) ∷ []

abbrev pub log_1 : List EventRow
log_1 =
    log_0 ++ event 2 intent_created (some 11) none (intent_label armed) 1010 (created bought) ∷ []

abbrev pub log_2 : List EventRow
log_2 = log_1 ++ move 3 armed triggered ∷ []

abbrev pub log_3 : List EventRow
log_3 = log_2 ++ move 4 triggered quote_pinned ∷ []

abbrev pub log_4 : List EventRow
log_4 = log_3 ++ move 5 quote_pinned simulated ∷ []

abbrev pub log_5 : List EventRow
log_5 = log_4 ++ move 6 simulated reserved ∷ []

abbrev pub intent_in : IntentState → IntentRow
intent_in s = record (new_intent bought) { state = s }

abbrev pub cycling : Db
cycling = at log_0 [] []

abbrev pub armed_db : Db
armed_db = at log_1 (intent_in armed ∷ []) []

abbrev pub triggered_db : Db
triggered_db = at log_2 (intent_in triggered ∷ []) []

abbrev pub quoted_db : Db
quoted_db = at log_3 (intent_in quote_pinned ∷ []) []

abbrev pub simulated_db : Db
simulated_db = at log_4 (intent_in simulated ∷ []) []

abbrev pub reservation : ReservationRow
reservation = record {
  economic_action_id = 11;
  policy_id = 7;
  instrument_id = 1;
  quote_instrument_id = 2;
  network_id = 5;
  amount_atomic = 300;
  status = active;
  reserved_seq = 6;
  settled_seq = none;
}

abbrev pub reserved_db : Db
reserved_db = at log_5 (intent_in reserved ∷ []) (reservation ∷ [])

pub admission : admit_policy policy empty_db ≡ ok admitted
unfolding admit_policy upsert_instrument insert_instrument admit_found insert_policy insert_levels
    insert_level levels
admission = refl

pub cycle_opening : open_cycle policy 0 1005 admitted ≡ ok cycling
unfolding open_cycle insert_cycle append_event insert_event next_seq
cycle_opening = refl

pub creation : create_intent bought 1010 cycling ≡ ok armed_db
unfolding create_intent insert_intent append_event insert_event next_seq
creation = refl

pub triggering : transition 11 triggered 1010 empty armed_db ≡ ok triggered_db
unfolding transition intent_row assert_legal_transition consequence append_event insert_event
    next_seq
triggering = refl

pub quoting : transition 11 quote_pinned 1010 empty triggered_db ≡ ok quoted_db
unfolding transition intent_row assert_legal_transition consequence append_event insert_event
    next_seq
quoting = refl

pub simulating : transition 11 simulated 1010 empty quoted_db ≡ ok simulated_db
unfolding transition intent_row assert_legal_transition consequence append_event insert_event
    next_seq
simulating = refl

pub reserving : transition 11 reserved 1010 empty simulated_db ≡ ok reserved_db
unfolding transition intent_row assert_legal_transition consequence append_event insert_event
    next_seq reserve within_caps tightest tightest_global atomic_min insert_reservation
reserving = refl

-- the receipt of the purchase, before it is SUBMITTED, with the whole input and one output too few
abbrev pub short_receipt : FillReceipt
short_receipt = record receipt { output_atomic_filled = 148 }

abbrev pub recorded : FillReceipt → List EventRow → IntentState → ReservationRow → Db
recorded r events s held =
    record (at
      (log_5
        ++ record (event 7 fill_receipt_appended (some 11) (some (intent_label reserved))
            (intent_label reserved) 1040 (filled_by r)) { to_state = none }
          ∷ events)
      (intent_in s ∷ []) (held ∷ [])) { receipts = new_receipt r 7 ∷ [] }

abbrev pub received_db : Db
received_db = recorded receipt [] reserved reservation

abbrev pub halted_db : Db
halted_db =
    recorded short_receipt
      (event 8 intent_transition (some 11) (some (intent_label reserved)) (intent_label safe_halt)
          1040 outside_bounds
        ∷ [])
      safe_halt (record reservation { status = quarantined; settled_seq = some 8 })

pub receiving : append_receipt receipt 1040 reserved_db ≡ ok (true, received_db)
unfolding append_receipt intent_row insert_or_duplicate insert_receipt append_event insert_event
    next_seq receipt_within_bounds
receiving = refl

pub halting : append_receipt short_receipt 1040 reserved_db ≡ ok (false, halted_db)
unfolding append_receipt intent_row insert_or_duplicate insert_receipt append_event insert_event
    next_seq receipt_within_bounds halt assert_legal_transition settle_reservation
halting = refl
