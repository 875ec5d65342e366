-- ===== src/Ledger/Tables.antt =====
-- The keys, UNIQUE, CHECK and REFERENCES constraints of qntyspot/ledger/schema.py: an INSERT that
-- breaks one raises sqlite3.IntegrityError and inserts nothing.
use qnty_spot.Prelude.{
  ℕ, Bool, true, false, not, ◌&&◌, ◌||◌, Option, none, some, [], ◌∷◌, ◌++◌, find, any, ltb, leb,
  ◌==◌,
}
use qnty_spot.Errors.{Result, ok, ◌>>◌, require, integrity}
use qnty_spot.Domain.{Key, CycleId, same_cycle, Side}
use qnty_spot.Ledger.Rows.{
  InstrumentRow, PolicyRow, LevelRow, CycleRow, IntentRow, EventType, fill_receipt_appended,
  is_cycle_type, EventRow, ReservationRow, ReceiptRow, Db,
}

abbrev pub is_some {ℓ} : {A : Type ℓ} → Option A → Bool
is_some none = false
is_some (some _) = true

-- SELECT ... WHERE key = ?, fetchone()
abbrev pub instrument_of : Db → Key → Option InstrumentRow
instrument_of db key = find (λ r. r.instrument_id == key) db.instruments

abbrev pub policy_of : Db → Key → Option PolicyRow
policy_of db key = find (λ r. r.policy_id == key) db.policies

abbrev pub cycle_of : Db → CycleId → Option CycleRow
cycle_of db key = find (λ r. same_cycle r.cycle_id key) db.cycles

abbrev pub is_intent : Key → IntentRow → Bool
is_intent key r = r.economic_action_id == key

abbrev pub intent_of : Db → Key → Option IntentRow
intent_of db key = find (is_intent key) db.intents

abbrev pub is_reservation : Key → ReservationRow → Bool
is_reservation key r = r.economic_action_id == key

abbrev pub reservation_of : Db → Key → Option ReservationRow
reservation_of db key = find (is_reservation key) db.reservations

abbrev pub has_level : Db → Key → Key → Bool
has_level db policy level = any (λ r. r.policy_id == policy && r.level_id == level) db.ladder_levels

abbrev same_side : Side → Side → Bool
same_side Side.buy Side.buy = true
same_side Side.sell Side.sell = true
same_side _ _ = false

unfoldable pub insert_instrument : InstrumentRow → Db → Result Db
insert_instrument r db = do
  require (not (is_some (instrument_of db r.instrument_id))) integrity
  require (leb r.decimals 36) integrity
  ok (record db { instruments = r ∷ db.instruments })

unfoldable pub insert_policy : PolicyRow → Db → Result Db
insert_policy r db = do
  require (not (is_some (policy_of db r.policy_id))) integrity
  require (is_some (instrument_of db r.instrument_id)) integrity
  require (is_some (instrument_of db r.quote_instrument_id)) integrity
  require
      (ltb 0 r.allocation_atomic
        && ltb 0 r.per_order_cap_atomic
        && ltb 0 r.per_instrument_cap_atomic
        && ltb 0 r.per_network_cap_atomic
        && ltb 0 r.global_cap_atomic
        && leb 1 r.max_cycles)
      integrity
  ok (record db { policies = r ∷ db.policies })

unfoldable pub insert_level : LevelRow → Db → Result Db
insert_level r db = do
  require (not (has_level db r.policy_id r.level_id)) integrity
  require (is_some (policy_of db r.policy_id)) integrity
  ok (record db { ladder_levels = r ∷ db.ladder_levels })

abbrev has_cycle : Db → Key → ℕ → Bool
has_cycle db policy index = any (λ r. r.policy_id == policy && r.cycle_index == index) db.cycles

unfoldable pub insert_cycle : CycleRow → Db → Result Db
insert_cycle r db = do
  require (not (is_some (cycle_of db r.cycle_id))) integrity
  require (not (has_cycle db r.policy_id r.cycle_index)) integrity
  require (is_some (policy_of db r.policy_id)) integrity
  ok (record db { cycles = r ∷ db.cycles })

-- UNIQUE (policy_id, instrument_id, cycle_id, level_id, side)
abbrev pub same_action : IntentRow → IntentRow → Bool
same_action a b =
    a.policy_id == b.policy_id
    && a.instrument_id == b.instrument_id
    && same_cycle a.cycle_id b.cycle_id
    && a.level_id == b.level_id
    && same_side a.side b.side

-- whether the primary key or the UNIQUE constraint of `intents` refuses the row
abbrev pub is_duplicate : IntentRow → Db → Bool
is_duplicate r db =
    is_some (intent_of db r.economic_action_id) || any (λ s. same_action s r) db.intents

abbrev intent_references : IntentRow → Db → Bool
intent_references r db =
    is_some (policy_of db r.policy_id)
    && is_some (instrument_of db r.instrument_id)
    && is_some (instrument_of db r.quote_instrument_id)
    && is_some (cycle_of db r.cycle_id)
    && has_level db r.policy_id r.level_id

unfoldable pub insert_intent : IntentRow → Db → Result Db
insert_intent r db = do
  require (not (is_duplicate r db)) integrity
  require (intent_references r db) integrity
  ok (record db { intents = r ∷ db.intents })

abbrev references_intent : Option Key → Db → Bool
references_intent none db = true
references_intent (some key) db = is_some (intent_of db key)

abbrev is_receipt_type : EventType → Bool
is_receipt_type fill_receipt_appended = true
is_receipt_type _ = false

abbrev iff : Bool → Bool → Bool
iff true b = b
iff false b = not b

-- The events stand in the order of their numbers.
unfoldable pub insert_event : EventRow → Db → Result Db
insert_event r db = do
  require (is_some (policy_of db r.policy_id)) integrity
  require (is_some (cycle_of db r.cycle_id)) integrity
  require (references_intent r.economic_action_id db) integrity
  require (iff (not (is_some r.economic_action_id)) (is_cycle_type r.event_type)) integrity
  require (iff (not (is_some r.to_state)) (is_receipt_type r.event_type)) integrity
  ok (record db { state_events = db.state_events ++ r ∷ [] })

unfoldable pub insert_reservation : ReservationRow → Db → Result Db
insert_reservation r db = do
  require (not (is_some (reservation_of db r.economic_action_id))) integrity
  require (is_some (intent_of db r.economic_action_id)) integrity
  require (is_some (policy_of db r.policy_id)) integrity
  require (is_some (instrument_of db r.instrument_id)) integrity
  require (is_some (instrument_of db r.quote_instrument_id)) integrity
  require (ltb 0 r.amount_atomic) integrity
  ok (record db { reservations = r ∷ db.reservations })

unfoldable pub insert_receipt : ReceiptRow → Db → Result Db
insert_receipt r db = do
  require (not (any (λ s. s.receipt_id == r.receipt_id) db.receipts)) integrity
  require (not (any (λ s. s.external_ref == r.external_ref) db.receipts)) integrity
  require (is_some (intent_of db r.economic_action_id)) integrity
  require (ltb 0 r.input_atomic_filled && ltb 0 r.output_atomic_filled) integrity
  ok (record db { receipts = r ∷ db.receipts })
