-- ===== src/Ledger/Views.antt =====
-- What the operations of the ledger do to the intent and to the reservation of each action, seen
-- through the two lookups.
use qnty_spot.Prelude.{
  ℕ, ◌≡◌, inl, inr, Option-cases, refl, ap, ◌∙◌, true, Option, none, some, [], ◌∷◌, ◌++◌,
  map_option, row_of-update, row_of-key, ◌==◌, if◌then◌else◌, arith,
}
use qnty_spot.Errors.{ok, Result-cases}
use qnty_spot.States.{
  IntentState, armed, reserved, filled, cancelled, expired, rejected, safe_halt,
  is_legal_transition, assert_legal_transition,
}
use qnty_spot.Domain.{Key, CycleId, ReservationStatus, committed, released, quarantined}
use qnty_spot.Ledger.Rows.{
  IntentRow, ReservationRow, EventType, Label, intent_label, intent_transition, Payload, Db,
  is_active,
}
use qnty_spot.Ledger.Tables.{intent_of, reservation_of, insert_event, insert_reservation}
use qnty_spot.Ledger.Events.{append_event, next_seq}
use qnty_spot.Ledger.Budget.{
  with_status, set_reservation, settle_reservation, reserve, new_reservation,
}
use qnty_spot.Ledger.Intents.{set_state, consequence, transition}

pub intent_of-key :
    (db : Db) (k : Key) (r : IntentRow) → intent_of db k ≡ some r → r.economic_action_id ≡ k
intent_of-key db k r h = row_of-key (λ (s : IntentRow). s.economic_action_id) k db.intents r h

pub intent_of-set_state :
    (k : Key) (s : IntentState) (db : Db) (j : Key)
    → intent_of (set_state k s db) j ≡ (
        if k == j
        then map_option (λ (r : IntentRow). record r { state = s }) (intent_of db j)
        else intent_of db j)
intent_of-set_state k s db j =
    row_of-update (λ (r : IntentRow). r.economic_action_id) (λ r. record r { state = s })
      (λ r. refl) k j db.intents

pub reservation_of-set_reservation :
    (k : Key) (s : ReservationStatus) (seq : Option ℕ) (db : Db) (j : Key)
    → reservation_of (set_reservation k s seq db) j ≡ (
        if k == j
        then map_option (with_status s seq) (reservation_of db j)
        else reservation_of db j)
reservation_of-set_reservation k s seq db j =
    row_of-update (λ (r : ReservationRow). r.economic_action_id) (with_status s seq) (λ r. refl) k j
      db.reservations

-- The reservation of an action after `_settle_reservation`.
abbrev pub settled_row : ReservationStatus → ℕ → Option ReservationRow → Option ReservationRow
settled_row s seq none = none
settled_row s seq (some r) =
    if is_active r.status then some (with_status s (some seq) r) else some r

pub reservation_of-settle :
    (k : Key) (s : ReservationStatus) (db : Db) (j : Key)
    → reservation_of (settle_reservation k s db) j
      ≡ (if k == j then settled_row s (next_seq db) (reservation_of db j) else reservation_of db j)
unfolding settle_reservation
reservation_of-settle k s db j =
    ground (arith, reservation_of-set_reservation k s (some (next_seq db)) db j)

-- The event that an append writes, and that it writes nothing else.
pub append_event-eq-ok :
    (type : EventType) (policy : Key) (cycle : CycleId) (action : Option Key)
    (from to : Option Label) (now : ℕ) (payload : Payload) (db db' : Db)
    → append_event type policy cycle action from to now payload db ≡ ok db'
    → db' ≡ record db {
      state_events =
          db.state_events
          ++ (record {
            seq = next_seq db;
            event_type = type;
            policy_id = policy;
            cycle_id = cycle;
            economic_action_id = action;
            from_state = from;
            to_state = to;
            occurred_epoch_s = now;
            payload = payload;
          })
            ∷ [];
    }
unfolding append_event insert_event
append_event-eq-ok type policy cycle action from to now payload db db' h = ground arith

-- The reservation of an action after the budget consequence of its move to a state.
abbrev pub reservation_after :
    IntentState → IntentRow → Db → Option ReservationRow → Option ReservationRow
reservation_after reserved i db o =
    if i.quote_exposure_atomic == 0 then o else some (new_reservation i i.quote_exposure_atomic db)
reservation_after filled i db o = settled_row committed (next_seq db) o
reservation_after cancelled i db o = settled_row released (next_seq db) o
reservation_after expired i db o = settled_row released (next_seq db) o
reservation_after rejected i db o = settled_row released (next_seq db) o
reservation_after safe_halt i db o = settled_row quarantined (next_seq db) o
reservation_after _ i db o = o

reserve-reservation_of :
    (i : IntentRow) (db db' : Db)
    → reserve i db ≡ ok db'
    → (j : Key)
    → reservation_of db' j ≡ (
        if i.economic_action_id == j
        then reservation_after reserved i db (reservation_of db j)
        else reservation_of db j)
unfolding reserve insert_reservation
reserve-reservation_of i db db' h j = ground arith

-- A budget consequence touches the reservation of its own action and no other.
pub consequence-reservation_of :
    (to : IntentState) (i : IntentRow) (db db' : Db)
    → consequence to i db ≡ ok db'
    → (j : Key)
    → reservation_of db' j ≡ (
        if i.economic_action_id == j
        then reservation_after to i db (reservation_of db j)
        else reservation_of db j)
unfolding consequence
consequence-reservation_of reserved i db db' h j = reserve-reservation_of i db db' h j
consequence-reservation_of filled i db db' h j =
    ground (arith, reservation_of-settle i.economic_action_id committed db j)
consequence-reservation_of safe_halt i db db' h j =
    ground (arith, reservation_of-settle i.economic_action_id quarantined db j)
consequence-reservation_of _ i db db' h j =
    ground (arith, reservation_of-settle i.economic_action_id released db j)

-- Apart from the reservations a budget consequence leaves the database as it was.
pub consequence-eq-ok :
    (to : IntentState) (i : IntentRow) (db db' : Db)
    → consequence to i db ≡ ok db'
    → db' ≡ record db { reservations = db'.reservations }
unfolding consequence reserve insert_reservation settle_reservation
consequence-eq-ok armed i db db' h = ground arith
consequence-eq-ok _ i db db' h = ground arith

-- What a successful transition has done.
pub record Transitioned (key : Key) (to : IntentState) (now : ℕ) (payload : Payload) (db db' : Db)
    : Type 0 where
  pub row : IntentRow
  pub found : intent_of db key ≡ some row
  pub legal : is_legal_transition row.state to ≡ true
  pub funded : Db
  pub paid : consequence to row db ≡ ok funded
  pub result : db' ≡ record (set_state key to funded) {
    state_events =
        funded.state_events
        ++ (record {
          seq = next_seq funded;
          event_type = intent_transition;
          policy_id = row.policy_id;
          cycle_id = row.cycle_id;
          economic_action_id = some key;
          from_state = some (intent_label row.state);
          to_state = some (intent_label to);
          occurred_epoch_s = now;
          payload = payload;
        })
          ∷ [];
  }

transition_from :
    (key : Key) (to : IntentState) (now : ℕ) (payload : Payload) (db db' : Db) (row : IntentRow)
    → intent_of db key ≡ some row
    → transition key to now payload db ≡ ok db'
    → Transitioned key to now payload db db'
unfolding transition assert_legal_transition next_seq
transition_from key to now payload db db' row found h =
    elim (Result-cases (consequence to row db)) [
      | inl (funded, paid) ↦ record {
        row = row;
        found = found;
        legal = ground arith;
        funded = funded;
        paid = paid;
        result =
            append_event-eq-ok intent_transition row.policy_id row.cycle_id (some key)
              (some (intent_label row.state)) (some (intent_label to)) now payload
              (set_state key to funded) db' (ground arith);
      }
      | inr (e, failed) ↦ absurd (ground arith)
    ]

pub transition-Transitioned :
    (key : Key) (to : IntentState) (now : ℕ) (payload : Payload) (db db' : Db)
    → transition key to now payload db ≡ ok db'
    → Transitioned key to now payload db db'
unfolding transition
transition-Transitioned key to now payload db db' h = elim (Option-cases (intent_of db key)) [
  | inl unknown ↦ ground arith
  | inr (row, found) ↦ transition_from key to now payload db db' row found h
]

abbrev pub moved : IntentState → IntentRow → IntentRow
moved to i = record i { state = to }

module _ {key : Key} {to : IntentState} {now : ℕ} {payload : Payload} {db db' : Db}
    (t : Transitioned key to now payload db db') (j : Key) where
  -- After a transition the intent of its key is in the new state, and any other is as it was.
  pub transition-intent_of :
      intent_of db' j
      ≡ (if key == j then map_option (moved to) (intent_of db j) else intent_of db j)
  transition-intent_of =
      ap (λ (d : Db). intent_of d j) t.result
      ∙ intent_of-set_state key to t.funded j
      ∙ ap (λ (d : Db). if key == j then map_option (moved to) (intent_of d j) else intent_of d j)
          (consequence-eq-ok to t.row db t.funded t.paid)

  -- After a transition the reservation of its key has taken the budget consequence.
  pub transition-reservation_of : reservation_of db' j ≡ (
      if key == j then reservation_after to t.row db (reservation_of db j) else reservation_of db j)
  transition-reservation_of =
      ap (λ (d : Db). reservation_of d j) t.result
      ∙ consequence-reservation_of to t.row db t.funded t.paid j
      ∙ ap
          (λ (k : Key).
            if k == j
            then reservation_after to t.row db (reservation_of db j)
            else reservation_of db j)
          (intent_of-key db key t.row t.found)
