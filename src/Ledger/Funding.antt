-- ===== src/Ledger/Funding.antt =====
-- How the budget reservation of an action follows from the state of its intent, over the operations
-- of qntyspot/ledger/store.py. `integrity_check` reads parts of it.
pub mod Recovery
pub mod Receipts
use qnty_spot.Prelude.{
  ℕ, ◌+◌, ◌≡◌, refl, ap, sym, ◌∙◌, Bool, true, false, not, ◌&&◌, ◌||◌, Option, none, some, List, [],
  ◌∷◌, ◌++◌, map_option, leb, ltb, ◌==◌, if◌then◌else◌, arith, Bool-cases, inl, inr, ==_iff,
}
use qnty_spot.Errors.{Result, ok, err}
use qnty_spot.States.{
  IntentState, armed, triggered, quote_pinned, simulated, reserved, signed, submitted, included,
  confirmed, reconciled, filled, cancelled, expired, rejected, safe_halt, is_legal_transition,
  in_states, pre_commitment_states, budget_holding_states, terminal_states,
}
use qnty_spot.Domain.{Key, ReservationStatus, active, committed, released, quarantined}
use qnty_spot.Ledger.Rows.{IntentRow, ReservationRow, Payload, Db, is_active}
use qnty_spot.Ledger.Tables.{intent_of, reservation_of}
use qnty_spot.Ledger.Intents.{transition, consequence, set_state}
use qnty_spot.Ledger.Budget.{new_reservation, with_status}
use qnty_spot.Ledger.Views.{
  reservation_after, settled_row, Transitioned, transition-Transitioned, consequence-reservation_of,
  consequence-eq-ok, moved, transition-intent_of, transition-reservation_of,
}

-- The status that a reservation has while its intent is in a state; none before it is RESERVED.
abbrev pub has_status : IntentState → ReservationStatus → Bool
has_status filled committed = true
has_status cancelled released = true
has_status expired released = true
has_status rejected released = true
has_status safe_halt quarantined = true
has_status reserved active = true
has_status signed active = true
has_status submitted active = true
has_status included active = true
has_status confirmed active = true
has_status reconciled active = true
has_status _ _ = false

-- The states that an intent with exposure cannot be in without a reservation.
abbrev pub needs_reservation : IntentState → Bool
needs_reservation s = in_states s (filled ∷ budget_holding_states)

abbrev pub same_scope : IntentRow → ReservationRow → Bool
same_scope i r =
    r.policy_id == i.policy_id && r.instrument_id == i.instrument_id && r.network_id == i.network_id

-- The reservation that an intent may have: of its exposure, in its scope, with the status of its
-- state; only an intent with no exposure, or out of the states that need one, has none.
abbrev pub fits : IntentRow → Option ReservationRow → Bool
fits i none = not (needs_reservation i.state) || i.quote_exposure_atomic == 0
fits i (some r) =
    not (i.quote_exposure_atomic == 0)
    && r.amount_atomic == i.quote_exposure_atomic
    && has_status i.state r.status
    && same_scope i r

abbrev pub fits_row : Option IntentRow → Option ReservationRow → Bool
fits_row none none = true
fits_row none (some r) = false
fits_row (some i) o = fits i o

pub record IsFunded (db : Db) : Type 0 where
  pub at_key : (key : Key) → fits_row (intent_of db key) (reservation_of db key) ≡ true

fits-settled :
    (to : IntentState) (s : ReservationStatus) (i : IntentRow) (seq : ℕ) (o : Option ReservationRow)
    → is_active s ≡ false
    → has_status to s ≡ true
    → is_legal_transition i.state to ≡ true
    → fits i o ≡ true
    → fits (moved to i) (settled_row s seq o) ≡ true
unfolding is_legal_transition
fits-settled to s i seq none inactive hs legal h = ground arith
fits-settled to s i seq (some r) inactive hs legal h = ground arith

fits-reserved :
    (i : IntentRow) (db : Db) (o : Option ReservationRow)
    → is_legal_transition i.state reserved ≡ true
    → fits i o ≡ true
    → fits (moved reserved i) (reservation_after reserved i db o) ≡ true
unfolding is_legal_transition
fits-reserved i db none legal h = ground arith
fits-reserved i db (some r) legal h = ground arith

-- The states that leave the reservation as it is.
abbrev is_neutral : IntentState → Bool
is_neutral to = in_states to (
    armed ∷ triggered ∷ quote_pinned ∷ simulated ∷ signed ∷ submitted ∷ included ∷ confirmed
    ∷ reconciled ∷ [])

fits-neutral :
    (to : IntentState) (i : IntentRow) (o : Option ReservationRow)
    → is_neutral to ≡ true
    → is_legal_transition i.state to ≡ true
    → fits i o ≡ true
    → fits (moved to i) o ≡ true
unfolding is_legal_transition
fits-neutral to i none neutral legal h = ground arith
fits-neutral to i (some r) neutral legal h = ground arith

-- A legal move with its budget consequence keeps the reservation in step with the intent.
fits-after :
    (to : IntentState) (i : IntentRow) (db : Db) (o : Option ReservationRow)
    → is_legal_transition i.state to ≡ true
    → fits i o ≡ true
    → fits (moved to i) (reservation_after to i db o) ≡ true
fits-after reserved i db o legal h = fits-reserved i db o legal h
fits-after filled i db o legal h = fits-settled filled committed i _ o refl refl legal h
fits-after cancelled i db o legal h = fits-settled cancelled released i _ o refl refl legal h
fits-after expired i db o legal h = fits-settled expired released i _ o refl refl legal h
fits-after rejected i db o legal h = fits-settled rejected released i _ o refl refl legal h
fits-after safe_halt i db o legal h = fits-settled safe_halt quarantined i _ o refl refl legal h
fits-after armed i db o legal h = fits-neutral armed i o refl legal h
fits-after triggered i db o legal h = fits-neutral triggered i o refl legal h
fits-after quote_pinned i db o legal h = fits-neutral quote_pinned i o refl legal h
fits-after simulated i db o legal h = fits-neutral simulated i o refl legal h
fits-after signed i db o legal h = fits-neutral signed i o refl legal h
fits-after submitted i db o legal h = fits-neutral submitted i o refl legal h
fits-after included i db o legal h = fits-neutral included i o refl legal h
fits-after confirmed i db o legal h = fits-neutral confirmed i o refl legal h
fits-after reconciled i db o legal h = fits-neutral reconciled i o refl legal h

-- The two lookups after an intent is moved and its reservation changed, at the key and elsewhere.
fits_row-moved :
    (to : IntentState) (i : IntentRow) (o o' : Option ReservationRow) (here : Bool)
    (at : Option IntentRow)
    → fits_row at o ≡ true
    → (here ≡ true → at ≡ some i)
    → (here ≡ true → fits i o ≡ true → fits (moved to i) o' ≡ true)
    → fits_row (if here then map_option (moved to) at else at) (if here then o' else o) ≡ true
fits_row-moved to i o o' true at h e step = let p = e refl in rw p (step refl (rw p at h))
fits_row-moved to i o o' false at h e step = h

found_at :
    (db : Db) {i : IntentRow} (key j : Key)
    → (key == j) ≡ true
    → intent_of db key ≡ some i
    → intent_of db j ≡ some i
found_at db key j same found = ap (intent_of db) (sym ((==_iff key j).0 same)) ∙ found

-- A transition keeps every reservation in step with its intent.
pub transition-IsFunded :
    (key : Key) (to : IntentState) (now : ℕ) (payload : Payload) (db db' : Db)
    → IsFunded db
    → transition key to now payload db ≡ ok db'
    → IsFunded db'
transition-IsFunded key to now payload db db' f h =
    let t = transition-Transitioned key to now payload db db' h in
    record {
      at_key = λ j. rw (transition-intent_of t j) (
          rw (transition-reservation_of t j) (
            fits_row-moved to t.row (reservation_of db j) _ (key == j) (intent_of db j) (f.at_key j)
              (λ same. found_at db key j same t.found)
              (λ same. fits-after to t.row db (reservation_of db j) t.legal)));
    }

pub same_lookups :
    (db db' : Db)
    → db'.intents ≡ db.intents
    → db'.reservations ≡ db.reservations
    → IsFunded db
    → IsFunded db'
same_lookups db db' ei er f = record { at_key = λ j. rw (ei, er) (f.at_key j) }
