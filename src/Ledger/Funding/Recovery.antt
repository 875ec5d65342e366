-- ===== src/Ledger/Funding/Recovery.antt =====
-- The same for the recovery of SAFE_HALT and for fill receipts.
use qnty_spot.Prelude.{
  ℕ, ◌⊎◌, ◌≡◌, refl, true, Option, none, some, map_option, ◌==◌, if◌then◌else◌, arith, inl, inr,
  ==_iff,
}
use qnty_spot.Errors.{ok}
use qnty_spot.States.{IntentState, reconciled, rejected, safe_halt, is_state}
use qnty_spot.Domain.{Key, ReservationStatus, active, released}
use qnty_spot.Ledger.Rows.{IntentRow, ReservationRow, Db}
use qnty_spot.Ledger.Tables.{insert_event, intent_of, reservation_of}
use qnty_spot.Ledger.Events.{append_event, next_seq}
use qnty_spot.Ledger.Budget.{with_status}
use qnty_spot.Ledger.Intents.{set_state}
use qnty_spot.Ledger.ChainTruth.{recover_safe_halt, reservation_fits, move_reservation}
use qnty_spot.Ledger.Views.{
  moved, intent_of-set_state, reservation_of-set_reservation, intent_of-key,
}
use qnty_spot.Ledger.Funding.{IsFunded, fits, has_status, fits_row-moved, found_at}

pub settled_recovery :
    (key : Key) (now : ℕ) (db db' : Db) (row : IntentRow)
    → intent_of db key ≡ some row
    → recover_safe_halt key reconciled now db ≡ ok db'
    → (is_state row.state safe_halt ≡ true)
      × (reservation_fits row.quote_exposure_atomic (reservation_of db key) ≡ true)
      × (db'.intents ≡ (set_state row.economic_action_id reconciled db).intents)
      × (db'.reservations ≡ (move_reservation row active none db).reservations)
unfolding recover_safe_halt append_event insert_event
settled_recovery key now db db' row found h = ground arith

pub reverted_recovery :
    (key : Key) (now : ℕ) (db db' : Db) (row : IntentRow)
    → intent_of db key ≡ some row
    → recover_safe_halt key rejected now db ≡ ok db'
    → (is_state row.state safe_halt ≡ true)
      × (reservation_fits row.quote_exposure_atomic (reservation_of db key) ≡ true)
      × (db'.intents ≡ (set_state row.economic_action_id rejected db).intents)
      × (db'.reservations ≡ (move_reservation row released (some (next_seq db)) db).reservations)
unfolding recover_safe_halt append_event insert_event
reverted_recovery key now db db' row found h = ground arith

-- A recovery that succeeds has found its intent and one of its two targets.
pub recovery_target :
    (key : Key) (to : IntentState) (now : ℕ) (db db' : Db)
    → recover_safe_halt key to now db ≡ ok db'
    → ((row : IntentRow) × (intent_of db key ≡ some row)) × ((to ≡ reconciled) ⊎ (to ≡ rejected))
unfolding recover_safe_halt
recovery_target key to now db db' h = ground arith

abbrev reservation_moved :
    IntentRow → ReservationStatus → Option ℕ → Option ReservationRow → Option ReservationRow
reservation_moved row s seq o =
    if row.quote_exposure_atomic == 0 then o else map_option (with_status s seq) o

fits-recovered :
    (to : IntentState) (s : ReservationStatus) (row : IntentRow) (seq : Option ℕ)
    (o : Option ReservationRow)
    → has_status to s ≡ true
    → reservation_fits row.quote_exposure_atomic o ≡ true
    → fits row o ≡ true
    → fits (moved to row) (reservation_moved row s seq o) ≡ true
fits-recovered to s row seq none hs r h = ground arith
fits-recovered to s row seq (some v) hs r h = ground arith

move_reservation-reservation_of :
    (row : IntentRow) (s : ReservationStatus) (seq : Option ℕ) (db : Db) (j : Key)
    → reservation_of (move_reservation row s seq db) j ≡ (
        if row.economic_action_id == j
        then reservation_moved row s seq (reservation_of db j)
        else reservation_of db j)
move_reservation-reservation_of row s seq db j =
    ground (arith, reservation_of-set_reservation row.economic_action_id s seq db j)

pub row_at :
    (db : Db) (key j : Key) (row : IntentRow)
    → intent_of db key ≡ some row
    → (row.economic_action_id == j) ≡ true
    → (key == j) ≡ true
row_at db key j row found same = ground (arith, intent_of-key db key row found)

-- Moving an intent out of SAFE_HALT together with its reservation keeps the two in step.
recovered-IsFunded :
    (key : Key) (to : IntentState) (s : ReservationStatus) (seq : Option ℕ) (db db' : Db)
    (row : IntentRow)
    → intent_of db key ≡ some row
    → has_status to s ≡ true
    → reservation_fits row.quote_exposure_atomic (reservation_of db key) ≡ true
    → db'.intents ≡ (set_state row.economic_action_id to db).intents
    → db'.reservations ≡ (move_reservation row s seq db).reservations
    → IsFunded db
    → IsFunded db'
recovered-IsFunded key to s seq db db' row found hs fit ei er f = record {
  at_key = λ j.
      rw
        (
          ei,
          er,
          intent_of-set_state row.economic_action_id to db j,
          move_reservation-reservation_of row s seq db j,
        )
        (fits_row-moved to row (reservation_of db j) _ (row.economic_action_id == j)
          (intent_of db j) (f.at_key j)
          (λ same. found_at db key j (row_at db key j row found same) found)
          (λ same.
            fits-recovered to s row seq (reservation_of db j) hs
              (rw (← (==_iff key j).0 (row_at db key j row found same)) fit)));
}

-- The recovery of SAFE_HALT from chain truth keeps every reservation in step with its intent.
pub recover_safe_halt-IsFunded :
    (key : Key) (to : IntentState) (now : ℕ) (db db' : Db)
    → IsFunded db
    → recover_safe_halt key to now db ≡ ok db'
    → IsFunded db'
recover_safe_halt-IsFunded key to now db db' f h =
    let (known, target) = recovery_target key to now db db' h in
    let (row, found) = known in
    elim target [
      | inl e ↦
          let (halted, fit, ei, er) = settled_recovery key now db db' row found (rw e at h) in
          recovered-IsFunded key reconciled active none db db' row found refl fit ei er f
      | inr e ↦
          let (halted, fit, ei, er) = reverted_recovery key now db db' row found (rw e at h) in
          recovered-IsFunded key rejected released (some (next_seq db)) db db' row found refl fit ei
            er f
    ]
