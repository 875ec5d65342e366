-- ===== src/Ledger/Integrity.antt =====
-- `integrity_check` of qntyspot/ledger/store.py. An intent is joined to a reservation by its primary key.
pub mod Numbering
pub mod Passes
use qnty_spot.Prelude.{
  ℕ, Bool, true, false, not, ◌&&◌, ◌||◌, Option, none, some, List, [], ◌∷◌, any, map, ◌==◌,
  if◌then◌else◌,
}
use qnty_spot.Errors.{Result, ok, ◌>>=◌, ◌>>◌, require, ledger_error}
use qnty_spot.States.{IntentState, safe_halt, budget_holding_states, is_state, in_states}
use qnty_spot.Ledger.Rows.{IntentRow, ReservationRow, EventRow, Db, is_active, is_quarantined}
use qnty_spot.Ledger.Tables.{is_some, intent_of}

-- Sorted numbers are those of their set where none is there twice.
abbrev pub has_repeats : List ℕ → Bool
has_repeats [] = false
has_repeats (n ∷ rest) = any (λ m. m == n) rest || has_repeats rest

abbrev pub sequence_numbers : Db → List ℕ
sequence_numbers db = map (λ e. e.seq) db.state_events

abbrev pub is_orphan : Db → ReservationRow → Bool
is_orphan db r = not (is_some (intent_of db r.economic_action_id))

abbrev pub joined : (IntentState → Bool) → Option IntentRow → Bool
joined test none = false
joined test (some i) = test i.state

abbrev pub is_stale : Db → ReservationRow → Bool
is_stale db r =
    is_active r.status
    && joined (λ s. not (in_states s budget_holding_states)) (intent_of db r.economic_action_id)

abbrev pub differ : Bool → Bool → Bool
differ true b = not b
differ false b = b

abbrev pub is_mismatched : Db → ReservationRow → Bool
is_mismatched db r =
    joined (λ s. differ (is_quarantined r.status) (is_state s safe_halt))
      (intent_of db r.economic_action_id)

-- `sound` is what SQLite's PRAGMA integrity_check and foreign_key_check answer.
module _ (sound : Db → Bool) where
  unfoldable pub integrity_check : Db → Result (Unit {0})
  integrity_check db = do
    require (sound db) ledger_error
    require (not (has_repeats (sequence_numbers db))) ledger_error
    require (not (any (is_orphan db) db.reservations)) ledger_error
    require (not (any (is_stale db) db.reservations)) ledger_error
    require (not (any (is_mismatched db) db.reservations)) ledger_error
