-- ===== src/Ledger/Held.antt =====
-- The capital that reservations hold, under the changes that the operations make to the table.
use qnty_spot.Prelude.{
  ℕ, ◌+◌, ◌≤◌, ◌≡◌, Bool, true, ◌&&◌, Option, none, some, List, [], ◌∷◌, update, row_of, Distinct,
  update-eq_self, ◌==◌, if◌then◌else◌, arith, Bool-cases, inl, inr, ==_iff,
}
use qnty_spot.Domain.{Key, ReservationStatus}
use qnty_spot.Ledger.Rows.{ReservationRow, is_held}
use qnty_spot.Ledger.Tables.{is_reservation}
use qnty_spot.Ledger.Budget.{held_where, with_status}

abbrev pub action_of : ReservationRow → Key
action_of r = r.economic_action_id

-- A scope looks at what a reservation is for, not at its status.
pub record IsScope (scope : ReservationRow → Bool) : Type 0 where
  pub blind :
      (s : ReservationStatus) (seq : Option ℕ) (r : ReservationRow)
      → scope (with_status s seq r) ≡ scope r

-- what one reservation adds to a sum
abbrev share : (ReservationRow → Bool) → ReservationRow → ℕ
share scope r = if is_held r.status && scope r then r.amount_atomic else 0

pub held_where-cons :
    (scope : ReservationRow → Bool) (r : ReservationRow) (rows : List ReservationRow)
    → held_where scope (r ∷ rows) ≡ share scope r + held_where scope rows
held_where-cons scope r rows = ground arith

-- Changing the status of the one held reservation of an action never raises what any scope holds.
pub held_where-set_status :
    (scope : ReservationRow → Bool) (k : Key) (s : ReservationStatus) (seq : Option ℕ)
    (rows : List ReservationRow) (v : ReservationRow)
    → IsScope scope
    → Distinct action_of rows
    → row_of action_of k rows ≡ some v
    → is_held v.status ≡ true
    → held_where scope (update (is_reservation k) (with_status s seq) rows) ≤ held_where scope rows
held_where-set_status scope k s seq [] v blind d found held = cc
held_where-set_status scope k s seq (r ∷ rows) v blind d found held =
    elim (Bool-cases (r.economic_action_id == k)) [
      | inl here ↦
          let fresh : row_of action_of k rows ≡ none =
            rw (← (==_iff r.economic_action_id k).0 here) d.0 in
          let rest : update (is_reservation k) (with_status s seq) rows ≡ rows =
            update-eq_self action_of (with_status s seq) k rows fresh in
          ground (arith, blind.blind s seq r, rest)
      | inr away ↦ ground (arith, held_where-set_status scope k s seq rows v blind d.1)
    ]
