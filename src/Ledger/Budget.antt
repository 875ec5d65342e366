-- ===== src/Ledger/Budget.antt =====
-- The budget of qntyspot/ledger/store.py: `_reserve` with its caps, `_settle_reservation`, and
-- `held_atomic`.
use qnty_spot.Prelude.{
  ℕ, Bool, true, not, ◌&&◌, Option, none, some, List, map, keep, update, ◌==◌, if◌then◌else◌,
}
use qnty_spot.Errors.{Result, ok, ◌>>◌, require, duplicate_economic_action, budget_exceeded}
use qnty_spot.Domain.{Key, ReservationStatus, active}
use qnty_spot.Ledger.Atomics.{atomic_sum, atomic_min, atomic_add, atomic_sub, atomic_le}
use qnty_spot.Ledger.Rows.{PolicyRow, IntentRow, ReservationRow, Db, is_active, is_held}
use qnty_spot.Ledger.Tables.{policy_of, is_reservation, reservation_of, is_some, insert_reservation}
use qnty_spot.Ledger.Events.{next_seq}

-- SELECT atomic_sum(amount_atomic) FROM budget_reservations WHERE status <> 'RELEASED' AND ...
abbrev pub held_where : (ReservationRow → Bool) → List ReservationRow → ℕ
held_where scope rows =
    atomic_sum (map (λ r. some r.amount_atomic) (keep (λ r. is_held r.status && scope r) rows))

abbrev pub of_policy : Key → ReservationRow → Bool
of_policy key r = r.policy_id == key

abbrev pub of_instrument : Key → ReservationRow → Bool
of_instrument key r = r.instrument_id == key

abbrev pub of_network : Key → ReservationRow → Bool
of_network key r = r.network_id == key

abbrev pub everywhere : ReservationRow → Bool
everywhere r = true

-- a clause of `held_atomic`, left out where the argument is None
abbrev in_scope : Option Key → (Key → ReservationRow → Bool) → ReservationRow → Bool
in_scope none scope r = true
in_scope (some key) scope r = scope key r

unfoldable pub held_atomic : Db → Option Key → Option Key → Option Key → ℕ
held_atomic db policy instrument network =
    held_where
      (λ r.
        in_scope policy of_policy r
        && in_scope instrument of_instrument r
        && in_scope network of_network r)
      db.reservations

-- SELECT column FROM policies WHERE policy_id = ?, NULL where there is none
abbrev pub policy_column : (PolicyRow → ℕ) → Option PolicyRow → Option ℕ
policy_column column none = none
policy_column column (some p) = some (column p)

-- SELECT atomic_min(column) FROM policies WHERE ...
unfoldable pub tightest : (PolicyRow → ℕ) → (PolicyRow → Bool) → Db → Option ℕ
tightest column scope db = atomic_min (map (λ p. some (column p)) (keep scope db.policies))

unfoldable pub tightest_global : Db → Option ℕ
tightest_global db =
    atomic_min
      (map (λ p. atomic_sub (some p.global_cap_atomic) (some p.reserved_cash_atomic)) db.policies)

-- the five conditions of the guarded INSERT
unfoldable pub within_caps : IntentRow → ℕ → Db → Bool
within_caps i amount db =
    atomic_le (some amount) (policy_column (λ p. p.per_order_cap_atomic) (policy_of db i.policy_id))
    && atomic_le
        (atomic_add (some amount) (some (held_where (of_policy i.policy_id) db.reservations)))
        (policy_column (λ p. p.allocation_atomic) (policy_of db i.policy_id))
    && atomic_le
        (atomic_add (some amount)
          (some (held_where (of_instrument i.instrument_id) db.reservations)))
        (tightest (λ p. p.per_instrument_cap_atomic) (λ p. p.instrument_id == i.instrument_id) db)
    && atomic_le
        (atomic_add (some amount) (some (held_where (of_network i.network_id) db.reservations)))
        (tightest (λ p. p.per_network_cap_atomic) (λ p. p.network_id == i.network_id) db)
    && atomic_le (atomic_add (some amount) (some (held_where everywhere db.reservations)))
        (tightest_global db)

abbrev pub new_reservation : IntentRow → ℕ → Db → ReservationRow
new_reservation i amount db = record {
  economic_action_id = i.economic_action_id;
  policy_id = i.policy_id;
  instrument_id = i.instrument_id;
  quote_instrument_id = i.quote_instrument_id;
  network_id = i.network_id;
  amount_atomic = amount;
  status = active;
  reserved_seq = next_seq db;
  settled_seq = none;
}

-- A SELL leg consumes no quote: nothing is reserved for it.
unfoldable pub reserve : IntentRow → Db → Result Db
reserve i db =
    let amount = i.quote_exposure_atomic in
    if amount == 0 then ok db else (do
      require (not (is_some (reservation_of db i.economic_action_id))) duplicate_economic_action
      require (within_caps i amount db) budget_exceeded
      insert_reservation (new_reservation i amount db) db)

abbrev pub with_status : ReservationStatus → Option ℕ → ReservationRow → ReservationRow
with_status status seq r = record r { status = status; settled_seq = seq }

-- UPDATE budget_reservations SET status = ?, settled_seq = ? WHERE economic_action_id = ?
abbrev pub set_reservation : Key → ReservationStatus → Option ℕ → Db → Db
set_reservation key status seq db = record db {
  reservations = update (is_reservation key) (with_status status seq) db.reservations;
}

abbrev settle_found : Option ReservationRow → Key → ReservationStatus → Db → Db
settle_found none key status db = db
settle_found (some r) key status db =
    if is_active r.status then set_reservation key status (some (next_seq db)) db else db

-- Only an ACTIVE reservation is settled.
unfoldable pub settle_reservation : Key → ReservationStatus → Db → Db
settle_reservation key status db = settle_found (reservation_of db key) key status db
