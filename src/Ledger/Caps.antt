-- ===== src/Ledger/Caps.antt =====
-- The caps of the guarded INSERT of `_reserve`, as an invariant of the database: what active,
-- committed and quarantined reservations hold in a scope against the limit that policies set for it.
pub mod Policies
use qnty_spot.Prelude.{
  ℕ, ◌+◌, ◌≤◌, ◌≡◌, refl, Bool, true, Option, none, some, List, Distinct, Distinct-update, leb,
  ◌==◌, arith, Bool-cases, inl, inr, ==_iff,
}
use qnty_spot.Domain.{Key}
use qnty_spot.Ledger.Rows.{IntentRow, ReservationRow, Db}
use qnty_spot.Ledger.Tables.{policy_of}
use qnty_spot.Ledger.Budget.{
  held_where, of_policy, of_instrument, of_network, everywhere, policy_column, tightest,
  tightest_global, within_caps, new_reservation, with_status,
}
use qnty_spot.Ledger.Held.{action_of, IsScope, held_where-cons, held_where-set_status}
use qnty_spot.Ledger.Changes.{Change, unchanged, restated, taken}

-- A cumulative cap: of a policy, an instrument, a network, or of everything.
pub data Cap : Type 0 where
  policy_cap instrument_cap network_cap : Key → Cap
  overall_cap : Cap

abbrev pub scope_of : Cap → ReservationRow → Bool
scope_of (policy_cap k) = of_policy k
scope_of (instrument_cap k) = of_instrument k
scope_of (network_cap k) = of_network k
scope_of overall_cap = everywhere

-- The limit in force, the tightest that an admitted policy sets; none where no policy sets one.
abbrev pub limit_of : Cap → Db → Option ℕ
limit_of (policy_cap k) db = policy_column (λ p. p.allocation_atomic) (policy_of db k)
limit_of (instrument_cap k) db =
    tightest (λ p. p.per_instrument_cap_atomic) (λ p. p.instrument_id == k) db
limit_of (network_cap k) db = tightest (λ p. p.per_network_cap_atomic) (λ p. p.network_id == k) db
limit_of overall_cap db = tightest_global db

abbrev pub respects : ℕ → Option ℕ → Bool
respects held none = true
respects held (some limit) = leb held limit

pub record IsCapped (db : Db) : Type 0 where
  pub one_each : Distinct action_of db.reservations
  pub at_cap : (b : Cap) → respects (held_where (scope_of b) db.reservations) (limit_of b db) ≡ true

scope_of-IsScope : (b : Cap) → IsScope (scope_of b)
scope_of-IsScope (policy_cap k) = record { blind = λ s seq r. refl }
scope_of-IsScope (instrument_cap k) = record { blind = λ s seq r. refl }
scope_of-IsScope (network_cap k) = record { blind = λ s seq r. refl }
scope_of-IsScope overall_cap = record { blind = λ s seq r. refl }

-- The guard leaves room for the new reservation under every cap that counts it.
within_caps-room :
    (i : IntentRow) (seq db : Db) (b : Cap)
    → within_caps i i.quote_exposure_atomic db ≡ true
    → scope_of b (new_reservation i i.quote_exposure_atomic seq) ≡ true
    → respects (i.quote_exposure_atomic + held_where (scope_of b) db.reservations) (limit_of b db)
      ≡ true
unfolding within_caps
within_caps-room i seq db (policy_cap k) fit counted =
    let same = (==_iff i.policy_id k).0 counted in ground arith
within_caps-room i seq db (instrument_cap k) fit counted =
    let same = (==_iff i.instrument_id k).0 counted in ground arith
within_caps-room i seq db (network_cap k) fit counted =
    let same = (==_iff i.network_id k).0 counted in ground arith
within_caps-room i seq db overall_cap fit counted = ground arith

respects_less :
    (m n : ℕ) (limit : Option ℕ) → m ≤ n → respects n limit ≡ true → respects m limit ≡ true
respects_less m n none le h = refl
respects_less m n (some c) le h = ground arith

pub Change-Distinct :
    (db : Db) (rows : List ReservationRow)
    → Distinct action_of db.reservations
    → Change db rows
    → Distinct action_of rows
Change-Distinct db rows d (unchanged e) = rw e d
Change-Distinct db rows d (restated key s seq v found held e) =
    rw e (Distinct-update action_of (with_status s seq) (λ r. refl) key db.reservations d)
Change-Distinct db rows d (taken i seq fit fresh known e) = rw e (fresh, d)

pub Change-respects :
    (db : Db) (rows : List ReservationRow) (b : Cap)
    → Distinct action_of db.reservations
    → respects (held_where (scope_of b) db.reservations) (limit_of b db) ≡ true
    → Change db rows
    → respects (held_where (scope_of b) rows) (limit_of b db) ≡ true
Change-respects db rows b d h (unchanged e) = rw e h
Change-respects db rows b d h (restated key s seq v found held e) = rw e (
    respects_less _ (held_where (scope_of b) db.reservations) (limit_of b db)
      (held_where-set_status (scope_of b) key s seq db.reservations v (scope_of-IsScope b) d found
        held)
      h)
Change-respects db rows b d h (taken i seq fit fresh known e) =
    let new = new_reservation i i.quote_exposure_atomic seq in
    rw (e, held_where-cons (scope_of b) new db.reservations)
      (elim (Bool-cases (scope_of b new)) [
        | inl counted ↦ rw counted (within_caps-room i seq db b fit counted)
        | inr outside ↦
            let rest : 0 + held_where (scope_of b) db.reservations
                ≡ held_where (scope_of b) db.reservations =
              omega arith in
            rw (outside, rest) h
      ])
