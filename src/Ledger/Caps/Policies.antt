-- ===== src/Ledger/Caps/Policies.antt =====
-- The caps for each single policy: `atomic_min` of qntyspot/ledger/atomics.py over all policies, as the
-- guard of `_reserve` in qntyspot/ledger/store.py asks for it, is at most the cap of each.
use mathlib.Core.Path.{subst}
use mathlib.Core.Option.{some-injective}
use qnty_spot.Prelude.{
  ap, ◌∙◌, ℕ, ◌-◌, ◌≤◌, ◌≡◌, refl, Bool, true, Option, none, some, List, [], ◌∷◌, map, keep, find,
  arith, Bool-cases, inl, inr, ltb, ◌==◌,
}
use qnty_spot.Domain.{Key}
use qnty_spot.Ledger.Atomics.{better, min_from, atomic_min}
use qnty_spot.Ledger.Rows.{PolicyRow, Db}
use qnty_spot.Ledger.Tables.{policy_of}
use qnty_spot.Ledger.Budget.{
  held_where, of_instrument, of_network, everywhere, tightest, tightest_global,
}
use qnty_spot.Ledger.Caps.{instrument_cap, network_cap, overall_cap, respects, IsCapped}
use qnty_spot.Ledger.History.{Trades}
use qnty_spot.Ledger.History.Invariants.{Trades-IsCapped}

-- a minimum that is there and at most the bound
abbrev AtMost : Option ℕ → ℕ → Type 0
AtMost least bound = (n : ℕ) × (least ≡ some n) × (n ≤ bound)

min_from-AtMost :
    (amounts : List (Option ℕ)) (best bound : ℕ)
    → best ≤ bound
    → AtMost (min_from (some best) amounts) bound
min_from-AtMost [] best bound h = (best, refl, h)
min_from-AtMost (none ∷ rest) best bound h = min_from-AtMost rest best bound h
min_from-AtMost (some n ∷ rest) best bound h = elim (Bool-cases (ltb n best)) [
  | inl lower ↦ rw lower (min_from-AtMost rest n bound (ground arith))
  | inr higher ↦ rw higher (min_from-AtMost rest best bound h)
]

better-AtMost : (best : Option ℕ) (n : ℕ) → AtMost (better best n) n
better-AtMost none n = (n, refl, ground arith)
better-AtMost (some best) n = elim (Bool-cases (ltb n best)) [
  | inl lower ↦ rw lower (n, refl, ground arith)
  | inr higher ↦ rw higher (best, refl, ground arith)
]

-- the amounts of the rows in scope
abbrev amounts_of : (PolicyRow → ℕ) → (PolicyRow → Bool) → List PolicyRow → List (Option ℕ)
amounts_of amount scope rows = map (λ r. some (amount r)) (keep scope rows)

min_from-here :
    (best : Option ℕ) (n : ℕ) (rest : List (Option ℕ)) → AtMost (min_from best (some n ∷ rest)) n
min_from-here best n rest =
    let (m, e, le) = better-AtMost best n in rw e (min_from-AtMost rest m n le)

min_from-row :
    (amount : PolicyRow → ℕ) (scope : PolicyRow → Bool) (best : Option ℕ) (k : Key)
    (rows : List PolicyRow) (p : PolicyRow)
    → find (λ r. r.policy_id == k) rows ≡ some p
    → scope p ≡ true
    → AtMost (min_from best (amounts_of amount scope rows)) (amount p)
min_from-row amount scope best k [] p found inside = cc
min_from-row amount scope best k (r ∷ rows) p found inside = elim (Bool-cases (r.policy_id == k)) [
  | inl here ↦
      let e = some-injective r p (rw here at found) in
      rw (ap scope e ∙ inside, ← e) (min_from-here best (amount r) (amounts_of amount scope rows))
  | inr away ↦ elim (Bool-cases (scope r)) [
    | inl counted ↦
        rw counted
          (min_from-row amount scope (better best (amount r)) k rows p (rw away at found) inside)
    | inr skipped ↦ rw skipped (min_from-row amount scope best k rows p (rw away at found) inside)
  ]
]

keep-everything : (rows : List PolicyRow) → keep (λ r. true) rows ≡ rows
keep-everything [] = refl
keep-everything (r ∷ rows) = ap (λ rest. r ∷ rest) (keep-everything rows)

respects-AtMost :
    (held bound : ℕ) (least : Option ℕ)
    → respects held least ≡ true
    → AtMost least bound
    → held ≤ bound
respects-AtMost held bound least h (n, e, le) = ground arith

global-AtMost :
    (db : Db) (k : Key) (p : PolicyRow)
    → policy_of db k ≡ some p
    → AtMost (tightest_global db) (p.global_cap_atomic - p.reserved_cash_atomic)
unfolding tightest_global atomic_min
global-AtMost db k p found =
    subst
      (λ rows.
        AtMost (min_from none (map (λ r. some (r.global_cap_atomic - r.reserved_cash_atomic)) rows))
          (p.global_cap_atomic - p.reserved_cash_atomic))
      (keep-everything db.policies)
      (min_from-row (λ r. r.global_cap_atomic - r.reserved_cash_atomic) (λ r. true) none k
        db.policies p found refl)

-- From a database in which every action has at most one reservation and every cap is respected, no
-- sequence of steps other than admissions leads to one where the active, committed and quarantined
-- reservations exceed a cap of any one admitted policy: on its instrument, on its network, or the
-- global cap less the reserved cash on everything.
pub every_policy_respected :
    (db db' : Db) (k : Key) (p : PolicyRow)
    → IsCapped db
    → Trades db db'
    → policy_of db' k ≡ some p
    → (held_where (of_instrument p.instrument_id) db'.reservations ≤ p.per_instrument_cap_atomic)
      × (held_where (of_network p.network_id) db'.reservations ≤ p.per_network_cap_atomic)
      × (held_where everywhere db'.reservations ≤ p.global_cap_atomic - p.reserved_cash_atomic)
unfolding tightest atomic_min
every_policy_respected db db' k p start past found =
    let c = Trades-IsCapped db db' past start in
    (
      respects-AtMost _ p.per_instrument_cap_atomic _ (c.at_cap (instrument_cap p.instrument_id)) (
          min_from-row (λ r. r.per_instrument_cap_atomic) (λ r. r.instrument_id == p.instrument_id)
            none k db'.policies p found (ground arith)),
      respects-AtMost _ p.per_network_cap_atomic _ (c.at_cap (network_cap p.network_id)) (
          min_from-row (λ r. r.per_network_cap_atomic) (λ r. r.network_id == p.network_id) none k
            db'.policies p found (ground arith)),
      respects-AtMost _ (p.global_cap_atomic - p.reserved_cash_atomic) _ (c.at_cap overall_cap)
          (global-AtMost db' k p found),
    )
