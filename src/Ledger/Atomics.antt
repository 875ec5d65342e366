-- ===== src/Ledger/Atomics.antt =====
-- qntyspot/ledger/atomics.py: the functions over atomic amounts that the budget guard calls from SQL.
-- A value is a number or NULL (`none`); `Text` has the text that stores a number.
pub mod Text
use qnty_spot.Prelude.{
  ℕ, ◌+◌, ◌-◌, Bool, false, Option, none, some, List, [], ◌∷◌, ltb, leb, if◌then◌else◌,
}

-- `_AtomicSum`: NULL is passed over.
abbrev pub atomic_sum : List (Option ℕ) → ℕ
atomic_sum [] = 0
atomic_sum (none ∷ rest) = atomic_sum rest
atomic_sum (some n ∷ rest) = n + atomic_sum rest

-- `_AtomicMin.step`: the best so far, and the next value.
abbrev pub better : Option ℕ → ℕ → Option ℕ
better none n = some n
better (some best) n = if ltb n best then some n else some best

abbrev pub min_from : Option ℕ → List (Option ℕ) → Option ℕ
min_from best [] = best
min_from best (none ∷ rest) = min_from best rest
min_from best (some n ∷ rest) = min_from (better best n) rest

-- `_AtomicMin`: the least amount, NULL of no amounts.
unfoldable pub atomic_min : List (Option ℕ) → Option ℕ
atomic_min amounts = min_from none amounts

abbrev pub atomic_add : Option ℕ → Option ℕ → Option ℕ
atomic_add (some a) (some b) = some (a + b)
atomic_add _ _ = none

-- the difference stops at zero
abbrev pub atomic_sub : Option ℕ → Option ℕ → Option ℕ
atomic_sub (some a) (some b) = some (a - b)
atomic_sub _ _ = none

-- An unreadable bound is not a bound that can be satisfied.
abbrev pub atomic_le : Option ℕ → Option ℕ → Bool
atomic_le (some a) (some b) = leb a b
atomic_le _ _ = false
