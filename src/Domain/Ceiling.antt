-- ===== src/Domain/Ceiling.antt =====
-- Exact ceiling division, `ceil_div` of qntyspot/domain.py and the expression that the ledger writes
-- out for it, and what it means for a fill to respect a bound pro rata.
use native.Mathlib.Nat.{div-lt_iff_lt-mul, zero-div}
use qnty_spot.Prelude.{ℕ, zero, suc, ◌*◌, ◌≤◌, ◌<◌, ◌≡◌, ◌↔◌, true, arith}
use qnty_spot.Errors.{ok}
use qnty_spot.Domain.{ceiling, ceil_div, FillReceipt, Bounds, satisfies}

-- The ceiling is the least number whose product with the divisor reaches the dividend.
pub ceiling-le_iff : (num den m : ℕ) → 0 < den → (ceiling num den ≤ m) ↔ (num ≤ m * den)
ceiling-le_iff zero den m h = rw zero-div (λ k. omega arith, λ k. omega arith)
ceiling-le_iff (suc n) den m h = div-lt_iff_lt-mul h

pub ceil_div_lem : (num den : ℕ) → 0 < den → ceil_div num den ≡ ok (ceiling num den)
unfolding ceil_div
ceil_div_lem num den h = ground arith

-- Against bounds with a positive maximum input, a receipt satisfies the bounds exactly when its
-- input is within the maximum and its output per input is at least the committed minimum output
-- per maximum input.
pub satisfies_exactly :
    (r : FillReceipt) (b : Bounds)
    → 0 < b.max_input_atomic
    → (satisfies r b ≡ ok true) ↔ (
        (r.input_atomic_filled ≤ b.max_input_atomic)
        × (b.min_output_atomic * r.input_atomic_filled
            ≤ r.output_atomic_filled * b.max_input_atomic))
unfolding satisfies ceil_div
satisfies_exactly r b h = (λ s. ground (arith, floor.0), λ s. ground (arith, floor.1 s.1))
  where
    floor :
        (ceiling (b.min_output_atomic * r.input_atomic_filled) b.max_input_atomic
          ≤ r.output_atomic_filled)
        ↔ (b.min_output_atomic * r.input_atomic_filled
            ≤ r.output_atomic_filled * b.max_input_atomic)
    floor = ceiling-le_iff _ _ _ h
