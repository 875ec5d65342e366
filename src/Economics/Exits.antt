-- ===== src/Economics/Exits.antt =====
-- The exit rungs of a ladder together, `exit_input_atomic` of qntyspot/economics.py at one inventory.
use native.Mathlib.Nat.{div-mul-le_self, mul-le-mul_left, mul-le-mul_right, le_of_mul-le-mul_right}
use qnty_spot.Prelude.{ℕ, ◌+◌, ◌*◌, ◌≤◌, ◌<◌, Option, none, some, List, [], ◌∷◌, All, arith}
use qnty_spot.Errors.{Result, ok, err}
use qnty_spot.Fraction.{Fraction, IsFraction, ◌≤ℚ◌}
use qnty_spot.Fraction
use qnty_spot.Domain.{Level, LadderKind, exit, entry}
use qnty_spot.Economics.{exit_input_atomic, exit_of}

-- What a rung disposes of; a rung that cannot execute disposes of nothing.
abbrev pub disposed : Result ℕ → ℕ
disposed (ok n) = n
disposed (err e) = 0

abbrev pub total_disposed : List Level → ℕ → ℕ
total_disposed [] inventory = 0
total_disposed (l ∷ rest) inventory =
    disposed (exit_input_atomic l inventory) + total_disposed rest inventory

abbrev pub ratio_of : Option Fraction → Fraction
ratio_of none = Fraction.integer 0
ratio_of (some ratio) = ratio

-- `sum(lvl.input_ratio for lvl in exit_ladder.levels)` of `parse_policy`
abbrev pub ratio_total : List Level → Fraction
ratio_total [] = Fraction.integer 0
ratio_total (l ∷ rest) = Fraction.plus (ratio_of l.input_ratio) (ratio_total rest)

exit_of-share :
    (kind : LadderKind) (ratio : Option Fraction) (inventory : ℕ)
    → disposed (exit_of kind ratio inventory) * (ratio_of ratio).denominator
      ≤ inventory * (ratio_of ratio).numerator
unfolding exit_of
exit_of-share exit (some ratio) inventory =
    ground (arith, div-mul-le_self (inventory * ratio.numerator) ratio.denominator)
exit_of-share exit none inventory = omega arith
exit_of-share entry none inventory = omega arith
exit_of-share entry (some ratio) inventory = omega arith

-- A rung disposes of no more than its share.
rung-share :
    (l : Level) (inventory : ℕ)
    → disposed (exit_input_atomic l inventory) * (ratio_of l.input_ratio).denominator
      ≤ inventory * (ratio_of l.input_ratio).numerator
unfolding exit_input_atomic
rung-share l inventory = exit_of-share l.kind l.input_ratio inventory

denominator-pos :
    (ls : List Level)
    → All (λ (l : Level). IsFraction (ratio_of l.input_ratio)) ls
    → 0 < (ratio_total ls).denominator
denominator-pos [] h = omega arith
denominator-pos (l ∷ rest) h = grind (arith, denominator-pos rest h.1)

total-share :
    (ls : List Level) (inventory : ℕ)
    → total_disposed ls inventory * (ratio_total ls).denominator
      ≤ inventory * (ratio_total ls).numerator
total-share [] inventory = omega arith
total-share (l ∷ rest) inventory = omega (
  arith,
  mul-le-mul_right (ratio_total rest).denominator (rung-share l inventory),
  mul-le-mul_right (ratio_of l.input_ratio).denominator (total-share rest inventory),
)

-- Rungs whose ratios sum to at most one never dispose of more than the inventory.
pub exits_within_inventory :
    (ls : List Level) (inventory : ℕ)
    → All (λ (l : Level). IsFraction (ratio_of l.input_ratio)) ls
    → ratio_total ls ≤ℚ Fraction.integer 1
    → total_disposed ls inventory ≤ inventory
exits_within_inventory ls inventory h s =
    le_of_mul-le-mul_right (omega (arith, total-share ls inventory, mul-le-mul_left inventory s))
      (denominator-pos ls h)
