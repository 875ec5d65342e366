-- ===== src/Fraction.antt =====
-- Python's fractions.Fraction, for the non-negative values that a policy holds: a numerator over a
-- denominator. Python keeps lowest terms; nothing here depends on the terms.
use qnty_spot.Prelude.{
  ℕ, ◌+◌, ◌-◌, ◌*◌, ◌%◌, ◌≤◌, ◌<◌, ◌≡◌, Bool, ltb, leb, ◌==◌, arith, if◌then◌else◌,
}

pub record Fraction : Type 0 where
  pub numerator : ℕ
  pub denominator : ℕ

abbrev pub IsFraction : Fraction → Type 0
IsFraction f = 0 < f.denominator

abbrev pub integer : ℕ → Fraction
integer n = record { numerator = n; denominator = 1 }

abbrev pub mul : Fraction → Fraction → Fraction
mul a b = record {
  numerator = a.numerator * b.numerator;
  denominator = a.denominator * b.denominator;
}

abbrev pub plus : Fraction → Fraction → Fraction
plus a b = record {
  numerator = a.numerator * b.denominator + b.numerator * a.denominator;
  denominator = a.denominator * b.denominator;
}

-- `1 - f`; stops at zero, where Python goes negative
abbrev pub one_minus : Fraction → Fraction
one_minus f = record { numerator = f.denominator - f.numerator; denominator = f.denominator }

abbrev pub is_le : Fraction → Fraction → Bool
is_le a b = leb (a.numerator * b.denominator) (b.numerator * a.denominator)

abbrev pub is_lt : Fraction → Fraction → Bool
is_lt a b = ltb (a.numerator * b.denominator) (b.numerator * a.denominator)

-- `min(a, b)` and `max(a, b)`: the first, unless the second is strictly better
abbrev pub min : Fraction → Fraction → Fraction
min a b = if is_lt b a then b else a

abbrev pub max : Fraction → Fraction → Fraction
max a b = if is_lt a b then b else a

-- `f.denominator == 1` of a fraction in lowest terms
abbrev pub is_whole : Fraction → Bool
is_whole f = f.numerator % f.denominator == 0

infix 50 ◌≤ℚ◌
abbrev pub ◌≤ℚ◌ : Fraction → Fraction → Type 0
a ≤ℚ b = a.numerator * b.denominator ≤ b.numerator * a.denominator

-- the same number, in whatever terms
abbrev pub SameValue : Fraction → Fraction → Type 0
SameValue a b = a.numerator * b.denominator ≡ b.numerator * a.denominator

pub min-le : (a b : Fraction) → (min a b ≤ℚ b) × (min a b ≤ℚ a)
min-le a b = ground arith

pub le-max : (a b : Fraction) → (b ≤ℚ max a b) × (a ≤ℚ max a b)
le-max a b = ground arith
