-- ===== src/Economics/Limits.antt =====
-- What the limit prices, minimum outputs, deadlines and bounds of qntyspot/economics.py guarantee.
use native.Mathlib.Nat.{one-le-pow}
use qnty_spot.Prelude.{ℕ, ◌+◌, ◌*◌, ◌^◌, ◌≤◌, ◌<◌, ◌≡◌, refl, ◌↔◌, arith}
use qnty_spot.Errors.{ok}
use qnty_spot.Fraction.{Fraction, ◌≤ℚ◌}
use qnty_spot.Fraction
use qnty_spot.Domain.{Side, buy, sell, Level, Policy}
use qnty_spot.Domain.Ceiling.{ceiling-le_iff, ceil_div_lem}
use qnty_spot.Economics.{bps, leg_limit_price, min_output_atomic, action_deadline}

-- The clamp of a limit price: on the stricter side of the policy's executable price and of the
-- widened trigger.
abbrev Clamped : Side → Fraction → Policy → Level → Type 0
Clamped buy limit p l =
    (limit ≤ℚ p.max_executable_price)
    × (limit
        ≤ℚ Fraction.mul l.trigger_price
            (Fraction.plus (Fraction.integer 1) (bps p.max_slippage_bps)))
Clamped sell limit p l =
    (p.min_executable_price ≤ℚ limit)
    × (Fraction.mul l.trigger_price (Fraction.one_minus (bps p.max_slippage_bps)) ≤ℚ limit)

clamped :
    (side : Side) (p : Policy) (l : Level) → l.side ≡ side → Clamped side (leg_limit_price p l) p l
unfolding leg_limit_price
clamped buy p l e = rw e (Fraction.min-le _ _)
clamped sell p l e = rw e (Fraction.le-max _ _)

-- No rung widens its way past the policy: a BUY limit is at most the maximum executable price and
-- the trigger widened up, a SELL limit at least the minimum executable price and the trigger widened
-- down.
pub leg_limit_price-Clamped : (p : Policy) (l : Level) → Clamped l.side (leg_limit_price p l) p l
leg_limit_price-Clamped p l = clamped l.side p l refl

-- An input and output, in atomic units, at a price in quote per base that is within the limit: at
-- most the limit for a BUY, at least the limit for a SELL.
abbrev pub WithinLimit : Side → Fraction → ℕ → ℕ → ℕ → ℕ → Type 0
WithinLimit buy price base_decimals quote_decimals input output =
    input * 10 ^ base_decimals * price.denominator
    ≤ output * (price.numerator * 10 ^ quote_decimals)
WithinLimit sell price base_decimals quote_decimals input output =
    input * price.numerator * 10 ^ quote_decimals
    ≤ output * (price.denominator * 10 ^ base_decimals)

pos_product : (a d : ℕ) → 0 < a → 0 < a * 10 ^ d
pos_product a d h = grind (arith, one-le-pow d 10 (omega arith))

-- The minimum output at a positive price is the least output within the limit.
pub min_output_atomic_least :
    (side : Side) (input base_decimals quote_decimals : ℕ) (price : Fraction)
    → 0 < price.numerator
    → 0 < price.denominator
    → (least : ℕ) × (min_output_atomic side input price base_decimals quote_decimals ≡ ok least)
      × ((output : ℕ)
          → (least ≤ output) ↔ WithinLimit side price base_decimals quote_decimals input output)
unfolding min_output_atomic
min_output_atomic_least buy input bd qd price hn hd =
    (_, ceil_div_lem _ _ (pos_product _ qd hn), λ m. ceiling-le_iff _ _ m (pos_product _ qd hn))
min_output_atomic_least sell input bd qd price hn hd =
    (_, ceil_div_lem _ _ (pos_product _ bd hd), λ m. ceiling-le_iff _ _ m (pos_product _ bd hd))

-- With a positive time to live a deadline is given only within the policy's validity, lies ahead,
-- and is never past the expiry nor more than the time to live away.
pub action_deadline_ahead :
    (p : Policy) (now deadline : ℕ)
    → 0 < p.quote_ttl_s
    → action_deadline p now ≡ ok deadline
    → (p.valid_from_epoch_s ≤ now)
      × (now < deadline)
      × (deadline ≤ p.expiry_epoch_s)
      × (deadline ≤ now + p.quote_ttl_s)
unfolding action_deadline
action_deadline_ahead p now deadline pos h = ground arith
