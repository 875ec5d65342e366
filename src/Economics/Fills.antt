-- ===== src/Economics/Fills.antt =====
-- The bounds that qntyspot/economics.py builds against the receipts that qntyspot/domain.py accepts.
use native.Mathlib.Nat.{le_of_mul-le-mul_right, mul-le-mul_right}
use qnty_spot.Prelude.{ℕ, ◌*◌, ◌^◌, ◌≤◌, ◌<◌, ◌≡◌, refl, if◌then◌else◌, true, Option, arith}
use qnty_spot.Errors.{ok}
use qnty_spot.Fraction.{Fraction}
use qnty_spot.States.{armed}
use qnty_spot.Domain.{
  Key, CycleId, Side, buy, sell, is_buy, Level, Policy, Bounds, Intent, FillReceipt, satisfies,
  ceiling, ceil_div, make_bounds,
}
use qnty_spot.Domain.Ceiling.{ceiling-le_iff, satisfies_exactly}
use qnty_spot.Economics.{
  leg_limit_price, min_output_atomic, action_deadline, build_bounds, ActionKey, build_intent,
  exposure_of,
}
use qnty_spot.Economics.Limits.{WithinLimit}

ceil_div-eq-ok : (n d c : ℕ) → ceil_div n d ≡ ok c → (0 < d) × (ceiling n d ≤ c)
unfolding ceil_div
ceil_div-eq-ok n d c h = ground arith

-- A minimum output that was computed is within the limit.
min_output_atomic-WithinLimit :
    (side : Side) (input base_decimals quote_decimals out : ℕ) (price : Fraction)
    → min_output_atomic side input price base_decimals quote_decimals ≡ ok out
    → WithinLimit side price base_decimals quote_decimals input out
unfolding min_output_atomic
min_output_atomic-WithinLimit buy input bd qd out price h =
    let (pos, le) = ceil_div-eq-ok _ _ _ h in (ceiling-le_iff _ _ _ pos).0 le
min_output_atomic-WithinLimit sell input bd qd out price h =
    let (pos, le) = ceil_div-eq-ok _ _ _ h in (ceiling-le_iff _ _ _ pos).0 le

-- What a successful `build_bounds` has computed on its way.
pub record Built (p : Policy) (l : Level) (now : ℕ) (b : Bounds) : Type 0 where
  pub side : b.side ≡ l.side
  pub limit : b.limit_price ≡ leg_limit_price p l
  pub deadline : action_deadline p now ≡ ok b.deadline_epoch_s
  pub minimum :
      min_output_atomic l.side b.max_input_atomic b.limit_price p.base.decimals p.quote.decimals
      ≡ ok b.min_output_atomic
  pub input_pos : 0 < b.max_input_atomic
  pub output_pos : 0 < b.min_output_atomic
  pub price_pos : 0 < b.limit_price.numerator

pub build_bounds-Built :
    (p : Policy) (l : Level) (now : ℕ) (inventory : Option ℕ) (b : Bounds)
    → build_bounds p l now inventory ≡ ok b
    → Built p l now b
unfolding build_bounds make_bounds
build_bounds-Built p l now inventory b h = ground arith

-- A part of a fill keeps to the ratio of the whole.
prorate :
    (input output part_in part_out num den : ℕ)
    → 0 < input
    → input * num ≤ output * den
    → output * part_in ≤ part_out * input
    → part_in * num ≤ part_out * den
prorate input output part_in part_out num den pos whole part =
    le_of_mul-le-mul_right {k = input}
      (omega (arith, mul-le-mul_right part_in whole, mul-le-mul_right den part)) pos

within_part :
    (side : Side) (price : Fraction) (bd qd input output part_in part_out : ℕ)
    → 0 < input
    → WithinLimit side price bd qd input output
    → output * part_in ≤ part_out * input
    → WithinLimit side price bd qd part_in part_out
within_part buy price bd qd input output part_in part_out pos whole part = omega (
  arith,
  prorate input output part_in part_out (10 ^ bd * price.denominator) (price.numerator * 10 ^ qd)
      pos (omega arith) part,
)
within_part sell price bd qd input output part_in part_out pos whole part = omega (
  arith,
  prorate input output part_in part_out (price.numerator * 10 ^ qd) (price.denominator * 10 ^ bd)
      pos (omega arith) part,
)

-- A receipt, of a full or a partial fill, that satisfies bounds which `build_bounds` made has traded
-- within the rung's limit price.
pub fill-WithinLimit :
    (p : Policy) (l : Level) (now : ℕ) (inventory : Option ℕ) (b : Bounds) (r : FillReceipt)
    → build_bounds p l now inventory ≡ ok b
    → satisfies r b ≡ ok true
    → WithinLimit l.side
        (leg_limit_price p l)
        p.base.decimals
        p.quote.decimals
        r.input_atomic_filled
        r.output_atomic_filled
fill-WithinLimit p l now inventory b r built sat =
    let d = build_bounds-Built p l now inventory b built in
    let (_, part) = (satisfies_exactly r b d.input_pos).0 sat in
    rw (← d.limit) (
      within_part l.side b.limit_price _ _ b.max_input_atomic b.min_output_atomic _ _ d.input_pos
        (min_output_atomic-WithinLimit l.side _ _ _ _ b.limit_price d.minimum) part)

exposed :
    (side : Side) (b : Bounds)
    → exposure_of side b ≡ (if is_buy side then b.max_input_atomic else 0)
exposed buy b = refl
exposed sell b = refl

module _ (digest : ActionKey → Key) where
  build_intent-parts :
      (p : Policy) (c : CycleId) (l : Level) (now : ℕ) (inventory : Option ℕ) (i : Intent)
      → build_intent digest p c l now inventory ≡ ok i
      → (i.state ≡ armed)
        × (build_bounds p l now inventory ≡ ok i.bounds)
        × (i.quote_exposure_atomic ≡ (if is_buy l.side then i.bounds.max_input_atomic else 0))
        × (i.quote_exposure_atomic ≤ p.budget.per_order_cap)
  unfolding build_intent
  build_intent-parts p c l now inventory i h =
      (ground arith, ground arith, ground arith, ground arith)

  -- A built intent is ARMED and has the bounds that `build_bounds` makes; its exposure is the maximum
  -- input of a BUY and nothing of a SELL, and within the per-order cap; and no receipt, of a full or a
  -- partial fill, that satisfies the bounds has spent more of the quote instrument than that exposure,
  -- the quote being the input of a BUY only.
  pub build_intent_exposure :
      (p : Policy) (c : CycleId) (l : Level) (now : ℕ) (inventory : Option ℕ) (i : Intent)
      (r : FillReceipt)
      → build_intent digest p c l now inventory ≡ ok i
      → satisfies r i.bounds ≡ ok true
      → (i.state ≡ armed)
        × (build_bounds p l now inventory ≡ ok i.bounds)
        × (i.quote_exposure_atomic ≡ (if is_buy l.side then i.bounds.max_input_atomic else 0))
        × (i.quote_exposure_atomic ≤ p.budget.per_order_cap)
        × ((if is_buy l.side then r.input_atomic_filled else 0) ≤ i.quote_exposure_atomic)
  build_intent_exposure p c l now inventory i r h sat =
      let (state, built, exposure, cap) = build_intent-parts p c l now inventory i h in
      let d = build_bounds-Built p l now inventory i.bounds built in
      let (le, _) = (satisfies_exactly r i.bounds d.input_pos).0 sat in
      (state, built, exposure, cap, ground (arith, exposure, le))
