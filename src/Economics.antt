-- ===== src/Economics.antt =====
-- qntyspot/economics.py: a policy rung turned into an absolute economic limit.
pub mod Limits
pub mod Exits
pub mod Fills
use qnty_spot.Prelude.{
  ℕ, suc, ◌+◌, ◌-◌, ◌*◌, ◌/◌, ◌%◌, ◌^◌, ◌≡◌, min, Bool, true, false, not, Option, none, some, List,
  [], ◌∷◌, ltb, leb, ◌==◌, if◌then◌else◌,
}
use qnty_spot.Errors.{
  Error, Result, ok, err, ◌>>=◌, ◌>>◌, require, qnty_spot_error, level_not_executable,
}
use qnty_spot.Fraction.{Fraction}
use qnty_spot.Fraction
use qnty_spot.States.{armed}
use qnty_spot.Domain.{
  Key, Side, buy, sell, is_buy, LadderKind, entry, exit, is_entry, Level, Policy, Bounds,
  make_bounds, Intent, CycleId, ceil_div, bps_denominator,
}

abbrev pub bps : ℕ → Fraction
bps n = record { numerator = n; denominator = bps_denominator }

-- the two branches of `leg_limit_price`
abbrev pub leg_limit : Side → Fraction → Fraction → Policy → Fraction
leg_limit buy slip trigger p =
    Fraction.min (Fraction.mul trigger (Fraction.plus (Fraction.integer 1) slip))
      p.max_executable_price
leg_limit sell slip trigger p =
    Fraction.max (Fraction.mul trigger (Fraction.one_minus slip)) p.min_executable_price

unfoldable pub leg_limit_price : Policy → Level → Fraction
leg_limit_price p l = leg_limit l.side (bps p.max_slippage_bps) l.trigger_price p

unfoldable pub min_output_atomic : Side → ℕ → Fraction → ℕ → ℕ → Result ℕ
unfolding ceil_div
min_output_atomic buy input price base_decimals quote_decimals =
    ceil_div (input * 10 ^ base_decimals * price.denominator)
      (price.numerator * 10 ^ quote_decimals)
min_output_atomic sell input price base_decimals quote_decimals =
    ceil_div (input * price.numerator * 10 ^ quote_decimals)
      (price.denominator * 10 ^ base_decimals)

exit_amount : ℕ → Fraction → Result ℕ
exit_amount inventory ratio =
    let amount = inventory * ratio.numerator / ratio.denominator in
    if leb amount 0 then err level_not_executable else ok amount

exit_of : LadderKind → Option Fraction → ℕ → Result ℕ
unfolding exit_amount
exit_of exit (some ratio) inventory = exit_amount inventory ratio
exit_of _ _ inventory = err qnty_spot_error

-- the inventory is not negative by its type
unfoldable pub exit_input_atomic : Level → ℕ → Result ℕ
unfolding exit_of
exit_input_atomic l inventory = exit_of l.kind l.input_ratio inventory

unfoldable pub action_deadline : Policy → ℕ → Result ℕ
action_deadline p now = do
  require (leb p.valid_from_epoch_s now) level_not_executable
  require (ltb now p.expiry_epoch_s) level_not_executable
  ok (min (now + p.quote_ttl_s) p.expiry_epoch_s)

abbrev rearm : Side → Fraction → Fraction → Fraction
rearm buy hysteresis trigger = Fraction.mul trigger (Fraction.plus (Fraction.integer 1) hysteresis)
rearm sell hysteresis trigger = Fraction.mul trigger (Fraction.one_minus hysteresis)

unfoldable pub rearm_threshold_price : Policy → Level → Fraction
rearm_threshold_price p l = rearm l.side (bps p.rearm_hysteresis_bps) l.trigger_price

-- the amount of an entry rung, which must be whole in the input's atomic units
entry_amount : Fraction → ℕ → Result ℕ
entry_amount amount decimals =
    let scaled = Fraction.mul amount (Fraction.integer (10 ^ decimals)) in
    if Fraction.is_whole scaled
    then ok (scaled.numerator / scaled.denominator)
    else err level_not_executable

abbrev input_decimals : Side → Policy → ℕ
input_decimals buy p = p.quote.decimals
input_decimals sell p = p.base.decimals

-- An entry rung takes its amount, an exit rung its share of the inventory. An entry rung with no
-- amount cannot be built, so the failed assertion stands for nothing that happens.
input_of : LadderKind → Option Fraction → Option ℕ → Policy → Level → Result ℕ
unfolding entry_amount
input_of entry amount (some inventory) p l = err qnty_spot_error
input_of entry none none p l = err qnty_spot_error
input_of entry (some amount) none p l = entry_amount amount (input_decimals l.side p)
input_of exit amount none p l = err qnty_spot_error
input_of exit amount (some inventory) p l = exit_input_atomic l inventory

abbrev input_instrument : Side → Policy → Key
input_instrument buy p = p.quote.instrument_id
input_instrument sell p = p.base.instrument_id

abbrev output_instrument : Side → Policy → Key
output_instrument buy p = p.base.instrument_id
output_instrument sell p = p.quote.instrument_id

unfoldable pub build_bounds : Policy → Level → ℕ → Option ℕ → Result Bounds
unfolding input_of
build_bounds p l now inventory = do
  deadline ← action_deadline p now
  let limit = leg_limit_price p l
  input ← input_of l.kind l.input_amount inventory p l
  output ← min_output_atomic l.side input limit p.base.decimals p.quote.decimals
  require (ltb 0 output) level_not_executable
  make_bounds (record {
    side = l.side;
    input_instrument_id = input_instrument l.side p;
    output_instrument_id = output_instrument l.side p;
    max_input_atomic = input;
    min_output_atomic = output;
    limit_price = limit;
    max_price_impact_bps = p.max_price_impact_bps;
    max_slippage_bps = p.max_slippage_bps;
    deadline_epoch_s = deadline;
  })

abbrev pub exposure_of : Side → Bounds → ℕ
exposure_of buy b = b.max_input_atomic
exposure_of sell b = 0

-- only a BUY is held to the per-order cap
abbrev within_order_cap : Side → ℕ → Policy → Bool
within_order_cap buy exposure p = leb exposure p.budget.per_order_cap
within_order_cap sell exposure p = true

-- What the economic identity of an action is the digest of.
pub record ActionKey : Type 0 where
  pub policy_id : Key
  pub instrument_id : Key
  pub cycle_id : CycleId
  pub level_id : Key
  pub side : Side

-- `digest` is the SHA-256 digest of the canonical form, which the code takes from hashlib.
module _ (digest : ActionKey → Key) where
  unfoldable pub economic_action_id : Key → Key → CycleId → Key → Side → Key
  economic_action_id policy instrument cycle level side = digest (record {
    policy_id = policy;
    instrument_id = instrument;
    cycle_id = cycle;
    level_id = level;
    side = side;
  })

  unfoldable pub build_intent : Policy → CycleId → Level → ℕ → Option ℕ → Result Intent
  unfolding economic_action_id
  build_intent p cycle l now inventory = do
    bounds ← build_bounds p l now inventory
    let exposure = exposure_of l.side bounds
    require (within_order_cap l.side exposure p) level_not_executable
    ok (record {
      economic_action_id =
          economic_action_id p.policy_id p.base.instrument_id cycle l.level_id l.side;
      policy_id = p.policy_id;
      instrument_id = p.base.instrument_id;
      quote_instrument_id = p.quote.instrument_id;
      network_id = p.base.network_id;
      cycle_id = cycle;
      level_id = l.level_id;
      side = l.side;
      kind = l.kind;
      bounds = bounds;
      quote_exposure_atomic = exposure;
      state = armed;
    })
