-- ===== src/Domain.antt =====
-- qntyspot/domain.py: the immutable records, their validation, and exact ceiling division.
-- Identifiers (digests, level names, external references) are only compared with one another, and
-- are numbers here.
pub mod Ceiling
use qnty_spot.Prelude.{
  ℕ, ◌+◌, ◌-◌, ◌*◌, ◌≡◌, Bool, true, false, not, ◌&&◌, ◌||◌, Option, none, some, List, [], ◌∷◌,
  ◌++◌, find, ltb, leb, ◌==◌, if◌then◌else◌,
}
use qnty_spot.Prelude.Int.{pos, neg, floor_div, pos_part}
use qnty_spot.Errors.{Error, Result, ok, err, ◌>>=◌, ◌>>◌, require, qnty_spot_error, policy_schema}
use qnty_spot.Fraction.{Fraction, is_lt, is_le}
use qnty_spot.Fraction
use qnty_spot.States.{IntentState}

-- An identifier.
abbrev pub Key : Type 0
Key = ℕ

abbrev pub bps_denominator : ℕ
bps_denominator = 10000

-- `-((-num) // den)`
abbrev pub ceiling : ℕ → ℕ → ℕ
ceiling num den = pos_part (neg (floor_div (neg (pos num)) den))

unfoldable pub ceil_div : ℕ → ℕ → Result ℕ
ceil_div num den = if leb den 0 then err qnty_spot_error else ok (ceiling num den)

pub data Side : Type 0 where
  buy sell : Side

unfoldable pub opposite : Side → Side
opposite buy = sell
opposite sell = buy

pub data LadderKind : Type 0 where
  entry exit : LadderKind

pub data CycleStatus : Type 0 where
  opened completed halted : CycleStatus

pub data ReservationStatus : Type 0 where
  active committed released quarantined : ReservationStatus

abbrev pub is_buy : Side → Bool
is_buy buy = true
is_buy sell = false

abbrev pub is_entry : LadderKind → Bool
is_entry entry = true
is_entry exit = false

pub record Level : Type 0 where
  pub level_id : Key
  pub kind : LadderKind
  pub side : Side
  pub index : ℕ
  pub trigger_price : Fraction
  pub input_amount : Option Fraction
  pub input_ratio : Option Fraction

abbrev is_positive : Fraction → Bool
is_positive f = is_lt (Fraction.integer 0) f

-- `LadderLevelV0.__post_init__`
check_amounts : LadderKind → Option Fraction → Option Fraction → Result (Unit {0})
check_amounts entry (some amount) none = require (is_positive amount) policy_schema
check_amounts exit none (some ratio) =
    require (is_positive ratio && is_le ratio (Fraction.integer 1)) policy_schema
check_amounts _ _ _ = err policy_schema

unfoldable pub make_level : Level → Result Level
unfolding check_amounts
make_level l = do
  check_amounts l.kind l.input_amount l.input_ratio
  require (is_positive l.trigger_price) policy_schema
  ok l

pub record Ladder : Type 0 where
  pub kind : LadderKind
  pub side : Side
  pub levels : List Level

-- one comparison of `zip(levels, levels[1:])`
abbrev pub in_order : Side → Level → Level → Bool
in_order buy prev cur = is_lt cur.trigger_price prev.trigger_price
in_order sell prev cur = is_lt prev.trigger_price cur.trigger_price

abbrev pub all_in_order : Side → Level → List Level → Bool
all_in_order side prev [] = true
all_in_order side prev (cur ∷ rest) = in_order side prev cur && all_in_order side cur rest

check_levels : Side → List Level → Result (Unit {0})
check_levels side [] = err policy_schema
check_levels side (first ∷ rest) = require (all_in_order side first rest) policy_schema

-- `LadderV0.__post_init__`
unfoldable pub make_ladder : Ladder → Result Ladder
unfolding check_levels
make_ladder l = do check_levels l.side l.levels; ok l

pub record Budget : Type 0 where
  pub allocation : ℕ
  pub per_order_cap : ℕ
  pub per_instrument_cap : ℕ
  pub per_network_cap : ℕ
  pub global_cap : ℕ
  pub reserved_cash : ℕ

-- `PortfolioBudgetV0.__post_init__`
unfoldable pub make_budget : Budget → Result Budget
make_budget b = do
  require (ltb 0 b.allocation) policy_schema
  require (ltb 0 b.per_order_cap) policy_schema
  require (ltb 0 b.per_instrument_cap) policy_schema
  require (ltb 0 b.per_network_cap) policy_schema
  require (ltb 0 b.global_cap) policy_schema
  require (leb b.per_order_cap b.allocation) policy_schema
  require (leb b.allocation b.per_instrument_cap) policy_schema
  require (leb b.per_instrument_cap b.per_network_cap) policy_schema
  require (leb b.per_network_cap b.global_cap) policy_schema
  require (ltb b.reserved_cash b.global_cap) policy_schema
  ok b

unfoldable pub spendable_global : Budget → ℕ
spendable_global b = b.global_cap - b.reserved_cash

-- What the code reads of an `InstrumentV0`.
pub record Instrument : Type 0 where
  pub instrument_id : Key
  pub network_id : Key
  pub decimals : ℕ
  pub identity_digest : Key

-- `policy_id` is the digest of the canonical form; `canonical` stands for that form's text.
pub record Policy : Type 0 where
  pub policy_id : Key
  pub canonical : Key
  pub base : Instrument
  pub quote : Instrument
  pub side : Side
  pub entry_ladder : Ladder
  pub exit_ladder : Ladder
  pub budget : Budget
  pub max_executable_price : Fraction
  pub min_executable_price : Fraction
  pub max_price_impact_bps : ℕ
  pub max_slippage_bps : ℕ
  pub valid_from_epoch_s : ℕ
  pub expiry_epoch_s : ℕ
  pub quote_ttl_s : ℕ
  pub max_cycles : ℕ
  pub rearm_hysteresis_bps : ℕ

unfoldable pub levels : Policy → List Level
levels p = p.entry_ladder.levels ++ p.exit_ladder.levels

level_among : Key → List Level → Result Level
level_among key [] = err policy_schema
level_among key (l ∷ rest) = if l.level_id == key then ok l else level_among key rest

unfoldable pub level : Policy → Key → Result Level
unfolding levels level_among
level p key = level_among key (levels p)

-- f"{policy_id}:{cycle_index}": a policy id is a hexadecimal digest, which has no colon, so the text
-- and the pair determine one another.
pub record CycleId : Type 0 where
  pub policy : Key
  pub index : ℕ

abbrev pub same_cycle : CycleId → CycleId → Bool
same_cycle a b = a.policy == b.policy && a.index == b.index

pub record Bounds : Type 0 where
  pub side : Side
  pub input_instrument_id : Key
  pub output_instrument_id : Key
  pub max_input_atomic : ℕ
  pub min_output_atomic : ℕ
  pub limit_price : Fraction
  pub max_price_impact_bps : ℕ
  pub max_slippage_bps : ℕ
  pub deadline_epoch_s : ℕ

-- `EconomicBounds.__post_init__`
unfoldable pub make_bounds : Bounds → Result Bounds
make_bounds b = do
  require (ltb 0 b.max_input_atomic) qnty_spot_error
  require (ltb 0 b.min_output_atomic) qnty_spot_error
  require (is_positive b.limit_price) qnty_spot_error
  require (not (b.input_instrument_id == b.output_instrument_id)) qnty_spot_error
  ok b

pub record Intent : Type 0 where
  pub economic_action_id : Key
  pub policy_id : Key
  pub instrument_id : Key
  pub quote_instrument_id : Key
  pub network_id : Key
  pub cycle_id : CycleId
  pub level_id : Key
  pub side : Side
  pub kind : LadderKind
  pub bounds : Bounds
  pub quote_exposure_atomic : ℕ
  pub state : IntentState

pub record FillReceipt : Type 0 where
  pub receipt_id : Key
  pub economic_action_id : Key
  pub external_ref : Key
  pub input_atomic_filled : ℕ
  pub output_atomic_filled : ℕ
  pub fee_atomic : ℕ
  pub observed_at_epoch_s : ℕ
  pub source : Key

-- `FillReceiptV0.__post_init__`; the fee is not negative by its type
unfoldable pub make_receipt : FillReceipt → Result FillReceipt
make_receipt r = do
  require (ltb 0 r.input_atomic_filled && ltb 0 r.output_atomic_filled) qnty_spot_error
  ok r

unfoldable pub prorated_min_output : FillReceipt → Bounds → Result ℕ
unfolding ceil_div
prorated_min_output r b = ceil_div (b.min_output_atomic * r.input_atomic_filled) b.max_input_atomic

-- `and` does not ask for the floor where the input is already above the maximum
unfoldable pub satisfies : FillReceipt → Bounds → Result Bool
unfolding prorated_min_output
satisfies r b =
    if leb r.input_atomic_filled b.max_input_atomic
    then (do floor ← prorated_min_output r b; ok (leb floor r.output_atomic_filled))
    else ok false
