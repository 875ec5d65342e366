-- ===== src/Tests/Market.antt =====
-- One instrument against one quote, a policy with one rung to buy and one to sell.
use qnty_spot.Prelude.{none, some, [], ◌∷◌}
use qnty_spot.Domain.{
  Key, buy, sell, entry, exit, Level, Instrument, Policy, FillReceipt, CycleId, Bounds, Intent,
}
use qnty_spot.States.{armed}
use qnty_spot.Economics.{ActionKey}

abbrev pub coin : Instrument
coin = record { instrument_id = 1; network_id = 5; decimals = 2; identity_digest = 101 }

abbrev pub cash : Instrument
cash = record { instrument_id = 2; network_id = 5; decimals = 2; identity_digest = 102 }

-- buys for 3 units of cash where the price falls to 2
abbrev pub rung : Level
rung = record {
  level_id = 11;
  kind = entry;
  side = buy;
  index = 0;
  trigger_price = record { numerator = 2; denominator = 1 };
  input_amount = some (record { numerator = 3; denominator = 1 });
  input_ratio = none;
}

-- sells half of the inventory where the price rises to 4
abbrev pub exit_rung : Level
exit_rung = record {
  level_id = 12;
  kind = exit;
  side = sell;
  index = 0;
  trigger_price = record { numerator = 4; denominator = 1 };
  input_amount = none;
  input_ratio = some (record { numerator = 1; denominator = 2 });
}

abbrev pub policy : Policy
policy = record {
  policy_id = 7;
  canonical = 70;
  base = coin;
  quote = cash;
  side = buy;
  entry_ladder = record { kind = entry; side = buy; levels = rung ∷ [] };
  exit_ladder = record { kind = exit; side = sell; levels = exit_rung ∷ [] };
  budget = record {
    allocation = 500;
    per_order_cap = 400;
    per_instrument_cap = 600;
    per_network_cap = 700;
    global_cap = 800;
    reserved_cash = 100;
  };
  max_executable_price = record { numerator = 3; denominator = 1 };
  min_executable_price = record { numerator = 1; denominator = 1 };
  max_price_impact_bps = 50;
  max_slippage_bps = 100;
  valid_from_epoch_s = 1000;
  expiry_epoch_s = 2000;
  quote_ttl_s = 60;
  max_cycles = 2;
  rearm_hysteresis_bps = 200;
}

-- a digest for the five parts of an economic identity
abbrev pub digest : ActionKey → Key
digest k = k.level_id

abbrev pub first_cycle : CycleId
first_cycle = record { policy = 7; index = 0 }

abbrev pub receipt : FillReceipt
receipt = record {
  receipt_id = 31;
  economic_action_id = 11;
  external_ref = 41;
  input_atomic_filled = 300;
  output_atomic_filled = 150;
  fee_atomic = 1;
  observed_at_epoch_s = 1040;
  source = 51;
}

-- the bounds of the purchase, and its intent
abbrev pub bounds : Bounds
bounds = record {
  side = buy;
  input_instrument_id = 2;
  output_instrument_id = 1;
  max_input_atomic = 300;
  min_output_atomic = 149;
  limit_price = record { numerator = 20200; denominator = 10000 };
  max_price_impact_bps = 50;
  max_slippage_bps = 100;
  deadline_epoch_s = 1070;
}

abbrev pub bought : Intent
bought = record {
  economic_action_id = 11;
  policy_id = 7;
  instrument_id = 1;
  quote_instrument_id = 2;
  network_id = 5;
  cycle_id = first_cycle;
  level_id = 11;
  side = buy;
  kind = entry;
  bounds = bounds;
  quote_exposure_atomic = 300;
  state = armed;
}
