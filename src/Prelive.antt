-- ===== src/Prelive.antt =====
-- qntyspot/prelive_economics.py: the output floor of a narrowed execution, and the ceilings on positions.
use qnty_spot.Prelude.{ℕ, ◌*◌, not, ◌&&◌, ◌||◌, ltb, leb}
use qnty_spot.Errors.{Result, ok, ◌>>◌, require, qnty_spot_error, level_not_executable}
use qnty_spot.Domain.{Bounds, ceil_div}

unfoldable pub prorated_min_output_atomic : Bounds → ℕ → Result ℕ
prorated_min_output_atomic b input = do
  require (ltb 0 input) qnty_spot_error
  require (leb input b.max_input_atomic) qnty_spot_error
  ceil_div (b.min_output_atomic * input) b.max_input_atomic

-- `DustLiveConcurrencyV0`
pub record Concurrency : Type 0 where
  pub max_open_positions_global : ℕ
  pub max_open_positions_per_network : ℕ
  pub max_open_positions_per_instrument : ℕ
  pub max_in_flight_entries : ℕ

unfoldable pub make_concurrency : Concurrency → Result Concurrency
make_concurrency c = do
  require (ltb 0 c.max_open_positions_global && ltb 0 c.max_open_positions_per_network)
      qnty_spot_error
  require (ltb 0 c.max_open_positions_per_instrument && ltb 0 c.max_in_flight_entries)
      qnty_spot_error
  require (leb c.max_open_positions_per_network c.max_open_positions_global) qnty_spot_error
  require (leb c.max_open_positions_per_instrument c.max_open_positions_per_network) qnty_spot_error
  ok c

-- `PositionConcurrencySnapshotV0`
pub record Snapshot : Type 0 where
  pub open_positions_global : ℕ
  pub open_positions_network : ℕ
  pub open_positions_instrument : ℕ
  pub in_flight_entries : ℕ

unfoldable pub make_snapshot : Snapshot → Result Snapshot
make_snapshot s = do
  require (leb s.open_positions_network s.open_positions_global) qnty_spot_error
  require (leb s.open_positions_instrument s.open_positions_network) qnty_spot_error
  ok s

unfoldable pub assert_new_entry_concurrency : Concurrency → Snapshot → Result (Unit {0})
assert_new_entry_concurrency c s =
    require
      (not (
        leb c.max_open_positions_global s.open_positions_global
        || leb c.max_open_positions_per_network s.open_positions_network
        || leb c.max_open_positions_per_instrument s.open_positions_instrument
        || leb c.max_in_flight_entries s.in_flight_entries))
      level_not_executable
