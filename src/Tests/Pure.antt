-- ===== src/Tests/Pure.antt =====
-- Runs of the economics and the state machine.
use qnty_spot.Identity.{EvmRef, make_evm, identity_string, evm_address, evm_address-identity_string}
use qnty_spot.Ledger.Atomics.Text.{Chars}
use qnty_spot.Prelude.{◌++◌}
use qnty_spot.Ledger.Atomics.Text.{
  without_newline, encode_atomic, decode_atomic, decode_atomic-encode_atomic,
}
use qnty_spot.Prelude.{some}
use qnty_spot.Prelude.{
  ℕ, ◌+◌, ◌*◌, ◌≡◌, ◌≤◌, ◌<◌, ◌↔◌, if◌then◌else◌, refl, true, false, not, none, [], ◌∷◌, arith,
}
use qnty_spot.Errors.{ok}
use qnty_spot.States.{
  armed, triggered, quote_pinned, simulated, reserved, signed, submitted, included, confirmed,
  reconciled, filled, safe_halt, rank, is_legal_transition, all_illegal_transitions,
}
use qnty_spot.States.Lifecycle.{
  Lifecycle, here, then_to, steps, visits, is_committed, lists_pair, lifecycle_terminates,
  committed_stays_committed, terminal_exactly, filled_was_reserved_and_proved,
  all_illegal_transitions_exact,
}
use qnty_spot.Fraction.{Fraction, ◌≤ℚ◌}
use qnty_spot.Fraction
use qnty_spot.Domain.{buy, is_buy, satisfies, prorated_min_output, ceil_div, make_bounds}
use qnty_spot.Domain.Ceiling.{satisfies_exactly}
use qnty_spot.Economics.{
  bps, build_bounds, leg_limit_price, min_output_atomic, action_deadline, economic_action_id,
  build_intent,
}
use qnty_spot.Economics.Limits.{
  WithinLimit, leg_limit_price-Clamped, min_output_atomic_least, action_deadline_ahead,
}
use qnty_spot.Economics.Fills.{fill-WithinLimit, build_intent_exposure}
use qnty_spot.Economics.Exits.{total_disposed, exits_within_inventory}
use qnty_spot.Tests.Market.{rung, exit_rung, policy, receipt, digest, first_cycle, bounds, bought}

built : build_bounds policy rung 1010 none ≡ ok bounds
unfolding build_bounds make_bounds action_deadline leg_limit_price min_output_atomic ceil_div
built = refl

fill-WithinLimit_example : WithinLimit buy (leg_limit_price policy rung) 2 2 300 150
unfolding satisfies prorated_min_output ceil_div
fill-WithinLimit_example = fill-WithinLimit policy rung 1010 none bounds receipt built refl

satisfies_exactly_example :
    (satisfies receipt bounds ≡ ok true) ↔ ((300 ≤ 300) × (149 * 300 ≤ 150 * 300))
satisfies_exactly_example = satisfies_exactly receipt bounds (omega arith)

leg_limit_price-Clamped_example :
    (leg_limit_price policy rung ≤ℚ policy.max_executable_price)
    × (leg_limit_price policy rung
        ≤ℚ Fraction.mul rung.trigger_price (Fraction.plus (Fraction.integer 1) (bps 100)))
leg_limit_price-Clamped_example = leg_limit_price-Clamped policy rung

min_output_atomic_least_example :
    (least : ℕ) × (min_output_atomic buy 300 (record { numerator = 101; denominator = 50 }) 2 2
      ≡ ok least)
    × ((output : ℕ)
        → (least ≤ output)
          ↔ WithinLimit buy (record { numerator = 101; denominator = 50 }) 2 2 300 output)
min_output_atomic_least_example =
    min_output_atomic_least buy 300 2 2 (record { numerator = 101; denominator = 50 }) (omega arith)
      (omega arith)

action_deadline_ahead_example : (1000 ≤ 1010) × (1010 < 1070) × (1070 ≤ 2000) × (1070 ≤ 1010 + 60)
unfolding action_deadline
action_deadline_ahead_example = action_deadline_ahead policy 1010 1070 (omega arith) refl

exits_within_inventory_example : total_disposed (exit_rung ∷ exit_rung ∷ []) 151 ≤ 151
exits_within_inventory_example =
    exits_within_inventory (exit_rung ∷ exit_rung ∷ []) 151 (omega arith, (omega arith, tt))
      (omega arith)

build_intent_exposure_example :
    (armed ≡ armed)
    × (build_bounds policy rung 1010 none ≡ ok bounds)
    × (bought.quote_exposure_atomic ≡ (if is_buy buy then 300 else 0))
    × (300 ≤ 400)
    × ((if is_buy buy then receipt.input_atomic_filled else 0) ≤ 300)
unfolding build_intent build_bounds make_bounds action_deadline leg_limit_price min_output_atomic
    ceil_div economic_action_id satisfies
build_intent_exposure_example =
    build_intent_exposure digest policy first_cycle rung 1010 none bought receipt refl refl

abbrev to_reserved : Lifecycle armed reserved
unfolding is_legal_transition
to_reserved =
    then_to reserved
      (then_to simulated (then_to quote_pinned (then_to triggered here refl) refl) refl) refl

abbrev signed_to_reconciled : Lifecycle signed reconciled
unfolding is_legal_transition
signed_to_reconciled =
    then_to reconciled
      (then_to confirmed (then_to included (then_to submitted here refl) refl) refl) refl

abbrev to_filled : Lifecycle armed filled
unfolding is_legal_transition
to_filled =
    then_to filled
      (then_to reconciled
        (then_to confirmed
          (then_to included (then_to submitted (then_to signed to_reserved refl) refl) refl) refl)
        refl)
      refl

lifecycle_terminates_example : (steps to_filled + rank armed ≤ rank filled) × (rank filled ≤ 14)
lifecycle_terminates_example = lifecycle_terminates to_filled

committed_stays_committed_example : is_committed reconciled ≡ true
committed_stays_committed_example = committed_stays_committed signed_to_reconciled refl

filled_was_reserved_and_proved_example :
    (visits to_filled reserved ≡ true)
    × (visits to_filled included ≡ true)
    × (visits to_filled confirmed ≡ true)
    × (visits to_filled reconciled ≡ true)
filled_was_reserved_and_proved_example = filled_was_reserved_and_proved to_filled

terminal_exactly_example : (is_legal_transition signed safe_halt ≡ true) × (false ≡ false)
terminal_exactly_example = terminal_exactly signed armed

all_illegal_transitions_exact_example :
    lists_pair filled armed all_illegal_transitions ≡ not (is_legal_transition filled armed)
all_illegal_transitions_exact_example = all_illegal_transitions_exact filled armed

-- "12" and a newline
decode_atomic-encode_atomic_example :
    (decode_atomic (some (49 ∷ 50 ∷ 10 ∷ [])) ≡ ok 12)
    ↔ (without_newline (49 ∷ 50 ∷ 10 ∷ []) ≡ encode_atomic 12)
decode_atomic-encode_atomic_example = decode_atomic-encode_atomic (49 ∷ 50 ∷ 10 ∷ []) 12

abbrev ten : Chars
ten = 97 ∷ 97 ∷ 97 ∷ 97 ∷ 97 ∷ 97 ∷ 97 ∷ 97 ∷ 97 ∷ 97 ∷ []

abbrev evm_ref : EvmRef
evm_ref = record { chain_id = 57073; contract_address = 48 ∷ 120 ∷ (ten ++ ten ++ ten ++ ten) }

making : make_evm evm_ref ≡ ok evm_ref
unfolding make_evm
making = refl

evm_address-identity_string_example :
    evm_address (identity_string evm_ref) 57073 ≡ ok evm_ref.contract_address
evm_address-identity_string_example = evm_address-identity_string evm_ref 57073 making
