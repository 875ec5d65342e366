-- ===== src/Tests/Envelope.antt =====
-- An envelope for the purchase, with a call of one Uniswap action, and an approval for it.
use qnty_spot.Prelude.{
  ℕ, zero, suc, ◌+◌, ◌*◌, ◌/◌, ◌%◌, ◌≡◌, ◌≤◌, ◌<◌, refl, true, false, none, some, [], ◌∷◌, ◌++◌,
  All, any, length,
}
use qnty_spot.Errors.{ok, authority_ceiling, approval_contract}
use qnty_spot.Domain.{ceil_div}
use qnty_spot.Prelive.{prorated_min_output_atomic}
use qnty_spot.Authority.{assert_static_binding, assert_binding, assert_within_capital_ceiling}
use qnty_spot.Envelope.{VenueResponse, Expected, Envelope, Approval, reasons, evaluate_readiness}
use qnty_spot.Envelope.Calldata.{
  Bytes, Action, native_check, check_slippage, uniswap_v3, uniswap_v2, basic, dodo_v1, dodo_v2,
  velodrome, maverick_v2, euler_swap, renegade, positive_slippage, Selectors, is_settlement,
  calldata_word, calldata_address, check_own, check_address, check_ppm, check_minimum, check_bool,
  validate_semantics,
}
use qnty_spot.Envelope.Calldata.Actions.{
  known_action, dynamic_value, decode_action, decode_each, decode_actions,
}
use qnty_spot.Envelope.Calldata.Decode.{Call, dynamic_bytes, decode_inner, check_call, decode_call}
use qnty_spot.Envelope.Calldata.Bound.{IsBound, all_expected, calldata_binds}
use qnty_spot.Envelope.Gates.{
  Texts, instrument_address, assert_matches_response, check_calldata, check_provenance,
  check_bounds, assert_envelope_admissible, assert_approval_admissible,
}
use qnty_spot.Envelope.Gates.Limits.{envelope_within, calldata_within}
use qnty_spot.Envelope.Gates.Approvals.{approval_exact}
use qnty_spot.Tests.Market.{bounds}
use qnty_spot.Tests.Authority.{digests, authority, session}

abbrev number_of : Action → ℕ
number_of native_check = 10
number_of check_slippage = 11
number_of uniswap_v3 = 12
number_of uniswap_v2 = 13
number_of basic = 14
number_of dodo_v1 = 15
number_of dodo_v2 = 16
number_of velodrome = 17
number_of maverick_v2 = 18
number_of euler_swap = 19
number_of renegade = 20
number_of positive_slippage = 21

abbrev selectors : Selectors
selectors = record { exec_selector = 1; execute_selector = 2; action_selector = number_of }

abbrev zeros : ℕ → Bytes
zeros zero = []
zeros (suc n) = 0 ∷ zeros n

-- a number of two bytes as a word
abbrev word : ℕ → Bytes
word n = zeros 30 ++ (n / 256 ∷ n % 256 ∷ [])

abbrev selector : ℕ → Bytes
selector n = zeros 3 ++ (n ∷ [])

abbrev swap : Bytes
swap = selector 13 ++ word 9 ++ word 22 ++ word 0 ++ word 55 ++ word 0 ++ word 150

abbrev settler_call : Bytes
settler_call =
    selector 2
    ++ word 9
    ++ word 21
    ++ word 150
    ++ word 160
    ++ word 0
    ++ word 1
    ++ word 32
    ++ word 196
    ++ swap
    ++ zeros 28

abbrev calldata : Bytes
calldata =
    selector 1
    ++ word 99
    ++ word 22
    ++ word 300
    ++ word 99
    ++ word 160
    ++ word 484
    ++ settler_call
    ++ zeros 28

abbrev swap_args : Bytes
swap_args = word 9 ++ word 22 ++ word 0 ++ word 55 ++ word 0 ++ word 150

abbrev call : Call
call = record {
  sell_token = 22;
  sell_amount_atomic = 300;
  settler_target = 99;
  recipient = 9;
  buy_token = 21;
  min_output_atomic = 150;
  actions =
      record { start = 228; after = 484; action = uniswap_v2; args = swap_args; value = [] } ∷ [];
}

decoding :
    decode_call selectors (all_expected 22 21 9 300 150) (some 88) (some 88) calldata ≡ ok call
unfolding decode_call dynamic_bytes decode_inner check_call decode_actions decode_each decode_action
    known_action dynamic_value validate_semantics check_own check_address check_ppm check_minimum
    calldata_word calldata_address check_bool
decoding = refl

calldata_binds_example :
    (call.sell_token ≡ 22)
    × (call.buy_token ≡ 21)
    × (call.sell_amount_atomic ≡ 300)
    × (call.recipient ≡ 9)
    × (150 ≤ 150)
    × (any (λ d. is_settlement d.action) call.actions ≡ true)
    × All (IsBound 22 21 9 300 150) call.actions
calldata_binds_example =
    calldata_binds selectors 22 21 9 300 150 (some 88) (some 88) calldata call decoding

abbrev texts : Texts
texts = record {
  evm_instrument = λ k. some (record { chain = 5; address = k + 20 });
  network_id_for_chain = λ c. c;
  calldata_digest = λ bytes. length bytes;
}

abbrev response : VenueResponse
response = record {
  chain_id = 5;
  taker_address = 9;
  sell_token = 22;
  buy_token = 21;
  sell_amount_atomic = 300;
  buy_amount_atomic = 152;
  min_buy_amount_atomic = some 150;
  allowance_target = 88;
  transaction_to = 88;
  transaction_value_atomic = 0;
  calldata_sha256 = 708;
  calldata_length = 708;
  block_number = 100;
  quote_mode = 0;
  quoted_at_epoch_s = 140;
  liquidity_available = true;
  simulation_incomplete = false;
  invalid_sources = false;
  balance_issue = false;
  allowance_issue_actual_atomic = none;
  allowance_issue_spender = none;
}

abbrev expected : Expected
expected = record {
  chain_id = 5;
  taker_address = 9;
  sell_token = 22;
  buy_token = 21;
  sell_amount_atomic = 300;
  min_output_atomic = 150;
  max_quote_age_s = 60;
  quote_mode = 0;
}

abbrev envelope : Envelope
envelope = record {
  session_identity_digest = 7;
  economic_action_id = 11;
  chain_id = 5;
  taker_address = 9;
  input_instrument_id = 2;
  output_instrument_id = 1;
  max_input_atomic = 300;
  min_output_atomic = 150;
  transaction_to = 88;
  transaction_value_atomic = 0;
  calldata_sha256 = 708;
  calldata_length = 708;
  allowance_target = some 88;
  account_nonce = 0;
  gas_limit_ceiling = 1;
  max_fee_per_gas_ceiling_atomic = 1;
  max_priority_fee_per_gas_ceiling_atomic = 0;
  deadline_epoch_s = 200;
  authority_policy_digest = 1;
  venue_block_number = 100;
  constructed_at_epoch_s = 150;
}

admitting :
    assert_envelope_admissible texts digests selectors envelope session authority bounds 11 expected
      response 100 150
      (some calldata)
    ≡ ok tt
unfolding assert_envelope_admissible evaluate_readiness reasons assert_matches_response
    instrument_address check_calldata check_provenance assert_binding assert_static_binding
    check_bounds prorated_min_output_atomic ceil_div assert_within_capital_ceiling decode_call
    dynamic_bytes decode_inner check_call decode_actions decode_each decode_action known_action
    dynamic_value validate_semantics check_own check_address check_ppm check_minimum calldata_word
    calldata_address check_bool
admitting = refl

envelope_within_example :
    (envelope.economic_action_id ≡ 11)
    × (assert_binding digests session authority 150 authority_ceiling ≡ ok tt)
    × (300 ≤ 300)
    × (300 ≤ 300)
    × (100 + 300 ≤ 500)
    × (149 * 300 ≤ 150 * 300)
    × (envelope.transaction_value_atomic ≡ 0)
    × (150 < 200)
    × (200 ≤ 1070)
envelope_within_example =
    envelope_within texts digests selectors envelope session authority bounds 11 expected response
      100 150 (some calldata) admitting

calldata_within_example :
    (c : Call) × (decode_call selectors (all_expected 22 21 9 300 150) (some 88) (some 88) calldata
      ≡ ok c)
    × (envelope.calldata_sha256 ≡ texts.calldata_digest calldata)
    × (c.sell_amount_atomic ≡ 300)
    × (c.sell_token ≡ 22)
    × (c.buy_token ≡ 21)
    × (c.recipient ≡ 9)
    × (150 ≤ c.min_output_atomic)
    × (149 * 300 ≤ 150 * 300)
    × (any (λ d. is_settlement d.action) c.actions ≡ true)
    × All (IsBound 22 21 9 300 150) c.actions
calldata_within_example =
    calldata_within texts digests selectors envelope session authority bounds 11 expected response
      100 150 calldata admitting

abbrev unapproved : VenueResponse
unapproved = record response {
  allowance_issue_actual_atomic = some 0;
  allowance_issue_spender = some 88;
}

abbrev approval : Approval
approval = record {
  session_identity_digest = 7;
  taker_address = 9;
  token_address = 22;
  spender_address = 88;
  requested_allowance_atomic = 300;
  observed_prior_allowance_atomic = 0;
  authority_policy_digest = 1;
  deadline_epoch_s = 200;
  economic_action_id = some 11;
}

approving :
    assert_approval_admissible digests approval session authority expected unapproved 150 ≡ ok tt
unfolding assert_approval_admissible evaluate_readiness reasons assert_binding assert_static_binding
approving = refl

approval_exact_example :
    (approval.requested_allowance_atomic ≡ 300)
    × (approval.spender_address ≡ 88)
    × (reasons expected unapproved 150 ≡ [])
    × (approval.token_address ≡ 22)
    × (approval.taker_address ≡ 9)
    × (assert_binding digests session authority 150 approval_contract ≡ ok tt)
    × (150 < 200)
approval_exact_example =
    approval_exact digests approval session authority expected unapproved 150 approving
