-- ===== src/Envelope.antt =====
-- Venue responses, envelopes and approvals of qntyspot/execution_contract.py, and the readiness of a
-- response. Addresses and digests are numbers; their form is not modelled, but that the zero address
-- is refused is.
pub mod Calldata
pub mod Gates
use qnty_spot.Prelude.{
  ℕ, ◌-◌, ◌^◌, ◌≡◌, Bool, true, false, not, ◌&&◌, ◌||◌, Option, none, some, List, [], ◌∷◌, ◌++◌,
  ltb, leb, ◌==◌, if◌then◌else◌,
}
use qnty_spot.Errors.{
  Error, Result, ok, err, ◌>>=◌, ◌>>◌, require, envelope_validation, approval_contract,
}
use qnty_spot.Domain.{Key}

abbrev pub max_uint256 : ℕ
max_uint256 = 2 ^ 256 - 1

-- `_address`, `_atomic` and `_positive_int`
abbrev pub is_address : Key → Bool
is_address a = not (a == 0)

abbrev pub is_positive_atomic : ℕ → Bool
is_positive_atomic n = ltb 0 n && leb n max_uint256

abbrev pub is_atomic : ℕ → Bool
is_atomic n = leb n max_uint256

abbrev pub if_given : (ℕ → Bool) → Option ℕ → Bool
if_given test none = true
if_given test (some n) = test n

abbrev pub given : Option ℕ → Bool
given none = false
given (some n) = true

-- `VenueQuoteResponseV0`; of the invalid sources only whether there are any is asked
pub record VenueResponse : Type 0 where
  pub chain_id : ℕ
  pub taker_address : Key
  pub sell_token : Key
  pub buy_token : Key
  pub sell_amount_atomic : ℕ
  pub buy_amount_atomic : ℕ
  pub min_buy_amount_atomic : Option ℕ
  pub allowance_target : Key
  pub transaction_to : Key
  pub transaction_value_atomic : ℕ
  pub calldata_sha256 : Key
  pub calldata_length : ℕ
  pub block_number : ℕ
  pub quote_mode : Key
  pub quoted_at_epoch_s : ℕ
  pub liquidity_available : Bool
  pub simulation_incomplete : Bool
  pub invalid_sources : Bool
  pub balance_issue : Bool
  pub allowance_issue_actual_atomic : Option ℕ
  pub allowance_issue_spender : Option Key

unfoldable pub make_response : VenueResponse → Result VenueResponse
make_response r = do
  require (ltb 0 r.chain_id) envelope_validation
  require (is_address r.taker_address && is_address r.sell_token && is_address r.buy_token)
      envelope_validation
  require (is_positive_atomic r.sell_amount_atomic && is_positive_atomic r.buy_amount_atomic)
      envelope_validation
  require (if_given is_positive_atomic r.min_buy_amount_atomic) envelope_validation
  require (is_address r.allowance_target && is_address r.transaction_to) envelope_validation
  require (is_atomic r.transaction_value_atomic && ltb 0 r.calldata_length) envelope_validation
  require (if_given is_atomic r.allowance_issue_actual_atomic) envelope_validation
  require (if_given is_address r.allowance_issue_spender) envelope_validation
  require
      (if given r.allowance_issue_actual_atomic
        then given r.allowance_issue_spender
        else not (given r.allowance_issue_spender))
      envelope_validation
  ok r

-- `ZeroXExecutionExpectationV0`
pub record Expected : Type 0 where
  pub chain_id : ℕ
  pub taker_address : Key
  pub sell_token : Key
  pub buy_token : Key
  pub sell_amount_atomic : ℕ
  pub min_output_atomic : ℕ
  pub max_quote_age_s : ℕ
  pub quote_mode : Key

unfoldable pub make_expected : Expected → Result Expected
make_expected x = do
  require (ltb 0 x.chain_id && is_address x.taker_address) envelope_validation
  require (is_address x.sell_token && is_address x.buy_token) envelope_validation
  require (not (x.sell_token == x.buy_token)) envelope_validation
  require (is_positive_atomic x.sell_amount_atomic && is_positive_atomic x.min_output_atomic)
      envelope_validation
  require (ltb 0 x.max_quote_age_s) envelope_validation
  ok x

-- `ExecutionEnvelopeV0`; the identifiers of the plan and the quote are evidence that no gate reads
pub record Envelope : Type 0 where
  pub session_identity_digest : Key
  pub economic_action_id : Key
  pub chain_id : ℕ
  pub taker_address : Key
  pub input_instrument_id : Key
  pub output_instrument_id : Key
  pub max_input_atomic : ℕ
  pub min_output_atomic : ℕ
  pub transaction_to : Key
  pub transaction_value_atomic : ℕ
  pub calldata_sha256 : Key
  pub calldata_length : ℕ
  pub allowance_target : Option Key
  pub account_nonce : ℕ
  pub gas_limit_ceiling : ℕ
  pub max_fee_per_gas_ceiling_atomic : ℕ
  pub max_priority_fee_per_gas_ceiling_atomic : ℕ
  pub deadline_epoch_s : ℕ
  pub authority_policy_digest : Key
  pub venue_block_number : ℕ
  pub constructed_at_epoch_s : ℕ

unfoldable pub make_envelope : Envelope → Result Envelope
make_envelope v = do
  require (ltb 0 v.chain_id && is_address v.taker_address) envelope_validation
  require (not (v.input_instrument_id == v.output_instrument_id)) envelope_validation
  require (is_positive_atomic v.max_input_atomic && is_positive_atomic v.min_output_atomic)
      envelope_validation
  require (is_address v.transaction_to && is_atomic v.transaction_value_atomic) envelope_validation
  require (ltb 0 v.calldata_length && if_given is_address v.allowance_target) envelope_validation
  require (ltb 0 v.gas_limit_ceiling && is_positive_atomic v.max_fee_per_gas_ceiling_atomic)
      envelope_validation
  require (is_atomic v.max_priority_fee_per_gas_ceiling_atomic) envelope_validation
  require (leb v.max_priority_fee_per_gas_ceiling_atomic v.max_fee_per_gas_ceiling_atomic)
      envelope_validation
  require (ltb 0 v.deadline_epoch_s) envelope_validation
  ok v

-- `ApprovalActionV0`
pub record Approval : Type 0 where
  pub session_identity_digest : Key
  pub taker_address : Key
  pub token_address : Key
  pub spender_address : Key
  pub requested_allowance_atomic : ℕ
  pub observed_prior_allowance_atomic : ℕ
  pub authority_policy_digest : Key
  pub deadline_epoch_s : ℕ
  pub economic_action_id : Option Key

unfoldable pub make_approval : Approval → Result Approval
make_approval a = do
  require (is_address a.taker_address && is_address a.token_address && is_address a.spender_address)
      approval_contract
  require (is_positive_atomic a.requested_allowance_atomic) approval_contract
  require (not (a.requested_allowance_atomic == max_uint256)) approval_contract
  require (is_atomic a.observed_prior_allowance_atomic && ltb 0 a.deadline_epoch_s)
      approval_contract
  ok a

-- The reasons, in the order of their names.
pub data Reason : Type 0 where
  insufficient_balance invalid_sources_named liquidity_unavailable quote_time_in_the_future : Reason
  simulation_unfinished stale_quote allowance_insufficient : Reason

pub data Readiness : Type 0 where
  executable : Readiness
  approval_required : (required_allowance_atomic : ℕ) (required_spender : Key) → Readiness
  not_executable : List Reason → Readiness

abbrev reason_if : Bool → Reason → List Reason
reason_if true r = r ∷ []
reason_if false r = []

-- why a response that keeps to the contract cannot be executed now
unfoldable pub reasons : Expected → VenueResponse → ℕ → List Reason
reasons x r now =
    let future = ltb now r.quoted_at_epoch_s in
    reason_if r.balance_issue insufficient_balance
    ++ reason_if r.invalid_sources invalid_sources_named
    ++ reason_if (not r.liquidity_available) liquidity_unavailable
    ++ reason_if future quote_time_in_the_future
    ++ reason_if r.simulation_incomplete simulation_unfinished
    ++ reason_if (not future && ltb x.max_quote_age_s (now - r.quoted_at_epoch_s)) stale_quote

abbrev answer : List Reason → Option ℕ → Expected → VenueResponse → Readiness
answer (why ∷ rest) allowance x r = not_executable (why ∷ rest)
answer [] (some actual) x r = approval_required x.sell_amount_atomic r.allowance_target
answer [] none x r = executable

abbrev carries_minimum : Option ℕ → ℕ → ℕ → Bool
carries_minimum none least quoted = false
carries_minimum (some n) least quoted = leb least n && leb n quoted

-- A violation of the contract raises; a condition that is not ready is answered.
unfoldable pub evaluate_readiness : Expected → VenueResponse → ℕ → Result Readiness
evaluate_readiness x r now = do
  require (r.chain_id == x.chain_id && r.taker_address == x.taker_address) envelope_validation
  require (r.sell_token == x.sell_token && r.buy_token == x.buy_token) envelope_validation
  require (r.quote_mode == x.quote_mode) envelope_validation
  require (r.sell_amount_atomic == x.sell_amount_atomic) envelope_validation
  require (r.transaction_value_atomic == 0) envelope_validation
  require (r.transaction_to == r.allowance_target) envelope_validation
  require (if_given (λ s. s == r.allowance_target) r.allowance_issue_spender) envelope_validation
  require (carries_minimum r.min_buy_amount_atomic x.min_output_atomic r.buy_amount_atomic)
      envelope_validation
  ok (answer (reasons x r now) r.allowance_issue_actual_atomic x r)
