-- ===== src/Envelope/Gates.antt =====
-- The composite gates of qntyspot/execution_contract.py: an envelope against the response, the session,
-- the authority and the bounds, and an approval against what a response requires.
pub mod Limits
pub mod Approvals
use qnty_spot.Prelude.{
  ℕ, ◌+◌, ◌≡◌, Bool, true, false, not, ◌&&◌, ◌||◌, Option, none, some, List, [], ◌∷◌, length, ltb,
  leb, ◌==◌, if◌then◌else◌,
}
use qnty_spot.Errors.{
  Error, Result, ok, err, ◌>>=◌, ◌>>◌, require, envelope_validation, approval_contract,
  authority_ceiling,
}
use qnty_spot.Domain.{Key, Bounds}
use qnty_spot.Prelive.{prorated_min_output_atomic}
use qnty_spot.Authority.{
  AuthorityPolicy, Session, Digests, assert_binding, assert_within_capital_ceiling,
}
use qnty_spot.Envelope.{
  VenueResponse, Expected, Envelope, Approval, is_address, Readiness, executable, approval_required,
  not_executable, evaluate_readiness,
}
use qnty_spot.Envelope.Calldata.{Bytes, Selectors, Binding}
use qnty_spot.Envelope.Calldata.Decode.{Call, decode_call}

-- An instrument identifier "evm:<chain>:<address>".
pub record EvmInstrument : Type 0 where
  pub chain : ℕ
  pub address : Key

-- What is read of texts that are numbers here, and the SHA-256 digest of calldata.
pub record Texts : Type 0 where
  pub evm_instrument : Key → Option EvmInstrument
  pub network_id_for_chain : ℕ → Key
  pub calldata_digest : Bytes → Key

abbrev minimum_carried : ℕ → Option ℕ → Bool
minimum_carried least none = false
minimum_carried least (some n) = leb least n

abbrev same_target : Option Key → Key → Bool
same_target none target = false
same_target (some a) target = a == target

abbrev pub response_binding : Expected → VenueResponse → Binding
response_binding x r = record {
  sell_token = some r.sell_token;
  buy_token = some r.buy_token;
  taker_address = some r.taker_address;
  sell_amount_atomic = some r.sell_amount_atomic;
  min_output_atomic = some x.min_output_atomic;
  transaction_value_atomic = r.transaction_value_atomic;
}

abbrev pub is_executable : Readiness → Bool
is_executable executable = true
is_executable _ = false

module _ (t : Texts) where
  -- `_instrument_address`
  unfoldable pub instrument_address : Key → ℕ → Result Key
  instrument_address id chain = elim (t.evm_instrument id) [
    | none ↦ err envelope_validation
    | some i ↦ do
      require (i.chain == chain) envelope_validation
      require (is_address i.address) envelope_validation
      ok i.address
  ]

  unfoldable pub assert_matches_response : Envelope → VenueResponse → Result (Unit {0})
  assert_matches_response v r = do
    require (v.chain_id == r.chain_id && v.taker_address == r.taker_address) envelope_validation
    require (v.transaction_to == r.transaction_to) envelope_validation
    require (v.transaction_value_atomic == r.transaction_value_atomic) envelope_validation
    require (v.calldata_sha256 == r.calldata_sha256 && v.calldata_length == r.calldata_length)
        envelope_validation
    require (same_target v.allowance_target r.allowance_target) envelope_validation
    require (v.max_input_atomic == r.sell_amount_atomic) envelope_validation
    input ← instrument_address v.input_instrument_id r.chain_id
    require (input == r.sell_token) envelope_validation
    output ← instrument_address v.output_instrument_id r.chain_id
    require (output == r.buy_token) envelope_validation
    require (minimum_carried v.min_output_atomic r.min_buy_amount_atomic) envelope_validation

  unfoldable pub check_calldata :
      Selectors → Envelope → Expected → VenueResponse → Option Bytes → Result (Unit {0})
  check_calldata s v x r none = ok tt
  check_calldata s v x r (some bytes) = do
    c ← decode_call s (response_binding x r) (some r.transaction_to) (some r.allowance_target) bytes
    require (v.calldata_sha256 == t.calldata_digest bytes) envelope_validation
    require (v.calldata_length == length bytes) envelope_validation
    require (leb v.min_output_atomic c.min_output_atomic) envelope_validation

  -- who built the envelope and under what
  unfoldable pub check_provenance :
      Digests → Envelope → Session → AuthorityPolicy → Key → ℕ → Result (Unit {0})
  check_provenance d v s a action now = do
    require (v.session_identity_digest == d.identity_digest s) envelope_validation
    require (v.economic_action_id == action) envelope_validation
    require (v.authority_policy_digest == d.policy_digest a) envelope_validation
    assert_binding d s a now authority_ceiling
    require (t.network_id_for_chain v.chain_id == s.network_id) envelope_validation
    require (v.taker_address == s.taker_address) envelope_validation

  -- what the envelope may spend, and for what
  unfoldable pub check_bounds : Envelope → Expected → Bounds → ℕ → Result (Unit {0})
  check_bounds v x b now = do
    require (v.input_instrument_id == b.input_instrument_id) envelope_validation
    require (v.output_instrument_id == b.output_instrument_id) envelope_validation
    input ← instrument_address v.input_instrument_id v.chain_id
    output ← instrument_address v.output_instrument_id v.chain_id
    require (leb v.max_input_atomic b.max_input_atomic) envelope_validation
    least ← prorated_min_output_atomic b v.max_input_atomic
    require (leb least x.min_output_atomic) envelope_validation
    require (leb least v.min_output_atomic) envelope_validation
    require (leb v.deadline_epoch_s b.deadline_epoch_s) envelope_validation
    require (ltb now v.deadline_epoch_s) envelope_validation

  unfoldable pub assert_envelope_admissible :
      Digests
      → Selectors
      → Envelope
      → Session
      → AuthorityPolicy
      → Bounds
      → Key
      → Expected
      → VenueResponse
      → ℕ
      → ℕ
      → Option Bytes
      → Result (Unit {0})
  assert_envelope_admissible d sel v s a b action x r held now calldata = do
    readiness ← evaluate_readiness x r now
    require (is_executable readiness) envelope_validation
    assert_matches_response v r
    check_calldata sel v x r calldata
    check_provenance d v s a action now
    check_bounds v x b now
    assert_within_capital_ceiling v.max_input_atomic held a

-- what the response requires, and from whom
abbrev pub requires : Readiness → Approval → Result (Unit {0})
requires (approval_required allowance spender) p = do
  require (p.spender_address == spender) approval_contract
  require (p.requested_allowance_atomic == allowance) approval_contract
requires _ p = err approval_contract

abbrev pub asks_approval : Readiness → Bool
asks_approval (approval_required allowance spender) = true
asks_approval _ = false

unfoldable pub assert_approval_admissible :
    Digests
    → Approval
    → Session
    → AuthorityPolicy
    → Expected
    → VenueResponse
    → ℕ
    → Result (Unit {0})
assert_approval_admissible d p s a x r now = do
  readiness ← evaluate_readiness x r now
  require (asks_approval readiness) approval_contract
  require (p.session_identity_digest == d.identity_digest s) approval_contract
  require (p.authority_policy_digest == d.policy_digest a) approval_contract
  assert_binding d s a now approval_contract
  require (p.taker_address == x.taker_address) approval_contract
  require (p.token_address == x.sell_token) approval_contract
  requires readiness p
  require (ltb now p.deadline_epoch_s) approval_contract
