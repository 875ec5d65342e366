-- ===== src/Tests/Authority.antt =====
-- A grant for a session of the phase's venue, current from 100 to 200, and its expiry.
use qnty_spot.Prelude.{
  ◌+◌, ◌≡◌, ◌≤◌, ◌<◌, refl, true, false, not, ◌&&◌, ◌||◌, some, [], ◌∷◌, ltb, ◌==◌, arith,
}
use qnty_spot.Errors.{ok, err, authority_ceiling, authority_verification, is_ok}
use qnty_spot.Authority.{
  autonomous_bounded_signer, human_signed_execution, submit_exact_signed_bytes, reconcile_only,
  shadow, level_of, submit_exact_bytes, produce_signature, observe_chain, reconcile,
  account_quarantine, observe_market, permits, ladder, kill_switch_preserved, is_current,
  AuthorityPolicy, assert_valid_at, Session, Digests, assert_static_binding, assert_binding,
}
use qnty_spot.Authority.Grants.{
  GrantReceipt, TrustedRoot, VerifiedGrant, RecoveryProof, Verifier, verify_authenticity,
  verify_grant,
}
use qnty_spot.Authority.Gate.{
  PhaseScope, in_phase_scope, phase_scoped_level, effective_level, require_effective,
  effective_capabilities, granted_capabilities, require_expired_recovery, require_capability,
  effective_ceilings, assert_capital_within,
}
use qnty_spot.Authority.Gate.Limits.{
  offers, ladder_monotone, granted_within, never_signs, expired_only_recovers, capital_within_both,
}
use qnty_spot.Authority.Gate.Service.{verified_serves}

abbrev pub digests : Digests
digests = record { policy_digest = λ a. a.authority_root_id; identity_digest = λ s. s.policy_id }

abbrev scope : PhaseScope
scope = record { network_id = 5; taker_address = 9; venue_id = 8; venue_adapter_version = 4 }

abbrev pub authority : AuthorityPolicy
authority = record {
  authority_root_id = 1;
  granted_level = human_signed_execution;
  permitted_repository_commit = 2;
  permitted_implementation_digest = 3;
  permitted_network_id = 5;
  permitted_taker_address = 9;
  permitted_venue_id = 8;
  max_reservation_atomic = 300;
  max_cumulative_atomic = 500;
  not_before_epoch_s = 100;
  not_after_epoch_s = 200;
}

abbrev pub session : Session
session = record {
  repository_commit = 2;
  implementation_digest = 3;
  runtime_identity = 6;
  db_schema_version = 1;
  policy_id = 7;
  authority_policy_digest = 1;
  taker_address = 9;
  network_id = 5;
  venue_id = 8;
  venue_adapter_version = 4;
  started_at_epoch_s = 110;
  session_ordinal = 0;
}

abbrev root : TrustedRoot
root = record {
  root_id = 1;
  signature_algorithm = 0;
  public_key_fingerprint = 12;
  minimum_authority_epoch = 2;
  trust_config_version = 1;
  trust_config_digest = 13;
  anchor = 77;
}

abbrev grant_receipt : GrantReceipt
grant_receipt = record {
  root_id = 1;
  public_key_fingerprint = 12;
  signature_algorithm = 0;
  authority_epoch = 3;
  serial = 1;
  issued_at_epoch_s = 90;
  authority_policy = authority;
  signature = 80;
}

abbrev grant : VerifiedGrant
grant = record { receipt = grant_receipt; root = root }

abbrev proof : RecoveryProof
proof = record { receipt = grant_receipt; root = root }

-- a signature is the sum of the anchor and the epoch
abbrev verifies : Verifier
verifies anchor signature r = signature == anchor + r.authority_epoch

verifying : verify_grant digests verifies grant_receipt root session 150 ≡ ok grant
unfolding verify_grant verify_authenticity assert_binding assert_static_binding
verifying = refl

submitting :
    require_effective digests scope submit_exact_bytes submit_exact_signed_bytes grant session 150
      false false
    ≡ ok submit_exact_signed_bytes
unfolding require_effective assert_valid_at assert_binding assert_static_binding effective_level
    phase_scoped_level ladder
submitting = refl

recovering :
    require_expired_recovery digests scope reconcile submit_exact_signed_bytes proof session 250
    ≡ ok reconcile_only
unfolding require_expired_recovery assert_static_binding
recovering = refl

admitting : assert_capital_within 200 100 250 400 grant 150 ≡ ok tt
unfolding assert_capital_within effective_ceilings assert_valid_at
admitting = refl

ladder_monotone_example : permits (ladder autonomous_bounded_signer) observe_market ≡ true
unfolding ladder
ladder_monotone_example =
    ladder_monotone shadow autonomous_bounded_signer observe_market (omega arith) refl

granted_within_example :
    (is_current authority 150 ≡ true)
    × (assert_binding digests session authority 150 authority_verification ≡ ok tt)
    × (level_of submit_exact_signed_bytes ≤ level_of submit_exact_signed_bytes)
    × (level_of submit_exact_signed_bytes ≤ level_of human_signed_execution)
    × (level_of submit_exact_signed_bytes ≤ 3)
    × ((ltb 1 (level_of submit_exact_signed_bytes) && not (in_phase_scope scope session)) ≡ false)
    × (permits (ladder submit_exact_signed_bytes) submit_exact_bytes ≡ true)
    × (((false || false) && not (permits kill_switch_preserved submit_exact_bytes)) ≡ false)
granted_within_example =
    granted_within digests scope submit_exact_bytes submit_exact_signed_bytes grant session 150
      false false submit_exact_signed_bytes submitting

never_signs_example :
    (is_ok (
        require_capability digests scope produce_signature human_signed_execution false false
          (some grant)
          (some session)
          (some 150))
      ≡ false)
    × (is_ok (
          require_effective digests scope produce_signature human_signed_execution grant session 150
            false false)
        ≡ false)
    × (is_ok (
          require_expired_recovery digests scope produce_signature human_signed_execution proof
            session 150)
        ≡ false)
    × (offers produce_signature (
          effective_capabilities digests scope human_signed_execution grant 150
            (some session)
            false
            false)
        ≡ false)
    × (offers produce_signature (
          granted_capabilities digests scope human_signed_execution false false
            (some grant)
            (some session)
            (some 150))
        ≡ false)
never_signs_example =
    never_signs digests scope human_signed_execution grant proof session 150 (some grant)
      (some session) (some 150) false false

expired_only_recovers_example :
    (permits (observe_chain ∷ reconcile ∷ account_quarantine ∷ []) reconcile ≡ true)
    × (reconcile_only ≡ reconcile_only)
    × (require_effective digests scope submit_exact_bytes submit_exact_signed_bytes grant session
          250 false false
        ≡ err authority_ceiling)
expired_only_recovers_example =
    expired_only_recovers digests scope reconcile submit_exact_signed_bytes proof grant session 250
      reconcile_only submit_exact_bytes submit_exact_signed_bytes session false false refl
      recovering

capital_within_both_example :
    (0 < 200)
    × (is_current authority 150 ≡ true)
    × (200 ≤ 250)
    × (200 ≤ 300)
    × (100 + 200 ≤ 400)
    × (100 + 200 ≤ 500)
capital_within_both_example = capital_within_both 200 100 250 400 grant 150 admitting

verified_serves_example :
    (require_effective digests scope submit_exact_bytes submit_exact_signed_bytes grant session 150
        false false
      ≡ ok submit_exact_signed_bytes)
    × (verifies 77 80 grant_receipt ≡ true)
    × (grant_receipt.root_id ≡ root.root_id)
    × (2 ≤ 3)
unfolding phase_scoped_level ladder
verified_serves_example =
    verified_serves digests verifies scope grant_receipt root session 150 grant submit_exact_bytes
      submit_exact_signed_bytes false false verifying (omega arith) refl
