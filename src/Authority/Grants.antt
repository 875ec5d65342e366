-- ===== src/Authority/Grants.antt =====
-- Grants of qntyspot/authority_root.py: what an issuer may be asked for, and the verification of a
-- receipt against an external trust root, of a current grant and of an expired one.
use qnty_spot.Prelude.{ℕ, ◌-◌, Bool, List, any, leb, ◌==◌}
use qnty_spot.Errors.{Result, ok, ◌>>=◌, ◌>>◌, require, authority_verification}
use qnty_spot.Domain.{Key}
use qnty_spot.Authority.{
  AuthorityLevel, level_of, AuthorityPolicy, Session, Digests, assert_static_binding,
  assert_binding,
}

-- `TrustedAuthorityRootV0`; `anchor` stands for the bytes of the public key
pub record TrustedRoot : Type 0 where
  pub root_id : Key
  pub signature_algorithm : Key
  pub public_key_fingerprint : Key
  pub minimum_authority_epoch : ℕ
  pub trust_config_version : ℕ
  pub trust_config_digest : Key
  pub anchor : Key

-- `AuthorityIssuancePolicyV0`
pub record IssuancePolicy : Type 0 where
  pub root_id : Key
  pub repository_identity : Key
  pub maximum_issuable_level : AuthorityLevel
  pub allowed_network_ids : List Key
  pub allowed_taker_addresses : List Key
  pub allowed_venue_ids : List Key
  pub max_reservation_atomic : ℕ
  pub max_cumulative_atomic : ℕ
  pub max_grant_duration_s : ℕ

abbrev pub among : Key → List Key → Bool
among k keys = any (λ j. j == k) keys

-- A policy that was made has `not_before < not_after`, so its duration is not negative.
unfoldable pub assert_issuance_admissible :
    IssuancePolicy → AuthorityPolicy → Key → Result (Unit {0})
assert_issuance_admissible p r repository = do
  require (repository == p.repository_identity) authority_verification
  require (r.authority_root_id == p.root_id) authority_verification
  require (leb (level_of r.granted_level) (level_of p.maximum_issuable_level))
      authority_verification
  require (among r.permitted_network_id p.allowed_network_ids) authority_verification
  require (among r.permitted_taker_address p.allowed_taker_addresses) authority_verification
  require (among r.permitted_venue_id p.allowed_venue_ids) authority_verification
  require (leb r.max_reservation_atomic p.max_reservation_atomic) authority_verification
  require (leb r.max_cumulative_atomic p.max_cumulative_atomic) authority_verification
  require (leb (r.not_after_epoch_s - r.not_before_epoch_s) p.max_grant_duration_s)
      authority_verification

-- `AuthorityGrantReceiptV0`
pub record GrantReceipt : Type 0 where
  pub root_id : Key
  pub public_key_fingerprint : Key
  pub signature_algorithm : Key
  pub authority_epoch : ℕ
  pub serial : ℕ
  pub issued_at_epoch_s : ℕ
  pub authority_policy : AuthorityPolicy
  pub signature : Key

-- What only `verify_authority_grant` constructs. The code keeps it opaque by a token.
pub record VerifiedGrant : Type 0 where
  pub receipt : GrantReceipt
  pub root : TrustedRoot

-- What only `verify_expired_authority_grant_for_recovery` constructs.
pub record RecoveryProof : Type 0 where
  pub receipt : GrantReceipt
  pub root : TrustedRoot

abbrev pub policy_of_grant : VerifiedGrant → AuthorityPolicy
policy_of_grant g = g.receipt.authority_policy

abbrev pub policy_of_proof : RecoveryProof → AuthorityPolicy
policy_of_proof p = p.receipt.authority_policy

-- Ed25519 of the package cryptography: anchor, signature, and the signed body of a receipt.
abbrev pub Verifier : Type 0
Verifier = Key → Key → GrantReceipt → Bool

module _ (d : Digests) (verifies : Verifier) where
  unfoldable pub verify_authenticity : GrantReceipt → TrustedRoot → Result GrantReceipt
  verify_authenticity r t = do
    require (r.root_id == t.root_id) authority_verification
    require (r.signature_algorithm == t.signature_algorithm) authority_verification
    require (r.public_key_fingerprint == t.public_key_fingerprint) authority_verification
    require (leb t.minimum_authority_epoch r.authority_epoch) authority_verification
    require (verifies t.anchor r.signature r) authority_verification
    ok r

  unfoldable pub verify_grant : GrantReceipt → TrustedRoot → Session → ℕ → Result VerifiedGrant
  unfolding verify_authenticity
  verify_grant r t s now = do
    r' ← verify_authenticity r t
    assert_binding d s r'.authority_policy now authority_verification
    ok (record { receipt = r'; root = t })

  unfoldable pub verify_expired : GrantReceipt → TrustedRoot → Session → ℕ → Result RecoveryProof
  unfolding verify_authenticity
  verify_expired r t s now = do
    r' ← verify_authenticity r t
    require (leb r'.authority_policy.not_after_epoch_s now) authority_verification
    require (leb 1 (level_of r'.authority_policy.granted_level)) authority_verification
    assert_static_binding d s r'.authority_policy authority_verification
    ok (record { receipt = r'; root = t })
