-- ===== src/Authority/Gate/Service.antt =====
-- From verification to use: what a grant that qntyspot/authority_root.py has verified is good for.
use qnty_spot.Prelude.{ℕ, ◌≤◌, ◌≡◌, Bool, true, arith}
use qnty_spot.Errors.{ok, authority_verification}
use qnty_spot.Authority.{
  AuthorityLevel, level_of, Capability, permits, ladder, suspended, is_current, assert_valid_at,
  Session, Digests, assert_binding,
}
use qnty_spot.Authority.Grants.{
  GrantReceipt, TrustedRoot, VerifiedGrant, Verifier, policy_of_grant, verify_authenticity,
  verify_grant,
}
use qnty_spot.Authority.Gate.{
  PhaseScope, phase_scoped_level, lower_level, effective_level, require_effective,
}

module _ (d : Digests) (verifies : Verifier) (p : PhaseScope) where
  verified_parts :
      (r : GrantReceipt) (t : TrustedRoot) (s : Session) (now : ℕ) (g : VerifiedGrant)
      → verify_grant d verifies r t s now ≡ ok g
      → (g ≡ record { receipt = r; root = t })
        × (assert_binding d s r.authority_policy now authority_verification ≡ ok tt)
        × (is_current r.authority_policy now ≡ true)
        × (verifies t.anchor r.signature r ≡ true)
        × (r.root_id ≡ t.root_id)
        × (t.minimum_authority_epoch ≤ r.authority_epoch)
  unfolding verify_grant verify_authenticity assert_binding
  verified_parts r t s now g h = ground arith

  -- A grant that was verified for a session is, at that time, refused to that session for no reason but
  -- the level: up to the source ceiling HUMAN_SIGNED_EXECUTION the gate grants every capability that the
  -- effective level permits under the halt state, and answers with that level. The receipt of such a
  -- grant carries a signature that the anchor verifies, of the trusted root, and an epoch that is not
  -- below the root's minimum.
  pub verified_serves :
      (r : GrantReceipt) (t : TrustedRoot) (s : Session) (now : ℕ) (g : VerifiedGrant)
      (c : Capability) (source : AuthorityLevel) (kill halted : Bool)
      → verify_grant d verifies r t s now ≡ ok g
      → level_of source ≤ 3
      → permits
          (suspended kill halted (
            ladder (phase_scoped_level p (lower_level source (policy_of_grant g).granted_level) s)))
          c
        ≡ true
      → (require_effective d p c source g s now kill halted
          ≡ ok (phase_scoped_level p (lower_level source (policy_of_grant g).granted_level) s))
        × (verifies t.anchor r.signature r ≡ true)
        × (r.root_id ≡ t.root_id)
        × (t.minimum_authority_epoch ≤ r.authority_epoch)
  unfolding require_effective effective_level assert_valid_at
  verified_serves r t s now g c source kill halted h phase permitted =
      let (same, bound, current, signed, root, epoch) = verified_parts r t s now g h in
      let bound' : assert_binding d s (policy_of_grant g) now authority_verification ≡ ok tt =
        rw same bound in
      let current' : is_current (policy_of_grant g) now ≡ true = rw same current in
      (ground arith, signed, root, epoch)
