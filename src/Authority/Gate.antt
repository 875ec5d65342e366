-- ===== src/Authority/Gate.antt =====
-- The consumer gates of qntyspot/authority_root.py and the gates of qntyspot/execution_contract.py
-- that lead to them: effective levels and capabilities, expired recovery, and capital ceilings.
pub mod Limits
pub mod Service
use qnty_spot.Prelude.{
  ℕ, ◌+◌, ◌≡◌, Bool, true, false, not, ◌&&◌, ◌||◌, Option, none, some, List, [], ◌∷◌, ltb, leb, min,
  ◌==◌, if◌then◌else◌,
}
use qnty_spot.Errors.{
  Result, ok, err, ◌>>=◌, ◌>>◌, require, authority_ceiling, authority_verification,
}
use qnty_spot.Domain.{Key}
use qnty_spot.Authority.{
  AuthorityLevel, shadow, reconcile_only, level_of, Capability, observe_chain, reconcile,
  account_quarantine, permits, ladder, kill_switch_preserved, phase_granted_level, suspended,
  assert_phase_ceiling, AuthorityPolicy, assert_valid_at, Session, Digests, assert_static_binding,
  assert_binding,
}
use qnty_spot.Authority.Grants.{VerifiedGrant, RecoveryProof, policy_of_grant, policy_of_proof}

-- `min` of two levels
abbrev pub lower_level : AuthorityLevel → AuthorityLevel → AuthorityLevel
lower_level a b = if ltb (level_of b) (level_of a) then b else a

unfoldable pub effective_level : AuthorityLevel → VerifiedGrant → ℕ → Result AuthorityLevel
unfolding assert_valid_at
effective_level source g now = do
  assert_valid_at (policy_of_grant g) now
  require (leb (level_of source) (level_of phase_granted_level)) authority_ceiling
  ok (lower_level source (policy_of_grant g).granted_level)

-- The network, taker, venue and adapter that the constants of qntyspot/ink.py,
-- qntyspot/ink_v0f_execution.py and qntyspot/ink_v0f_risk.py name.
pub record PhaseScope : Type 0 where
  pub network_id : Key
  pub taker_address : Key
  pub venue_id : Key
  pub venue_adapter_version : Key

abbrev pub in_phase_scope : PhaseScope → Session → Bool
in_phase_scope p s =
    s.network_id == p.network_id
    && s.taker_address == p.taker_address
    && s.venue_id == p.venue_id
    && s.venue_adapter_version == p.venue_adapter_version

-- Outside the phase's scope no level above RECONCILE_ONLY is left.
unfoldable pub phase_scoped_level : PhaseScope → AuthorityLevel → Session → AuthorityLevel
phase_scoped_level p level s =
    if leb (level_of level) 1 then level else if in_phase_scope p s then level else reconcile_only

abbrev expired_recovery_capabilities : List Capability
expired_recovery_capabilities = observe_chain ∷ reconcile ∷ account_quarantine ∷ []

module _ (d : Digests) (p : PhaseScope) where
  bound_level : AuthorityLevel → VerifiedGrant → Option Session → ℕ → Result AuthorityLevel
  bound_level level g none now = err authority_verification
  bound_level level g (some s) now = do
    assert_binding d s (policy_of_grant g) now authority_verification
    ok (phase_scoped_level p level s)

  unfoldable pub effective_capabilities :
      AuthorityLevel → VerifiedGrant → ℕ → Option Session → Bool → Bool → Result (List Capability)
  unfolding bound_level
  effective_capabilities source g now session kill halted = do
    level ← effective_level source g now
    scoped ← (if ltb 1 (level_of level) then bound_level level g session now else ok level)
    ok (suspended kill halted (ladder scoped))

  unfoldable pub require_effective :
      Capability
      → AuthorityLevel
      → VerifiedGrant
      → Session
      → ℕ
      → Bool
      → Bool
      → Result AuthorityLevel
  require_effective c source g s now kill halted = do
    assert_valid_at (policy_of_grant g) now
    assert_binding d s (policy_of_grant g) now authority_verification
    level ← effective_level source g now
    let scoped = phase_scoped_level p level s
    require (permits (suspended kill halted (ladder scoped)) c) authority_ceiling
    ok scoped

  unfoldable pub require_expired_recovery :
      Capability → AuthorityLevel → RecoveryProof → Session → ℕ → Result AuthorityLevel
  require_expired_recovery c source proof s now = do
    require (permits expired_recovery_capabilities c) authority_ceiling
    require (leb 1 (level_of source)) authority_ceiling
    require (leb (level_of source) (level_of phase_granted_level)) authority_ceiling
    require (leb (policy_of_proof proof).not_after_epoch_s now) authority_verification
    assert_static_binding d s (policy_of_proof proof) authority_verification
    require (leb 1 (level_of (policy_of_proof proof).granted_level)) authority_ceiling
    ok reconcile_only

  unfoldable pub external :
      Capability
      → AuthorityLevel
      → Option VerifiedGrant
      → Option Session
      → Option ℕ
      → Bool
      → Bool
      → Result (Unit {0})
  external c level (some g) (some s) (some now) kill halted = do
    granted ← require_effective c level g s now kill halted
    ok tt
  external c level _ _ _ kill halted = err authority_verification

  -- `require_capability` of qntyspot/execution_contract.py
  unfoldable pub require_capability :
      Capability
      → AuthorityLevel
      → Bool
      → Bool
      → Option VerifiedGrant
      → Option Session
      → Option ℕ
      → Result (Unit {0})
  unfolding external assert_phase_ceiling
  require_capability c level kill halted g s now = do
    assert_phase_ceiling level
    if ltb 0 (level_of level)
        then external c level g s now kill halted
        else require (permits (suspended kill halted (ladder level)) c) authority_ceiling

  external_granted :
      AuthorityLevel
      → Option VerifiedGrant
      → Option Session
      → Option ℕ
      → Bool
      → Bool
      → Result (List Capability)
  external_granted level (some g) (some s) (some now) kill halted =
      effective_capabilities level g now (some s) kill halted
  external_granted level _ _ _ kill halted = err authority_verification

  -- `granted_capabilities` of qntyspot/execution_contract.py
  unfoldable pub granted_capabilities :
      AuthorityLevel
      → Bool
      → Bool
      → Option VerifiedGrant
      → Option Session
      → Option ℕ
      → Result (List Capability)
  unfolding external_granted assert_phase_ceiling
  granted_capabilities level kill halted g s now = do
    assert_phase_ceiling level
    if ltb 0 (level_of level)
        then external_granted level g s now kill halted
        else ok (suspended kill halted (ladder level))

pub record Ceilings : Type 0 where
  pub per_action : ℕ
  pub cumulative : ℕ

-- Local ceilings intersected with the external ones.
unfoldable pub effective_ceilings : ℕ → ℕ → VerifiedGrant → ℕ → Result Ceilings
effective_ceilings per_action cumulative g now = do
  assert_valid_at (policy_of_grant g) now
  require (ltb 0 per_action) authority_verification
  require (ltb 0 cumulative) authority_verification
  require (leb per_action cumulative) authority_verification
  ok (record {
    per_action = min per_action (policy_of_grant g).max_reservation_atomic;
    cumulative = min cumulative (policy_of_grant g).max_cumulative_atomic;
  })

unfoldable pub assert_capital_within : ℕ → ℕ → ℕ → ℕ → VerifiedGrant → ℕ → Result (Unit {0})
unfolding effective_ceilings
assert_capital_within requested held per_action cumulative g now = do
  require (ltb 0 requested) authority_ceiling
  c ← effective_ceilings per_action cumulative g now
  require (leb requested c.per_action) authority_ceiling
  require (leb (held + requested) c.cumulative) authority_ceiling
