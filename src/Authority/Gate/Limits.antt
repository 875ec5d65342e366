-- ===== src/Authority/Gate/Limits.antt =====
-- What the gates of qntyspot/authority_root.py never let through.
use qnty_spot.Prelude.{
  ap, sym, ◌∙◌, none, List, Bool-cases, inl, inr, ℕ, ◌+◌, ◌≤◌, ◌<◌, ◌≡◌, refl, Bool, true, false,
  not, ◌&&◌, ◌||◌, Option, some, [], ◌∷◌, ltb, arith,
}
use qnty_spot.Errors.{
  Error, Result, ok, err, is_ok, Result-cases, authority_ceiling, authority_verification,
}
use qnty_spot.Authority.{
  AuthorityLevel, suspended, reconcile_only, level_of, Capability, produce_signature, observe_chain,
  reconcile, account_quarantine, permits, ladder, kill_switch_preserved, is_current,
  assert_valid_at, assert_phase_ceiling, Session, Digests, assert_binding,
}
use qnty_spot.Authority.Grants.{VerifiedGrant, RecoveryProof, policy_of_grant, policy_of_proof}
use qnty_spot.Authority.Gate.{
  PhaseScope, external, in_phase_scope, phase_scoped_level, lower_level, effective_level,
  effective_capabilities, granted_capabilities, require_effective, require_expired_recovery,
  require_capability, assert_capital_within,
}

-- A level permits what the levels below it permit.
pub ladder_monotone :
    (a b : AuthorityLevel) (c : Capability)
    → level_of a ≤ level_of b
    → permits (ladder a) c ≡ true
    → permits (ladder b) c ≡ true
unfolding ladder
ladder_monotone a b c h k = ground arith

signature_level :
    (level : AuthorityLevel) → permits (ladder level) produce_signature ≡ true → 3 < level_of level
unfolding ladder
signature_level level h = ground arith

-- What is left of a level under a kill switch or a halt.
permits-suspended :
    (level : AuthorityLevel) (c : Capability) (kill halted : Bool)
    → permits (suspended kill halted (ladder level)) c
      ≡ (permits (ladder level) c && (not (kill || halted) || permits kill_switch_preserved c))
unfolding ladder
permits-suspended level c kill halted = ground arith

phase-level-le :
    (p : PhaseScope) (level : AuthorityLevel) (s : Session)
    → (level_of (phase_scoped_level p level s) ≤ level_of level)
      × ((ltb 1 (level_of (phase_scoped_level p level s)) && not (in_phase_scope p s)) ≡ false)
unfolding phase_scoped_level
phase-level-le p level s = ground arith

-- The parts of a grant.
record Granted (d : Digests) (p : PhaseScope) (c : Capability) (source : AuthorityLevel)
    (g : VerifiedGrant) (s : Session) (now : ℕ) (kill halted : Bool) (level : AuthorityLevel)
    : Type 0 where
  current : is_current (policy_of_grant g) now ≡ true
  bound : assert_binding d s (policy_of_grant g) now authority_verification ≡ ok tt
  phase : level_of source ≤ 3
  scoped : level ≡ phase_scoped_level p (lower_level source (policy_of_grant g).granted_level) s
  permitted : permits (suspended kill halted (ladder level)) c ≡ true

-- A capability set, where one is returned, has the capability.
abbrev pub offers : Capability → Result (List Capability) → Bool
offers c (ok set) = permits set c
offers c (err raised) = false

module _ (d : Digests) (p : PhaseScope) where
  require_effective-Granted :
      (c : Capability) (source : AuthorityLevel) (g : VerifiedGrant) (s : Session) (now : ℕ)
      (kill halted : Bool) (level : AuthorityLevel)
      → require_effective d p c source g s now kill halted ≡ ok level
      → Granted d p c source g s now kill halted level
  unfolding require_effective effective_level assert_valid_at
  require_effective-Granted c source g s now kill halted level h = ground arith

  -- A capability is granted only through every gate at once: the grant is valid at the time and bound to
  -- the exact session; the level that comes out is above neither the source ceiling nor the grant nor
  -- HUMAN_SIGNED_EXECUTION, and above RECONCILE_ONLY only in the scope of the phase; that level
  -- permits the capability; and under a kill switch or a halt it is one of those that are preserved.
  pub granted_within :
      (c : Capability) (source : AuthorityLevel) (g : VerifiedGrant) (s : Session) (now : ℕ)
      (kill halted : Bool) (level : AuthorityLevel)
      → require_effective d p c source g s now kill halted ≡ ok level
      → (is_current (policy_of_grant g) now ≡ true)
        × (assert_binding d s (policy_of_grant g) now authority_verification ≡ ok tt)
        × (level_of level ≤ level_of source)
        × (level_of level ≤ level_of (policy_of_grant g).granted_level)
        × (level_of level ≤ 3)
        × ((ltb 1 (level_of level) && not (in_phase_scope p s)) ≡ false)
        × (permits (ladder level) c ≡ true)
        × (((kill || halted) && not (permits kill_switch_preserved c)) ≡ false)
  granted_within c source g s now kill halted level h =
      let g' = require_effective-Granted c source g s now kill halted level h in
      let (le, scope) = phase-level-le p (lower_level source (policy_of_grant g).granted_level) s in
      let e = permits-suspended level c kill halted in
      let permitted = g'.permitted in
      let phase = g'.phase in
      let from = g'.scoped in
      (
        g'.current,
        g'.bound,
        rw from (ground arith),
        rw from (ground arith),
        rw from (ground arith),
        rw from scope,
        ground arith,
        ground arith,
      )

  effective_never_signs :
      (source : AuthorityLevel) (g : VerifiedGrant) (s : Session) (now : ℕ) (kill halted : Bool)
      → is_ok (require_effective d p produce_signature source g s now kill halted) ≡ false
  effective_never_signs source g s now kill halted =
      elim (Result-cases (require_effective d p produce_signature source g s now kill halted)) [
        | inl (level, e) ↦
            let w = granted_within produce_signature source g s now kill halted level e in
            absurd (ground (arith, w.4, signature_level level w.6))
        | inr (x, e) ↦ rw e refl
      ]

  recovery_never_signs :
      (source : AuthorityLevel) (proof : RecoveryProof) (s : Session) (now : ℕ)
      → require_expired_recovery d p produce_signature source proof s now ≡ err authority_ceiling
  unfolding require_expired_recovery
  recovery_never_signs source proof s now = refl

  effective_level-le :
      (source : AuthorityLevel) (g : VerifiedGrant) (now : ℕ) (level : AuthorityLevel)
      → effective_level source g now ≡ ok level
      → level_of level ≤ 3
  unfolding effective_level assert_valid_at
  effective_level-le source g now level h = ground arith

  suspended_never_signs :
      (level : AuthorityLevel) (kill halted : Bool)
      → level_of level ≤ 3
      → permits (suspended kill halted (ladder level)) produce_signature ≡ false
  suspended_never_signs level kill halted le =
      let e = permits-suspended level produce_signature kill halted in
      elim (Bool-cases (permits (ladder level) produce_signature)) [
        | inl signs ↦ absurd (ground (arith, signature_level level signs))
        | inr not_signs ↦ ground arith
      ]

  -- What a capability set is made of.
  capabilities-level :
      (source : AuthorityLevel) (g : VerifiedGrant) (now : ℕ) (s : Option Session)
      (kill halted : Bool) (level : AuthorityLevel) (set : List Capability)
      → effective_level source g now ≡ ok level
      → effective_capabilities d p source g now s kill halted ≡ ok set
      → (l : AuthorityLevel) × (level_of l ≤ level_of level)
        × (suspended kill halted (ladder l) ≡ set)
  unfolding effective_capabilities
  capabilities-level source g now none kill halted level set e h =
      (level, omega arith, ground arith)
  capabilities-level source g now (some s) kill halted level set e h =
      elim (Bool-cases (ltb 1 (level_of level))) [
        | inl high ↦ (phase_scoped_level p level s, (phase-level-le p level s).0, ground arith)
        | inr low ↦ (level, omega arith, ground arith)
      ]

  no_level :
      (source : AuthorityLevel) (g : VerifiedGrant) (now : ℕ) (s : Option Session)
      (kill halted : Bool) (set : List Capability) (x : Error)
      → effective_level source g now ≡ err x
      → effective_capabilities d p source g now s kill halted ≡ ok set
      → ⊥
  unfolding effective_capabilities
  no_level source g now s kill halted set x e h = ground arith

  effective_never_offers :
      (source : AuthorityLevel) (g : VerifiedGrant) (now : ℕ) (s : Option Session)
      (kill halted : Bool)
      → offers produce_signature (effective_capabilities d p source g now s kill halted) ≡ false
  effective_never_offers source g now s kill halted =
      elim (Result-cases (effective_capabilities d p source g now s kill halted)) [
        | inl (set, h) ↦ elim (Result-cases (effective_level source g now)) [
          | inl (level, e) ↦
              let le = effective_level-le source g now level e in
              let (l, below, same) = capabilities-level source g now s kill halted level set e h in
              ap (offers produce_signature) h
              ∙ ap (λ cs. permits cs produce_signature) (sym same)
              ∙ suspended_never_signs l kill halted (omega (arith, below, le))
          | inr (x, e) ↦ absurd (no_level source g now s kill halted set x e h)
        ]
        | inr (x, h) ↦ ap (offers produce_signature) h
      ]

  never_signs_externally :
      (source : AuthorityLevel) (g : Option VerifiedGrant) (s : Option Session) (now : Option ℕ)
      (kill halted : Bool)
      → is_ok (external d p produce_signature source g s now kill halted) ≡ false
  unfolding external
  never_signs_externally source (some g) (some s) (some now) kill halted =
      ground (arith, effective_never_signs source g s now kill halted)
  never_signs_externally source _ _ _ kill halted = refl

  never_offers_externally :
      (source : AuthorityLevel) (g : Option VerifiedGrant) (s : Option Session) (now : Option ℕ)
      (kill halted : Bool)
      → offers produce_signature (granted_capabilities d p source kill halted g s now) ≡ false
  unfolding granted_capabilities assert_phase_ceiling
  never_offers_externally source (some g) (some s) (some now) kill halted = ground (
    arith,
    effective_never_offers source g now (some s) kill halted,
    suspended_never_signs source kill halted,
  )
  never_offers_externally source g s now kill halted =
      ground (arith, suspended_never_signs source kill halted)

  require_capability_never_signs :
      (source : AuthorityLevel) (g : Option VerifiedGrant) (s : Option Session) (now : Option ℕ)
      (kill halted : Bool)
      → is_ok (require_capability d p produce_signature source kill halted g s now) ≡ false
  unfolding require_capability assert_phase_ceiling ladder
  require_capability_never_signs source g s now kill halted =
      ground (arith, never_signs_externally source g s now kill halted)

  -- Whatever the level, the grant, the recovery proof, the session, the time, the kill switch and the
  -- halt: `require_capability`, the effective gate of a grant and the gate of an expired recovery all
  -- raise where asked for the production of a signature, and neither of the two capability sets, where
  -- it is returned, has it.
  pub never_signs :
      (source : AuthorityLevel) (g : VerifiedGrant) (proof : RecoveryProof) (session : Session)
      (time : ℕ) (maybe_grant : Option VerifiedGrant) (maybe_session : Option Session)
      (maybe_time : Option ℕ) (kill halted : Bool)
      → (is_ok (
            require_capability d p produce_signature source kill halted maybe_grant maybe_session
              maybe_time)
          ≡ false)
        × (is_ok (require_effective d p produce_signature source g session time kill halted)
            ≡ false)
        × (is_ok (require_expired_recovery d p produce_signature source proof session time) ≡ false)
        × (offers produce_signature
              (effective_capabilities d p source g time maybe_session kill halted)
            ≡ false)
        × (offers produce_signature
              (granted_capabilities d p source kill halted maybe_grant maybe_session maybe_time)
            ≡ false)
  never_signs source g proof session time maybe_grant maybe_session maybe_time kill halted = (
    require_capability_never_signs source maybe_grant maybe_session maybe_time kill halted,
    effective_never_signs source g session time kill halted,
    ap is_ok (recovery_never_signs source proof session time),
    effective_never_offers source g time maybe_session kill halted,
    never_offers_externally source maybe_grant maybe_session maybe_time kill halted,
  )

  -- A grant that has expired serves observation and accounting alone, and at a time when it serves
  -- recovery it grants nothing by the ordinary gate.
  pub expired_only_recovers :
      (c : Capability) (source : AuthorityLevel) (proof : RecoveryProof) (g : VerifiedGrant)
      (s : Session) (now : ℕ) (level : AuthorityLevel) (c' : Capability) (source' : AuthorityLevel)
      (s' : Session) (kill halted : Bool)
      → policy_of_grant g ≡ policy_of_proof proof
      → require_expired_recovery d p c source proof s now ≡ ok level
      → (permits (observe_chain ∷ reconcile ∷ account_quarantine ∷ []) c ≡ true)
        × (level ≡ reconcile_only)
        × (require_effective d p c' source' g s' now kill halted ≡ err authority_ceiling)
  unfolding require_expired_recovery require_effective assert_valid_at
  expired_only_recovers c source proof g s now level c' source' s' kill halted e h =
      (ground arith, ground arith, ground arith)

-- Capital is admitted only within the local and the external ceilings both, per action and cumulatively
-- with what is held, and only under a grant that is valid at the time.
pub capital_within_both :
    (requested held per_action cumulative : ℕ) (g : VerifiedGrant) (now : ℕ)
    → assert_capital_within requested held per_action cumulative g now ≡ ok tt
    → (0 < requested)
      × (is_current (policy_of_grant g) now ≡ true)
      × (requested ≤ per_action)
      × (requested ≤ (policy_of_grant g).max_reservation_atomic)
      × (held + requested ≤ cumulative)
      × (held + requested ≤ (policy_of_grant g).max_cumulative_atomic)
unfolding assert_capital_within assert_valid_at
capital_within_both requested held per_action cumulative g now h = ground arith
