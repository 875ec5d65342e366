-- ===== src/Authority.antt =====
-- The authority ladder of qntyspot/execution_contract.py, grants, sessions and how they are bound to
-- one another. Commits, digests, addresses and names are numbers, as they are only compared; the form
-- of their texts is not modelled.
pub mod Grants
pub mod Gate
use qnty_spot.Prelude.{
  ℕ, ◌+◌, ◌≤◌, ◌≡◌, Bool, true, false, not, ◌&&◌, ◌||◌, Option, none, some, List, [], ◌∷◌, ◌++◌,
  keep, any, ltb, leb, ◌==◌, if◌then◌else◌,
}
use qnty_spot.Errors.{
  Error, Result, ok, err, ◌>>=◌, ◌>>◌, require, authority_ceiling, authority_verification,
}
use qnty_spot.Domain.{Key}

pub data AuthorityLevel : Type 0 where
  shadow reconcile_only submit_exact_signed_bytes : AuthorityLevel
  human_signed_execution autonomous_bounded_signer : AuthorityLevel

-- the number of a level
abbrev pub level_of : AuthorityLevel → ℕ
level_of shadow = 0
level_of reconcile_only = 1
level_of submit_exact_signed_bytes = 2
level_of human_signed_execution = 3
level_of autonomous_bounded_signer = 4

pub data Capability : Type 0 where
  observe_market decide_offline observe_chain reconcile account_quarantine : Capability
  reserve_capital submit_exact_bytes construct_envelope authorize_approval produce_signature :
      Capability

abbrev capability_number : Capability → ℕ
capability_number observe_market = 0
capability_number decide_offline = 1
capability_number observe_chain = 2
capability_number reconcile = 3
capability_number account_quarantine = 4
capability_number reserve_capital = 5
capability_number submit_exact_bytes = 6
capability_number construct_envelope = 7
capability_number authorize_approval = 8
capability_number produce_signature = 9

abbrev pub is_capability : Capability → Capability → Bool
is_capability a b = capability_number a == capability_number b

-- membership in a frozenset
abbrev pub permits : List Capability → Capability → Bool
permits granted c = any (is_capability c) granted

abbrev level_0 : List Capability
level_0 = observe_market ∷ decide_offline ∷ []

abbrev level_1 : List Capability
level_1 = level_0 ++ (observe_chain ∷ reconcile ∷ account_quarantine ∷ reserve_capital ∷ [])

abbrev level_2 : List Capability
level_2 = level_1 ++ (submit_exact_bytes ∷ [])

abbrev level_3 : List Capability
level_3 = level_2 ++ (construct_envelope ∷ authorize_approval ∷ [])

abbrev level_4 : List Capability
level_4 = level_3 ++ (produce_signature ∷ [])

unfoldable pub ladder : AuthorityLevel → List Capability
ladder shadow = level_0
ladder reconcile_only = level_1
ladder submit_exact_signed_bytes = level_2
ladder human_signed_execution = level_3
ladder autonomous_bounded_signer = level_4

abbrev pub kill_switch_preserved : List Capability
kill_switch_preserved =
    observe_market ∷ decide_offline ∷ observe_chain ∷ reconcile ∷ account_quarantine ∷ []

abbrev pub phase_granted_level : AuthorityLevel
phase_granted_level = human_signed_execution

-- `a & b` of two frozensets
abbrev pub intersection : List Capability → List Capability → List Capability
intersection a b = keep (permits b) a

-- what a kill switch or a halt leaves
abbrev pub suspended : Bool → Bool → List Capability → List Capability
suspended kill halted granted =
    if kill || halted then intersection granted kill_switch_preserved else granted

unfoldable pub assert_phase_ceiling : AuthorityLevel → Result (Unit {0})
assert_phase_ceiling level =
    require (leb (level_of level) (level_of phase_granted_level)) authority_ceiling

-- `AuthorityPolicyRefV0`
pub record AuthorityPolicy : Type 0 where
  pub authority_root_id : Key
  pub granted_level : AuthorityLevel
  pub permitted_repository_commit : Key
  pub permitted_implementation_digest : Key
  pub permitted_network_id : Key
  pub permitted_taker_address : Key
  pub permitted_venue_id : Key
  pub max_reservation_atomic : ℕ
  pub max_cumulative_atomic : ℕ
  pub not_before_epoch_s : ℕ
  pub not_after_epoch_s : ℕ

-- `AuthorityPolicyRefV0.__post_init__`, past the form of its texts
unfoldable pub make_authority_policy : AuthorityPolicy → Result AuthorityPolicy
make_authority_policy a = do
  require (ltb 0 a.max_reservation_atomic) authority_ceiling
  require (ltb 0 a.max_cumulative_atomic) authority_ceiling
  require (leb a.max_reservation_atomic a.max_cumulative_atomic) authority_ceiling
  require (ltb 0 a.not_after_epoch_s) authority_ceiling
  require (ltb a.not_before_epoch_s a.not_after_epoch_s) authority_ceiling
  ok a

abbrev pub is_current : AuthorityPolicy → ℕ → Bool
is_current a now = leb a.not_before_epoch_s now && ltb now a.not_after_epoch_s

unfoldable pub assert_valid_at : AuthorityPolicy → ℕ → Result (Unit {0})
assert_valid_at a now = require (is_current a now) authority_ceiling

-- `ExecutionSessionV0`
pub record Session : Type 0 where
  pub repository_commit : Key
  pub implementation_digest : Key
  pub runtime_identity : Key
  pub db_schema_version : ℕ
  pub policy_id : Key
  pub authority_policy_digest : Key
  pub taker_address : Key
  pub network_id : Key
  pub venue_id : Key
  pub venue_adapter_version : Key
  pub started_at_epoch_s : ℕ
  pub session_ordinal : ℕ

-- The SHA-256 digests of canonical forms, which the code takes from hashlib.
pub record Digests : Type 0 where
  pub policy_digest : AuthorityPolicy → Key
  pub identity_digest : Session → Key

module _ (d : Digests) where
  -- `_assert_authority_session_static_binding`
  unfoldable pub assert_static_binding : Session → AuthorityPolicy → Error → Result (Unit {0})
  assert_static_binding s a e = do
    require (s.authority_policy_digest == d.policy_digest a) e
    require (a.permitted_repository_commit == s.repository_commit) e
    require (a.permitted_implementation_digest == s.implementation_digest) e
    require (a.permitted_network_id == s.network_id) e
    require (a.permitted_taker_address == s.taker_address) e
    require (a.permitted_venue_id == s.venue_id) e

  -- `_assert_authority_session_binding`
  unfoldable pub assert_binding : Session → AuthorityPolicy → ℕ → Error → Result (Unit {0})
  unfolding assert_static_binding
  assert_binding s a now e = do assert_static_binding s a e; require (is_current a now) e

-- the amounts are natural numbers by their type
unfoldable pub assert_within_capital_ceiling : ℕ → ℕ → AuthorityPolicy → Result (Unit {0})
assert_within_capital_ceiling requested held a = do
  require (ltb 0 requested) authority_ceiling
  require (leb requested a.max_reservation_atomic) authority_ceiling
  require (leb (held + requested) a.max_cumulative_atomic) authority_ceiling
