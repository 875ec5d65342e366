-- ===== src/Settlement.antt =====
-- Chain observations and the conclusions drawn from them, `evaluate_chain_truth` of
-- qntyspot/execution_contract.py. Hashes and provider names are numbers, as they are only compared, and
-- identifiers that are sorted are numbered in the order of their texts.
pub mod Evidence
pub mod Receipt
use qnty_spot.Prelude.{
  ℕ, ◌+◌, ◌-◌, ◌≡◌, Bool, true, false, not, ◌&&◌, ◌||◌, Option, none, some, List, [], ◌∷◌, map,
  keep, find, any, length, ltb, leb, min, ◌==◌, if◌then◌else◌,
}
use qnty_spot.Errors.{Result, ok, err, ◌>>=◌, ◌>>◌, require, chain_truth}
use qnty_spot.States
use qnty_spot.States.{IntentState, pre_commitment_states, externally_ambiguous_states, in_states}
use qnty_spot.Domain.{Key}
use qnty_spot.Ledger.Rows.{Presence, absent, pending, ReceiptStatus, success, status_reverted}
use qnty_spot.Ledger.Rows

-- `ChainObservationV0`
pub record Observation : Type 0 where
  pub provider_id : Key
  pub transaction_hash : Key
  pub observed_at_epoch_s : ℕ
  pub presence : Presence
  pub raw_evidence_sha256 : Key
  pub block_number : Option ℕ
  pub block_hash : Option Key
  pub block_parent_hash : Option Key
  pub head_block_number : Option ℕ
  pub head_block_hash : Option Key
  pub receipt_status : Option ReceiptStatus
  pub effective_input_atomic : Option ℕ
  pub effective_output_atomic : Option ℕ

abbrev pub given {ℓ} : {A : Type ℓ} → Option A → Bool
given none = false
given (some a) = true

abbrev pub reads_included : Presence → Bool
reads_included Presence.included = true
reads_included _ = false

abbrev pub reads_pending : Presence → Bool
reads_pending pending = true
reads_pending _ = false

abbrev pub reads_absent : Presence → Bool
reads_absent absent = true
reads_absent _ = false

abbrev pub is_included : Observation → Bool
is_included o = reads_included o.presence

abbrev pub is_success : Option ReceiptStatus → Bool
is_success (some success) = true
is_success _ = false

abbrev not_before : Option ℕ → Option ℕ → Bool
not_before (some head) (some block) = leb block head
not_before _ _ = true

abbrev positive : Option ℕ → Bool
positive none = false
positive (some n) = ltb 0 n

-- the block identity and the receipt status: all there or all absent
abbrev carries_block : Observation → Bool
carries_block o =
    given o.block_number
    && given o.block_hash
    && given o.block_parent_hash
    && given o.receipt_status

abbrev carries_no_block : Observation → Bool
carries_no_block o =
    not (given o.block_number)
    && not (given o.block_hash)
    && not (given o.block_parent_hash)
    && not (given o.receipt_status)

abbrev amounts_fit : Bool → Observation → Bool
amounts_fit true o = positive o.effective_input_atomic && positive o.effective_output_atomic
amounts_fit false o = not (given o.effective_input_atomic) && not (given o.effective_output_atomic)

abbrev same_given : Option ℕ → Option Key → Bool
same_given none none = true
same_given (some n) (some k) = true
same_given _ _ = false

-- `ChainObservationV0.__post_init__`, past the form of its texts
unfoldable pub make_observation : Observation → Result Observation
make_observation o = do
  require (if is_included o then carries_block o else carries_no_block o) chain_truth
  require (same_given o.head_block_number o.head_block_hash) chain_truth
  require (not (is_included o) || not_before o.head_block_number o.block_number) chain_truth
  require (amounts_fit (is_included o && is_success o.receipt_status) o) chain_truth
  ok o

abbrev pub same_key : Option Key → Option Key → Bool
same_key none none = true
same_key (some a) (some b) = a == b
same_key _ _ = false

abbrev pub same_status : Option ReceiptStatus → Option ReceiptStatus → Bool
same_status none none = true
same_status (some success) (some success) = true
same_status (some status_reverted) (some status_reverted) = true
same_status _ _ = false

-- equality of two `settlement_facts`
unfoldable pub same_facts : Observation → Observation → Bool
same_facts a b =
    same_key a.block_number b.block_number
    && same_key a.block_hash b.block_hash
    && same_key a.block_parent_hash b.block_parent_hash
    && same_status a.receipt_status b.receipt_status
    && same_key a.effective_input_atomic b.effective_input_atomic
    && same_key a.effective_output_atomic b.effective_output_atomic

-- `FinalityPolicyV0`
pub record Finality : Type 0 where
  pub min_confirmation_depth : ℕ
  pub min_agreeing_providers : ℕ

unfoldable pub make_finality : Finality → Result Finality
make_finality f = do
  require (ltb 0 f.min_confirmation_depth) chain_truth
  require (ltb 0 f.min_agreeing_providers) chain_truth
  ok f

pub data Verdict : Type 0 where
  no_evidence visible included confirmed reverted ambiguous : Verdict

-- `SettlementExpectationV0`
pub record Expectation : Type 0 where
  pub economic_action_id : Key
  pub transaction_hash : Key
  pub chain_id : ℕ
  pub taker_address : Key
  pub submission_acknowledged : Bool

-- `ChainTruthV0`, without the digest of the evidence
pub record Truth : Type 0 where
  pub external_action_id : Key
  pub transaction_hash : Key
  pub chain_id : ℕ
  pub taker_address : Key
  pub verdict : Verdict
  pub agreeing_provider_count : ℕ
  pub confirmation_depth : ℕ
  pub block_hash : Option Key
  pub receipt_status : Option ReceiptStatus
  pub effective_input_atomic : Option ℕ
  pub effective_output_atomic : Option ℕ

-- `verdict_of` with nothing included
abbrev pub without : Expectation → Verdict → Truth
without e v = record {
  external_action_id = e.economic_action_id;
  transaction_hash = e.transaction_hash;
  chain_id = e.chain_id;
  taker_address = e.taker_address;
  verdict = v;
  agreeing_provider_count = 0;
  confirmation_depth = 0;
  block_hash = none;
  receipt_status = none;
  effective_input_atomic = none;
  effective_output_atomic = none;
}

-- `verdict_of` with an included observation
abbrev pub with_included : Expectation → Verdict → ℕ → ℕ → Observation → Truth
with_included e v agreeing depth o = record (without e v) {
  agreeing_provider_count = agreeing;
  confirmation_depth = depth;
  block_hash = o.block_hash;
  receipt_status = o.receipt_status;
  effective_input_atomic = o.effective_input_atomic;
  effective_output_atomic = o.effective_output_atomic;
}

-- `latest[observation.provider_id] = observation`: a key keeps its place in a dict
abbrev pub record_latest : Observation → List Observation → List Observation
record_latest o [] = o ∷ []
record_latest o (x ∷ rest) =
    if x.provider_id == o.provider_id then o ∷ rest else x ∷ record_latest o rest

abbrev pub latest_of : List Observation → List Observation → List Observation
latest_of [] latest = latest
latest_of (o ∷ rest) latest = latest_of rest (record_latest o latest)

-- the included observations ever made have one set of facts
abbrev pub one_fact_set : List Observation → Bool
one_fact_set [] = true
one_fact_set (o ∷ rest) = not (any (λ x. not (same_facts o x)) rest)

-- a provider that reported an inclusion and now reports none
abbrev pub took_back : List Observation → Observation → Bool
took_back records o =
    not (is_included o)
    && any (λ prior. prior.provider_id == o.provider_id && is_included prior) records

abbrev pub distinct : List Key → List Key
distinct [] = []
distinct (k ∷ rest) = k ∷ keep (λ j. not (j == k)) (distinct rest)

abbrev pub providers_of : List Observation → List Key
providers_of observations = distinct (map (λ o. o.provider_id) observations)

-- An INCLUDED observation has a block number, so the last case is that of no head.
abbrev pub depth_below : Option ℕ → Option ℕ → ℕ
depth_below (some head) (some block) = head - block
depth_below _ _ = 0

abbrev head_of : Option Observation → Option ℕ
head_of none = none
head_of (some o) = o.head_block_number

-- the depth of a block under the latest head of a provider
abbrev pub provider_depth : List Observation → Observation → Key → ℕ
provider_depth latest exemplar provider =
    depth_below (head_of (find (λ o. o.provider_id == provider) latest)) exemplar.block_number

-- `min(depths)`
abbrev pub least : ℕ → List ℕ → ℕ
least best [] = best
least best (n ∷ rest) = least (min best n) rest

abbrev pub least_depth : List ℕ → ℕ
least_depth [] = 0
least_depth (n ∷ rest) = least n rest

abbrev pub outcome_of : Option ReceiptStatus → Verdict
outcome_of status = if is_success status then confirmed else reverted

unfoldable pub conclude_included :
    Expectation → Finality → List Observation → Observation → List Observation → Truth
conclude_included e f latest exemplar rest =
    let providers = providers_of (exemplar ∷ rest) in
    let depth = least_depth (map (provider_depth latest exemplar) providers) in
    if ltb (length providers) f.min_agreeing_providers
    then with_included e visible (length providers) 0 exemplar
    else if ltb depth f.min_confirmation_depth
    then with_included e Verdict.included (length providers) depth exemplar
    else with_included e (outcome_of exemplar.receipt_status) (length providers) depth exemplar

unfoldable pub conclude_from :
    Expectation → Finality → List Observation → List Observation → List Observation → Truth
conclude_from e f records latest [] =
    if any (λ o. reads_pending o.presence) records
    then without e visible
    else if e.submission_acknowledged
    then without e ambiguous
    else without e no_evidence
conclude_from e f records latest (exemplar ∷ rest) = conclude_included e f latest exemplar rest

abbrev pub is_some_included : List Observation → Bool
is_some_included [] = false
is_some_included (o ∷ rest) = true

-- Contradiction always wins.
unfoldable pub conclude : Expectation → Finality → List Observation → List Observation → Truth
unfolding conclude_from
conclude e f records latest =
    let now_included = keep is_included latest in
    if not (one_fact_set (keep is_included records))
    then without e ambiguous
    else if any (took_back records) latest
    then without e ambiguous
    else if is_some_included now_included
        && (any (λ o. reads_absent o.presence) latest || any (λ o. not (is_included o)) latest)
    then without e ambiguous
    else conclude_from e f records latest now_included

-- `id_of` is the SHA-256 digest of an observation's canonical form.
module _ (id_of : Observation → Key) where
  abbrev pub precedes : Observation → Observation → Bool
  precedes a b =
      ltb a.observed_at_epoch_s b.observed_at_epoch_s
      || a.observed_at_epoch_s == b.observed_at_epoch_s && leb (id_of a) (id_of b)

  abbrev pub insert_sorted : Observation → List Observation → List Observation
  insert_sorted o [] = o ∷ []
  insert_sorted o (x ∷ rest) = if precedes o x then o ∷ x ∷ rest else x ∷ insert_sorted o rest

  abbrev pub sorted : List Observation → List Observation
  sorted [] = []
  sorted (o ∷ rest) = insert_sorted o (sorted rest)

  unfoldable pub latest_by_provider : List Observation → List Observation
  latest_by_provider records = latest_of (sorted records) []

  unfoldable pub evaluate : Expectation → List Observation → Finality → Result Truth
  evaluate e records f = do
    require (not (any (λ o. not (o.transaction_hash == e.transaction_hash)) records)) chain_truth
    ok (conclude e f records (latest_by_provider records))

-- `next_state_for_verdict`: no transition is justified before an inclusion
unfoldable pub next_state : Verdict → Option IntentState
next_state no_evidence = none
next_state visible = none
next_state Verdict.included = some IntentState.included
next_state confirmed = some IntentState.confirmed
next_state reverted = some IntentState.rejected
next_state ambiguous = some IntentState.safe_halt

abbrev is_revert : Option Verdict → Bool
is_revert (some reverted) = true
is_revert _ = false

unfoldable pub release_permitted : IntentState → Option Verdict → Bool
release_permitted s v =
    if in_states s pre_commitment_states
    then true
    else if in_states s externally_ambiguous_states
    then is_revert v
    else false
