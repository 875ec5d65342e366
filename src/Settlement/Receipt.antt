-- ===== src/Settlement/Receipt.antt =====
-- From a conclusion to a receipt: `reconcile_to_receipt` of qntyspot/execution_contract.py, the only
-- path from external truth to a fill receipt.
use qnty_spot.Prelude.{
  ℕ, ◌*◌, ◌≤◌, ◌<◌, ◌≡◌, refl, ap, sym, ◌∙◌, Bool, true, false, ◌&&◌, Option, some, List, [], ◌∷◌,
  keep, All, ◌==◌, arith,
}
use qnty_spot.Errors.{
  Result, ok, err, ◌>>=◌, ◌>>◌, require, chain_truth, safe_halt_error, type_error,
}
use qnty_spot.States.{IntentState, externally_ambiguous_states, in_states}
use qnty_spot.Domain.{Key, Bounds, FillReceipt, make_receipt, satisfies}
use qnty_spot.Domain.Ceiling.{satisfies_exactly}
use qnty_spot.Settlement.{
  Observation, Finality, Verdict, confirmed, reverted, Expectation, Truth, evaluate,
  release_permitted, next_state, is_included, same_key, same_status, same_facts, latest_by_provider,
}
use qnty_spot.Settlement.Evidence.Agreement.{settlement_agreed}

-- `ValidatedEconomicActionV0`; `from_ledger` stands for the token of the ledger runtime
pub record ValidatedAction : Type 0 where
  pub economic_action_id : Key
  pub transaction_hash : Key
  pub chain_id : ℕ
  pub taker_address : Key
  pub from_ledger : Bool

unfoldable pub assert_matches : ValidatedAction → Expectation → Result (Unit {0})
assert_matches v e = do
  require v.from_ledger chain_truth
  require
      (v.economic_action_id == e.economic_action_id
        && v.transaction_hash == e.transaction_hash
        && v.chain_id == e.chain_id
        && v.taker_address == e.taker_address)
      chain_truth

abbrev is_bound : Truth → Expectation → Bool
is_bound t e =
    t.external_action_id == e.economic_action_id
    && t.transaction_hash == e.transaction_hash
    && t.chain_id == e.chain_id
    && t.taker_address == e.taker_address

abbrev is_confirmed : Verdict → Bool
is_confirmed confirmed = true
is_confirmed _ = false

-- What the caller adds to a receipt.
pub record ReceiptDetails : Type 0 where
  pub receipt_id : Key
  pub fee_atomic : ℕ
  pub observed_at_epoch_s : ℕ
  pub source : Key

-- A confirmed truth has both amounts; with none the comparison in the constructor of the receipt raises.
receipt_of : Expectation → ReceiptDetails → Option ℕ → Option ℕ → Result FillReceipt
receipt_of e r (some input) (some output) = make_receipt (record {
  receipt_id = r.receipt_id;
  economic_action_id = e.economic_action_id;
  external_ref = e.transaction_hash;
  input_atomic_filled = input;
  output_atomic_filled = output;
  fee_atomic = r.fee_atomic;
  observed_at_epoch_s = r.observed_at_epoch_s;
  source = r.source;
})
receipt_of e r _ _ = err type_error

unfoldable pub reconcile :
    Expectation → Truth → Bounds → ValidatedAction → ReceiptDetails → Result FillReceipt
unfolding receipt_of
reconcile e t b v r = do
  assert_matches v e
  require (is_bound t e) chain_truth
  require (is_confirmed t.verdict) safe_halt_error
  receipt ← receipt_of e r t.effective_input_atomic t.effective_output_atomic
  within ← satisfies receipt b
  require within safe_halt_error
  ok receipt

reconcile-parts :
    (e : Expectation) (t : Truth) (b : Bounds) (v : ValidatedAction) (r : ReceiptDetails)
    (receipt : FillReceipt)
    → reconcile e t b v r ≡ ok receipt
    → (v.from_ledger ≡ true)
      × (v.economic_action_id ≡ e.economic_action_id)
      × (v.transaction_hash ≡ e.transaction_hash)
      × (v.chain_id ≡ e.chain_id)
      × (v.taker_address ≡ e.taker_address)
      × (t.verdict ≡ confirmed)
      × (satisfies receipt b ≡ ok true)
      × (receipt.economic_action_id ≡ e.economic_action_id)
      × (receipt.external_ref ≡ e.transaction_hash)
      × (t.effective_input_atomic ≡ some receipt.input_atomic_filled)
      × (t.effective_output_atomic ≡ some receipt.output_atomic_filled)
unfolding reconcile assert_matches make_receipt
reconcile-parts e t b v r receipt h = ground arith

-- the amounts that an observation reports
abbrev pub Reports : ℕ → ℕ → Observation → Type 0
Reports input output o =
    (o.effective_input_atomic ≡ some input) × (o.effective_output_atomic ≡ some output)

same_key-eq : (a b : Option ℕ) → same_key a b ≡ true → b ≡ a
same_key-eq a b h = ground arith

same_facts-amounts :
    (x o : Observation)
    → same_facts x o ≡ true
    → (same_key x.effective_input_atomic o.effective_input_atomic ≡ true)
      × (same_key x.effective_output_atomic o.effective_output_atomic ≡ true)
unfolding same_facts
same_facts-amounts x o h =
    last_two
      (same_key x.block_number o.block_number
        && same_key x.block_hash o.block_hash
        && same_key x.block_parent_hash o.block_parent_hash
        && same_status x.receipt_status o.receipt_status)
      (same_key x.effective_input_atomic o.effective_input_atomic)
      (same_key x.effective_output_atomic o.effective_output_atomic) h
  where
    last_two : (a b c : Bool) → ((a && b) && c) ≡ true → (b ≡ true) × (c ≡ true)
    last_two a b c h = ground arith

facts-Reports :
    (x o : Observation) (input output : ℕ)
    → same_facts x o ≡ true
    → x.effective_input_atomic ≡ some input
    → x.effective_output_atomic ≡ some output
    → Reports input output o
facts-Reports x o input output h ei eo =
    let (hi, ho) = same_facts-amounts x o h in
    (
      same_key-eq x.effective_input_atomic o.effective_input_atomic hi ∙ ei,
      same_key-eq x.effective_output_atomic o.effective_output_atomic ho ∙ eo,
    )

All-Reports :
    (x : Observation) (xs : List Observation) (input output : ℕ)
    → All (λ o. same_facts x o ≡ true) xs
    → x.effective_input_atomic ≡ some input
    → x.effective_output_atomic ≡ some output
    → All (Reports input output) xs
All-Reports x [] input output a ei eo = tt
All-Reports x (o ∷ xs) input output a ei eo =
    (facts-Reports x o input output a.0 ei eo, All-Reports x xs input output a.1 ei eo)

-- A receipt is made only of a settlement that the ledger asked for and the chain confirmed: with bounds
-- of a positive maximum input, the action that the ledger validated has the expected economic action,
-- transaction, chain and taker; the receipt names that economic action and that transaction; its
-- amounts are those that every observed inclusion Reports and keep to the bounds; at least as many
-- providers as the finality policy asks for agree; and the concluded depth is at least the one that it
-- asks for.
pub receipt_proved :
    (id_of : Observation → Key) (e : Expectation) (records : List Observation) (f : Finality)
    (t : Truth) (b : Bounds) (v : ValidatedAction) (r : ReceiptDetails) (receipt : FillReceipt)
    → evaluate id_of e records f ≡ ok t
    → 0 < b.max_input_atomic
    → reconcile e t b v r ≡ ok receipt
    → (v.from_ledger ≡ true)
      × (v.economic_action_id ≡ e.economic_action_id)
      × (v.transaction_hash ≡ e.transaction_hash)
      × (v.chain_id ≡ e.chain_id)
      × (v.taker_address ≡ e.taker_address)
      × (receipt.economic_action_id ≡ v.economic_action_id)
      × (receipt.external_ref ≡ v.transaction_hash)
      × All
          (Reports receipt.input_atomic_filled receipt.output_atomic_filled)
          (keep is_included records)
      × (receipt.input_atomic_filled ≤ b.max_input_atomic)
      × (b.min_output_atomic * receipt.input_atomic_filled
          ≤ receipt.output_atomic_filled * b.max_input_atomic)
      × (f.min_agreeing_providers ≤ t.agreeing_provider_count)
      × (f.min_confirmation_depth ≤ t.confirmation_depth)
receipt_proved id_of e records f t b v r receipt h pos k =
    let (ledger, asked, sent, chain, taker, final, within, action, ref, input, output) =
      reconcile-parts e t b v r receipt k in
    let (x, now, story, enough, counted, deep, depths, value) =
      settlement_agreed id_of e records f t h (rw final refl) in
    let (le, ratio) = (satisfies_exactly receipt b pos).0 within in
    (
      ledger,
      asked,
      sent,
      chain,
      taker,
      action ∙ sym asked,
      ref ∙ sym sent,
      All-Reports x (keep is_included records) receipt.input_atomic_filled
          receipt.output_atomic_filled story
          (sym (ap (λ (u : Truth). u.effective_input_atomic) value) ∙ input)
          (sym (ap (λ (u : Truth). u.effective_output_atomic) value) ∙ output),
      le,
      ratio,
      enough,
      deep,
    )

reverted_only :
    (s : IntentState) (v : Verdict)
    → in_states s externally_ambiguous_states ≡ true
    → release_permitted s (some v) ≡ true
    → v ≡ reverted
unfolding release_permitted
reverted_only s v outside released = ground arith

next_state-reverted : (v : Verdict) → v ≡ reverted → next_state v ≡ some IntentState.rejected
unfolding next_state
next_state-reverted v e = ground arith

-- Once an action may be visible outside, a conclusion permits the release of its capital only where it
-- is a revert that enough providers agree on, deep enough; and the state that it then justifies is
-- REJECTED.
pub release_proved :
    (id_of : Observation → Key) (e : Expectation) (records : List Observation) (f : Finality)
    (t : Truth) (s : IntentState)
    → evaluate id_of e records f ≡ ok t
    → in_states s externally_ambiguous_states ≡ true
    → release_permitted s (some t.verdict) ≡ true
    → (t.verdict ≡ reverted)
      × (next_state t.verdict ≡ some IntentState.rejected)
      × All (λ o. is_included o ≡ true) (latest_by_provider id_of records)
      × (f.min_agreeing_providers ≤ t.agreeing_provider_count)
      × (f.min_confirmation_depth ≤ t.confirmation_depth)
release_proved id_of e records f t s h outside released =
    let final = reverted_only s t.verdict outside released in
    let (x, now, story, enough, counted, deep, depths, value) =
      settlement_agreed id_of e records f t h (rw final refl) in
    (final, next_state-reverted t.verdict final, now, enough, deep)
