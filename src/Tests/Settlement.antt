-- ===== src/Tests/Settlement.antt =====
-- Two providers see one inclusion, five blocks deep, that fills an action; and one that reverted.
use qnty_spot.Prelude.{
  ℕ, ◌*◌, ◌≡◌, ◌≤◌, refl, true, none, some, Option, List, [], ◌∷◌, All, keep, length, arith,
}
use qnty_spot.Errors.{ok}
use qnty_spot.States
use qnty_spot.States.{submitted}
use qnty_spot.Domain.{Key, make_receipt, satisfies, prorated_min_output, ceil_div}
use qnty_spot.Ledger.Rows.{Presence, ReceiptStatus, success, status_reverted}
use qnty_spot.Settlement.{
  Observation, Finality, confirmed, reverted, Expectation, Truth, with_included, is_included,
  same_facts, outcome_of, conclude, conclude_from, conclude_included, providers_of, provider_depth,
  latest_by_provider, evaluate, next_state, release_permitted,
}
use qnty_spot.Settlement.Evidence.Agreement.{settlement_agreed}
use qnty_spot.Settlement.Receipt.{
  ValidatedAction, ReceiptDetails, assert_matches, reconcile, Reports, receipt_proved,
  release_proved,
}
use qnty_spot.Tests.Market.{receipt, bounds}

abbrev seen_by : Key → ℕ → ReceiptStatus → Option ℕ → Option ℕ → Observation
seen_by provider now status input output = record {
  provider_id = provider;
  transaction_hash = 41;
  observed_at_epoch_s = now;
  presence = Presence.included;
  raw_evidence_sha256 = provider;
  block_number = some 100;
  block_hash = some 61;
  block_parent_hash = some 60;
  head_block_number = some 105;
  head_block_hash = some 66;
  receipt_status = some status;
  effective_input_atomic = input;
  effective_output_atomic = output;
}

abbrev filled_records : List Observation
filled_records =
    seen_by 1 1030 success (some 300) (some 150) ∷ seen_by 2 1031 success (some 300) (some 150) ∷ []

abbrev reverted_records : List Observation
reverted_records =
    seen_by 1 1030 status_reverted none none ∷ seen_by 2 1031 status_reverted none none ∷ []

abbrev finality : Finality
finality = record { min_confirmation_depth = 3; min_agreeing_providers = 2 }

abbrev expectation : Expectation
expectation = record {
  economic_action_id = 11;
  transaction_hash = 41;
  chain_id = 5;
  taker_address = 9;
  submission_acknowledged = true;
}

-- a digest of an observation
abbrev id_of : Observation → Key
id_of o = o.provider_id

abbrev filled_truth : Truth
filled_truth =
    with_included expectation confirmed 2 5 (seen_by 1 1030 success (some 300) (some 150))

abbrev reverted_truth : Truth
reverted_truth = with_included expectation reverted 2 5 (seen_by 1 1030 status_reverted none none)

concluding : evaluate id_of expectation filled_records finality ≡ ok filled_truth
unfolding evaluate conclude conclude_from conclude_included latest_by_provider same_facts
concluding = refl

concluding_revert : evaluate id_of expectation reverted_records finality ≡ ok reverted_truth
unfolding evaluate conclude conclude_from conclude_included latest_by_provider same_facts
concluding_revert = refl

abbrev validated : ValidatedAction
validated = record {
  economic_action_id = 11;
  transaction_hash = 41;
  chain_id = 5;
  taker_address = 9;
  from_ledger = true;
}

abbrev details : ReceiptDetails
details = record { receipt_id = 31; fee_atomic = 1; observed_at_epoch_s = 1040; source = 51 }

reconciling : reconcile expectation filled_truth bounds validated details ≡ ok receipt
unfolding reconcile assert_matches make_receipt satisfies prorated_min_output ceil_div
reconciling = refl

abbrev filled_latest : List Observation
filled_latest = latest_by_provider id_of filled_records

settlement_agreed_example :
    (x : Observation) × All (λ o. is_included o ≡ true) filled_latest
    × All (λ o. same_facts x o ≡ true) (keep is_included filled_records)
    × (2 ≤ 2)
    × (2 ≡ length (providers_of (keep is_included filled_latest)))
    × (3 ≤ 5)
    × All
        (λ k. 5 ≤ provider_depth filled_latest x k)
        (providers_of (keep is_included filled_latest))
    × (filled_truth ≡ with_included expectation (outcome_of x.receipt_status) 2 5 x)
settlement_agreed_example =
    settlement_agreed id_of expectation filled_records finality filled_truth concluding refl

receipt_proved_example :
    (true ≡ true)
    × (validated.economic_action_id ≡ expectation.economic_action_id)
    × (validated.transaction_hash ≡ expectation.transaction_hash)
    × (validated.chain_id ≡ expectation.chain_id)
    × (validated.taker_address ≡ expectation.taker_address)
    × (receipt.economic_action_id ≡ validated.economic_action_id)
    × (receipt.external_ref ≡ validated.transaction_hash)
    × All (Reports 300 150) (keep is_included filled_records)
    × (300 ≤ 300)
    × (149 * 300 ≤ 150 * 300)
    × (2 ≤ 2)
    × (3 ≤ 5)
receipt_proved_example =
    receipt_proved id_of expectation filled_records finality filled_truth bounds validated details
      receipt concluding (omega arith) reconciling

release_proved_example :
    (reverted ≡ reverted)
    × (next_state reverted ≡ some States.rejected)
    × All (λ o. is_included o ≡ true) (latest_by_provider id_of reverted_records)
    × (2 ≤ 2)
    × (3 ≤ 5)
unfolding release_permitted
release_proved_example =
    release_proved id_of expectation reverted_records finality reverted_truth submitted
      concluding_revert refl refl
