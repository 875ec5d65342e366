-- ===== src/Envelope/Gates/Limits.antt =====
-- What an envelope that qntyspot/execution_contract.py admits can spend, and on what.
use qnty_spot.Prelude.{
  ℕ, ◌+◌, ◌*◌, ◌≤◌, ◌<◌, ◌≡◌, refl, ap, sym, ◌∙◌, inl, inr, Option, some, All, any, true, arith,
}
use qnty_spot.Errors.{ok, Result-cases, authority_ceiling}
use qnty_spot.Domain.{Key, Bounds, ceiling, ceil_div}
use qnty_spot.Domain.Ceiling.{ceiling-le_iff}
use qnty_spot.Prelive.{prorated_min_output_atomic}
use qnty_spot.Authority.{
  AuthorityPolicy, Session, Digests, assert_binding, assert_within_capital_ceiling,
}
use qnty_spot.Envelope.{VenueResponse, Expected, Envelope, Readiness, evaluate_readiness}
use qnty_spot.Envelope.Calldata.{Bytes, Selectors, is_settlement}
use qnty_spot.Envelope.Calldata.Decode.{Call, decode_call}
use qnty_spot.Envelope.Calldata.Bound.{IsBound, all_expected, calldata_binds}
use qnty_spot.Envelope.Gates.{
  Texts, assert_matches_response, response_binding, check_calldata, check_provenance, check_bounds,
  assert_envelope_admissible,
}

-- What a response that the contract does not refuse agrees with.
record Kept (x : Expected) (r : VenueResponse) : Type 0 where
  taker : r.taker_address ≡ x.taker_address
  sell : r.sell_token ≡ x.sell_token
  buy : r.buy_token ≡ x.buy_token
  amount : r.sell_amount_atomic ≡ x.sell_amount_atomic
  value : r.transaction_value_atomic ≡ 0
  target : r.transaction_to ≡ r.allowance_target

readiness-Kept :
    (x : Expected) (r : VenueResponse) (now : ℕ) (answered : Readiness)
    → evaluate_readiness x r now ≡ ok answered
    → Kept x r
unfolding evaluate_readiness
readiness-Kept x r now answered h = record {
  taker = ground arith;
  sell = ground arith;
  buy = ground arith;
  amount = ground arith;
  value = ground arith;
  target = ground arith;
}

prorated-floor :
    (b : Bounds) (input least output : ℕ)
    → prorated_min_output_atomic b input ≡ ok least
    → least ≤ output
    → b.min_output_atomic * input ≤ output * b.max_input_atomic
unfolding prorated_min_output_atomic ceil_div
prorated-floor b input least output h le =
    let pos : 0 < b.max_input_atomic = ground arith in
    let floor : least ≡ ceiling (b.min_output_atomic * input) b.max_input_atomic = ground arith in
    (ceiling-le_iff (b.min_output_atomic * input) b.max_input_atomic output pos).0
      (omega (arith, floor, le))

binding-eq :
    (x : Expected) (r : VenueResponse) (taker : Key)
    → Kept x r
    → r.taker_address ≡ taker
    → response_binding x r
      ≡ all_expected x.sell_token x.buy_token taker x.sell_amount_atomic x.min_output_atomic
binding-eq x r taker k e =
    let sell = k.sell in
    let buy = k.buy in
    let amount = k.amount in let value = k.value in rw (sell, buy, amount, value, e) refl

module _ (t : Texts) (d : Digests) (sel : Selectors) where
  -- The parts of the composite gate.
  record Admitted (v : Envelope) (s : Session) (a : AuthorityPolicy) (b : Bounds) (action : Key)
      (x : Expected) (r : VenueResponse) (held now : ℕ) (calldata : Option Bytes) : Type 0 where
    kept : Kept x r
    matches : assert_matches_response t v r ≡ ok tt
    checked : check_calldata t sel v x r calldata ≡ ok tt
    provenance : check_provenance t d v s a action now ≡ ok tt
    bounded : check_bounds t v x b now ≡ ok tt
    funded : assert_within_capital_ceiling v.max_input_atomic held a ≡ ok tt

  admissible-Admitted :
      (v : Envelope) (s : Session) (a : AuthorityPolicy) (b : Bounds) (action : Key) (x : Expected)
      (r : VenueResponse) (held now : ℕ) (calldata : Option Bytes)
      → assert_envelope_admissible t d sel v s a b action x r held now calldata ≡ ok tt
      → Admitted v s a b action x r held now calldata
  unfolding assert_envelope_admissible
  admissible-Admitted v s a b action x r held now calldata h =
      elim (Result-cases (evaluate_readiness x r now)) [
        | inl (answered, e) ↦ record {
          kept = readiness-Kept x r now answered e;
          matches = ground arith;
          checked = ground arith;
          provenance = ground arith;
          bounded = ground arith;
          funded = ground arith;
        }
        | inr (failed, e) ↦ absurd (ground arith)
      ]

  matches-terms :
      (v : Envelope) (r : VenueResponse)
      → assert_matches_response t v r ≡ ok tt
      → (v.max_input_atomic ≡ r.sell_amount_atomic)
        × (v.taker_address ≡ r.taker_address)
        × (v.transaction_value_atomic ≡ r.transaction_value_atomic)
        × (v.transaction_to ≡ r.transaction_to)
  unfolding assert_matches_response
  matches-terms v r h = ground arith

  bounds-terms :
      (v : Envelope) (x : Expected) (b : Bounds) (now : ℕ)
      → check_bounds t v x b now ≡ ok tt
      → (v.max_input_atomic ≤ b.max_input_atomic)
        × (now < v.deadline_epoch_s)
        × (v.deadline_epoch_s ≤ b.deadline_epoch_s)
        × (b.min_output_atomic * v.max_input_atomic ≤ v.min_output_atomic * b.max_input_atomic)
  unfolding check_bounds
  bounds-terms v x b now h = elim (Result-cases (prorated_min_output_atomic b v.max_input_atomic)) [
    | inl (least, e) ↦ (
      ground arith,
      ground arith,
      ground arith,
      prorated-floor b v.max_input_atomic least v.min_output_atomic e (ground arith),
    )
    | inr (failed, e) ↦ absurd (ground arith)
  ]

  funded-terms :
      (requested held : ℕ) (a : AuthorityPolicy)
      → assert_within_capital_ceiling requested held a ≡ ok tt
      → (requested ≤ a.max_reservation_atomic) × (held + requested ≤ a.max_cumulative_atomic)
  unfolding assert_within_capital_ceiling
  funded-terms requested held a h = ground arith

  provenance-terms :
      (v : Envelope) (s : Session) (a : AuthorityPolicy) (action : Key) (now : ℕ)
      → check_provenance t d v s a action now ≡ ok tt
      → (v.economic_action_id ≡ action)
        × (assert_binding d s a now authority_ceiling ≡ ok tt)
        × (v.taker_address ≡ s.taker_address)
  unfolding check_provenance
  provenance-terms v s a action now h = ground arith

  -- An envelope is admitted only for the action that was asked for, under an authority that is bound to
  -- the session at the time; it spends at most what the bounds, the reservation ceiling and, with the
  -- capital that is held, the cumulative ceiling allow; its minimum output per input is at least that of
  -- the bounds; it moves no native value; and its deadline lies ahead and within the bounds'.
  pub envelope_within :
      (v : Envelope) (s : Session) (a : AuthorityPolicy) (b : Bounds) (action : Key) (x : Expected)
      (r : VenueResponse) (held now : ℕ) (calldata : Option Bytes)
      → assert_envelope_admissible t d sel v s a b action x r held now calldata ≡ ok tt
      → (v.economic_action_id ≡ action)
        × (assert_binding d s a now authority_ceiling ≡ ok tt)
        × (v.max_input_atomic ≤ b.max_input_atomic)
        × (v.max_input_atomic ≤ a.max_reservation_atomic)
        × (held + v.max_input_atomic ≤ a.max_cumulative_atomic)
        × (b.min_output_atomic * v.max_input_atomic ≤ v.min_output_atomic * b.max_input_atomic)
        × (v.transaction_value_atomic ≡ 0)
        × (now < v.deadline_epoch_s)
        × (v.deadline_epoch_s ≤ b.deadline_epoch_s)
  envelope_within v s a b action x r held now calldata h =
      let w = admissible-Admitted v s a b action x r held now calldata h in
      let (same, bound, taker) = provenance-terms v s a action now w.provenance in
      let (amount, taken, value, target) = matches-terms v r w.matches in
      let (most, ahead, before, price) = bounds-terms v x b now w.bounded in
      let (reservation, cumulative) = funded-terms v.max_input_atomic held a w.funded in
      (same, bound, most, reservation, cumulative, price, value ∙ w.kept.value, ahead, before)

  calldata-terms :
      (v : Envelope) (x : Expected) (r : VenueResponse) (bytes : Bytes)
      → check_calldata t sel v x r (some bytes) ≡ ok tt
      → (c : Call) × (decode_call sel
            (response_binding x r)
            (some r.transaction_to)
            (some r.allowance_target)
            bytes
          ≡ ok c)
        × (v.calldata_sha256 ≡ t.calldata_digest bytes)
        × (v.min_output_atomic ≤ c.min_output_atomic)
  unfolding check_calldata
  calldata-terms v x r bytes h =
      elim (Result-cases (
        decode_call sel (response_binding x r) (some r.transaction_to) (some r.allowance_target)
          bytes)) [
            | inl (c, e) ↦ (c, e, ground arith, ground arith)
            | inr (failed, e) ↦ absurd (ground arith)
          ]

  -- Where an envelope is admitted with its calldata, the bytes have the digest that the envelope names,
  -- and decode, under the expected tokens, the taker of the session, and the expected amount and minimum,
  -- to a call that sells exactly the maximum input of the envelope, sells and buys the expected tokens,
  -- pays out to the taker of the session, and asks for no less than the minimum output of the envelope,
  -- which per input is no less than that of the bounds; at least one of its actions settles; and every
  -- one of them IsBound to these tokens, this taker, and the expected amount and minimum.
  pub calldata_within :
      (v : Envelope) (s : Session) (a : AuthorityPolicy) (b : Bounds) (action : Key) (x : Expected)
      (r : VenueResponse) (held now : ℕ) (bytes : Bytes)
      → assert_envelope_admissible t d sel v s a b action x r held now (some bytes) ≡ ok tt
      → (c : Call) × (decode_call sel
            (all_expected x.sell_token x.buy_token s.taker_address x.sell_amount_atomic
              x.min_output_atomic)
            (some r.transaction_to)
            (some r.allowance_target)
            bytes
          ≡ ok c)
        × (v.calldata_sha256 ≡ t.calldata_digest bytes)
        × (c.sell_amount_atomic ≡ v.max_input_atomic)
        × (c.sell_token ≡ x.sell_token)
        × (c.buy_token ≡ x.buy_token)
        × (c.recipient ≡ s.taker_address)
        × (v.min_output_atomic ≤ c.min_output_atomic)
        × (b.min_output_atomic * v.max_input_atomic ≤ v.min_output_atomic * b.max_input_atomic)
        × (any (λ d. is_settlement d.action) c.actions ≡ true)
        × All
            (IsBound x.sell_token x.buy_token s.taker_address x.sell_amount_atomic
              x.min_output_atomic)
            c.actions
  calldata_within v s a b action x r held now bytes h =
      let w = admissible-Admitted v s a b action x r held now (some bytes) h in
      let (same, bound, taker) = provenance-terms v s a action now w.provenance in
      let (amount, taken, value, target) = matches-terms v r w.matches in
      let (most, ahead, before, price) = bounds-terms v x b now w.bounded in
      let (c, decoded, digest, least) = calldata-terms v x r bytes w.checked in
      let e = binding-eq x r s.taker_address w.kept (sym taken ∙ taker) in
      let decoded' =
        sym (
          ap
            (λ binding.
              decode_call sel binding (some r.transaction_to) (some r.allowance_target) bytes)
            e)
        ∙ decoded in
      let (sold, bought, whole, paid, enough, settles, all_bound) =
        calldata_binds sel x.sell_token x.buy_token s.taker_address x.sell_amount_atomic
          x.min_output_atomic (some r.transaction_to) (some r.allowance_target) bytes c decoded' in
      (
        c,
        decoded',
        digest,
        whole ∙ sym (amount ∙ w.kept.amount),
        sold,
        bought,
        paid,
        least,
        price,
        settles,
        all_bound,
      )
