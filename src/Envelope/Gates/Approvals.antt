-- ===== src/Envelope/Gates/Approvals.antt =====
-- What an approval that qntyspot/execution_contract.py admits grants.
use qnty_spot.Prelude.{ℕ, ◌<◌, ◌≡◌, inl, inr, true, [], arith}
use qnty_spot.Errors.{ok, Result-cases, approval_contract}
use qnty_spot.Authority.{AuthorityPolicy, Session, Digests, assert_binding}
use qnty_spot.Envelope.{VenueResponse, Expected, Approval, Readiness, evaluate_readiness, reasons}
use qnty_spot.Envelope.Gates.{asks_approval, requires, assert_approval_admissible}

answered_approval :
    (x : Expected) (r : VenueResponse) (now : ℕ) (p : Approval) (answered : Readiness)
    → evaluate_readiness x r now ≡ ok answered
    → asks_approval answered ≡ true
    → requires answered p ≡ ok tt
    → (p.requested_allowance_atomic ≡ x.sell_amount_atomic)
      × (p.spender_address ≡ r.allowance_target)
      × (reasons x r now ≡ [])
unfolding evaluate_readiness
answered_approval x r now p answered h asks k = ground arith

-- An approval is admitted only for exactly the amount that is to be sold, of the token that is to be
-- sold, to the allowance target of the response, for the taker, under an authority that is bound to the
-- session, before its deadline, and where nothing else stands in the way of the execution.
pub approval_exact :
    (d : Digests) (p : Approval) (s : Session) (a : AuthorityPolicy) (x : Expected)
    (r : VenueResponse) (now : ℕ)
    → assert_approval_admissible d p s a x r now ≡ ok tt
    → (p.requested_allowance_atomic ≡ x.sell_amount_atomic)
      × (p.spender_address ≡ r.allowance_target)
      × (reasons x r now ≡ [])
      × (p.token_address ≡ x.sell_token)
      × (p.taker_address ≡ x.taker_address)
      × (assert_binding d s a now approval_contract ≡ ok tt)
      × (now < p.deadline_epoch_s)
unfolding assert_approval_admissible
approval_exact d p s a x r now h = elim (Result-cases (evaluate_readiness x r now)) [
  | inl (answered, e) ↦
      let (amount, spender, nothing) =
        answered_approval x r now p answered e (ground arith) (ground arith) in
      (amount, spender, nothing, ground arith, ground arith, ground arith, ground arith)
  | inr (failed, e) ↦ absurd (ground arith)
]
