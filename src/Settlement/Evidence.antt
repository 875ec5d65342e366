-- ===== src/Settlement/Evidence.antt =====
-- What a conclusion of `evaluate_chain_truth` of qntyspot/execution_contract.py rests on.
pub mod Agreement
use qnty_spot.Prelude.{
  ℕ, ◌-◌, ◌≤◌, ◌≡◌, refl, ap, sym, ◌∙◌, Bool, true, false, not, ◌&&◌, ◌||◌, Option, none, some,
  List, [], ◌∷◌, map, keep, find, any, All, length, ltb, leb, min, ◌==◌, ==_iff, if◌then◌else◌,
  arith, Bool-cases, inl, inr,
}
use qnty_spot.Errors.{Result, ok, err, ◌>>◌, require}
use qnty_spot.Domain.{Key}
use qnty_spot.Ledger.Rows.{Presence, ReceiptStatus, success, status_reverted}
use qnty_spot.Settlement.{
  Observation, is_included, reads_absent, is_success, same_key, same_status, same_facts, Finality,
  Verdict, confirmed, reverted, ambiguous, visible, Expectation, Truth, without, with_included,
  one_fact_set, took_back, distinct, providers_of, provider_depth, least, least_depth, outcome_of,
  conclude_included, conclude_from, is_some_included, conclude, latest_by_provider, evaluate,
}

pub any-false {ℓ} :
    {A : Type ℓ} (p : A → Bool) (xs : List A) → any p xs ≡ false → All (λ x. p x ≡ false) xs
any-false p [] h = tt
any-false p (x ∷ xs) h = (ground arith, any-false p xs (ground arith))

least-le : (best : ℕ) (ns : List ℕ) → (least best ns ≤ best) × All (λ n. least best ns ≤ n) ns
least-le best [] = (omega arith, tt)
least-le best (n ∷ ns) =
    let (le, all) = least-le (min best n) ns in (ground arith, (ground arith, all))

All-map {ℓ κ λ'} :
    {A : Type ℓ} {B : Type κ} (P : B → Type λ') (f : A → B) (xs : List A)
    → All P (map f xs)
    → All (λ x. P (f x)) xs
All-map P f [] h = tt
All-map P f (x ∷ xs) h = (h.0, All-map P f xs h.1)

-- A conclusion about an inclusion: what was observed, and what is concluded from it.
pub record Final (e : Expectation) (f : Finality) (records latest : List Observation)
    (outcome : Verdict) (t : Truth) : Type 0 where
  pub exemplar : Observation
  pub rest : List Observation
  pub now_included : keep is_included latest ≡ exemplar ∷ rest
  pub one_story : one_fact_set (keep is_included records) ≡ true
  pub no_retraction : any (took_back records) latest ≡ false
  pub no_dissent : any (λ o. not (is_included o)) latest ≡ false
  pub enough : f.min_agreeing_providers ≤ length (providers_of (exemplar ∷ rest))
  pub deep : f.min_confirmation_depth ≤ t.confirmation_depth
  pub counted : t.agreeing_provider_count ≡ length (providers_of (exemplar ∷ rest))
  pub measured :
      t.confirmation_depth
      ≡ least_depth (map (provider_depth latest exemplar) (providers_of (exemplar ∷ rest)))
  pub said : outcome_of exemplar.receipt_status ≡ outcome
  pub value : t ≡ with_included e outcome t.agreeing_provider_count t.confirmation_depth exemplar

-- CONFIRMED and REVERTED, the two outcomes of a settlement.
abbrev pub is_final : Verdict → Bool
is_final confirmed = true
is_final reverted = true
is_final _ = false

concluded-final :
    (e : Expectation) (f : Finality) (latest : List Observation) (exemplar : Observation)
    (rest : List Observation) (t : Truth)
    → conclude_included e f latest exemplar rest ≡ t
    → is_final t.verdict ≡ true
    → (f.min_agreeing_providers ≤ length (providers_of (exemplar ∷ rest)))
      × (f.min_confirmation_depth ≤ t.confirmation_depth)
      × (t.agreeing_provider_count ≡ length (providers_of (exemplar ∷ rest)))
      × (t.confirmation_depth
          ≡ least_depth (map (provider_depth latest exemplar) (providers_of (exemplar ∷ rest))))
      × (outcome_of exemplar.receipt_status ≡ t.verdict)
      × (t ≡ with_included e t.verdict t.agreeing_provider_count t.confirmation_depth exemplar)
unfolding conclude_included
concluded-final e f latest exemplar rest t h k = ground arith

conclude-parts :
    (e : Expectation) (f : Finality) (records latest : List Observation) (t : Truth)
    → conclude e f records latest ≡ t
    → is_final t.verdict ≡ true
    → (one_fact_set (keep is_included records) ≡ true)
      × (any (took_back records) latest ≡ false)
      × (conclude_from e f records latest (keep is_included latest) ≡ t)
      × ((is_some_included (keep is_included latest) && any (λ o. not (is_included o)) latest)
          ≡ false)
unfolding conclude
conclude-parts e f records latest t h k = ground arith

from-parts :
    (e : Expectation) (f : Finality) (records latest inc : List Observation) (t : Truth)
    → conclude_from e f records latest inc ≡ t
    → is_final t.verdict ≡ true
    → (exemplar : Observation) × (rest : List Observation) × (inc ≡ exemplar ∷ rest)
      × (conclude_included e f latest exemplar rest ≡ t)
unfolding conclude_from
from-parts e f records latest [] t h k = absurd (ground arith)
from-parts e f records latest (x ∷ rest) t h k = (x, rest, refl, h)

pub conclude-Final :
    (e : Expectation) (f : Finality) (records latest : List Observation) (t : Truth)
    → conclude e f records latest ≡ t
    → is_final t.verdict ≡ true
    → Final e f records latest t.verdict t
conclude-Final e f records latest t h k =
    let (story, kept, from, dissent) = conclude-parts e f records latest t h k in
    let (x, rest, inc, included) =
      from-parts e f records latest (keep is_included latest) t from k in
    let (enough, deep, counted, measured, said, value) =
      concluded-final e f latest x rest t included k in
    record {
      exemplar = x;
      rest = rest;
      now_included = inc;
      one_story = story;
      no_retraction = kept;
      no_dissent = ground (arith, inc);
      enough = enough;
      deep = deep;
      counted = counted;
      measured = measured;
      said = said;
      value = value;
    }
