-- ===== src/Settlement/Evidence/Agreement.antt =====
-- The agreement of observations behind a settlement that `evaluate_chain_truth` of
-- qntyspot/execution_contract.py concludes.
use mathlib.Core.Path.{subst}
use qnty_spot.Prelude.{
  ℕ, ◌≤◌, ◌≡◌, refl, ap, sym, ◌∙◌, Bool, true, false, not, ◌&&◌, Option, none, some, List, [], ◌∷◌,
  map, keep, All, length, ◌==◌, arith, Bool-cases, inl, inr,
}
use qnty_spot.Errors.{ok}
use qnty_spot.Domain.{Key}
use qnty_spot.Ledger.Rows.{ReceiptStatus}
use qnty_spot.Settlement.{
  Observation, is_included, same_key, same_status, same_facts, Finality, Verdict, Expectation,
  Truth, one_fact_set, providers_of, provider_depth, least_depth, record_latest, latest_of,
  precedes, insert_sorted, sorted, latest_by_provider, evaluate, outcome_of, with_included,
}
use qnty_spot.Settlement.Evidence.{any-false, least-le, All-map, Final, is_final, conclude-Final}

same_key-sym : (a b : Option ℕ) → same_key a b ≡ same_key b a
same_key-sym none none = refl
same_key-sym (some a) (some b) = ground arith
same_key-sym none (some b) = refl
same_key-sym (some a) none = refl

same_key-join : (a b c : Option ℕ) → same_key a b ≡ true → same_key a c ≡ true → same_key b c ≡ true
same_key-join a b c h k = ground arith

same_status-join :
    (a b c : Option ReceiptStatus)
    → same_status a b ≡ true
    → same_status a c ≡ true
    → same_status b c ≡ true
same_status-join a b c h k = ground arith

same_key_refl : (a : Option ℕ) → same_key a a ≡ true
same_key_refl a = ground arith

same_facts_refl : (a : Observation) → same_facts a a ≡ true
unfolding same_facts
same_facts_refl a = ground arith

both :
    (a b c a' b' c' : Bool)
    → (a ≡ true → b ≡ true → c ≡ true)
    → (a' ≡ true → b' ≡ true → c' ≡ true)
    → (a && a') ≡ true
    → (b && b') ≡ true
    → (c && c') ≡ true
both true true c true true c' f g h k = rw (f refl refl, g refl refl) refl
both true true c true false c' f g h k = cc
both true true c false b' c' f g h k = cc
both true false c a' b' c' f g h k = cc
both false b c a' b' c' f g h k = cc

-- Observations that agree with one observation agree with each other.
same_facts-join :
    (a b c : Observation) → same_facts a b ≡ true → same_facts a c ≡ true → same_facts b c ≡ true
unfolding same_facts
same_facts-join a b c =
    both _ _ _ _ _ _
      (both _ _ _ _ _ _
        (both _ _ _ _ _ _
          (both _ _ _ _ _ _
            (both _ _ _ _ _ _ (same_key-join a.block_number b.block_number c.block_number)
              (same_key-join a.block_hash b.block_hash c.block_hash))
            (same_key-join a.block_parent_hash b.block_parent_hash c.block_parent_hash))
          (same_status-join a.receipt_status b.receipt_status c.receipt_status))
        (same_key-join a.effective_input_atomic b.effective_input_atomic c.effective_input_atomic))
      (same_key-join a.effective_output_atomic b.effective_output_atomic c.effective_output_atomic)

module _ {κ} (P : Observation → Type κ) where
  All-record_latest :
      (o : Observation) (latest : List Observation)
      → P o
      → All P latest
      → All P (record_latest o latest)
  All-record_latest o [] p a = (p, tt)
  All-record_latest o (x ∷ rest) p a = elim (Bool-cases (x.provider_id == o.provider_id)) [
    | inl same ↦ rw same (p, a.1)
    | inr other ↦ rw other (a.0, All-record_latest o rest p a.1)
  ]

  All-latest_of :
      (records latest : List Observation)
      → All P records
      → All P latest
      → All P (latest_of records latest)
  All-latest_of [] latest r a = a
  All-latest_of (o ∷ records) latest r a =
      All-latest_of records (record_latest o latest) r.1 (All-record_latest o latest r.0 a)

  module _ (id_of : Observation → Key) where
    All-insert_sorted :
        (o : Observation) (xs : List Observation)
        → P o
        → All P xs
        → All P (insert_sorted id_of o xs)
    All-insert_sorted o [] p a = (p, tt)
    All-insert_sorted o (x ∷ rest) p a = elim (Bool-cases (precedes id_of o x)) [
      | inl first ↦ rw first (p, a)
      | inr later ↦ rw later (a.0, All-insert_sorted o rest p a.1)
    ]

    All-sorted : (xs : List Observation) → All P xs → All P (sorted id_of xs)
    All-sorted [] a = tt
    All-sorted (x ∷ xs) a = All-insert_sorted x (sorted id_of xs) a.0 (All-sorted xs a.1)

    pub All-latest :
        (records : List Observation) → All P records → All P (latest_by_provider id_of records)
    unfolding latest_by_provider
    All-latest records a = All-latest_of (sorted id_of records) [] (All-sorted records a) tt

-- An included observation agrees with the given one.
abbrev Agrees : Observation → Observation → Type 0
Agrees h o = is_included o ≡ true → same_facts h o ≡ true

All-Agrees :
    (h : Observation) (xs : List Observation)
    → All (λ o. same_facts h o ≡ true) (keep is_included xs)
    → All (Agrees h) xs
All-Agrees h [] a = tt
All-Agrees h (x ∷ xs) a = elim (Bool-cases (is_included x)) [
  | inl inside ↦ (let a' = rw inside at a in (λ i. a'.0, All-Agrees h xs a'.1))
  | inr outside ↦ ((λ i. cc), All-Agrees h xs (rw outside at a))
]

All-keep :
    (P : Observation → Type 0) (xs : List Observation) → All P xs → All P (keep is_included xs)
All-keep P [] a = tt
All-keep P (x ∷ xs) a = elim (Bool-cases (is_included x)) [
  | inl inside ↦ rw inside (a.0, All-keep P xs a.1)
  | inr outside ↦ rw outside (All-keep P xs a.1)
]

All-included : (xs : List Observation) → All (λ o. is_included o ≡ true) (keep is_included xs)
All-included [] = tt
All-included (x ∷ xs) = elim (Bool-cases (is_included x)) [
  | inl inside ↦ rw inside (inside, All-included xs)
  | inr outside ↦ rw outside (All-included xs)
]

All-join :
    (h x : Observation) (xs : List Observation)
    → same_facts h x ≡ true
    → All (λ o. same_facts h o ≡ true) xs
    → All (λ o. same_facts x o ≡ true) xs
All-join h x [] e a = tt
All-join h x (y ∷ ys) e a = (same_facts-join h x y e a.0, All-join h x ys e a.1)

not-false-All :
    (P : Observation → Bool) (xs : List Observation)
    → All (λ o. not (P o) ≡ false) xs
    → All (λ o. P o ≡ true) xs
not-false-All P [] a = tt
not-false-All P (x ∷ xs) a = (ground (arith, a.0), not-false-All P xs a.1)

-- The first of one set of facts agrees with all of it.
one_fact_set-All :
    (y : Observation) (ys : List Observation)
    → one_fact_set (y ∷ ys) ≡ true
    → All (λ o. same_facts y o ≡ true) (y ∷ ys)
one_fact_set-All y ys h = (
  same_facts_refl y,
  not-false-All (same_facts y) ys (any-false (λ o. not (same_facts y o)) ys (ground arith)),
)

head-Agrees :
    (h x : Observation) (rest ys : List Observation)
    → ys ≡ x ∷ rest
    → All (Agrees h) ys
    → All (λ o. is_included o ≡ true) ys
    → same_facts h x ≡ true
head-Agrees h x rest [] e a i = cc
head-Agrees h x rest (y ∷ ys) e a i =
    subst (λ o. same_facts h o ≡ true) (head-eq y x ys rest e) (a.0 i.0)
  where
    head-eq : (y x : Observation) (ys rest : List Observation) → y ∷ ys ≡ x ∷ rest → y ≡ x
    head-eq y x ys rest e = cc

module _ (id_of : Observation → Key) (records : List Observation) where
  exemplar-agrees :
      (x : Observation) (rest ks : List Observation)
      → keep is_included (latest_by_provider id_of records) ≡ x ∷ rest
      → keep is_included records ≡ ks
      → one_fact_set ks ≡ true
      → All (λ o. same_facts x o ≡ true) ks
  exemplar-agrees x rest [] now e story = tt
  exemplar-agrees x rest (h ∷ ks) now e story =
      let latest = latest_by_provider id_of records in
      let a = one_fact_set-All h ks story in
      let everywhere = All-latest (Agrees h) id_of records (All-Agrees h records (rw e a)) in
      All-join h x (h ∷ ks)
        (head-Agrees h x rest (keep is_included latest) now (All-keep (Agrees h) latest everywhere)
          (All-included latest))
        a

least_depth-All : (ns : List ℕ) → All (λ n. least_depth ns ≤ n) ns
least_depth-All [] = tt
least_depth-All (n ∷ ns) = least-le n ns

depths-bound :
    (depth : ℕ) (latest : List Observation) (x : Observation) (providers : List Key)
    → depth ≡ least_depth (map (provider_depth latest x) providers)
    → All (λ k. depth ≤ provider_depth latest x k) providers
depths-bound depth latest x providers e =
    All-map (λ n. depth ≤ n) (provider_depth latest x) providers
      (subst (λ d. All (λ n. d ≤ n) (map (provider_depth latest x) providers)) (sym e)
        (least_depth-All (map (provider_depth latest x) providers)))

Final-agreed :
    (id_of : Observation → Key) (e : Expectation) (f : Finality) (records : List Observation)
    (t : Truth) (outcome : Verdict)
    → Final e f records (latest_by_provider id_of records) outcome t
    → (x : Observation) × All (λ o. is_included o ≡ true) (latest_by_provider id_of records)
      × All (λ o. same_facts x o ≡ true) (keep is_included records)
      × (f.min_agreeing_providers ≤ t.agreeing_provider_count)
      × (t.agreeing_provider_count
          ≡ length (providers_of (keep is_included (latest_by_provider id_of records))))
      × (f.min_confirmation_depth ≤ t.confirmation_depth)
      × All
          (λ k. t.confirmation_depth ≤ provider_depth (latest_by_provider id_of records) x k)
          (providers_of (keep is_included (latest_by_provider id_of records)))
      × (t
          ≡ with_included e
              (outcome_of x.receipt_status)
              t.agreeing_provider_count
              t.confirmation_depth
              x)
Final-agreed id_of e f records t outcome c =
    let latest = latest_by_provider id_of records in
    let x = c.exemplar in
    let e_now = sym c.now_included in
    (
      x,
      not-false-All is_included latest (any-false (λ o. not (is_included o)) latest c.no_dissent),
      exemplar-agrees id_of records x c.rest (keep is_included records) c.now_included refl
          c.one_story,
      omega (arith, c.counted, c.enough),
      c.counted ∙ ap (λ l. length (providers_of l)) e_now,
      c.deep,
      depths-bound t.confirmation_depth latest x (providers_of (keep is_included latest)) (
          c.measured
          ∙ ap (λ l. least_depth (map (provider_depth latest x) (providers_of l))) e_now),
      c.value
          ∙ ap (λ v. with_included e v t.agreeing_provider_count t.confirmation_depth x)
              (sym c.said),
    )

-- Where the evidence is concluded to be a settlement, CONFIRMED or REVERTED: the latest observation of
-- every provider shows the transaction included; all inclusions ever observed tell one story, the block,
-- receipt status and amounts that the conclusion is made of; at least as many providers agree as the
-- finality policy asks for; and the concluded depth is at least what it asks for and at most the depth
-- of the block under the latest head of each of these providers.
pub settlement_agreed :
    (id_of : Observation → Key) (e : Expectation) (records : List Observation) (f : Finality)
    (t : Truth)
    → evaluate id_of e records f ≡ ok t
    → is_final t.verdict ≡ true
    → (x : Observation) × All (λ o. is_included o ≡ true) (latest_by_provider id_of records)
      × All (λ o. same_facts x o ≡ true) (keep is_included records)
      × (f.min_agreeing_providers ≤ t.agreeing_provider_count)
      × (t.agreeing_provider_count
          ≡ length (providers_of (keep is_included (latest_by_provider id_of records))))
      × (f.min_confirmation_depth ≤ t.confirmation_depth)
      × All
          (λ k. t.confirmation_depth ≤ provider_depth (latest_by_provider id_of records) x k)
          (providers_of (keep is_included (latest_by_provider id_of records)))
      × (t
          ≡ with_included e
              (outcome_of x.receipt_status)
              t.agreeing_provider_count
              t.confirmation_depth
              x)
unfolding evaluate
settlement_agreed id_of e records f t h k =
    Final-agreed id_of e f records t t.verdict
      (conclude-Final e f records (latest_by_provider id_of records) t (ground arith) k)
