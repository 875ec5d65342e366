-- ===== src/Prelude/Lists.antt =====
-- Lists measured by the native numbers, searched by a Boolean test, and predicates on all items.
use Prim.Native.Nat.{ℕ, suc, ◌+◌}
use mathlib.Core.Path.{◌≡◌, refl, ap, ◌∙◌, subst}
use mathlib.Core.Bool.{Bool, true, false, ◌&&◌, ◌||◌}
use mathlib.Core.Logic.{inl, inr}
use mathlib.Core.List.{List, [], ◌∷◌, ◌++◌}
use mathlib.Core.Option.{Option, none, some, some-injective}
use native.Mathlib.Omega.{arith}
use qnty_spot.Prelude.Tests.{◌==◌, if◌then◌else◌, Bool-cases}

module _ {ℓ} {A : Type ℓ} where
  abbrev pub length : List A → ℕ
  length [] = 0
  length (x ∷ xs) = suc (length xs)

  -- The first item that passes the test: `SELECT ... WHERE ...` and `fetchone()`.
  abbrev pub find : (A → Bool) → List A → Option A
  find p [] = none
  find p (x ∷ xs) = if p x then some x else find p xs

  abbrev pub any : (A → Bool) → List A → Bool
  any p [] = false
  any p (x ∷ xs) = p x || any p xs

  -- The items that pass the test, in their order.
  abbrev pub keep : (A → Bool) → List A → List A
  keep p [] = []
  keep p (x ∷ xs) = if p x then x ∷ keep p xs else keep p xs

  -- Every item that passes the test is replaced: `UPDATE ... WHERE ...`.
  abbrev pub update : (A → Bool) → (A → A) → List A → List A
  update p f [] = []
  update p f (x ∷ xs) = (if p x then f x else x) ∷ update p f xs

  pub length-append : (xs ys : List A) → length (xs ++ ys) ≡ length xs + length ys
  length-append [] ys = omega arith
  length-append (x ∷ xs) ys = omega (arith, length-append xs ys)

  pub find-passes : (p : A → Bool) (xs : List A) (x : A) → find p xs ≡ some x → p x ≡ true
  find-passes p [] x h = cc
  find-passes p (y ∷ xs) x h = ground (arith, find-passes p xs x)

  -- What the first item of a kind passes, some item of the kind passes.
  pub any-find :
      (p q : A → Bool) (xs : List A) (x : A)
      → find q xs ≡ some x
      → p x ≡ true
      → any (λ y. p y && q y) xs ≡ true
  any-find p q [] x h pass = cc
  any-find p q (y ∷ xs) x h pass = elim (Bool-cases (q y)) [
    | inl here ↦
        let e : p y ≡ true = ap p (some-injective y x (rw here at h)) ∙ pass in rw (e, here) refl
    | inr away ↦ rw (any-find p q xs x (rw away at h) pass) (ground arith)
  ]

module _ {ℓ κ} {A : Type ℓ} where
  -- Every item satisfies the predicate.
  abbrev pub All : (A → Type κ) → List A → Type κ
  All P [] = Unit
  All P (x ∷ xs) = P x × All P xs

module _ {ℓ κ} {A : Type ℓ} (P : A → Type κ) where
  pub All-append : (xs ys : List A) → All P xs → All P ys → All P (xs ++ ys)
  All-append [] ys h k = k
  All-append (x ∷ xs) ys h k = (h.0, All-append xs ys h.1 k)

  pub All-find : (p : A → Bool) (xs : List A) (x : A) → All P xs → find p xs ≡ some x → P x
  All-find p [] x h e = cc
  All-find p (y ∷ xs) x h e = elim (Bool-cases (p y)) [
    | inl pass ↦ subst P (some-injective y x (rw pass at e)) h.0
    | inr fail ↦ All-find p xs x h.1 (rw fail at e)
  ]

abbrev pub map_option {ℓ κ} : {A : Type ℓ} {B : Type κ} → (A → B) → Option A → Option B
map_option f none = none
map_option f (some a) = some (f a)

-- A table whose rows have a key, searched by it.
module _ {ℓ} {A : Type ℓ} (key : A → ℕ) where
  abbrev pub row_of : ℕ → List A → Option A
  row_of k rows = find (λ r. key r == k) rows

  -- An update that keeps the keys is seen at the key that it is made at, and nowhere else.
  pub row_of-update :
      (f : A → A)
      → ((r : A) → key (f r) ≡ key r)
      → (k j : ℕ) (rows : List A)
      → row_of j (update (λ r. key r == k) f rows)
        ≡ (if k == j then map_option f (row_of j rows) else row_of j rows)
  row_of-update f same k j [] = ground arith
  row_of-update f same k j (r ∷ rows) = ground (arith, same r, row_of-update f same k j rows)

  pub row_of-key : (k : ℕ) (rows : List A) (r : A) → row_of k rows ≡ some r → key r ≡ k
  row_of-key k rows r h = ground (arith, find-passes (λ s. key s == k) rows r h)

  -- No two rows have one key.
  abbrev pub Distinct : List A → Type ℓ
  Distinct [] = Unit
  Distinct (r ∷ rows) = (row_of (key r) rows ≡ none) × Distinct rows

  pub Distinct-update :
      (f : A → A)
      → ((r : A) → key (f r) ≡ key r)
      → (k : ℕ) (rows : List A) → Distinct rows
      → Distinct (update (λ r. key r == k) f rows)
  Distinct-update f same k [] h = tt
  Distinct-update f same k (r ∷ rows) h = (fresh_after, Distinct-update f same k rows h.1)
    where
      fresh_key : key (if key r == k then f r else r) ≡ key r
      fresh_key = ground (arith, same r)

      fresh_after :
          row_of (key (if key r == k then f r else r)) (update (λ s. key s == k) f rows) ≡ none
      fresh_after = rw (fresh_key, row_of-update f same k (key r) rows, h.0) (ground arith)

  -- An update at a key that no row has changes nothing.
  pub update-eq_self :
      (f : A → A) (k : ℕ) (rows : List A)
      → row_of k rows ≡ none
      → update (λ r. key r == k) f rows ≡ rows
  update-eq_self f k [] h = refl
  update-eq_self f k (r ∷ rows) h = ground (arith, update-eq_self f k rows)
