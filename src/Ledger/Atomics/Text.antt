-- ===== src/Ledger/Atomics/Text.antt =====
-- The text of an atomic amount, `encode_atomic` and `decode_atomic` of qntyspot/ledger/atomics.py. A text
-- is the list of its characters' numbers; a Python integer that is not negative is a number.
use qnty_spot.Prelude.{
  ℕ, zero, suc, ◌+◌, ◌-◌, ◌*◌, ◌/◌, ◌%◌, ◌<◌, ◌≡◌, ◌↔◌, refl, sym, ap, ◌∙◌, inl, inr, Bool, true,
  false, not, ◌&&◌, Option, none, some, List, [], ◌∷◌, ◌++◌, append-nil, any, ltb, leb, ◌==◌,
  if◌then◌else◌, Bool-cases, arith,
}
use qnty_spot.Errors.{Result, ok, err, ◌>>◌, require, ledger_error}

abbrev pub Chars : Type 0
Chars = List ℕ

-- The digits of a number before those that are there. The fuel is above the number.
unfoldable pub printed : ℕ → ℕ → Chars → Chars
printed zero n acc = acc
printed (suc fuel) n acc = elim (ltb n 10) [
  | true ↦ (48 + n) ∷ acc
  | false ↦ printed fuel (n / 10) ((48 + n % 10) ∷ acc)
]

-- `str(value)`
unfoldable pub encode_atomic : ℕ → Chars
unfolding printed
encode_atomic n = printed (suc n) n []

abbrev pub is_digit : ℕ → Bool
is_digit c = leb 48 c && leb c 57

-- `^(?:0|[1-9][0-9]*)$`, but for the newline that `$` passes
abbrev pub is_canonical : Chars → Bool
is_canonical [] = false
is_canonical (c ∷ []) = is_digit c
is_canonical (c ∷ rest) = leb 49 c && leb c 57 && not (any (λ d. not (is_digit d)) rest)

-- `$` matches before a newline at the end, and `int` drops it
abbrev pub without_newline : Chars → Chars
without_newline [] = []
without_newline (c ∷ []) = if c == 10 then [] else c ∷ []
without_newline (c ∷ d ∷ rest) = c ∷ without_newline (d ∷ rest)

-- `int(text)`, after the digits read so far
abbrev pub read : ℕ → Chars → ℕ
read acc [] = acc
read acc (c ∷ rest) = read (acc * 10 + (c - 48)) rest

unfoldable pub decode_atomic : Option Chars → Result ℕ
decode_atomic none = err ledger_error
decode_atomic (some text) = do
  require (is_canonical (without_newline text)) ledger_error
  ok (read 0 (without_newline text))

printed-small :
    (fuel n : ℕ) (acc : Chars) → ltb n 10 ≡ true → printed (suc fuel) n acc ≡ (48 + n) ∷ acc
unfolding printed
printed-small fuel n acc h = rw (printed, h) refl

printed-large :
    (fuel n : ℕ) (acc : Chars)
    → ltb n 10 ≡ false
    → printed (suc fuel) n acc ≡ printed fuel (n / 10) ((48 + n % 10) ∷ acc)
unfolding printed
printed-large fuel n acc h = rw (printed, h) refl

read-printed : (fuel n : ℕ) (acc : Chars) → n < fuel → read 0 (printed fuel n acc) ≡ read n acc
read-printed zero n acc h = absurd (omega (arith, h))
read-printed (suc fuel) n acc h = elim (Bool-cases (ltb n 10)) [
  | inl small ↦ ap (read 0) (printed-small fuel n acc small) ∙ ap (λ m. read m acc) (omega arith)
  | inr large ↦
      ap (read 0) (printed-large fuel n acc large)
      ∙ read-printed fuel (n / 10) ((48 + n % 10) ∷ acc) (ground arith)
      ∙ ap (λ m. read m acc) (omega arith)
]

-- Enough fuel is any that is above the number.
printed_fuel : (f g n : ℕ) (acc : Chars) → n < f → n < g → printed f n acc ≡ printed g n acc
printed_fuel zero g n acc h k = absurd (omega (arith, h))
printed_fuel (suc f) zero n acc h k = absurd (omega (arith, k))
printed_fuel (suc f) (suc g) n acc h k = elim (Bool-cases (ltb n 10)) [
  | inl small ↦ printed-small f n acc small ∙ sym (printed-small g n acc small)
  | inr large ↦
      printed-large f n acc large
      ∙ printed_fuel f g (n / 10) ((48 + n % 10) ∷ acc) (ground arith) (ground arith)
      ∙ sym (printed-large g n acc large)
]

printed-digit_from :
    (fuel m n d : ℕ) (acc : Chars)
    → m ≡ n * 10 + d
    → 0 < n
    → d < 10
    → m < suc fuel
    → printed (suc fuel) m acc ≡ printed (suc n) n ((48 + d) ∷ acc)
printed-digit_from fuel m n d acc e pos small h =
    let last : m % 10 ≡ d = omega arith in
    let others : m / 10 ≡ n = omega arith in
    printed-large fuel m acc (ground arith)
    ∙ ap (λ k. printed fuel (m / 10) ((48 + k) ∷ acc)) last
    ∙ ap (λ k. printed fuel k ((48 + d) ∷ acc)) others
    ∙ printed_fuel fuel (suc n) n ((48 + d) ∷ acc) (omega arith) (omega arith)

-- The digits that are read after a positive number are printed after it.
printed-read :
    (n : ℕ) (cs acc : Chars)
    → 0 < n
    → any (λ d. not (is_digit d)) cs ≡ false
    → printed (suc (read n cs)) (read n cs) acc ≡ printed (suc n) n (cs ++ acc)
printed-read n [] acc pos h = refl
printed-read n (c ∷ cs) acc pos h =
    let m = n * 10 + (c - 48) in
    let c_eq : 48 + (c - 48) ≡ c = ground arith in
    printed-read m cs acc (omega arith) (ground arith)
    ∙ ap (λ f. printed f m (cs ++ acc)) (omega arith)
    ∙ printed-digit_from m m n (c - 48) (cs ++ acc) refl pos (ground arith) (omega arith)
    ∙ ap (λ k. printed (suc n) n (k ∷ cs ++ acc)) c_eq

-- A text of the canonical form is what its number is printed to.
canonical-eq : (text : Chars) → is_canonical text ≡ true → encode_atomic (read 0 text) ≡ text
unfolding encode_atomic
canonical-eq [] h = absurd (ground arith)
canonical-eq (c ∷ []) h =
    let c_eq : 48 + (c - 48) ≡ c = ground arith in
    let first : 0 * 10 + (c - 48) ≡ c - 48 = omega arith in
    ap encode_atomic first
    ∙ printed-small (c - 48) (c - 48) [] (ground arith)
    ∙ ap (λ k. k ∷ []) c_eq
canonical-eq (c ∷ d ∷ rest) h =
    let c_eq : 48 + (c - 48) ≡ c = ground arith in
    let first : 0 * 10 + (c - 48) ≡ c - 48 = omega arith in
    ap (λ k. encode_atomic (read k (d ∷ rest))) first
    ∙ printed-read (c - 48) (d ∷ rest) [] (ground arith) (ground arith)
    ∙ ap (λ l. printed (suc (c - 48)) (c - 48) l) (append-nil (d ∷ rest))
    ∙ printed-small (c - 48) (c - 48) (d ∷ rest) (ground arith)
    ∙ ap (λ k. k ∷ d ∷ rest) c_eq

-- What is printed is of the canonical form.
digits-printed :
    (fuel n : ℕ) (acc : Chars)
    → n < fuel
    → any (λ d. not (is_digit d)) acc ≡ false
    → 0 < n
    → (c : ℕ) × (rest : Chars) × (printed fuel n acc ≡ c ∷ rest)
      × (leb 49 c ≡ true)
      × (leb c 57 ≡ true)
      × (any (λ d. not (is_digit d)) rest ≡ false)
digits-printed zero n acc h digits pos = absurd (omega (arith, h))
digits-printed (suc fuel) n acc h digits pos = elim (Bool-cases (ltb n 10)) [
  | inl small ↦ (48 + n, acc, printed-small fuel n acc small, ground arith, ground arith, digits)
  | inr large ↦
      let (c, rest, e, low, high, all) =
        digits-printed fuel (n / 10) ((48 + n % 10) ∷ acc) (ground arith) (ground arith)
          (ground arith) in
      (c, rest, printed-large fuel n acc large ∙ e, low, high, all)
]

canonical-head :
    (c : ℕ) (rest : Chars)
    → leb 49 c ≡ true
    → leb c 57 ≡ true
    → any (λ d. not (is_digit d)) rest ≡ false
    → is_canonical (c ∷ rest) ≡ true
canonical-head c [] low high digits = ground arith
canonical-head c (d ∷ rest) low high digits = ground arith

pub encode_atomic-canonical : (n : ℕ) → is_canonical (encode_atomic n) ≡ true
unfolding encode_atomic
encode_atomic-canonical zero = ap is_canonical (printed-small 0 0 [] refl)
encode_atomic-canonical (suc n) =
    let (c, rest, e, low, high, digits) =
      digits-printed (suc (suc n)) (suc n) [] (omega arith) refl (omega arith) in
    ap is_canonical e ∙ canonical-head c rest low high digits

pub read-encode_atomic : (n : ℕ) → read 0 (encode_atomic n) ≡ n
unfolding encode_atomic
read-encode_atomic n = read-printed (suc n) n [] (omega arith)

decode-parts :
    (text : Chars) (n : ℕ)
    → decode_atomic (some text) ≡ ok n
    → (is_canonical (without_newline text) ≡ true) × (read 0 (without_newline text) ≡ n)
unfolding decode_atomic
decode-parts text n h = ground arith

decode-canonical :
    (text : Chars)
    → is_canonical (without_newline text) ≡ true
    → decode_atomic (some text) ≡ ok (read 0 (without_newline text))
unfolding decode_atomic
decode-canonical text h = rw h refl

-- Exactly one spelling of an amount is read, the one that is written: a text is decoded to a number
-- where, but for one newline at its end, it is the encoding of that number, and nowhere else.
pub decode_atomic-encode_atomic :
    (text : Chars) (n : ℕ)
    → (decode_atomic (some text) ≡ ok n) ↔ (without_newline text ≡ encode_atomic n)
decode_atomic-encode_atomic text n = (
  λ h.
      let (canonical, value) = decode-parts text n h in
      sym (canonical-eq (without_newline text) canonical) ∙ ap encode_atomic value,
  λ e.
      decode-canonical text (ap is_canonical e ∙ encode_atomic-canonical n)
      ∙ ap (λ t. ok (read 0 t)) e
      ∙ ap ok (read-encode_atomic n),
)
