-- ===== src/Identity.antt =====
-- The identity of an EVM instrument, `EvmInstrumentRef` of qntyspot/identity.py, and its address read
-- back, `_instrument_address` of qntyspot/execution_contract.py. A text is the list of its characters'
-- numbers.
use qnty_spot.Prelude.{
  ℕ, ◌^◌, ◌-◌, ◌≡◌, refl, ap, sym, ◌∙◌, inl, inr, Bool, true, false, not, ◌&&◌, ◌||◌, List, [], ◌∷◌,
  ◌++◌, any, length, leb, ◌==◌, ==_iff, if◌then◌else◌, Bool-cases, arith,
}
use qnty_spot.Errors.{Result, ok, err, ◌>>◌, require, identity_error, envelope_validation}
use qnty_spot.Ledger.Atomics.Text.{
  Chars, encode_atomic, is_digit, is_canonical, without_newline, read, encode_atomic-canonical,
  read-encode_atomic,
}

pub record EvmRef : Type 0 where
  pub chain_id : ℕ
  pub contract_address : Chars

abbrev is_hex : ℕ → Bool
is_hex c = is_digit c || leb 97 c && leb c 102

-- "0x" and forty digits
abbrev is_address_text : Chars → Bool
is_address_text [] = false
is_address_text (zero_char ∷ []) = false
is_address_text (zero_char ∷ x ∷ body) =
    zero_char == 48 && x == 120 && length body == 40 && not (any (λ c. not (is_hex c)) body)

-- the digits after "0x" are not all "0"
abbrev is_nonzero : Chars → Bool
is_nonzero [] = false
is_nonzero (zero_char ∷ []) = false
is_nonzero (zero_char ∷ x ∷ body) = any (λ c. not (c == 48)) body

-- `re.match` with `$`, which passes a newline at the end
abbrev matches_address : Chars → Bool
matches_address text = is_address_text (without_newline text) && is_nonzero (without_newline text)

unfoldable pub make_evm : EvmRef → Result EvmRef
make_evm r = do
  require (leb 1 r.chain_id && leb r.chain_id (2 ^ 63 - 36)) identity_error
  require (matches_address r.contract_address) identity_error
  ok r

-- "evm"
abbrev evm : Chars
evm = 101 ∷ 118 ∷ 109 ∷ []

-- f"evm:{chain_id}:{contract_address}"
unfoldable pub identity_string : EvmRef → Chars
identity_string r = evm ++ 58 ∷ (encode_atomic r.chain_id ++ 58 ∷ r.contract_address)

abbrev cons_first : ℕ → List Chars → List Chars
cons_first x [] = (x ∷ []) ∷ []
cons_first x (word ∷ words) = (x ∷ word) ∷ words

-- `text.split(":")`
abbrev split : Chars → List Chars
split [] = [] ∷ []
split (x ∷ rest) = if x == 58 then [] ∷ split rest else cons_first x (split rest)

abbrev same_text : Chars → Chars → Bool
same_text [] [] = true
same_text (a ∷ xs) (b ∷ ys) = a == b && same_text xs ys
same_text _ _ = false

abbrev address_part : List Chars → ℕ → Result Chars
address_part (space ∷ chain ∷ address ∷ []) chain_id = do
  require (same_text space evm) envelope_validation
  require (same_text chain (encode_atomic chain_id)) envelope_validation
  require (matches_address address) envelope_validation
  ok address
address_part _ chain_id = err envelope_validation

unfoldable pub evm_address : Chars → ℕ → Result Chars
evm_address text chain_id = address_part (split text) chain_id

abbrev has_colon : Chars → Bool
has_colon text = any (λ c. c == 58) text

split-append :
    (word rest : Chars) → has_colon word ≡ false → split (word ++ 58 ∷ rest) ≡ word ∷ split rest
split-append [] rest h = refl
split-append (x ∷ word) rest h = ground (arith, split-append word rest)

split-word : (word : Chars) → has_colon word ≡ false → split word ≡ word ∷ []
split-word [] h = refl
split-word (x ∷ word) h = ground (arith, split-word word)

digits-has_colon :
    (text : Chars) → any (λ c. not (is_digit c)) text ≡ false → has_colon text ≡ false
digits-has_colon [] h = refl
digits-has_colon (c ∷ text) h = ground (arith, digits-has_colon text)

hex-has_colon : (text : Chars) → any (λ c. not (is_hex c)) text ≡ false → has_colon text ≡ false
hex-has_colon [] h = refl
hex-has_colon (c ∷ text) h = ground (arith, hex-has_colon text)

canonical-has_colon : (text : Chars) → is_canonical text ≡ true → has_colon text ≡ false
canonical-has_colon [] h = refl
canonical-has_colon (c ∷ []) h = ground arith
canonical-has_colon (c ∷ d ∷ rest) h = ground (arith, digits-has_colon (d ∷ rest))

without_newline-has_colon : (text : Chars) → has_colon text ≡ has_colon (without_newline text)
without_newline-has_colon [] = refl
without_newline-has_colon (c ∷ []) = ground arith
without_newline-has_colon (c ∷ d ∷ rest) = ground (arith, without_newline-has_colon (d ∷ rest))

address-has_colon : (text : Chars) → is_address_text text ≡ true → has_colon text ≡ false
address-has_colon [] h = refl
address-has_colon (c ∷ []) h = absurd (ground arith)
address-has_colon (c ∷ x ∷ body) h = ground (arith, hex-has_colon body)

same_text_refl : (text : Chars) → same_text text text ≡ true
same_text_refl [] = refl
same_text_refl (c ∷ text) = ground (arith, same_text_refl text)

same_text-eq : (a b : Chars) → same_text a b ≡ true → a ≡ b
same_text-eq [] [] h = refl
same_text-eq [] (b ∷ ys) h = absurd (ground arith)
same_text-eq (a ∷ xs) [] h = absurd (ground arith)
same_text-eq (a ∷ xs) (b ∷ ys) h = ground (arith, same_text-eq xs ys)

same_text-encode_atomic : (m n : ℕ) → same_text (encode_atomic m) (encode_atomic n) ≡ (m == n)
same_text-encode_atomic m n = elim (Bool-cases (same_text (encode_atomic m) (encode_atomic n))) [
  | inl same ↦
      let e : m ≡ n =
        sym (read-encode_atomic m)
        ∙ ap (read 0) (same_text-eq (encode_atomic m) (encode_atomic n) same)
        ∙ read-encode_atomic n in
      same ∙ sym ((==_iff m n).1 e)
  | inr other ↦ elim (Bool-cases (m == n)) [
    | inl equal ↦
        let e : same_text (encode_atomic m) (encode_atomic n) ≡ true =
          ap (λ k. same_text (encode_atomic m) (encode_atomic k)) (sym ((==_iff m n).0 equal))
          ∙ same_text_refl (encode_atomic m) in
        absurd (ground (arith, e, other))
    | inr distinct ↦ other ∙ sym distinct
  ]
]

evm-parts :
    (r : EvmRef)
    → make_evm r ≡ ok r
    → (matches_address r.contract_address ≡ true)
      × (is_address_text (without_newline r.contract_address) ≡ true)
unfolding make_evm
evm-parts r h = ground arith

split-identity_string :
    (r : EvmRef)
    → make_evm r ≡ ok r
    → split (identity_string r) ≡ evm ∷ encode_atomic r.chain_id ∷ r.contract_address ∷ []
unfolding identity_string
split-identity_string r h =
    let (whole, form) = evm-parts r h in
    let chain =
      canonical-has_colon (encode_atomic r.chain_id) (encode_atomic-canonical r.chain_id) in
    let address : has_colon r.contract_address ≡ false =
      without_newline-has_colon r.contract_address
      ∙ address-has_colon (without_newline r.contract_address) form in
    split-append evm (encode_atomic r.chain_id ++ 58 ∷ r.contract_address) refl
    ∙ ap (λ l. evm ∷ l)
        (split-append (encode_atomic r.chain_id) r.contract_address chain
          ∙ ap (λ l. encode_atomic r.chain_id ∷ l) (split-word r.contract_address address))

-- The identity of a valid EVM instrument says what it is made of: read back for a chain it gives the
-- contract's address where that is the instrument's chain, and is refused for every other.
pub evm_address-identity_string :
    (r : EvmRef) (chain : ℕ)
    → make_evm r ≡ ok r
    → evm_address (identity_string r) chain
      ≡ (if r.chain_id == chain then ok r.contract_address else err envelope_validation)
unfolding evm_address
evm_address-identity_string r chain h =
    let parts = split-identity_string r h in
    let (whole, form) = evm-parts r h in
    let same = same_text-encode_atomic r.chain_id chain in
    ap (λ l. address_part l chain) parts ∙ ground (arith, same, whole)
