-- ===== src/Envelope/Calldata.antt =====
-- The words of calldata and the Settler actions that qntyspot/execution_contract.py admits: where each
-- names a recipient, a token and a minimum, and what is checked of it. Bytes are numbers. A selector,
-- the first four bytes of a Keccak digest of qntyspot/keccak.py, is a number.
pub mod Actions
pub mod Decode
pub mod Bound
use qnty_spot.Prelude.{
  ℕ, zero, suc, ◌+◌, ◌-◌, ◌*◌, ◌%◌, ◌≡◌, Bool, true, false, not, ◌&&◌, ◌||◌, Option, none, some,
  List, [], ◌∷◌, any, find, length, ltb, leb, ◌==◌, if◌then◌else◌,
}
use qnty_spot.Errors.{Result, ok, err, ◌>>=◌, ◌>>◌, require, envelope_validation, value_error}
use qnty_spot.Domain.{Key}
use qnty_spot.Envelope.{max_uint256, is_address}

abbrev pub Bytes : Type 0
Bytes = List ℕ

abbrev pub take : ℕ → Bytes → Bytes
take zero xs = []
take (suc n) [] = []
take (suc n) (x ∷ xs) = x ∷ take n xs

abbrev pub drop : ℕ → Bytes → Bytes
drop zero xs = xs
drop (suc n) [] = []
drop (suc n) (x ∷ xs) = drop n xs

-- `data[start : start + count]`
abbrev pub slice : ℕ → ℕ → Bytes → Bytes
slice start count bytes = take count (drop start bytes)

-- `int.from_bytes(..., "big")`, after the bytes read so far
abbrev pub big_endian : ℕ → Bytes → ℕ
big_endian acc [] = acc
big_endian acc (b ∷ rest) = big_endian (acc * 256 + b) rest

abbrev pub number_at : ℕ → ℕ → Bytes → ℕ
number_at start count bytes = big_endian 0 (slice start count bytes)

abbrev pub all_zero : Bytes → Bool
all_zero bytes = not (any (λ b. not (b == 0)) bytes)

-- a length in whole words
abbrev pub padded : ℕ → ℕ
padded n = if n % 32 == 0 then n else n + 32 - n % 32

-- `_calldata_word`
unfoldable pub calldata_word : Bytes → ℕ → Result ℕ
calldata_word bytes offset = do
  require (leb (offset + 32) (length bytes)) envelope_validation
  ok (number_at offset 32 bytes)

-- `_calldata_address`
unfoldable pub calldata_address : Bytes → ℕ → Result Key
calldata_address bytes offset = do
  require (length (slice offset 32 bytes) == 32 && all_zero (slice offset 12 bytes))
      envelope_validation
  require (is_address (number_at (offset + 12) 20 bytes)) envelope_validation
  ok (number_at (offset + 12) 20 bytes)

abbrev pub action_word : Bytes → ℕ → Result ℕ
action_word args index = calldata_word args (index * 32)

abbrev pub action_address : Bytes → ℕ → Result Key
action_address args index = calldata_address args (index * 32)

unfoldable pub check_bool : Bytes → ℕ → Result (Unit {0})
check_bool args index = do
  value ← action_word args index
  require (value == 0 || value == 1) envelope_validation

pub data Action : Type 0 where
  native_check check_slippage uniswap_v3 uniswap_v2 basic dodo_v1 dodo_v2 : Action
  velodrome maverick_v2 euler_swap renegade positive_slippage : Action

abbrev pub all_actions : List Action
all_actions =
    native_check ∷ check_slippage ∷ uniswap_v3 ∷ uniswap_v2 ∷ basic ∷ dodo_v1 ∷ dodo_v2 ∷ velodrome
    ∷ maverick_v2 ∷ euler_swap ∷ renegade ∷ positive_slippage ∷ []

-- The digests of the signatures.
pub record Selectors : Type 0 where
  pub exec_selector : ℕ
  pub execute_selector : ℕ
  pub action_selector : Action → ℕ

abbrev pub is_settlement : Action → Bool
is_settlement native_check = false
is_settlement check_slippage = false
is_settlement _ = true

-- `_ACTION_LAYOUTS`: the words of the head
abbrev pub head_words : Action → ℕ
head_words native_check = 2
head_words check_slippage = 1
head_words uniswap_v3 = 4
head_words uniswap_v2 = 6
head_words basic = 5
head_words dodo_v1 = 5
head_words dodo_v2 = 6
head_words velodrome = 5
head_words maverick_v2 = 7
head_words euler_swap = 6
head_words renegade = 8
head_words positive_slippage = 4

-- `_ACTION_LAYOUTS`: the dynamic argument, of which no action has two
abbrev pub dynamic_index : Action → Option ℕ
dynamic_index uniswap_v3 = some 2
dynamic_index basic = some 4
dynamic_index renegade = some 6
dynamic_index _ = none

-- Where an action names what is to be bound.
pub record Places : Type 0 where
  pub recipient : Option ℕ
  pub sell : Option ℕ
  pub buy : Option ℕ
  pub minimum : Option ℕ
  pub ppm : Option ℕ

abbrev nowhere : Places
nowhere = record { recipient = none; sell = none; buy = none; minimum = none; ppm = none }

-- Those of DODOV2 are never assigned: its line unpacks three values into four names.
abbrev pub places : Action → Places
places uniswap_v3 = record nowhere { recipient = some 0; ppm = some 1; minimum = some 3 }
places uniswap_v2 = record nowhere {
  recipient = some 0;
  sell = some 1;
  ppm = some 2;
  minimum = some 5;
}
places basic = record nowhere { sell = some 0; ppm = some 1 }
places dodo_v1 = record nowhere { sell = some 0; ppm = some 1; minimum = some 4 }
places velodrome = record nowhere { recipient = some 0; ppm = some 1; minimum = some 4 }
places maverick_v2 = record nowhere {
  recipient = some 0;
  sell = some 1;
  ppm = some 2;
  minimum = some 6;
}
places euler_swap = record nowhere {
  recipient = some 0;
  sell = some 1;
  ppm = some 2;
  minimum = some 5;
}
places renegade = record nowhere {
  recipient = some 0;
  sell = some 1;
  buy = some 2;
  minimum = some 7;
}
places positive_slippage = record nowhere { recipient = some 0; buy = some 1 }
places _ = nowhere

-- What the caller expects: each is left unchecked where it is not given.
pub record Binding : Type 0 where
  pub sell_token : Option Key
  pub buy_token : Option Key
  pub taker_address : Option Key
  pub sell_amount_atomic : Option ℕ
  pub min_output_atomic : Option ℕ
  pub transaction_value_atomic : ℕ

abbrev pub agrees : Option ℕ → ℕ → Bool
agrees none actual = true
agrees (some expected) actual = actual == expected

abbrev pub at_least : Option ℕ → ℕ → Bool
at_least none actual = true
at_least (some least) actual = leb least actual

abbrev pub at_most : Option ℕ → ℕ → Bool
at_most none actual = true
at_most (some most) actual = leb actual most

abbrev check_uint24 : Bytes → ℕ → Result (Unit {0})
check_uint24 args index = do
  value ← action_word args index
  require (leb value 16777215) envelope_validation

-- the checks of the one action, before those that its places share
unfoldable pub check_own : Binding → Action → Bytes → Bytes → Result (Unit {0})
check_own b native_check args value = do
  deadline ← action_word args 0
  sent ← action_word args 1
  require (leb sent b.transaction_value_atomic) envelope_validation
check_own b check_slippage args value = check_bool args 0
check_own b uniswap_v3 args value = do
  require (leb 43 (length value) && (length value - 20) % 23 == 0) envelope_validation
  require (agrees b.sell_token (number_at 0 20 value)) envelope_validation
  require (agrees b.buy_token (number_at (length value - 20) 20 value)) envelope_validation
check_own b uniswap_v2 args value = do pool ← action_address args 3; check_uint24 args 4
check_own b basic args value = do
  pool ← action_address args 2
  offset ← action_word args 3
  require (if length value == 0 then offset == 0 else leb (offset + 32) (length value))
      envelope_validation
check_own b dodo_v1 args value = do pool ← action_address args 2; check_bool args 3
check_own b dodo_v2 args value = err value_error
check_own b velodrome args value = do pool ← action_address args 2; check_uint24 args 3
check_own b maverick_v2 args value = do pool ← action_address args 3; check_bool args 4
check_own b euler_swap args value = do pool ← action_address args 3; check_bool args 4
check_own b renegade args value = do
  most ← action_word args 3
  require (at_most b.sell_amount_atomic most) envelope_validation
  check_bool args 4
check_own b positive_slippage args value = do
  expected ← action_word args 2
  share ← action_word args 3
  ok tt

-- an address that an action names is the one expected
unfoldable pub check_address : Option ℕ → Option Key → Bytes → Result (Unit {0})
check_address (some index) (some expected) args = do
  actual ← action_address args index
  require (actual == expected) envelope_validation
check_address _ _ args = ok tt

-- `_assert_action_ppm`
unfoldable pub check_ppm : Option ℕ → Bytes → Result (Unit {0})
check_ppm none args = ok tt
check_ppm (some index) args = do
  ppm ← action_word args index
  require (leb ppm 1000000) envelope_validation

-- `_assert_action_minimum`
unfoldable pub check_minimum : Option ℕ → Option ℕ → Bytes → Result (Unit {0})
check_minimum none expected args = ok tt
check_minimum (some index) expected args = do
  minimum ← action_word args index
  require (ltb 0 minimum && leb minimum max_uint256) envelope_validation
  require (at_least expected minimum) envelope_validation

-- `_validate_action_semantics`
unfoldable pub validate_semantics : Binding → Action → Bytes → Bytes → Result (Unit {0})
validate_semantics b action args value = do
  check_own b action args value
  check_ppm (places action).ppm args
  check_address (places action).recipient b.taker_address args
  check_address (places action).sell b.sell_token args
  check_address (places action).buy b.buy_token args
  check_minimum (places action).minimum b.min_output_atomic args
