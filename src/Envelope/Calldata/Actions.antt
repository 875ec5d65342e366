-- ===== src/Envelope/Calldata/Actions.antt =====
-- `_decode_actions` of qntyspot/execution_contract.py: an array of dynamic byte strings, one action each.
use qnty_spot.Prelude.{
  ℕ, zero, suc, ◌+◌, ◌-◌, ◌*◌, ◌%◌, Bool, ◌&&◌, Option, none, some, List, [], ◌∷◌, find, length,
  ltb, leb, ◌==◌,
}
use qnty_spot.Errors.{Result, ok, err, ◌>>=◌, ◌>>◌, require, envelope_validation}
use qnty_spot.Envelope.Calldata.{
  Bytes, slice, number_at, all_zero, padded, calldata_word, Action, all_actions, Selectors,
  head_words, dynamic_index, Binding, validate_semantics,
}

-- An action of the array, with the offset after its padding.
pub record Decoded : Type 0 where
  pub start : ℕ
  pub after : ℕ
  pub action : Action
  pub args : Bytes
  pub value : Bytes

unfoldable pub known_action : Selectors → ℕ → Result Action
known_action s selector = elim (find (λ a. s.action_selector a == selector) all_actions) [
  | none ↦ err envelope_validation
  | some a ↦ ok a
]

-- the dynamic argument, which stands right after the head and fills the rest
unfoldable pub dynamic_value : Option ℕ → ℕ → Bytes → Result Bytes
dynamic_value none head args = do require (length args == head) envelope_validation; ok []
dynamic_value (some index) head args = do
  require (number_at (index * 32) 32 args == head) envelope_validation
  require (leb (head + 32) (length args)) envelope_validation
  let size = number_at head 32 args
  require (head + 32 + padded size == length args) envelope_validation
  require (all_zero (slice (head + 32 + size) (padded size - size) args)) envelope_validation
  ok (slice (head + 32) size args)

-- one round of the loop, with the array of `count` heads that starts at `body`
unfoldable pub decode_action : Selectors → Binding → Bytes → ℕ → ℕ → ℕ → Result Decoded
decode_action s b bytes body count index = do
  relative ← calldata_word bytes (body + index * 32)
  require (relative % 32 == 0 && leb (count * 32) relative) envelope_validation
  let start = body + relative
  size ← calldata_word bytes start
  let after = start + 32 + padded size
  require (leb 4 size && leb after (length bytes)) envelope_validation
  require (all_zero (slice (start + 32 + size) (padded size - size) bytes)) envelope_validation
  action ← known_action s (number_at (start + 32) 4 bytes)
  let args = slice (start + 36) (size - 4) bytes
  require (leb (head_words action * 32) (length args)) envelope_validation
  value ← dynamic_value (dynamic_index action) (head_words action * 32) args
  validate_semantics b action args value
  ok (record { start = start; after = after; action = action; args = args; value = value })

unfoldable pub decode_each : Selectors → Binding → Bytes → ℕ → ℕ → ℕ → ℕ → Result (List Decoded)
decode_each s b bytes body count zero index = ok []
decode_each s b bytes body count (suc left) index = do
  d ← decode_action s b bytes body count index
  rest ← decode_each s b bytes body count left (index + 1)
  ok (d ∷ rest)

-- Each action starts where the one before ends, and the last ends the data: they are sorted and
-- distinct, as each is longer than its length word.
abbrev pub is_dense : ℕ → List Decoded → ℕ → Bool
is_dense at [] end = at == end
is_dense at (d ∷ rest) end = d.start == at && is_dense d.after rest end

unfoldable pub decode_actions : Selectors → Binding → Bytes → ℕ → ℕ → Result (List Decoded)
decode_actions s b bytes args_start offset = do
  require (offset == 160) envelope_validation
  let array = args_start + offset
  count ← calldata_word bytes array
  require (ltb 0 count && leb count 64) envelope_validation
  require (leb (array + 32 + count * 32) (length bytes)) envelope_validation
  actions ← decode_each s b bytes (array + 32) count count 0
  require (is_dense (array + 32 + count * 32) actions (length bytes)) envelope_validation
  ok actions
