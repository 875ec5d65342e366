-- ===== src/Envelope/Calldata/Decode.antt =====
-- `decode_allowance_holder_calldata` of qntyspot/execution_contract.py.
use qnty_spot.Prelude.{
  ℕ, ◌+◌, ◌-◌, Bool, true, not, ◌&&◌, Option, none, some, List, any, length, leb, ◌==◌,
}
use qnty_spot.Errors.{Result, ok, ◌>>=◌, ◌>>◌, require, envelope_validation}
use qnty_spot.Domain.{Key}
use qnty_spot.Envelope.{is_address, is_positive_atomic, if_given}
use qnty_spot.Envelope.Calldata.{
  Bytes, slice, number_at, all_zero, padded, calldata_word, calldata_address, is_settlement,
  Selectors, Binding, agrees, at_least,
}
use qnty_spot.Envelope.Calldata.Actions.{Decoded, decode_actions}

-- `AllowanceHolderCalldataV0`, with the actions themselves where the code has their selectors
pub record Call : Type 0 where
  pub sell_token : Key
  pub sell_amount_atomic : ℕ
  pub settler_target : Key
  pub recipient : Key
  pub buy_token : Key
  pub min_output_atomic : ℕ
  pub actions : List Decoded

-- `_calldata_dynamic_bytes`
unfoldable pub dynamic_bytes : Bytes → ℕ → ℕ → Result Bytes
dynamic_bytes bytes args_start offset = do
  require (offset == 160) envelope_validation
  let start = args_start + offset
  size ← calldata_word bytes start
  require (start + 32 + padded size == length bytes) envelope_validation
  require (all_zero (slice (start + 32 + size) (padded size - size) bytes)) envelope_validation
  ok (slice (start + 32) size bytes)

abbrev distinct_targets : Option Key → Option Key → Key → Bool
distinct_targets (some entry) (some allowance) target =
    entry == allowance && not (allowance == target)
distinct_targets none (some allowance) target = not (allowance == target)
distinct_targets _ none target = true

-- the forwarded call, `Settler.execute`
unfoldable pub decode_inner : Selectors → Binding → Bytes → Key → ℕ → Key → Result Call
decode_inner s b inner sell_token sell_amount target = do
  require (leb 164 (length inner) && number_at 0 4 inner == s.execute_selector) envelope_validation
  recipient ← calldata_address inner 4
  buy_token ← calldata_address inner 36
  least ← calldata_word inner 68
  require (is_positive_atomic least) envelope_validation
  offset ← calldata_word inner 100
  actions ← decode_actions s b inner 4 offset
  require (any (λ d. is_settlement d.action) actions) envelope_validation
  ok (record {
    sell_token = sell_token;
    sell_amount_atomic = sell_amount;
    settler_target = target;
    recipient = recipient;
    buy_token = buy_token;
    min_output_atomic = least;
    actions = actions;
  })

-- what the caller expects of the outer call and of the slippage tuple
unfoldable pub check_call : Binding → Option Key → Option Key → Call → Result (Unit {0})
check_call b entry allowance c = do
  require (if_given is_address entry && if_given is_address allowance) envelope_validation
  require (distinct_targets entry allowance c.settler_target) envelope_validation
  require (agrees b.sell_token c.sell_token && agrees b.buy_token c.buy_token) envelope_validation
  require (agrees b.sell_amount_atomic c.sell_amount_atomic) envelope_validation
  require (agrees b.taker_address c.recipient) envelope_validation
  require (at_least b.min_output_atomic c.min_output_atomic) envelope_validation

-- The bytes are not empty, as they start with a selector.
unfoldable pub decode_call : Selectors → Binding → Option Key → Option Key → Bytes → Result Call
decode_call s b entry allowance bytes = do
  require (length (slice 0 4 bytes) == 4 && number_at 0 4 bytes == s.exec_selector)
      envelope_validation
  require (b.transaction_value_atomic == 0) envelope_validation
  require (leb 164 (length bytes)) envelope_validation
  operator ← calldata_address bytes 4
  sell_token ← calldata_address bytes 36
  sell_amount ← calldata_word bytes 68
  require (is_positive_atomic sell_amount) envelope_validation
  target ← calldata_address bytes 100
  require (operator == target) envelope_validation
  offset ← calldata_word bytes 132
  inner ← dynamic_bytes bytes 4 offset
  c ← decode_inner s b inner sell_token sell_amount target
  check_call b entry allowance c
  ok c
