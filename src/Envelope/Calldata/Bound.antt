-- ===== src/Envelope/Calldata/Bound.antt =====
-- What calldata that qntyspot/execution_contract.py has decoded is bound to: tokens, amounts, recipients
-- and minimums, of the outer call and of each Settler action.
use qnty_spot.Prelude.{
  ℕ, zero, suc, ◌+◌, ◌-◌, ◌%◌, length, ◌≤◌, ◌≡◌, refl, inl, inr, Bool, true, false, Option, none,
  some, List, [], ◌∷◌, All, any, arith,
}
use qnty_spot.Errors.{ok, Result-cases}
use qnty_spot.Domain.{Key}
use qnty_spot.Envelope.Calldata.{
  Bytes, calldata_word, calldata_address, action_word, action_address, Action, native_check,
  uniswap_v3, renegade, dodo_v2, number_at, is_settlement, Selectors, places, Binding, check_own,
  check_address, check_minimum, validate_semantics,
}
use qnty_spot.Envelope.Calldata.Actions.{Decoded, decode_action, decode_each, decode_actions}
use qnty_spot.Envelope.Calldata.Decode.{Call, dynamic_bytes, decode_inner, check_call, decode_call}

-- The argument at the place, where there is one, is this address.
abbrev pub Names : Option ℕ → Bytes → Key → Type 0
Names none args k = Unit
Names (some index) args k = action_address args index ≡ ok k

-- The argument at the place, where there is one, is a number that is not below this one.
abbrev pub Demands : Option ℕ → Bytes → ℕ → Type 0
Demands none args least = Unit
Demands (some index) args least = (n : ℕ) × (action_word args index ≡ ok n) × (least ≤ n)

-- A caller that expects everything, of a transaction without native value.
abbrev pub all_expected : Key → Key → Key → ℕ → ℕ → Binding
all_expected sell buy taker amount least = record {
  sell_token = some sell;
  buy_token = some buy;
  taker_address = some taker;
  sell_amount_atomic = some amount;
  min_output_atomic = some least;
  transaction_value_atomic = 0;
}

abbrev pub is_dodo_v2 : Action → Bool
is_dodo_v2 dodo_v2 = true
is_dodo_v2 _ = false

-- What an action names outside its places: the native value of NATIVE_CHECK, the ends of the path of
-- UNISWAPV3, and the most that RENEGADE sells.
abbrev pub KeepsOwn : Key → Key → ℕ → Action → Bytes → Bytes → Type 0
KeepsOwn sell buy amount native_check args value = action_word args 1 ≡ ok 0
KeepsOwn sell buy amount uniswap_v3 args value =
    (43 ≤ length value)
    × ((length value - 20) % 23 ≡ 0)
    × (number_at 0 20 value ≡ sell)
    × (number_at (length value - 20) 20 value ≡ buy)
KeepsOwn sell buy amount renegade args value =
    (most : ℕ) × (action_word args 3 ≡ ok most) × (most ≤ amount)
KeepsOwn sell buy amount _ args value = Unit

-- What an action of accepted calldata keeps to.
abbrev pub IsBound : Key → Key → Key → ℕ → ℕ → Decoded → Type 0
IsBound sell buy taker amount least d =
    Names (places d.action).recipient d.args taker
    × Names (places d.action).sell d.args sell
    × Names (places d.action).buy d.args buy
    × Demands (places d.action).minimum d.args least
    × KeepsOwn sell buy amount d.action d.args d.value
    × (is_dodo_v2 d.action ≡ false)

check_address-Names :
    (place : Option ℕ) (k : Key) (args : Bytes)
    → check_address place (some k) args ≡ ok tt
    → Names place args k
unfolding check_address
check_address-Names none k args h = tt
check_address-Names (some index) k args h = ground arith

check_minimum-Demands :
    (place : Option ℕ) (least : ℕ) (args : Bytes)
    → check_minimum place (some least) args ≡ ok tt
    → Demands place args least
unfolding check_minimum
check_minimum-Demands none least args h = tt
check_minimum-Demands (some index) least args h = elim (Result-cases (action_word args index)) [
  | inl (n, e) ↦ (n, e, ground arith)
  | inr (x, e) ↦ absurd (ground arith)
]

not-dodo_v2 :
    (b : Binding) (a : Action) (args value : Bytes)
    → check_own b a args value ≡ ok tt
    → is_dodo_v2 a ≡ false
unfolding check_own
not-dodo_v2 b dodo_v2 args value h = absurd (ground arith)
not-dodo_v2 b _ args value h = refl

check_own-KeepsOwn :
    (sell buy taker : Key) (amount least : ℕ) (a : Action) (args value : Bytes)
    → check_own (all_expected sell buy taker amount least) a args value ≡ ok tt
    → KeepsOwn sell buy amount a args value
unfolding check_own
check_own-KeepsOwn sell buy taker amount least native_check args value h = ground arith
check_own-KeepsOwn sell buy taker amount least uniswap_v3 args value h =
    (ground arith, ground arith, ground arith, ground arith)
check_own-KeepsOwn sell buy taker amount least renegade args value h =
    elim (Result-cases (action_word args 3)) [
      | inl (most, e) ↦ (most, e, ground arith)
      | inr (x, e) ↦ absurd (ground arith)
    ]
check_own-KeepsOwn sell buy taker amount least _ args value h = tt

validate-parts :
    (b : Binding) (a : Action) (args value : Bytes)
    → validate_semantics b a args value ≡ ok tt
    → (check_own b a args value ≡ ok tt)
      × (check_address (places a).recipient b.taker_address args ≡ ok tt)
      × (check_address (places a).sell b.sell_token args ≡ ok tt)
      × (check_address (places a).buy b.buy_token args ≡ ok tt)
      × (check_minimum (places a).minimum b.min_output_atomic args ≡ ok tt)
unfolding validate_semantics
validate-parts b a args value h = ground arith

decode_action-valid :
    (s : Selectors) (b : Binding) (bytes : Bytes) (body count index : ℕ) (d : Decoded)
    → decode_action s b bytes body count index ≡ ok d
    → validate_semantics b d.action d.args d.value ≡ ok tt
unfolding decode_action
decode_action-valid s b bytes body count index d h = ground arith

decode_actions-each :
    (s : Selectors) (b : Binding) (bytes : Bytes) (args_start offset : ℕ) (ds : List Decoded)
    → decode_actions s b bytes args_start offset ≡ ok ds
    → (count : ℕ) × (decode_each s b bytes (args_start + offset + 32) count count 0 ≡ ok ds)
unfolding decode_actions
decode_actions-each s b bytes args_start offset ds h =
    elim (Result-cases (calldata_word bytes (args_start + offset))) [
      | inl (count, e) ↦ (count, ground arith)
      | inr (x, e) ↦ absurd (ground arith)
    ]

-- What the forwarded call has been decoded to.
record Forwarded (s : Selectors) (b : Binding) (c : Call) : Type 0 where
  inner : Bytes
  offset : ℕ
  decoded : decode_actions s b inner 4 offset ≡ ok c.actions
  settles : any (λ d. is_settlement d.action) c.actions ≡ true

decode_inner-Forwarded :
    (s : Selectors) (b : Binding) (inner : Bytes) (sell_token : Key) (sell_amount : ℕ)
    (target : Key) (c : Call)
    → decode_inner s b inner sell_token sell_amount target ≡ ok c
    → Forwarded s b c
unfolding decode_inner
decode_inner-Forwarded s b inner sell_token sell_amount target c h =
    elim (Result-cases (calldata_word inner 100)) [
      | inl (offset, e) ↦ record {
        inner = inner;
        offset = offset;
        decoded = ground arith;
        settles = ground arith;
      }
      | inr (x, e) ↦ absurd (ground arith)
    ]

decode_call-parts :
    (s : Selectors) (b : Binding) (entry allowance : Option Key) (bytes : Bytes) (c : Call)
    → decode_call s b entry allowance bytes ≡ ok c
    → (inner : Bytes) × (sell_token : Key) × (sell_amount : ℕ) × (target : Key) × (decode_inner s b
          inner sell_token sell_amount target
        ≡ ok c)
      × (check_call b entry allowance c ≡ ok tt)
unfolding decode_call
decode_call-parts s b entry allowance bytes c h = elim (Result-cases (calldata_address bytes 36)) [
  | inr (x, e) ↦ absurd (ground arith)
  | inl (sell_token, e36) ↦ elim (Result-cases (calldata_word bytes 68)) [
    | inr (x, e) ↦ absurd (ground arith)
    | inl (sell_amount, e68) ↦ elim (Result-cases (calldata_address bytes 100)) [
      | inr (x, e) ↦ absurd (ground arith)
      | inl (target, e100) ↦ elim (Result-cases (calldata_word bytes 132)) [
        | inr (x, e) ↦ absurd (ground arith)
        | inl (offset, e132) ↦ elim (Result-cases (dynamic_bytes bytes 4 offset)) [
          | inr (x, e) ↦ absurd (ground arith)
          | inl (inner, e_inner) ↦
              (inner, sell_token, sell_amount, target, ground arith, ground arith)
        ]
      ]
    ]
  ]
]

module _ (s : Selectors) (sell buy taker : Key) (amount least : ℕ) where
  decode_action-IsBound :
      (bytes : Bytes) (body count index : ℕ) (d : Decoded)
      → decode_action s (all_expected sell buy taker amount least) bytes body count index ≡ ok d
      → IsBound sell buy taker amount least d
  decode_action-IsBound bytes body count index d h =
      let b = all_expected sell buy taker amount least in
      let valid = decode_action-valid s b bytes body count index d h in
      let (own, recipient, sold, bought, minimum) =
        validate-parts b d.action d.args d.value valid in
      (
        check_address-Names (places d.action).recipient taker d.args recipient,
        check_address-Names (places d.action).sell sell d.args sold,
        check_address-Names (places d.action).buy buy d.args bought,
        check_minimum-Demands (places d.action).minimum least d.args minimum,
        check_own-KeepsOwn sell buy taker amount least d.action d.args d.value own,
        not-dodo_v2 b d.action d.args d.value own,
      )

  decode_each-IsBound :
      (bytes : Bytes) (body count left index : ℕ) (ds : List Decoded)
      → decode_each s (all_expected sell buy taker amount least) bytes body count left index ≡ ok ds
      → All (IsBound sell buy taker amount least) ds
  unfolding decode_each
  decode_each-IsBound bytes body count zero index [] h = tt
  decode_each-IsBound bytes body count zero index (d ∷ ds) h = absurd (ground arith)
  decode_each-IsBound bytes body count (suc left) index [] h = absurd (ground arith)
  decode_each-IsBound bytes body count (suc left) index (d ∷ ds) h = (
    decode_action-IsBound bytes body count index d (ground arith),
    decode_each-IsBound bytes body count left (index + 1) ds (ground arith),
  )

  decode_actions-IsBound :
      (bytes : Bytes) (args_start offset : ℕ) (ds : List Decoded)
      → decode_actions s (all_expected sell buy taker amount least) bytes args_start offset ≡ ok ds
      → All (IsBound sell buy taker amount least) ds
  decode_actions-IsBound bytes args_start offset ds h =
      let (count, e) =
        decode_actions-each s (all_expected sell buy taker amount least) bytes args_start offset ds
          h in
      decode_each-IsBound bytes (args_start + offset + 32) count count 0 ds e

  check_call-terms :
      (entry allowance : Option Key) (c : Call)
      → check_call (all_expected sell buy taker amount least) entry allowance c ≡ ok tt
      → (c.sell_token ≡ sell)
        × (c.buy_token ≡ buy)
        × (c.sell_amount_atomic ≡ amount)
        × (c.recipient ≡ taker)
        × (least ≤ c.min_output_atomic)
  unfolding check_call
  check_call-terms entry allowance c h = ground arith

  -- Calldata that is accepted under full expectations sells exactly the expected amount of the expected
  -- token, for the expected token, to the expected taker, and for no less than the expected minimum; at
  -- least one of its actions settles; and of every action, the recipient, the sell token and the buy
  -- token at the places that its layout has for them are the expected ones, a minimum there is no less
  -- than the expected one, a UNISWAPV3 path is well formed and leads from the expected sell token to the
  -- expected buy token, a RENEGADE maximum is at most the expected amount, a NATIVE_CHECK allows no
  -- native value, and none is DODOV2.
  pub calldata_binds :
      (entry allowance : Option Key) (bytes : Bytes) (c : Call)
      → decode_call s (all_expected sell buy taker amount least) entry allowance bytes ≡ ok c
      → (c.sell_token ≡ sell)
        × (c.buy_token ≡ buy)
        × (c.sell_amount_atomic ≡ amount)
        × (c.recipient ≡ taker)
        × (least ≤ c.min_output_atomic)
        × (any (λ d. is_settlement d.action) c.actions ≡ true)
        × All (IsBound sell buy taker amount least) c.actions
  calldata_binds entry allowance bytes c h =
      let b = all_expected sell buy taker amount least in
      let (inner, sell_token, sell_amount, target, decoded, checked) =
        decode_call-parts s b entry allowance bytes c h in
      let f = decode_inner-Forwarded s b inner sell_token sell_amount target c decoded in
      let (sold, bought, whole, paid, enough) = check_call-terms entry allowance c checked in
      (
        sold,
        bought,
        whole,
        paid,
        enough,
        f.settles,
        decode_actions-IsBound f.inner 4 f.offset c.actions f.decoded,
      )
