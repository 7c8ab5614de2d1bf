-- ===== src/Payment/Authorization.antt =====
-- packages/agent-pay-core/src/payment/authorization.ts: the intent that a buyer signs, its digest,
-- and the window of time in which it is valid.
pub mod Window
mod Tests
use zadper.Common.{
  ℕ, ◌+◌, ◌-◌, ◌%◌, ◌^◌, min, String, Bool, Option, none, some, not, ◌&&◌, ltb, leb, ◌==◌, ◌===◌,
  if◌then◌else◌, Result, ok, throw, type_error, plain_error, require, ◌>>=◌, ◌>>◌,
}
use Prim.Native.Char.{code}
use Prim.Native.String
use zadper.Common.Text.{lower, trim, starts_with, drop_chars, is_hex_of}
use zadper.Common.Decimal.{decimal, to_decimal}
use zadper.Payment.Types.{PaymentTerms, IntentWithoutDigest, AuthorizationIntent, network_text}
use zadper.Payment.Runtime.{Runtime, TypedData}

unfoldable pub strip_0x : String → String
strip_0x s = if starts_with s "0x" then drop_chars 2 s else s

abbrev with_0x : String → String
with_0x s = if starts_with s "0x" then s else String.◌++◌ "0x" s

-- `/^(?:0x)?[0-9a-fA-F]{40}$/` on a text in lower case.
is_address : String → Bool
unfolding strip_0x
is_address s = is_hex_of 40 (strip_0x s)

unfoldable pub normalize_address : String → String → Result String
unfolding is_address
normalize_address value label = do
  let normalized = lower (trim value)
  require (is_address normalized) (type_error (String.◌++◌ label " must be a valid EVM address"))
  ok (with_0x normalized)

unfoldable pub normalize_asset : String → Result String
unfolding strip_0x
normalize_asset value =
    let stripped = strip_0x (lower (trim value)) in
    if is_hex_of 40 stripped
    then ok (String.◌++◌ "0x" stripped)
    else if is_hex_of 64 stripped
    then ok stripped
    else throw (
        type_error (
          String.◌++◌
            "assetPackageHash must be an EVM address (0x+40hex) or 64-char package hash, got: "
            value))

-- `normalizeInteger` with the `BigInt` that its callers take of the result.
unfoldable pub normalize_integer : String → String → Result ℕ
normalize_integer value label = elim (decimal value) [
  | none ↦ throw (type_error (String.◌++◌ label " must be a non-negative integer string"))
  | some n ↦ ok n
]

unfoldable pub normalize_nonce : String → Result String
unfolding strip_0x
normalize_nonce value = do
  let normalized = strip_0x (lower (trim value))
  require (is_hex_of 64 normalized) (type_error "nonce must be 32 bytes of hexadecimal data")
  ok normalized

-- The first part of a text split at colons, and what `split(":")[1]` is.
until_colon : String → String
until_colon String.[] = ""
until_colon (String.◌∷◌ c s) =
    let rest = until_colon s in if code c == b':' then "" else String.◌∷◌ c rest

second_part : String → Option String
unfolding until_colon
second_part String.[] = none
second_part (String.◌∷◌ c s) =
    let rest = second_part s in if code c == b':' then some (until_colon s) else rest

-- A chain id that is not a canonical decimal numeral is taken for an error; `BigInt` would also
-- read white space, leading zeros and other bases.
chain_id_of : String → Result ℕ
chain_id_of s =
    if s === "testnet" then ok 968 else if s === "mainnet" then ok 888 else elim (decimal s) [
      | none ↦ throw (plain_error "Cannot convert to a BigInt")
      | some n ↦ ok n
    ]

unfoldable pub chain_id : String → Result ℕ
unfolding second_part chain_id_of
chain_id network = elim (second_part network) [
  | none ↦ ok 968
  | some s ↦ if s === "" then ok 968 else chain_id_of s
]

unfoldable pub typed_data : IntentWithoutDigest → Result TypedData
unfolding normalize_address normalize_asset normalize_integer normalize_nonce chain_id
typed_data input = do
  asset ← normalize_asset input.asset
  from ← normalize_address input.from "from"
  to ← normalize_address input.to "to"
  value ← normalize_integer input.amount "value"
  valid_after ← normalize_integer input.valid_after "validAfter"
  valid_before ← normalize_integer input.valid_before "validBefore"
  nonce ← normalize_nonce input.nonce
  require (not (input.token_name === "") && not (input.token_version === ""))
      (type_error "Authorization domain fields must be non-empty strings")
  chain ← chain_id (network_text input.network)
  ok (record {
    name = input.token_name;
    version = input.token_version;
    chain_id = chain;
    verifying_contract = asset;
    from = from;
    to = to;
    value = value;
    valid_after = valid_after;
    valid_before = valid_before;
    nonce = String.◌++◌ "0x" nonce;
  })

unfoldable pub authorization_digest : Runtime → IntentWithoutDigest → Result String
unfolding typed_data
authorization_digest rt intent = do
  data_to_sign ← typed_data intent
  rt.typed_data_hash data_to_sign

-- `Number.MAX_SAFE_INTEGER`.
abbrev pub max_safe_integer : ℕ
max_safe_integer = 2 ^ 53 - 1

abbrev authorization_clock_skew_seconds : ℕ
authorization_clock_skew_seconds = 5

pub record AuthorizationWindow : Type 0 where
  pub valid_after : String
  pub valid_before : String

-- `+` on two safe integers. The sum is below 2 ^ 54; from 2 ^ 53 on only the even numbers are
-- doubles, and an odd sum goes to the one of its neighbours that is a multiple of 4.
unfoldable pub double_sum : ℕ → ℕ → ℕ
double_sum a b =
    let sum = a + b in
    if leb sum (2 ^ 53)
    then sum
    else if sum % 2 == 0
    then sum
    else if sum % 4 == 1
    then sum - 1
    else sum + 1

unfoldable pub build_authorization_window : ℕ → ℕ → Result AuthorizationWindow
unfolding double_sum
build_authorization_window now_epoch_seconds max_timeout_seconds = do
  require (leb now_epoch_seconds max_safe_integer)
      (type_error "nowEpochSeconds must be a non-negative safe integer")
  require (leb max_timeout_seconds max_safe_integer && ltb 0 max_timeout_seconds)
      (type_error "maxTimeoutSeconds must be a positive safe integer")
  let skew = min (min authorization_clock_skew_seconds (max_timeout_seconds - 1)) now_epoch_seconds
  let valid_after = now_epoch_seconds - skew
  ok (record {
    valid_after = to_decimal valid_after;
    valid_before = to_decimal (double_sum valid_after max_timeout_seconds);
  })

unfoldable pub build_authorization_intent :
    Runtime → PaymentTerms → String → ℕ → String → Result AuthorizationIntent
unfolding normalize_address normalize_nonce authorization_digest
build_authorization_intent rt terms payer_public_key now_epoch_seconds nonce = do
  require (leb now_epoch_seconds max_safe_integer)
      (type_error "nowEpochSeconds must be a non-negative safe integer")
  from ← normalize_address payer_public_key "payerPublicKey"
  window ← build_authorization_window now_epoch_seconds terms.max_timeout_seconds
  to ← normalize_address terms.pay_to "payTo"
  nonce' ← normalize_nonce nonce
  let intent : IntentWithoutDigest = record {
    payer_public_key = from;
    from = from;
    to = to;
    amount = terms.amount;
    valid_after = window.valid_after;
    valid_before = window.valid_before;
    nonce = nonce';
    network = terms.network;
    asset = terms.asset;
    token_name = terms.extra_name;
    token_version = terms.extra_version;
  }
  digest ← authorization_digest rt intent
  ok (record { intent = intent; digest = digest })
