-- ===== src/Payment/Normalize/Requirement.antt =====
-- packages/agent-pay-core/src/payment/normalize.ts: parseRequirement. A number of JSON is a natural
-- number here.
use zadper.Common.{ℕ, String, Bool, Option, none, some, ◌&&◌, ltb, leb, if◌then◌else◌, holds_of}
use Prim.Native.String as Text
use zadper.Common.Text.{lower, trim, starts_with, drop_chars, is_hex_of}
use zadper.Common.Decimal.{decimal}
use zadper.Json.{Value, str, num, Fields}
use zadper.Payment.Settlement.{field_of}
use zadper.Payment.Normalize.Parsing.{Refusal, Parsed, parsed, refused, ◌>>=◌, demand, string_with}
use zadper.Payment.Normalize.Values.{as_record, invalid_payment, fits}

-- `PaymentRequirement`; its scheme is exact and its network is that of the test.
pub record PaymentRequirement : Type 0 where
  pub asset : String
  pub amount : String
  pub pay_to : String
  pub max_timeout_seconds : ℕ
  pub name : String
  pub version : String
  pub decimals : Option String
  pub symbol : Option String

abbrev pub is_positive_integer : String → Bool
is_positive_integer s = holds_of (decimal s) (λ n. ltb 0 n)

abbrev pub is_byte : String → Bool
is_byte s = holds_of (decimal s) (λ n. leb n 255)

-- `replace` of a prefix.
unfoldable pub replace_prefix : String → String → ℕ → String → String
replace_prefix prefix by size s =
    if starts_with s prefix then Text.◌++◌ by (drop_chars size s) else s

unfoldable pub hash_of_hex : String → Option String
hash_of_hex s =
    if is_hex_of 40 s then some (Text.◌++◌ "0x" s) else if is_hex_of 64 s then some s else none

-- `normalizeHash(value, "hash-")`.
unfoldable pub normalize_asset_hash : Option Value → Option String
unfolding hash_of_hex replace_prefix
normalize_asset_hash (some (str s)) =
    hash_of_hex (replace_prefix "0x" "" 2 (replace_prefix "hash-" "" 5 (lower (trim s))))
normalize_asset_hash _ = none

-- `/^00[0-9a-f]{64}$/`.
abbrev pub is_account_address : String → Bool
is_account_address s = starts_with s "00" && is_hex_of 66 s

unfoldable pub account_of_text : String → Option String
unfolding replace_prefix
account_of_text s =
    if is_hex_of 40 (replace_prefix "0x" "" 2 s)
    then some (Text.◌++◌ "0x" (replace_prefix "0x" "" 2 s))
    else if is_account_address (replace_prefix "account-hash-" "00" 13 s)
    then some (replace_prefix "account-hash-" "00" 13 s)
    else none

unfoldable pub normalize_account_address : Option Value → Option String
unfolding account_of_text
normalize_account_address (some (str s)) = account_of_text (lower (trim s))
normalize_account_address _ = none

abbrev pub timeout_of : Option Value → Option ℕ
timeout_of (some (num n)) = if leb 1 n && leb n 900 then some n else none
timeout_of _ = none

abbrev pub name_of : Option Fields → Option Value
name_of none = none
name_of (some fs) = field_of "name" fs

abbrev pub name_in : Option Fields → Option (Fields × String)
name_in none = none
name_in (some fs) = elim (string_with (fits 128) (field_of "name" fs)) [
  | none ↦ none
  | some name ↦ some (fs, name)
]

-- A field that may be missing.
abbrev pub optional_string : (String → Bool) → Option Value → Refusal → Parsed (Option String)
optional_string p none r = parsed none
optional_string p (some v) r = elim (string_with p (some v)) [
  | none ↦ refused r
  | some s ↦ parsed (some s)
]

-- `parseRequirement`, of a candidate that is an object.
unfoldable pub parse_requirement : Fields → Parsed PaymentRequirement
unfolding as_record
parse_requirement fs = do
  amount ← demand (string_with is_positive_integer (field_of "amount" fs)) (
      invalid_payment "amount must be a positive atomic integer string" "accepts.amount"
        (str "positive integer string") (field_of "amount" fs))
  asset ← demand (normalize_asset_hash (field_of "asset" fs)) (
      invalid_payment "asset must be a Bot Chain package hash or EVM address" "accepts.asset"
        (str "64 hex characters or EVM address") (field_of "asset" fs))
  pay_to ← demand (normalize_account_address (field_of "payTo" fs)) (
      invalid_payment "payTo must be a Bot Chain account address or EVM address" "accepts.payTo"
        (str "Casper format or EVM address") (field_of "payTo" fs))
  timeout ← demand (timeout_of (field_of "maxTimeoutSeconds" fs)) (
      invalid_payment "maxTimeoutSeconds is outside the supported range" "accepts.maxTimeoutSeconds"
        (str "1..900") (field_of "maxTimeoutSeconds" fs))
  named ← demand (name_in (as_record (field_of "extra" fs))) (
      invalid_payment "extra.name is invalid" "accepts.extra.name" (str "string <= 128 chars")
        (name_of (as_record (field_of "extra" fs))))
  version ← demand (string_with (fits 32) (field_of "version" (named.0))) (
      invalid_payment "extra.version is invalid" "accepts.extra.version" (str "string <= 32 chars")
        (field_of "version" (named.0)))
  decimals ← optional_string is_byte (field_of "decimals" (named.0)) (
      invalid_payment "extra.decimals is invalid" "accepts.extra.decimals"
        (str "integer string 0..255") (field_of "decimals" (named.0)))
  symbol ← optional_string (fits 32) (field_of "symbol" (named.0)) (
      invalid_payment "extra.symbol is invalid" "accepts.extra.symbol" (str "string <= 32 chars")
        (field_of "symbol" (named.0)))
  parsed (record {
    asset = asset;
    amount = amount;
    pay_to = pay_to;
    max_timeout_seconds = timeout;
    name = named.1;
    version = version;
    decimals = decimals;
    symbol = symbol;
  })
