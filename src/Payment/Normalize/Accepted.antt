-- ===== src/Payment/Normalize/Accepted.antt =====
-- What a requirement that is parsed is.
use zadper.Common.{
  ℕ, ◌≤◌, ◌≡◌, ◌⊎◌, inl, inr, refl, ◌∙◌, subst, String, Bool, true, Option, none, some, arith,
  Bool-cases,
}
use Prim.Native.String as Text
use zadper.Common.Text.{is_hex_of}
use zadper.Json.{Value, str, num, bool, null, obj, arr, Fields}
use zadper.Payment.Settlement.{field_of}
use zadper.Payment.Normalize.Parsing.{
  Refusal, parsed, refused, demand, string_with, bind-parsed, demand-parsed, string_with-some,
  parsed-injective,
}
use zadper.Payment.Normalize.Values.{as_record, fits}
use zadper.Payment.Normalize.Requirement.{
  PaymentRequirement, is_positive_integer, is_byte, hash_of_hex, normalize_asset_hash,
  replace_prefix, is_account_address, account_of_text, normalize_account_address, timeout_of,
  name_in, optional_string, parse_requirement,
}

abbrev pub IsEvmAddress : String → Type 0
IsEvmAddress a = (hex : String) × (is_hex_of 40 hex ≡ true) × (a ≡ Text.◌++◌ "0x" hex)

abbrev pub AllOf : (String → Bool) → Option String → Type 0
AllOf p none = Unit
AllOf p (some s) = p s ≡ true

-- The amount is positive, the addresses are normal, the time is within a quarter of an hour, and the
-- texts have the lengths that are allowed.
pub record IsAccepted (r : PaymentRequirement) : Type 0 where
  pub amount_positive : is_positive_integer r.amount ≡ true
  pub asset_normal : IsEvmAddress r.asset ⊎ (is_hex_of 64 r.asset ≡ true)
  pub payee_normal : IsEvmAddress r.pay_to ⊎ (is_account_address r.pay_to ≡ true)
  pub timeout_positive : 1 ≤ r.max_timeout_seconds
  pub timeout_bounded : r.max_timeout_seconds ≤ 900
  pub name_fits : fits 128 r.name ≡ true
  pub version_fits : fits 32 r.version ≡ true
  pub decimals_fit : AllOf is_byte r.decimals
  pub symbol_fits : AllOf (fits 32) r.symbol

hash_of_hex-normal :
    (s : String) {a : String} → hash_of_hex s ≡ some a → IsEvmAddress a ⊎ (is_hex_of 64 a ≡ true)
unfolding hash_of_hex
hash_of_hex-normal s e = elim (Bool-cases (is_hex_of 40 s)) [
  | inl short ↦ inl (s, short, ground arith)
  | inr other ↦ inr (ground arith)
]

asset-normal :
    (v : Option Value) {a : String}
    → normalize_asset_hash v ≡ some a
    → IsEvmAddress a ⊎ (is_hex_of 64 a ≡ true)
unfolding normalize_asset_hash
asset-normal (some (str s)) e = hash_of_hex-normal _ e
asset-normal (some (num n)) e = cc
asset-normal (some (bool b)) e = cc
asset-normal (some null) e = cc
asset-normal (some (obj fs)) e = cc
asset-normal (some (arr vs)) e = cc
asset-normal none e = cc

account-normal :
    (s : String) {a : String}
    → account_of_text s ≡ some a
    → IsEvmAddress a ⊎ (is_account_address a ≡ true)
unfolding account_of_text
account-normal s e = elim (Bool-cases (is_hex_of 40 (replace_prefix "0x" "" 2 s))) [
  | inl short ↦ inl (replace_prefix "0x" "" 2 s, short, ground arith)
  | inr other ↦ elim (Bool-cases (is_account_address (replace_prefix "account-hash-" "00" 13 s))) [
    | inl long ↦ inr (ground arith)
    | inr neither ↦ absurd (ground arith)
  ]
]

payee-normal :
    (v : Option Value) {a : String}
    → normalize_account_address v ≡ some a
    → IsEvmAddress a ⊎ (is_account_address a ≡ true)
unfolding normalize_account_address
payee-normal (some (str s)) e = account-normal _ e
payee-normal (some (num n)) e = cc
payee-normal (some (bool b)) e = cc
payee-normal (some null) e = cc
payee-normal (some (obj fs)) e = cc
payee-normal (some (arr vs)) e = cc
payee-normal none e = cc

timeout-bounds : (v : Option Value) {n : ℕ} → timeout_of v ≡ some n → (1 ≤ n) × (n ≤ 900)
timeout-bounds (some (num m)) e = ground arith
timeout-bounds (some (str s)) e = cc
timeout-bounds (some (bool b)) e = cc
timeout-bounds (some null) e = cc
timeout-bounds (some (obj fs)) e = cc
timeout-bounds (some (arr vs)) e = cc
timeout-bounds none e = cc

named-of :
    (fs : Fields) (found : Option String) {named : Fields × String}
    → (elim found [ none ↦ none | some name ↦ some (fs, name) ]) ≡ some named
    → found ≡ some (named.1)
named-of fs none e = cc
named-of fs (some name) e = cc

name-fits :
    (extra : Option Fields) {named : Fields × String}
    → name_in extra ≡ some named
    → fits 128 (named.1) ≡ true
name-fits none e = cc
name-fits (some fs) e = (string_with-some (fits 128) _ (named-of fs _ e)).1

found-holds :
    (p : String → Bool) (v : Option Value) (r : Refusal) (found : Option String) {s : Option String}
    → string_with p v ≡ found
    → (elim found [ none ↦ refused r | some t ↦ parsed (some t) ]) ≡ parsed s
    → AllOf p s
found-holds p v r none f e = cc
found-holds p v r (some t) {s = none} f e = tt
found-holds p v r (some t) {s = some s} f e =
    let same : some t ≡ some s = cc in (string_with-some p v (f ∙ same)).1

optional-holds :
    (p : String → Bool) (v : Option Value) (r : Refusal) {s : Option String}
    → optional_string p v r ≡ parsed s
    → AllOf p s
optional-holds p none r {s = none} e = tt
optional-holds p none r {s = some s} e = cc
optional-holds p (some v) r e = found-holds p (some v) r _ refl e

-- A requirement that is parsed has a positive amount, an asset and a payee in normal form, a time of
-- 1 to 900 seconds, and texts of the lengths that are allowed.
pub parse_requirement-IsAccepted :
    (fs : Fields) (r : PaymentRequirement) → parse_requirement fs ≡ parsed r → IsAccepted r
unfolding parse_requirement
parse_requirement-IsAccepted fs r e =
    let amount =
      bind-parsed (demand (string_with is_positive_integer (field_of "amount" fs)) _) _ e in
    let asset = bind-parsed (demand (normalize_asset_hash (field_of "asset" fs)) _) _ amount.2 in
    let payee =
      bind-parsed (demand (normalize_account_address (field_of "payTo" fs)) _) _ asset.2 in
    let timeout = bind-parsed (demand (timeout_of (field_of "maxTimeoutSeconds" fs)) _) _ payee.2 in
    let named = bind-parsed (demand (name_in (as_record (field_of "extra" fs))) _) _ timeout.2 in
    let version =
      bind-parsed (demand (string_with (fits 32) (field_of "version" (named.0.0))) _) _ named.2 in
    let decimals =
      bind-parsed (optional_string is_byte (field_of "decimals" (named.0.0)) _) _ version.2 in
    let symbol =
      bind-parsed (optional_string (fits 32) (field_of "symbol" (named.0.0)) _) _ decimals.2 in
    let times = timeout-bounds (field_of "maxTimeoutSeconds" fs) (demand-parsed _ _ timeout.1) in
    let built : IsAccepted (record {
      asset = asset.0;
      amount = amount.0;
      pay_to = payee.0;
      max_timeout_seconds = timeout.0;
      name = named.0.1;
      version = version.0;
      decimals = decimals.0;
      symbol = symbol.0;
    }) =
      record {
        amount_positive = (string_with-some is_positive_integer _ (demand-parsed _ _ amount.1)).1;
        asset_normal = asset-normal _ (demand-parsed _ _ asset.1);
        payee_normal = payee-normal _ (demand-parsed _ _ payee.1);
        timeout_positive = times.0;
        timeout_bounded = times.1;
        name_fits = name-fits _ (demand-parsed _ _ named.1);
        version_fits = (string_with-some (fits 32) _ (demand-parsed _ _ version.1)).1;
        decimals_fit = optional-holds is_byte _ _ decimals.1;
        symbol_fits = optional-holds (fits 32) _ _ symbol.1;
      } in
    subst IsAccepted (parsed-injective symbol.2) built
