-- ===== src/Payment/Normalize/Selection.antt =====
-- packages/agent-pay-core/src/payment/normalize.ts: the acceptance that is selected among those that
-- are offered.
use zadper.Common.{
  ℕ, ◌+◌, Bool, true, Option, none, some, List, [], ◌∷◌, ◌&&◌, any, ltb, leb, ◌==◌, ◌===◌,
  if◌then◌else◌, holds_of, length,
}
use zadper.Json.{Value, str, num, arr, Fields, Items, nil, cons}
use zadper.Payment.Types.{unsupported_scheme, unsupported_network}
use zadper.Payment.Settlement.{field_of}
use zadper.Payment.Normalize.Parsing.{Refusal, Parsed, parsed, refused, string_with}
use zadper.Payment.Normalize.Values.{as_record, invalid_payment}

-- An acceptance for the exact scheme.
unfoldable pub is_exact : Value → Bool
unfolding as_record
is_exact candidate =
    holds_of (as_record (some candidate))
      (λ fs. holds_of (string_with (λ s. s === "exact") (field_of "scheme" fs)) (λ s. true))

-- One that is on the network of the test besides.
unfoldable pub is_compatible : Fields → Bool
is_compatible fs =
    holds_of (string_with (λ s. s === "exact") (field_of "scheme" fs)) (λ s. true)
    && holds_of (string_with (λ s. s === "botchain:testnet") (field_of "network" fs)) (λ s. true)

abbrev pub candidates : Items → List Value
candidates nil = []
candidates (cons v vs) = v ∷ candidates vs

abbrev pub put_compatible : ℕ → Option Fields → List (ℕ × Fields) → List (ℕ × Fields)
put_compatible index none rest = rest
put_compatible index (some fs) rest = if is_compatible fs then (index, fs) ∷ rest else rest

-- The compatible acceptances, each with its index, from an index on.
unfoldable pub compatible_from : ℕ → List Value → List (ℕ × Fields)
unfolding as_record is_compatible
compatible_from index [] = []
compatible_from index (v ∷ vs) =
    put_compatible index (as_record (some v)) (compatible_from (index + 1) vs)

unfoldable pub refuse_incompatible : Items → Refusal
unfolding is_exact
refuse_incompatible accepts =
    if any is_exact (candidates accepts)
    then record {
      code = unsupported_network;
      message = "No supported Bot Chain Testnet acceptance was offered";
      field = "accepts.network";
      expected = str "botchain:testnet";
      received = some (arr accepts);
    }
    else record {
      code = unsupported_scheme;
      message = "No supported exact payment acceptance was offered";
      field = "accepts.scheme";
      expected = str "exact";
      received = some (arr accepts);
    }

unfoldable pub select : Items → List (ℕ × Fields) → Parsed (ℕ × Fields)
unfolding invalid_payment refuse_incompatible
select accepts [] = refused (refuse_incompatible accepts)
select accepts (selected ∷ []) = parsed selected
select accepts (first ∷ second ∷ more) = refused (
    invalid_payment "PAYMENT-REQUIRED contains ambiguous compatible acceptances" "accepts" (num 1)
      (some (num (length more + 2))))

abbrev pub accepts_of : Option Value → Option Items
accepts_of (some (arr accepts)) =
    if ltb 0 (length (candidates accepts)) && leb (length (candidates accepts)) 16
    then some accepts
    else none
accepts_of _ = none

abbrev pub version_of : Option Value → Option ℕ
version_of (some (num n)) = if n == 2 then some n else none
version_of _ = none
