-- ===== src/Payment/Policy/Evidence.antt =====
-- policy.ts: `evaluateEvidence`.
pub mod Clear
use zadper.Common.{
  ℕ, ◌-◌, ◌*◌, String, Bool, true, false, Option, none, some, List, [], ◌∷◌, ◌++◌, not, ◌&&◌, ◌||◌,
  ltb, ◌==◌, ◌===◌, when, holds_of, is_none, unique, sort_texts, if◌then◌else◌,
}
use Prim.Native.String
use zadper.Common.Text.{lower}
use zadper.Common.Decimal.{decimal, to_decimal}
use zadper.Json.{Value, null, num, str, arr, nil}
use zadper.Payment.Types.{
  Reason, ReasonResult, asset_package_not_found, authorization_entrypoint_missing,
  asset_decimals_mismatch, authorization_field_mismatch, evidence_unavailable, OperatorPolicy,
  PaymentAssetEvidence,
}
use zadper.Payment.Artifacts.{text_or_null, texts}
use zadper.Payment.Runtime.{Runtime}
use zadper.Payment.Policy.Input.{PaymentEvaluationInput, reason}

-- `value === false`.
abbrev is_false : Option Bool → Bool
is_false v = holds_of v not

package_fails : PaymentEvaluationInput → Bool
package_fails input =
    is_false input.evidence.package_exists
    || not (lower input.evidence.address === lower input.terms.asset)

package_reasons : PaymentEvaluationInput → List Reason
unfolding package_fails
package_reasons input = when (package_fails input) (
    reason asset_package_not_found ReasonResult.block
      "The selected payment package could not be resolved exactly" "asset" (str input.terms.asset)
      (if is_false input.evidence.package_exists then null else str input.evidence.address))

entrypoint_reasons : PaymentEvaluationInput → List Reason
entrypoint_reasons input = when (is_false input.evidence.authorization_entrypoint) (
    reason authorization_entrypoint_missing ReasonResult.block
      "The payment contract lacks transfer_with_authorization" "asset.entryPoint"
      (str "transfer_with_authorization") null)

-- `Number(declared) !== observed`, where both are given. A text that is no canonical numeral, which
-- the normalized terms never hold, differs from every number.
decimals_differ : Option String → Option ℕ → Bool
decimals_differ (some declared) (some observed) = elim (decimal declared) [
  | none ↦ true
  | some n ↦ not (n == observed)
]
decimals_differ _ _ = false

abbrev number_or_null : Option ℕ → Value
number_or_null none = null
number_or_null (some n) = num n

decimals_reasons : PaymentEvaluationInput → List Reason
unfolding decimals_differ
decimals_reasons input = when (decimals_differ input.terms.extra_decimals input.evidence.decimals) (
    reason asset_decimals_mismatch ReasonResult.block
      "Declared token decimals differ from Bot Chain state" "asset.decimals"
      (number_or_null input.evidence.decimals) (text_or_null input.terms.extra_decimals))

-- `name !== null && declared !== name`.
name_differs : Option String → String → Bool
name_differs none declared = false
name_differs (some name) declared = not (declared === name)

name_reasons : PaymentEvaluationInput → List Reason
unfolding name_differs
name_reasons input = when (name_differs input.evidence.name input.terms.extra_name) (
    reason authorization_field_mismatch ReasonResult.block
      "Declared token name differs from the on-chain authorization domain" "asset.name"
      (text_or_null input.evidence.name) (str input.terms.extra_name))

pub mandatory_missing : PaymentAssetEvidence → List String
mandatory_missing evidence =
    when (is_none evidence.package_exists) "package"
    ++ (when (is_none evidence.active_contract_hash) "activeContractHash"
        ++ (when (is_none evidence.authorization_entrypoint) "authorizationEntrypoint"
            ++ (when (is_none evidence.decimals) "decimals" ++ evidence.missing)))

abbrev is_empty {ℓ} : {A : Type ℓ} → List A → Bool
is_empty [] = true
is_empty (x ∷ xs) = false

missing_reasons : PaymentEvaluationInput → List Reason
unfolding mandatory_missing
missing_reasons input = when (not (is_empty (mandatory_missing input.evidence))) (
    reason evidence_unavailable ReasonResult.review
      "Mandatory payment-asset evidence is unavailable" "evidence.missing" (arr nil)
      (texts (sort_texts (unique (mandatory_missing input.evidence)))))

-- Outside the freshness window of the policy.
is_stale : Option ℕ → ℕ → ℕ → Bool
is_stale none now_ms max_age_ms = true
is_stale (some observed_at) now_ms max_age_ms =
    ltb now_ms observed_at || ltb max_age_ms (now_ms - observed_at)

freshness_reasons : Runtime → PaymentEvaluationInput → ℕ → List Reason
unfolding is_stale
freshness_reasons rt input now_ms = elim input.policy [
  | none ↦ []
  | some policy ↦
      when
        (is_stale (rt.parse_date input.evidence.observed_at) now_ms
          (policy.evidence_max_age_seconds * 1000))
        (reason evidence_unavailable ReasonResult.review
          "Payment-asset evidence is outside the signed freshness window" "evidence.observedAt"
          (str (
            String.◌++◌ "within "
              (String.◌++◌ (to_decimal policy.evidence_max_age_seconds) " seconds")))
          (str input.evidence.observed_at))
]

unfoldable pub evaluate_evidence : Runtime → PaymentEvaluationInput → ℕ → List Reason
unfolding package_reasons entrypoint_reasons decimals_reasons name_reasons missing_reasons
    freshness_reasons
evaluate_evidence rt input now_ms =
    package_reasons input
    ++ (entrypoint_reasons input
        ++ (decimals_reasons input
            ++ (name_reasons input
                ++ (missing_reasons input ++ freshness_reasons rt input now_ms))))
