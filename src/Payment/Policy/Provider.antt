-- ===== src/Payment/Policy/Provider.antt =====
-- policy.ts: `evaluateProvider`.
pub mod Clear
use zadper.Common.{
  ℕ, String, Bool, true, false, Option, none, some, List, [], ◌∷◌, not, ◌&&◌, ltb, leb, ◌===◌, when,
  if◌then◌else◌, Result, ok, ◌>>=◌,
}
use Prim.Native.String
use zadper.Common.Text.{lower, starts_with}
use zadper.Json.{Value, null, str, obj, field, end}
use zadper.Payment.Types.{
  Reason, ReasonResult, provider_unapproved, provider_tuple_changed, operator_denied,
  policy_per_call_exceeded, ProviderDecision, pin, deny, is_pin, same_network, network_text,
}
use zadper.Payment.Artifacts.{text_or_null}
use zadper.Payment.Runtime.{Runtime}
use zadper.Payment.Policy.Input.{PaymentEvaluationInput, reason, parse_amount}

-- What is pushed, and what is returned.
pub record ProviderOutcome : Type 0 where
  pub reasons : List Reason
  pub pinned : Bool

-- A null prefix covers every path.
covers_path : Option String → String → Bool
covers_path none path = true
covers_path (some prefix) path = starts_with path prefix

pub exact_tuple : PaymentEvaluationInput → ProviderDecision → Bool
unfolding covers_path
exact_tuple input decision =
    decision.origin === input.request.origin
    && (lower decision.payee === lower input.terms.pay_to
        && (lower decision.asset === lower input.terms.asset
            && (same_network decision.network input.terms.network
                && covers_path decision.resource_path_prefix input.request.path)))

expected_tuple : ProviderDecision → Value
expected_tuple d = obj (
    field "origin" (str d.origin) (
      field "payee" (str d.payee) (
        field "asset" (str d.asset) (
          field "network" (str (network_text d.network))
            (field "resourcePathPrefix" (text_or_null d.resource_path_prefix) end)))))

received_tuple : PaymentEvaluationInput → Value
received_tuple input = obj (
    field "origin" (str input.request.origin) (
      field "payee" (str input.terms.pay_to) (
        field "asset" (str input.terms.asset) (
          field "network" (str (network_text input.terms.network))
            (field "path" (str input.request.path) end)))))

-- NaN and a time that has come are both an expiry.
pub is_expired : Option ℕ → ℕ → Bool
is_expired none now_ms = true
is_expired (some expiry) now_ms = leb expiry now_ms

abbrev refused : Reason → Result ProviderOutcome
refused r = ok (record { reasons = r ∷ []; pinned = false })

ceiling_outcome : PaymentEvaluationInput → ProviderDecision → Result ProviderOutcome
unfolding parse_amount
ceiling_outcome input decision = do
  amount ← parse_amount input.terms.amount "terms.amount"
  ceiling ← parse_amount decision.per_call_ceiling "provider.perCallCeiling"
  ok (record {
    reasons = when (ltb ceiling amount) (
        reason policy_per_call_exceeded ReasonResult.block
          "Payment amount exceeds the signed provider ceiling" "amount"
          (str (String.◌++◌ "<= " decision.per_call_ceiling)) (str input.terms.amount));
    pinned = true;
  })

evaluate_decision : Runtime → PaymentEvaluationInput → ℕ → ProviderDecision → Result ProviderOutcome
unfolding exact_tuple expected_tuple received_tuple is_expired ceiling_outcome
evaluate_decision rt input now_ms decision =
    if not (exact_tuple input decision)
    then refused (
        reason provider_tuple_changed
          (if is_pin decision.kind then ReasonResult.review else ReasonResult.block)
          "The payment request does not match the signed provider tuple" "provider"
          (expected_tuple decision) (received_tuple input))
    else if is_expired (rt.parse_date decision.expires_at) now_ms
    then refused (
        reason provider_unapproved ReasonResult.review "Provider approval has expired"
          "provider.expiresAt" (str (String.◌++◌ "after " input.now)) (str decision.expires_at))
    else if is_pin decision.kind
    then ceiling_outcome input decision
    else refused (
        reason operator_denied ReasonResult.block "Operator denied this provider tuple"
          "provider.kind" (str "pin") (str "deny"))

unfoldable pub evaluate_provider : Runtime → PaymentEvaluationInput → ℕ → Result ProviderOutcome
unfolding evaluate_decision
evaluate_provider rt input now_ms = elim input.provider_decision [
  | none ↦ refused (
      reason provider_unapproved ReasonResult.review
        "This service has not been approved for payment yet." "provider" (str "active pin") null)
  | some decision ↦ evaluate_decision rt input now_ms decision
]
