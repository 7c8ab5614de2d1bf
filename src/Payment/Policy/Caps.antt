-- ===== src/Payment/Policy/Caps.antt =====
-- policy.ts: `evaluatePolicy`.
pub mod Clear
use zadper.Common.{
  ℕ, ◌+◌, String, Bool, true, false, Option, none, some, List, [], ◌∷◌, ◌++◌, map, not, ltb, leb,
  ◌===◌, any, includes, when, holds_of, if◌then◌else◌, Result, ok, ◌>>=◌,
}
use Prim.Native.String
use zadper.Common.Text.{lower}
use zadper.Common.Decimal.{to_decimal}
use zadper.Json.{null, num, str}
use zadper.Payment.Types.{
  Reason, ReasonResult, policy_cap_missing, unsupported_network, operator_denied,
  policy_daily_cap_exceeded, OperatorPolicy, AuthorizationIntent, same_network, network_text,
}
use zadper.Payment.Artifacts.{texts}
use zadper.Payment.Runtime.{Runtime}
use zadper.Payment.Policy.Input.{PaymentEvaluationInput, reason, parse_amount}

-- Not yet effective, or at no time that can be read.
pub is_ineffective : Option ℕ → ℕ → Bool
is_ineffective none now_ms = true
is_ineffective (some effective_at) now_ms = ltb now_ms effective_at

effective_reasons : Runtime → PaymentEvaluationInput → ℕ → OperatorPolicy → List Reason
unfolding is_ineffective
effective_reasons rt input now_ms policy =
    when (is_ineffective (rt.parse_date policy.effective_at) now_ms) (
      reason policy_cap_missing ReasonResult.review
        "Signed operator policy is not effective at the evaluation time" "policy.effectiveAt"
        (str (String.◌++◌ "<= " input.now)) (str policy.effective_at))

network_reasons : PaymentEvaluationInput → OperatorPolicy → List Reason
network_reasons input policy =
    when (not (any (λ n. same_network n input.terms.network) policy.allowed_networks)) (
      reason unsupported_network ReasonResult.block "Network is outside the signed operator policy"
        "network" (texts (map network_text policy.allowed_networks))
        (str (network_text input.terms.network)))

payer_reasons : PaymentEvaluationInput → OperatorPolicy → List Reason
payer_reasons input policy = elim input.authorization [
  | none ↦ []
  | some a ↦ when (not (includes policy.allowed_payer_public_keys a.payer_public_key)) (
      reason operator_denied ReasonResult.block
        "Payer public key is outside the signed operator policy" "authorization.payerPublicKey"
        (texts policy.allowed_payer_public_keys) (str a.payer_public_key))
]

denied_reasons : PaymentEvaluationInput → OperatorPolicy → List Reason
denied_reasons input policy =
    when (includes policy.denied_origins input.request.origin) (
      reason operator_denied ReasonResult.block "Origin is explicitly denied" "request.origin"
        (str "not denied") (str input.request.origin))
    ++ (when (includes (map lower policy.denied_payees) (lower input.terms.pay_to)) (
          reason operator_denied ReasonResult.block "Payee is explicitly denied" "terms.payTo"
            (str "not denied") (str input.terms.pay_to))
        ++ when (includes (map lower policy.denied_assets) (lower input.terms.asset)) (
            reason operator_denied ReasonResult.block "Payment asset is explicitly denied"
              "terms.asset" (str "not denied") (str input.terms.asset)))

-- `assetDailyCaps[asset]`.
unfoldable pub cap_of : List (String × String) → String → Option String
cap_of [] asset = none
cap_of ((key, cap) ∷ caps) asset = if key === asset then some cap else cap_of caps asset

cap_reasons : PaymentEvaluationInput → OperatorPolicy → Result (List Reason)
unfolding parse_amount
cap_reasons input policy = elim (cap_of policy.asset_daily_caps (lower input.terms.asset)) [
  | none ↦ ok (
      reason policy_cap_missing ReasonResult.review "No signed daily cap covers the payment asset"
        "policy.assetDailyCaps" (str input.terms.asset) null
      ∷ [])
  | some cap ↦ do
    spent ← parse_amount input.spent "spent"
    reserved ← parse_amount input.reserved "reserved"
    amount ← parse_amount input.terms.amount "terms.amount"
    limit ← parse_amount cap "policy.assetDailyCaps"
    ok (
        when (ltb limit (spent + reserved + amount)) (
          reason policy_daily_cap_exceeded ReasonResult.block
            "Payment would exceed the signed daily cap" "amount"
            (str (String.◌++◌ "<= " (String.◌++◌ cap " including spend and reservations")))
            (str (to_decimal (spent + reserved + amount)))))
]

concurrent_reasons : PaymentEvaluationInput → OperatorPolicy → List Reason
concurrent_reasons input policy =
    when (leb policy.maximum_concurrent_reservations input.active_reservations) (
      reason policy_daily_cap_exceeded ReasonResult.block
        "Maximum concurrent payment reservations reached" "activeReservations"
        (str (String.◌++◌ "< " (to_decimal policy.maximum_concurrent_reservations)))
        (num input.active_reservations))

evaluate_active_policy :
    Runtime → PaymentEvaluationInput → ℕ → OperatorPolicy → Result (List Reason)
unfolding effective_reasons network_reasons payer_reasons denied_reasons cap_reasons
    concurrent_reasons
evaluate_active_policy rt input now_ms policy = do
  cap ← cap_reasons input policy
  ok (
      effective_reasons rt input now_ms policy
      ++ (network_reasons input policy
          ++ (payer_reasons input policy
              ++ (denied_reasons input policy ++ (cap ++ concurrent_reasons input policy)))))

unfoldable pub evaluate_policy : Runtime → PaymentEvaluationInput → ℕ → Result (List Reason)
unfolding evaluate_active_policy
evaluate_policy rt input now_ms = elim input.policy [
  | none ↦ ok (
      reason policy_cap_missing ReasonResult.review "No payment rules are active for this account."
        "policy" (str "active signed policy") null
      ∷ [])
  | some policy ↦ evaluate_active_policy rt input now_ms policy
]
