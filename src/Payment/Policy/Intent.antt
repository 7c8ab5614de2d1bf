-- ===== src/Payment/Policy/Intent.antt =====
-- policy.ts: `evaluateAuthorization`.
pub mod Clear
use zadper.Common.{
  ℕ, ◌-◌, String, Bool, true, false, Option, none, some, List, [], ◌∷◌, ◌++◌, map, not, ltb, leb,
  ◌===◌, includes, when, holds_of, if◌then◌else◌, Result, ok, ◌>>=◌,
}
use Prim.Native.String
use zadper.Common.Text.{lower}
use zadper.Common.Decimal.{to_decimal}
use zadper.Json.{Value, null, num, str}
use zadper.Payment.Types.{
  Reason, ReasonResult, authorization_required, authorization_field_mismatch,
  authorization_not_yet_valid, authorization_expired, authorization_replay, AuthorizationIntent,
  Network, same_network, network_text,
}
use zadper.Payment.Artifacts.{text_or_null}
use zadper.Payment.Runtime.{Runtime}
use zadper.Payment.Policy.Input.{
  PaymentEvaluationInput, reason, parse_timestamp_integer, safe_authorization_digest,
}

pub record Mismatch : Type 0 where
  pub field : String
  pub expected : Value
  pub received : Value

abbrev mismatch : String → Value → Value → Mismatch
mismatch field expected received = record {
  field = field;
  expected = expected;
  received = received;
}

-- `compare` on two strings.
compare_texts : String → String → String → List Mismatch
compare_texts field expected received =
    when (not (expected === received)) (mismatch field (str expected) (str received))

-- `expected !== received`, of a text that may be null.
digest_differs : Option String → String → Bool
digest_differs none received = true
digest_differs (some expected) received = not (expected === received)

-- `compare` of a digest that may be null with a string.
compare_digest : Option String → String → List Mismatch
unfolding digest_differs
compare_digest expected received =
    when (digest_differs expected received)
      (mismatch "authorization.digest" (text_or_null expected) (str received))

-- `compare` of two networks.
compare_networks : Network → Network → List Mismatch
compare_networks expected received =
    when (not (same_network expected received))
      (mismatch "authorization.network" (str (network_text expected)) (str (network_text received)))

field_mismatches : Runtime → PaymentEvaluationInput → AuthorizationIntent → List Mismatch
unfolding compare_texts compare_networks compare_digest
field_mismatches rt input a =
    compare_texts "authorization.from" (lower a.payer_public_key) (lower a.from)
    ++ (compare_texts "authorization.to" (lower input.terms.pay_to) (lower a.to)
        ++ (compare_texts "authorization.amount" input.terms.amount a.amount
            ++ (compare_networks input.terms.network a.network
                ++ (compare_texts "authorization.asset" (lower input.terms.asset) (lower a.asset)
                    ++ (compare_texts "authorization.tokenName" input.terms.extra_name a.token_name
                        ++ (compare_texts "authorization.tokenVersion" input.terms.extra_version
                              a.token_version
                            ++ compare_digest (safe_authorization_digest rt a.intent)
                                (lower a.digest)))))))

-- The two bounds on the window. A difference below 0 is no more than a bound, as 0 is.
window_mismatches : PaymentEvaluationInput → ℕ → ℕ → ℕ → List Mismatch
window_mismatches input now_seconds valid_after valid_before =
    elim input.policy [
      | none ↦ []
      | some policy ↦
          when (ltb policy.maximum_authorization_window_seconds (valid_before - valid_after)) (
            mismatch "authorization.validityWindow"
              (str (String.◌++◌ "<= " (to_decimal policy.maximum_authorization_window_seconds)))
              (num (valid_before - valid_after)))
    ]
    ++ when (ltb input.terms.max_timeout_seconds (valid_before - now_seconds)) (
        mismatch "authorization.remainingLifetime"
          (str (String.◌++◌ "<= " (to_decimal input.terms.max_timeout_seconds)))
          (num (valid_before - now_seconds)))

mismatch_reason : Mismatch → Reason
mismatch_reason m =
    reason authorization_field_mismatch ReasonResult.block
      "Payment terms and authorization intent differ" m.field m.expected m.received

time_reasons : ℕ → ℕ → ℕ → List Reason
time_reasons now_seconds valid_after valid_before =
    when (ltb now_seconds valid_after) (
      reason authorization_not_yet_valid ReasonResult.block "Authorization is not valid yet"
        "authorization.validAfter" (str (String.◌++◌ "<= " (to_decimal now_seconds)))
        (num valid_after))
    ++ when (leb valid_before now_seconds) (
        reason authorization_expired ReasonResult.block "Authorization has expired"
          "authorization.validBefore" (str (String.◌++◌ "> " (to_decimal now_seconds)))
          (num valid_before))

replay_reasons : PaymentEvaluationInput → AuthorizationIntent → List Reason
replay_reasons input a = when (includes (map lower input.replayed_nonces) (lower a.nonce)) (
    reason authorization_replay ReasonResult.block
      "Authorization nonce has already been used or reserved" "authorization.nonce"
      (str "unique nonce") (str a.nonce))

evaluate_intent : Runtime → PaymentEvaluationInput → ℕ → AuthorizationIntent → Result (List Reason)
unfolding field_mismatches window_mismatches mismatch_reason time_reasons replay_reasons
    parse_timestamp_integer
evaluate_intent rt input now_seconds a = do
  valid_after ← parse_timestamp_integer a.valid_after "authorization.validAfter"
  valid_before ← parse_timestamp_integer a.valid_before "authorization.validBefore"
  ok (
      map mismatch_reason (field_mismatches rt input a)
      ++ (map mismatch_reason (window_mismatches input now_seconds valid_after valid_before)
          ++ (time_reasons now_seconds valid_after valid_before ++ replay_reasons input a)))

unfoldable pub evaluate_authorization : Runtime → PaymentEvaluationInput → ℕ → Result (List Reason)
unfolding evaluate_intent
evaluate_authorization rt input now_seconds = elim input.authorization [
  | none ↦ ok (
      reason authorization_required ReasonResult.review
        "The buyer has not prepared the payment details needed for signing." "authorization"
        (str "complete intent") null
      ∷ [])
  | some a ↦ evaluate_intent rt input now_seconds a
]
