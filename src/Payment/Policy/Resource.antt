-- ===== src/Payment/Policy/Resource.antt =====
-- policy.ts: `evaluateResource`.
pub mod Clear
use zadper.Common.{
  String, Bool, true, false, List, [], ◌∷◌, ◌++◌, ◌&&◌, holds_of, if◌then◌else◌, Result, ok, ◌>>=◌,
}
use Prim.Native.String
use zadper.Json.{str}
use zadper.Payment.Types.{
  Reason, ReasonResult, block, review, advisory, resource_origin_mismatch, resource_scheme_mismatch,
  provider_tuple_changed, is_pin,
}
use zadper.Payment.Runtime.{Runtime}
use zadper.Payment.Policy.Input.{PaymentEvaluationInput, Pushed, reason, url_of}

host_reasons : Runtime → PaymentEvaluationInput → Result (List Reason)
unfolding url_of
host_reasons rt input = if input.terms.resource_comparison.same_host then ok [] else do
  observed ← url_of rt input.request.url
  declared ← url_of rt input.terms.resource_url
  ok (
      reason resource_origin_mismatch ReasonResult.block
        "Observed and declared x402 resource hosts differ" "resource.url.host" (str observed.host)
        (str declared.host)
      ∷ [])

-- The policy and a pin together allow the schemes to differ.
pub is_tolerated : PaymentEvaluationInput → Bool
is_tolerated input =
    holds_of input.policy (λ p. p.allow_pinned_resource_scheme_mismatch)
    && holds_of input.provider_decision (λ d. is_pin d.kind)

-- `protocol.slice(0, -1)` drops the colon.
drop_last : String → String
drop_last String.[] = ""
drop_last (String.◌∷◌ c String.[]) = ""
drop_last (String.◌∷◌ c (String.◌∷◌ d s)) = String.◌∷◌ c (drop_last (String.◌∷◌ d s))

scheme_reasons : Runtime → PaymentEvaluationInput → Result (List Reason)
unfolding url_of drop_last is_tolerated
scheme_reasons rt input = if input.terms.resource_comparison.same_scheme then ok [] else do
  declared ← url_of rt input.terms.resource_url
  ok (
      reason resource_scheme_mismatch (if is_tolerated input then advisory else ReasonResult.review)
        "Observed and declared x402 resource schemes differ" "resource.url.scheme"
        (str input.request.scheme) (str (drop_last declared.protocol))
      ∷ [])

path_reasons : Runtime → PaymentEvaluationInput → Result (List Reason)
unfolding url_of
path_reasons rt input = if input.terms.resource_comparison.same_path then ok [] else do
  declared ← url_of rt input.terms.resource_url
  ok (
      reason provider_tuple_changed ReasonResult.review
        "Observed and declared x402 resource paths differ" "resource.url.path"
        (str input.request.path) (str (String.◌++◌ declared.pathname declared.search))
      ∷ [])

unfoldable pub evaluate_resource : Runtime → PaymentEvaluationInput → Result Pushed
unfolding host_reasons scheme_reasons path_reasons is_tolerated
evaluate_resource rt input = do
  host ← host_reasons rt input
  scheme ← scheme_reasons rt input
  path ← path_reasons rt input
  let tolerated = is_tolerated input
  ok (record {
    reasons = host ++ ((if tolerated then [] else scheme) ++ path);
    advisories = if tolerated then scheme else [];
  })
