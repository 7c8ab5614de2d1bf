-- ===== src/Payment/Policy/Resource/Clear.antt =====
-- When `evaluateResource` has nothing against the payment.
use zadper.Common.{◌≡◌, ◌↔◌, false, some, [], inl, inr, arith, ok, Result-cases}
use zadper.Payment.Runtime.{Runtime, Url}
use zadper.Payment.Policy.Input.{PaymentEvaluationInput, Pushed}
use zadper.Payment.Policy.Resource.{evaluate_resource}
use zadper.Payment.Policy.Verdict.{bars}
use zadper.Payment.Policy.Approval.{IsSameResource}

pub resource_iff :
    (rt : Runtime) (input : PaymentEvaluationInput) (p : Pushed)
    → evaluate_resource rt input ≡ ok p
    → (bars p.reasons ≡ false) ↔ IsSameResource input
unfolding evaluate_resource
resource_iff rt input p h = ground arith

-- The check returns, if the declared URL can be read; a scheme mismatch is then only advisory.
pub resource_complete :
    (rt : Runtime) (input : PaymentEvaluationInput) (u : Url)
    → IsSameResource input
    → rt.parse_url input.terms.resource_url ≡ some u
    → (p : Pushed) × (evaluate_resource rt input ≡ ok p) × (p.reasons ≡ [])
unfolding evaluate_resource
resource_complete rt input u same h = elim (Result-cases (evaluate_resource rt input)) [
  | inl (p, e) ↦ (p, e, ground arith)
  | inr (t, e) ↦ absurd (ground arith)
]
