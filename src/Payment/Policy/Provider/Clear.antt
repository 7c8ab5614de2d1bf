-- ===== src/Payment/Policy/Provider/Clear.antt =====
-- When `evaluateProvider` has nothing against the payment.
use zadper.Common.{ℕ, ◌≤◌, ◌<◌, ◌≡◌, true, false, some, [], arith, ok, eq_iff}
use zadper.Common.Text.{lower}
use zadper.Common.Decimal.{decimal}
use zadper.Payment.Types.{ProviderDecision}
use zadper.Payment.Runtime.{Runtime}
use zadper.Payment.Policy.Input.{PaymentEvaluationInput}
use zadper.Payment.Policy.Provider.{ProviderOutcome, evaluate_provider, evaluate_decision}
use zadper.Payment.Policy.Verdict.{bars}
use zadper.Payment.Policy.Approval.{IsPinned}

module _ (rt : Runtime) (input : PaymentEvaluationInput) (now_ms : ℕ) (d : ProviderDecision) where
  module _ (o : ProviderOutcome) (e : evaluate_decision rt input now_ms d ≡ ok o)
      (h : bars o.reasons ≡ false) where
    expiry_found : (t : ℕ) × (rt.parse_date d.expires_at ≡ some t) × (now_ms < t)
    unfolding evaluate_decision
    expiry_found = ground arith

    amounts_found :
        (a c : ℕ) × (decimal input.terms.amount ≡ some a)
        × (decimal d.per_call_ceiling ≡ some c)
        × (a ≤ c)
    unfolding evaluate_decision
    amounts_found = ground arith

    decision_sound : IsPinned rt input d now_ms
    unfolding evaluate_decision
    decision_sound = record {
      kind = ground arith;
      origin = ground (arith, eq_iff d.origin input.request.origin);
      payee = ground (arith, eq_iff (lower d.payee) (lower input.terms.pay_to));
      asset = ground (arith, eq_iff (lower d.asset) (lower input.terms.asset));
      network = ground arith;
      path = ground arith;
      expiry = expiry_found.0;
      expires = expiry_found.1;
      alive = expiry_found.2;
      amount = amounts_found.0;
      ceiling = amounts_found.1;
      amount_read = amounts_found.2;
      ceiling_read = amounts_found.3;
      within = amounts_found.4;
    }

  decision_complete :
      IsPinned rt input d now_ms
      → evaluate_decision rt input now_ms d ≡ ok (record { reasons = []; pinned = true })
  unfolding evaluate_decision
  decision_complete p = ground (
    arith,
    eq_iff d.origin input.request.origin,
    eq_iff (lower d.payee) (lower input.terms.pay_to),
    eq_iff (lower d.asset) (lower input.terms.asset),
  )

  pub provider_sound :
      (o : ProviderOutcome)
      → evaluate_provider rt input now_ms ≡ ok o
      → bars o.reasons ≡ false
      → input.provider_decision ≡ some d
      → IsPinned rt input d now_ms
  unfolding evaluate_provider
  provider_sound o e h given = decision_sound o (rw (given, evaluate_provider) at e) h

  pub provider_complete :
      input.provider_decision ≡ some d
      → IsPinned rt input d now_ms
      → evaluate_provider rt input now_ms ≡ ok (record { reasons = []; pinned = true })
  unfolding evaluate_provider
  provider_complete given p = rw (given, evaluate_provider) (decision_complete p)

-- Without a decision there is a reason against the payment.
pub provider_given :
    (rt : Runtime) (input : PaymentEvaluationInput) (now_ms : ℕ) (o : ProviderOutcome)
    → evaluate_provider rt input now_ms ≡ ok o
    → bars o.reasons ≡ false
    → (d : ProviderDecision) × (input.provider_decision ≡ some d)
unfolding evaluate_provider
provider_given rt input now_ms o e h = ground arith
