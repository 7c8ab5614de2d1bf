-- ===== src/Payment/Policy/Caps/Clear.antt =====
-- When `evaluatePolicy` has nothing against the payment.
use zadper.Common.{
  ℕ, ◌+◌, ◌≤◌, ◌≡◌, refl, String, false, some, List, [], arith, ok, bind-eq-ok, ok-injective, subst,
  sym,
}
use zadper.Common.Text.{lower}
use zadper.Common.Decimal.{decimal}
use zadper.Payment.Types.{Reason, OperatorPolicy, AuthorizationIntent}
use zadper.Payment.Runtime.{Runtime}
use zadper.Payment.Policy.Input.{PaymentEvaluationInput}
use zadper.Payment.Policy.Caps.{
  evaluate_policy, evaluate_active_policy, effective_reasons, network_reasons, payer_reasons,
  denied_reasons, cap_reasons, concurrent_reasons, cap_of,
}
use zadper.Payment.Policy.Verdict.{bars, bars-append_clear}
use zadper.Payment.Policy.Approval.{IsAllowed}

-- Without a policy there is a reason against the payment.
pub policy_given :
    (rt : Runtime) (input : PaymentEvaluationInput) (now_ms : ℕ) (rs : List Reason)
    → evaluate_policy rt input now_ms ≡ ok rs
    → bars rs ≡ false
    → (p : OperatorPolicy) × (input.policy ≡ some p)
unfolding evaluate_policy
policy_given rt input now_ms rs e h = ground arith

module _ (rt : Runtime) (input : PaymentEvaluationInput) (policy : OperatorPolicy)
    (a : AuthorizationIntent) (now_ms : ℕ) (prepared : input.authorization ≡ some a) where
  record IsClear (cap : List Reason) : Type 0 where
    effective_clear : bars (effective_reasons rt input now_ms policy) ≡ false
    network_clear : bars (network_reasons input policy) ≡ false
    payer_clear : bars (payer_reasons input policy) ≡ false
    denied_clear : bars (denied_reasons input policy) ≡ false
    cap_made : cap_reasons input policy ≡ ok cap
    cap_clear : bars cap ≡ false
    concurrent_clear : bars (concurrent_reasons input policy) ≡ false

  all_clear :
      (rs : List Reason)
      → evaluate_active_policy rt input now_ms policy ≡ ok rs
      → bars rs ≡ false
      → (cap : List Reason) × IsClear cap
  unfolding evaluate_active_policy
  all_clear rs e h =
      let (cap, made, same) = bind-eq-ok (cap_reasons input policy) _ e in
      let clear = subst (λ r. bars r ≡ false) (sym (ok-injective same)) h in
      let (effective, h₁) = bars-append_clear (effective_reasons rt input now_ms policy) _ clear in
      let (network, h₂) = bars-append_clear (network_reasons input policy) _ h₁ in
      let (payer, h₃) = bars-append_clear (payer_reasons input policy) _ h₂ in
      let (denied, h₄) = bars-append_clear (denied_reasons input policy) _ h₃ in
      let (cap_part, concurrent) = bars-append_clear cap _ h₄ in
      (
        cap,
        record {
          effective_clear = effective;
          network_clear = network;
          payer_clear = payer;
          denied_clear = denied;
          cap_made = made;
          cap_clear = cap_part;
          concurrent_clear = concurrent;
        },
      )

  module _ (cap : List Reason) (c : IsClear cap) where
    effective_found : (t : ℕ) × (rt.parse_date policy.effective_at ≡ some t) × (t ≤ now_ms)
    unfolding effective_reasons
    effective_found = ground (arith, c.effective_clear)

    cap_found :
        (text : String) × (cap_of policy.asset_daily_caps (lower input.terms.asset) ≡ some text)
    unfolding cap_reasons
    cap_found = ground (arith, c.cap_clear, c.cap_made)

    numbers_found :
        (s r n l : ℕ) × (decimal input.spent ≡ some s)
        × (decimal input.reserved ≡ some r)
        × (decimal input.terms.amount ≡ some n)
        × (decimal cap_found.0 ≡ some l)
        × (s + r + n ≤ l)
    unfolding cap_reasons
    numbers_found = ground (arith, c.cap_clear, c.cap_made, cap_found.1)

    clear-IsAllowed : IsAllowed rt input policy a now_ms
    unfolding network_reasons payer_reasons denied_reasons concurrent_reasons
    clear-IsAllowed = record {
      effective_at = effective_found.0;
      effective = effective_found.1;
      in_force = effective_found.2;
      network = ground (arith, c.network_clear);
      payer = ground (arith, c.payer_clear);
      origin = ground (arith, c.denied_clear);
      payee = ground (arith, c.denied_clear);
      asset = ground (arith, c.denied_clear);
      cap_text = cap_found.0;
      cap_found = cap_found.1;
      spent = numbers_found.0;
      reserved = numbers_found.1;
      amount = numbers_found.2;
      cap = numbers_found.3;
      spent_read = numbers_found.4;
      reserved_read = numbers_found.5;
      amount_read = numbers_found.6;
      cap_read = numbers_found.7;
      under_cap = numbers_found.8;
      room = ground (arith, c.concurrent_clear);
    }

  pub policy_sound :
      (rs : List Reason)
      → evaluate_policy rt input now_ms ≡ ok rs
      → bars rs ≡ false
      → input.policy ≡ some policy
      → IsAllowed rt input policy a now_ms
  unfolding evaluate_policy
  policy_sound rs e h given =
      let (cap, c) = all_clear rs (rw (given, evaluate_policy) at e) h in clear-IsAllowed cap c

  module _ (s : IsAllowed rt input policy a now_ms) where
    effective_none : effective_reasons rt input now_ms policy ≡ []
    unfolding effective_reasons
    effective_none = ground arith

    network_none : network_reasons input policy ≡ []
    unfolding network_reasons
    network_none = ground arith

    payer_none : payer_reasons input policy ≡ []
    unfolding payer_reasons
    payer_none = ground arith

    denied_none : denied_reasons input policy ≡ []
    unfolding denied_reasons
    denied_none = ground arith

    cap_none : cap_reasons input policy ≡ ok []
    unfolding cap_reasons
    cap_none = ground arith

    concurrent_none : concurrent_reasons input policy ≡ []
    unfolding concurrent_reasons
    concurrent_none = ground arith

    pub policy_complete : input.policy ≡ some policy → evaluate_policy rt input now_ms ≡ ok []
    unfolding evaluate_policy
    policy_complete given =
        rw
          (
            given, evaluate_policy, effective_none, network_none, payer_none, denied_none, cap_none,
            concurrent_none,
          )
          refl
