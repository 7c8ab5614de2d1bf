-- ===== src/Payment/Policy/Evidence/Clear.antt =====
-- When `evaluateEvidence` has nothing against the payment.
use zadper.Common.{
  ℕ, ◌+◌, ◌*◌, ◌≤◌, ◌≡◌, refl, ◌↔◌, ◌⊎◌, String, Option, none, [], false, some, arith, eq_iff,
}
use zadper.Common.Text.{lower}
use zadper.Payment.Types.{OperatorPolicy}
use zadper.Payment.Runtime.{Runtime}
use zadper.Payment.Policy.Input.{PaymentEvaluationInput}
use zadper.Payment.Policy.Evidence.{
  evaluate_evidence, package_reasons, entrypoint_reasons, decimals_reasons, name_differs,
  name_reasons, missing_reasons, freshness_reasons,
}
use zadper.Payment.Policy.Verdict.{bars, bars-append_clear}
use zadper.Payment.Policy.Approval.{IsSound}

name_eq :
    (name : Option String) (declared : String)
    → (name_differs name declared ≡ false) ↔ ((name ≡ none) ⊎ (name ≡ some declared))
unfolding name_differs
name_eq none declared = ground arith
name_eq (some name) declared = ground (arith, eq_iff declared name)

module _ (rt : Runtime) (input : PaymentEvaluationInput) (policy : OperatorPolicy) (now_ms : ℕ)
    (given : input.policy ≡ some policy) where
  record IsClear : Type 0 where
    package_clear : bars (package_reasons input) ≡ false
    entrypoint_clear : bars (entrypoint_reasons input) ≡ false
    decimals_clear : bars (decimals_reasons input) ≡ false
    name_clear : bars (name_reasons input) ≡ false
    missing_clear : bars (missing_reasons input) ≡ false
    fresh_clear : bars (freshness_reasons rt input now_ms) ≡ false

  all_clear : bars (evaluate_evidence rt input now_ms) ≡ false → IsClear
  unfolding evaluate_evidence
  all_clear h =
      let (package_h, h₁) = bars-append_clear (package_reasons input) _ h in
      let (entrypoint, h₂) = bars-append_clear (entrypoint_reasons input) _ h₁ in
      let (decimals, h₃) = bars-append_clear (decimals_reasons input) _ h₂ in
      let (name, h₄) = bars-append_clear (name_reasons input) _ h₃ in
      let (missing, fresh) = bars-append_clear (missing_reasons input) _ h₄ in
      record {
        package_clear = package_h;
        entrypoint_clear = entrypoint;
        decimals_clear = decimals;
        name_clear = name;
        missing_clear = missing;
        fresh_clear = fresh;
      }

  module _ (c : IsClear) where
    decimals_found : (n : ℕ) × (input.evidence.decimals ≡ some n)
    unfolding missing_reasons
    decimals_found = ground (arith, c.missing_clear)

    observed_found :
        (t : ℕ) × (rt.parse_date input.evidence.observed_at ≡ some t)
        × (t ≤ now_ms)
        × (now_ms ≤ t + policy.evidence_max_age_seconds * 1000)
    unfolding freshness_reasons
    observed_found = ground (arith, c.fresh_clear)

    clear-IsSound : IsSound rt input policy now_ms
    unfolding package_reasons entrypoint_reasons decimals_reasons name_reasons missing_reasons
    clear-IsSound = record {
      package_exists = ground (arith, c.package_clear, c.missing_clear);
      address =
          ground (
            arith,
            c.package_clear,
            eq_iff (lower input.evidence.address) (lower input.terms.asset),
          );
      active = ground (arith, c.missing_clear);
      entrypoint = ground (arith, c.entrypoint_clear, c.missing_clear);
      observed_decimals = decimals_found.0;
      decimals_known = decimals_found.1;
      decimals_agree = ground (arith, c.decimals_clear, decimals_found.1);
      name = ground (arith, c.name_clear, name_eq input.evidence.name input.terms.extra_name);
      complete = ground (arith, c.missing_clear);
      observed_at = observed_found.0;
      observed = observed_found.1;
      not_future = observed_found.2;
      fresh = observed_found.3;
    }

  pub evidence_sound :
      bars (evaluate_evidence rt input now_ms) ≡ false → IsSound rt input policy now_ms
  evidence_sound h = clear-IsSound (all_clear h)

  module _ (s : IsSound rt input policy now_ms) where
    package_none : package_reasons input ≡ []
    unfolding package_reasons
    package_none = ground (arith, eq_iff (lower input.evidence.address) (lower input.terms.asset))

    entrypoint_none : entrypoint_reasons input ≡ []
    unfolding entrypoint_reasons
    entrypoint_none = ground arith

    decimals_none : decimals_reasons input ≡ []
    unfolding decimals_reasons
    decimals_none = ground arith

    name_none : name_reasons input ≡ []
    unfolding name_reasons
    name_none = ground (arith, name_eq input.evidence.name input.terms.extra_name)

    missing_none : missing_reasons input ≡ []
    unfolding missing_reasons
    missing_none = ground arith

    fresh_none : freshness_reasons rt input now_ms ≡ []
    unfolding freshness_reasons
    fresh_none = ground arith

    pub evidence_complete : evaluate_evidence rt input now_ms ≡ []
    unfolding evaluate_evidence
    evidence_complete =
        rw (package_none, entrypoint_none, decimals_none, name_none, missing_none, fresh_none) refl
