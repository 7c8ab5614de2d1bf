-- ===== src/Payment/Policy/Advisories/Clear.antt =====
-- When `evaluateInvestmentAdvisories` has nothing against the payment.
use zadper.Common.{
  ℕ, ◌≤◌, ◌<◌, ◌≡◌, refl, ◌↔◌, ◌⊎◌, inl, inr, Option, none, false, some, [], arith, Bool-cases,
}
use zadper.Payment.Types.{ReasonResult, OperatorPolicy}
use zadper.Payment.Policy.Input.{PaymentEvaluationInput}
use zadper.Payment.Policy.Advisories.{
  evaluate_investment_advisories, reviews_advisories, mint_reasons, is_concentrated, is_young,
  advisory_reasons,
}
use zadper.Payment.Policy.Verdict.{bars}
use zadper.Payment.Policy.Approval.{IsQuiet}

concentrated_iff :
    (o : Option ℕ) → (is_concentrated o ≡ false) ↔ ((pct : ℕ) → o ≡ some pct → pct < 95)
unfolding is_concentrated
concentrated_iff none = (λ h pct e. cc, λ h. cc)
concentrated_iff (some n) = (λ h pct e. ground arith, λ h. ground (arith, h n))

young_iff : (o : Option ℕ) → (is_young o ≡ false) ↔ ((age : ℕ) → o ≡ some age → 1000 ≤ age)
unfolding is_young
young_iff none = (λ h age e. cc, λ h. cc)
young_iff (some n) = (λ h age e. ground arith, λ h. ground (arith, h n))

advisory_reasons_sound :
    (input : PaymentEvaluationInput)
    → bars (advisory_reasons input ReasonResult.review) ≡ false
    → IsQuiet input.evidence
unfolding advisory_reasons
advisory_reasons_sound input h = record {
  no_mint_burn = ground arith;
  no_public_mint = ground arith;
  spread = (concentrated_iff input.evidence.holder_concentration_pct).0 (ground arith);
  aged = (young_iff input.evidence.contract_age_blocks).0 (ground arith);
}

advisory_reasons_complete :
    (input : PaymentEvaluationInput)
    → IsQuiet input.evidence
    → advisory_reasons input ReasonResult.review ≡ []
unfolding advisory_reasons mint_reasons
advisory_reasons_complete input q =
    let spread = (concentrated_iff input.evidence.holder_concentration_pct).1 q.spread in
    let aged = (young_iff input.evidence.contract_age_blocks).1 q.aged in
    ground (arith, spread, aged, q.no_mint_burn, q.no_public_mint)

module _ (input : PaymentEvaluationInput) (policy : OperatorPolicy)
    (given : input.policy ≡ some policy) where
  reviews_given : reviews_advisories input ≡ policy.review_on_investment_advisories
  unfolding reviews_advisories
  reviews_given = rw given

  pub advisories_sound :
      bars (evaluate_investment_advisories input).reasons ≡ false
      → (policy.review_on_investment_advisories ≡ false) ⊎ IsQuiet input.evidence
  unfolding evaluate_investment_advisories
  advisories_sound h = elim (Bool-cases policy.review_on_investment_advisories) [
    | inl on ↦
        inr (advisory_reasons_sound input (rw (given, evaluate_investment_advisories, on) at h))
    | inr off ↦ inl off
  ]

  pub advisories_complete :
      (policy.review_on_investment_advisories ≡ false) ⊎ IsQuiet input.evidence
      → (evaluate_investment_advisories input).reasons ≡ []
  unfolding evaluate_investment_advisories
  advisories_complete (inl off) = rw (given, off)
  advisories_complete (inr q) = elim (Bool-cases policy.review_on_investment_advisories) [
    | inl on ↦ rw (given, on, advisory_reasons_complete input q) refl
    | inr off ↦ rw (given, off)
  ]
