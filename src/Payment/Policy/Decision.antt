-- ===== src/Payment/Policy/Decision.antt =====
-- What `evaluatePayment` returns: when its verdict is PAY, and what it then records.
use zadper.Common.{
  ℕ, ◌/◌, ◌≡◌, ◌∙◌, sym, ap, subst, ◌↔◌, Bool, true, false, some, List, ◌++◌, ok, bind-eq-ok,
  ok-injective,
}
use mathlib.Core.List.{append-nil}
use zadper.Payment.Types.{pay, Reason, PaymentDecision}
use zadper.Payment.Runtime.{Runtime}
use zadper.Payment.Policy.Input.{PaymentEvaluationInput, Pushed}
use zadper.Payment.Policy.{verdict_of, reservation_of, collect, decide, evaluate_payment}
use zadper.Payment.Policy.Resource.{evaluate_resource}
use zadper.Payment.Policy.Resource.Clear.{resource_iff}
use zadper.Payment.Policy.Evidence.{evaluate_evidence}
use zadper.Payment.Policy.Evidence.Clear.{evidence_sound, evidence_complete}
use zadper.Payment.Policy.Provider.{ProviderOutcome, evaluate_provider}
use zadper.Payment.Policy.Provider.Clear.{provider_given, provider_sound, provider_complete}
use zadper.Payment.Policy.Caps.{evaluate_policy}
use zadper.Payment.Policy.Caps.Clear.{policy_given, policy_sound, policy_complete}
use zadper.Payment.Policy.Intent.{evaluate_authorization}
use zadper.Payment.Policy.Intent.Clear.{
  authorization_given, authorization_sound, authorization_complete,
}
use zadper.Payment.Policy.Advisories.{evaluate_investment_advisories}
use zadper.Payment.Policy.Advisories.Clear.{advisories_sound, advisories_complete}
use zadper.Payment.Policy.Verdict.{bars, bars-append_clear, verdict_of-pay_iff}
use zadper.Payment.Policy.Approval.{IsApproved}

module _ (rt : Runtime) (input : PaymentEvaluationInput) (now_ms : ℕ) where
  -- The parts of a collection that did not throw.
  pub record Collected (p : Pushed) (pinned : Bool) : Type 0 where
    pub resource : Pushed
    pub resource_made : evaluate_resource rt input ≡ ok resource
    pub provider : ProviderOutcome
    pub provider_made : evaluate_provider rt input now_ms ≡ ok provider
    pub policy : List Reason
    pub policy_made : evaluate_policy rt input now_ms ≡ ok policy
    pub authorization : List Reason
    pub authorization_made : evaluate_authorization rt input (now_ms / 1000) ≡ ok authorization
    pub all_reasons :
        p.reasons
        ≡ resource.reasons
          ++ (evaluate_evidence rt input now_ms
              ++ (provider.reasons
                  ++ (policy ++ (authorization ++ (evaluate_investment_advisories input).reasons))))
    pub same_pin : pinned ≡ provider.pinned

  pub collected :
      (p : Pushed) (pinned : Bool) → collect rt input now_ms ≡ ok (p, pinned) → Collected p pinned
  unfolding collect
  collected p pinned e =
      let (resource, resource_made, e₁) = bind-eq-ok (evaluate_resource rt input) _ e in
      let (provider, provider_made, e₂) = bind-eq-ok (evaluate_provider rt input now_ms) _ e₁ in
      let (policy, policy_made, e₃) = bind-eq-ok (evaluate_policy rt input now_ms) _ e₂ in
      let (authorization, authorization_made, e₄) =
        bind-eq-ok (evaluate_authorization rt input (now_ms / 1000)) _ e₃ in
      let same = ok-injective e₄ in
      record {
        resource = resource;
        resource_made = resource_made;
        provider = provider;
        provider_made = provider_made;
        policy = policy;
        policy_made = policy_made;
        authorization = authorization;
        authorization_made = authorization_made;
        all_reasons = ap (λ c. c.0.reasons) (sym same);
        same_pin = ap (λ c. c.1) (sym same);
      }

  collected-IsApproved :
      (p : Pushed) (pinned : Bool)
      → Collected p pinned
      → bars p.reasons ≡ false
      → IsApproved rt input now_ms
  collected-IsApproved p pinned c h =
      let clear = subst (λ r. bars r ≡ false) c.all_reasons h in
      let (resource, h₁) = bars-append_clear c.resource.reasons _ clear in
      let (evidence, h₂) = bars-append_clear (evaluate_evidence rt input now_ms) _ h₁ in
      let (provider, h₃) = bars-append_clear c.provider.reasons _ h₂ in
      let (rules, h₄) = bars-append_clear c.policy _ h₃ in
      let (intent, advisories) = bars-append_clear c.authorization _ h₄ in
      let (decision, found) = provider_given rt input now_ms c.provider c.provider_made provider in
      let (policy, active) = policy_given rt input now_ms c.policy c.policy_made rules in
      let (a, prepared) =
        authorization_given rt input (now_ms / 1000) c.authorization c.authorization_made intent in
      record {
        policy = policy;
        decision = decision;
        authorization = a;
        policy_given = active;
        decision_given = found;
        authorization_given = prepared;
        resource = (resource_iff rt input c.resource c.resource_made).0 resource;
        evidence = evidence_sound rt input policy now_ms active evidence;
        provider =
            provider_sound rt input now_ms decision c.provider c.provider_made provider found;
        rules = policy_sound rt input policy a now_ms prepared c.policy c.policy_made rules active;
        intent =
            authorization_sound rt input policy a (now_ms / 1000) active c.authorization
              c.authorization_made intent prepared;
        advisories = advisories_sound input policy active advisories;
      }

  pub approved_clear :
      (p : Pushed) (pinned : Bool)
      → Collected p pinned
      → IsApproved rt input now_ms
      → (bars p.reasons ≡ false) × (pinned ≡ true)
  approved_clear p pinned c a =
      let provider_eq = ok-injective (
        sym c.provider_made
        ∙ provider_complete rt input now_ms a.decision a.decision_given a.provider) in
      let policy_eq = ok-injective (
        sym c.policy_made
        ∙ policy_complete rt input a.policy a.authorization now_ms a.authorization_given a.rules
            a.policy_given) in
      let authorization_eq = ok-injective (
        sym c.authorization_made
        ∙ authorization_complete rt input a.policy a.authorization (now_ms / 1000) a.policy_given
            a.intent a.authorization_given) in
      let resource = (resource_iff rt input c.resource c.resource_made).1 a.resource in
      (
        rw
            (
              c.all_reasons,
              evidence_complete rt input a.policy now_ms a.policy_given a.evidence,
              provider_eq,
              policy_eq,
              authorization_eq,
              advisories_complete input a.policy a.policy_given a.advisories,
              append-nil,
            )
            resource,
        c.same_pin ∙ ap (λ o. o.pinned) provider_eq,
      )

-- What the decision says of what was collected.
pub decide_says :
    (rt : Runtime) (input : PaymentEvaluationInput) (now_ms : ℕ) (p : Pushed) (pinned : Bool)
    (d : PaymentDecision)
    → decide rt input now_ms p pinned ≡ ok d
    → (d.verdict ≡ verdict_of p.reasons) × (d.reasons ≡ p.reasons)
unfolding decide
decide_says rt input now_ms p pinned d e =
    let (r, made, same) = bind-eq-ok (reservation_of rt input (verdict_of p.reasons)) _ e in
    (ap (λ x. x.verdict) (sym (ok-injective same)), ap (λ x. x.reasons) (sym (ok-injective same)))

pub evaluated :
    (rt : Runtime) (input : PaymentEvaluationInput) (now_ms : ℕ) (d : PaymentDecision)
    → rt.parse_date input.now ≡ some now_ms
    → evaluate_payment rt input ≡ ok d
    → (p : Pushed) × (pinned : Bool) × (collect rt input now_ms ≡ ok (p, pinned))
      × (decide rt input now_ms p pinned ≡ ok d)
unfolding evaluate_payment
evaluated rt input now_ms d clock e =
    let (c, made, decided) =
      bind-eq-ok (collect rt input now_ms) _ (rw (clock, evaluate_payment) at e) in
    (c.0, c.1, made, decided)

-- An evaluation that returns has the verdict PAY exactly when every condition of `IsApproved` holds
-- at its time.
pub evaluate_payment-pay_iff :
    (rt : Runtime) (input : PaymentEvaluationInput) (now_ms : ℕ) (d : PaymentDecision)
    → rt.parse_date input.now ≡ some now_ms
    → evaluate_payment rt input ≡ ok d
    → (d.verdict ≡ pay) ↔ IsApproved rt input now_ms
evaluate_payment-pay_iff rt input now_ms d clock e =
    let (p, pinned, made, decided) = evaluated rt input now_ms d clock e in
    let (verdict, _) = decide_says rt input now_ms p pinned d decided in
    let c = collected rt input now_ms p pinned made in
    (
      λ h.
          collected-IsApproved rt input now_ms p pinned c
            ((verdict_of-pay_iff p.reasons).0 (sym verdict ∙ h)),
      λ a.
          verdict
          ∙ (verdict_of-pay_iff p.reasons).1 (approved_clear rt input now_ms p pinned c a).0,
    )
