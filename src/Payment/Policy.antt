-- ===== src/Payment/Policy.antt =====
-- packages/agent-pay-core/src/payment/policy.ts: `evaluatePayment`. Each child models one of the
-- functions that it calls in turn; such a function returns the reasons that the source pushes, in
-- the order in which it pushes them.
pub mod Input
pub mod Resource
pub mod Evidence
pub mod Provider
pub mod Caps
pub mod Intent
pub mod Advisories
pub mod Verdict
pub mod Approval
pub mod Decision
pub mod Outcome
mod Tests
use zadper.Common.{
  ℕ, ◌*◌, ◌/◌, ◌++◌, String, Bool, true, false, Option, none, some, List, any, leb, ◌&&◌,
  if◌then◌else◌, Result, ok, throw, type_error, range_error, ◌>>=◌,
}
use mathlib.Core.Option
use zadper.Common.Decimal.{decimal}
use zadper.Json.{artifact_hash}
use zadper.Payment.Types.{
  PaymentVerdict, pay, Reason, Basis, operator_pinned, Reservation, DecisionWithoutHash,
  PaymentDecision, is_block, is_review,
}
use zadper.Payment.Artifacts.{policy_value, decision_value}
use zadper.Payment.Runtime.{Runtime}
use zadper.Payment.Policy.Input.{PaymentEvaluationInput, Pushed, safe_authorization_digest}
use zadper.Payment.Policy.Resource.{evaluate_resource}
use zadper.Payment.Policy.Evidence.{evaluate_evidence}
use zadper.Payment.Policy.Provider.{ProviderOutcome, evaluate_provider}
use zadper.Payment.Policy.Caps.{evaluate_policy}
use zadper.Payment.Policy.Intent.{evaluate_authorization}
use zadper.Payment.Policy.Advisories.{evaluate_investment_advisories}

pub verdict_of : List Reason → PaymentVerdict
verdict_of reasons =
    if any (λ r. is_block r.result) reasons
    then PaymentVerdict.block
    else if any (λ r. is_review r.result) reasons
    then PaymentVerdict.review
    else pay

is_pay : PaymentVerdict → Bool
is_pay pay = true
is_pay _ = false

-- `new Date(Number(text) * 1000).toISOString()`: 8,640,000,000,000,000 is the last time of `Date`.
iso_of_seconds : Runtime → String → Result String
iso_of_seconds rt text = elim (decimal text) [
  | none ↦ throw (range_error "Invalid time value")
  | some seconds ↦
      if leb (seconds * 1000) 8_640_000_000_000_000
      then ok (rt.iso (seconds * 1000))
      else throw (range_error "Invalid time value")
]

reservation_of : Runtime → PaymentEvaluationInput → PaymentVerdict → Result (Option Reservation)
reservation_of rt input verdict =
    if is_pay verdict
    then elim input.authorization [
      | none ↦ ok none
      | some authorization ↦ do
        expires_at ← iso_of_seconds rt authorization.valid_before
        ok (some (record { amount = input.terms.amount; expires_at = expires_at }))
    ]
    else ok none

-- All that the six evaluations push, and whether the provider is pinned.
pub collect : Runtime → PaymentEvaluationInput → ℕ → Result (Pushed × Bool)
collect rt input now_ms = do
  resource ← evaluate_resource rt input
  let evidence = evaluate_evidence rt input now_ms
  provider ← evaluate_provider rt input now_ms
  policy ← evaluate_policy rt input now_ms
  authorization ← evaluate_authorization rt input (now_ms / 1000)
  let investment = evaluate_investment_advisories input
  ok (
      (
        record {
          reasons =
              resource.reasons
              ++ (evidence
                  ++ (provider.reasons ++ (policy ++ (authorization ++ investment.reasons))));
          advisories = resource.advisories ++ investment.advisories;
        },
        provider.pinned,
      ))

-- The decision about what was collected.
pub decide : Runtime → PaymentEvaluationInput → ℕ → Pushed → Bool → Result PaymentDecision
decide rt input now_ms pushed provider_pinned = do
  let verdict = verdict_of pushed.reasons
  reservation ← reservation_of rt input verdict
  let decision : DecisionWithoutHash = record {
    check_id = input.check_id;
    verdict = verdict;
    basis = if is_pay verdict && provider_pinned then some operator_pinned else none;
    reasons = pushed.reasons;
    advisories = pushed.advisories;
    policy_hash = Option.map (λ p. artifact_hash rt.sha256 (policy_value p)) input.policy;
    authorization_digest =
        Option.bind input.authorization (λ a. safe_authorization_digest rt a.intent);
    reservation = reservation;
    decided_at = rt.iso now_ms;
  }
  ok (record {
    decision = decision;
    decision_hash = artifact_hash rt.sha256 (decision_value decision);
  })

pub evaluate_payment : Runtime → PaymentEvaluationInput → Result PaymentDecision
evaluate_payment rt input = elim (rt.parse_date input.now) [
  | none ↦ throw (type_error "Payment evaluation now must be an ISO timestamp")
  | some now_ms ↦ do
    collected ← collect rt input now_ms
    decide rt input now_ms collected.0 collected.1
]
