-- ===== src/Payment/Policy/Outcome.antt =====
-- What a decision of `evaluatePayment` records, and that it is made.
use zadper.Common.{
  ℕ, ◌+◌, ◌*◌, ◌/◌, ◌≤◌, ◌≡◌, refl, ◌≢◌, ◌⊎◌, ◌∙◌, Bool, true, Option, none, some, [], ◌++◌,
  Result-cases, inl, inr, if◌then◌else◌, ◌&&◌, arith, ok, bind-eq-ok, ok-injective,
}
use zadper.Common.Decimal.{decimal}
use zadper.Payment.Types.{
  PaymentVerdict, pay, Reservation, operator_pinned, AuthorizationIntent, PaymentDecision,
}
use zadper.Payment.Runtime.{Runtime, Url}
use zadper.Payment.Policy.Input.{PaymentEvaluationInput, Pushed}
use zadper.Payment.Policy.{
  verdict_of, is_pay, iso_of_seconds, reservation_of, collect, decide, evaluate_payment,
}
use zadper.Payment.Policy.Resource.Clear.{resource_complete}
use zadper.Payment.Policy.Evidence.{evaluate_evidence}
use zadper.Payment.Policy.Evidence.Clear.{evidence_complete}
use zadper.Payment.Policy.Provider.Clear.{provider_complete}
use zadper.Payment.Policy.Caps.Clear.{policy_complete}
use zadper.Payment.Policy.Intent.Clear.{authorization_complete}
use zadper.Payment.Policy.Advisories.{evaluate_investment_advisories}
use zadper.Payment.Policy.Advisories.Clear.{advisories_complete}
use zadper.Payment.Policy.Approval.{IsApproved}
use zadper.Payment.Policy.Decision.{
  evaluated, collected, approved_clear, decide_says, evaluate_payment-pay_iff,
}

-- The reservation of an approved payment.
abbrev pub approved_reservation : Runtime → PaymentEvaluationInput → ℕ → Reservation
approved_reservation rt input valid_before = record {
  amount = input.terms.amount;
  expires_at = rt.iso (valid_before * 1000);
}

module _ (rt : Runtime) (input : PaymentEvaluationInput) (now_ms : ℕ) where
  no_reservation :
      (v : PaymentVerdict) (r : Option Reservation)
      → v ≢ pay
      → reservation_of rt input v ≡ ok r
      → r ≡ none
  unfolding reservation_of is_pay
  no_reservation v r h e = ground arith

  pay_reservation :
      (r : Option Reservation) (a : IsApproved rt input now_ms)
      → reservation_of rt input pay ≡ ok r
      → r ≡ some (approved_reservation rt input a.intent.valid_before)
  unfolding reservation_of is_pay iso_of_seconds
  pay_reservation r a e = ground (arith, a.authorization_given, a.intent.before_read)

  pay_reservation_made :
      (a : IsApproved rt input now_ms)
      → a.intent.valid_before * 1000 ≤ 8_640_000_000_000_000
      → reservation_of rt input pay
        ≡ ok (some (approved_reservation rt input a.intent.valid_before))
  unfolding reservation_of is_pay iso_of_seconds
  pay_reservation_made a h = ground (arith, a.authorization_given, a.intent.before_read)

  collect_complete :
      (a : IsApproved rt input now_ms) (u : Url)
      → rt.parse_url input.terms.resource_url ≡ some u
      → (p : Pushed) × (collect rt input now_ms ≡ ok (p, true)) × (p.reasons ≡ [])
  unfolding collect
  collect_complete a u h =
      let (p, made, clear) = resource_complete rt input u a.resource h in
      (
        record {
          reasons =
              p.reasons
              ++ (evaluate_evidence rt input now_ms
                  ++ ([] ++ ([] ++ ([] ++ (evaluate_investment_advisories input).reasons))));
          advisories = p.advisories ++ (evaluate_investment_advisories input).advisories;
        },
        rw
            (
              made,
              provider_complete rt input now_ms a.decision a.decision_given a.provider,
              policy_complete rt input a.policy a.authorization now_ms a.authorization_given a.rules
                  a.policy_given,
              authorization_complete rt input a.policy a.authorization (now_ms / 1000)
                  a.policy_given a.intent a.authorization_given,
            )
            refl,
        rw
            (
              clear,
              evidence_complete rt input a.policy now_ms a.policy_given a.evidence,
              advisories_complete input a.policy a.policy_given a.advisories,
            )
            refl,
      )

decide_returns :
    (rt : Runtime) (input : PaymentEvaluationInput) (now_ms : ℕ) (p : Pushed) (pinned : Bool)
    (r : Option Reservation)
    → reservation_of rt input (verdict_of p.reasons) ≡ ok r
    → (d : PaymentDecision) × (decide rt input now_ms p pinned ≡ ok d)
unfolding decide
decide_returns rt input now_ms p pinned r h =
    elim (Result-cases (decide rt input now_ms p pinned)) [
      | inl found ↦ found
      | inr (t, e) ↦ absurd (ground (arith, h, e))
    ]

verdict_of_nil : verdict_of [] ≡ pay
unfolding verdict_of
verdict_of_nil = refl

-- The code returns a PAY decision on every input that meets the conditions, if the declared URL can
-- be read and the time and the longest timeout of the terms together are a time of `Date`.
pub evaluate_payment-approves :
    (rt : Runtime) (input : PaymentEvaluationInput) (now_ms : ℕ) (u : Url)
    (a : IsApproved rt input now_ms)
    → rt.parse_date input.now ≡ some now_ms
    → rt.parse_url input.terms.resource_url ≡ some u
    → (now_ms / 1000 + input.terms.max_timeout_seconds) * 1000 ≤ 8_640_000_000_000_000
    → (d : PaymentDecision) × (evaluate_payment rt input ≡ ok d) × (d.verdict ≡ pay)
unfolding evaluate_payment
evaluate_payment-approves rt input now_ms u a clock h late =
    let (p, made, clear) = collect_complete rt input now_ms a u h in
    let reserved = pay_reservation_made rt input now_ms a (omega (arith, a.intent.lifetime)) in
    let (d, decided) =
      decide_returns rt input now_ms p true
        (some (approved_reservation rt input a.intent.valid_before))
        (rw (clear, verdict_of_nil) reserved) in
    let (verdict, _) = decide_says rt input now_ms p true d decided in
    (d, rw (clock, evaluate_payment, made) decided, verdict ∙ rw (clear, verdict_of_nil) refl)

decide_records :
    (rt : Runtime) (input : PaymentEvaluationInput) (now_ms : ℕ) (p : Pushed) (pinned : Bool)
    (d : PaymentDecision)
    → decide rt input now_ms p pinned ≡ ok d
    → (reservation_of rt input d.verdict ≡ ok d.reservation)
      × (d.basis ≡ (if is_pay d.verdict && pinned then some operator_pinned else none))
unfolding decide
decide_records rt input now_ms p pinned d e =
    let (r, made, same) = bind-eq-ok (reservation_of rt input (verdict_of p.reasons)) _ e in
    rw (← ok-injective same) (made, refl)

pay-cases : (v : PaymentVerdict) → (v ≢ pay) ⊎ (v ≡ pay)
pay-cases pay = inr refl
pay-cases PaymentVerdict.review = inl (λ e. cc)
pay-cases PaymentVerdict.block = inl (λ e. cc)

-- A decision with the verdict PAY holds a reservation of the amount asked for, until the
-- authorization of the input ends, and has the operator's pin for its basis; with any other verdict
-- it has neither.
pub evaluate_payment_reservation :
    (rt : Runtime) (input : PaymentEvaluationInput) (now_ms : ℕ) (d : PaymentDecision)
    → rt.parse_date input.now ≡ some now_ms
    → evaluate_payment rt input ≡ ok d
    → ((d.verdict ≢ pay) × (d.reservation ≡ none) × (d.basis ≡ none))
      ⊎ ((d.verdict ≡ pay)
          × (authorization : AuthorizationIntent) × (until : ℕ) × (input.authorization
              ≡ some authorization)
          × (decimal authorization.valid_before ≡ some until)
          × (d.reservation ≡ some (approved_reservation rt input until))
          × (d.basis ≡ some operator_pinned))
unfolding is_pay
evaluate_payment_reservation rt input now_ms d clock e =
    let (p, pinned, made, decided) = evaluated rt input now_ms d clock e in
    let (reserved, basis) = decide_records rt input now_ms p pinned d decided in
    let c = collected rt input now_ms p pinned made in
    elim (pay-cases d.verdict) [
      | inl h ↦ inl (
        h,
        no_reservation rt input now_ms d.verdict d.reservation h reserved,
        ground (arith, basis, h),
      )
      | inr h ↦
          let a = (evaluate_payment-pay_iff rt input now_ms d clock e).0 h in
          let (_, pin) = approved_clear rt input now_ms p pinned c a in
          inr (
            h,
            a.authorization,
            a.intent.valid_before,
            a.authorization_given,
            a.intent.before_read,
            pay_reservation rt input now_ms d.reservation a (rw h at reserved),
            ground (arith, basis, h, pin),
          )
    ]
