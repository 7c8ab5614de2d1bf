-- ===== src/Payment/Policy/Approval.antt =====
-- When a payment is approved: the conditions for a PAY verdict, stated without the reasons.
use zadper.Common.{
  ℕ, ◌+◌, ◌*◌, ◌/◌, ◌≤◌, ◌<◌, ◌≡◌, ◌≢◌, ◌⊎◌, String, true, false, Option, none, some, [], map,
  includes, any,
}
use zadper.Common.Text.{lower, starts_with}
use zadper.Common.Decimal.{decimal}
use zadper.Payment.Types.{
  AuthorizationIntent, PaymentAssetEvidence, OperatorPolicy, ProviderDecision, pin, same_network,
}
use zadper.Payment.Runtime.{Runtime}
use zadper.Payment.Authorization.{max_safe_integer}
use zadper.Payment.Policy.Input.{PaymentEvaluationInput, safe_authorization_digest}
use zadper.Payment.Policy.Resource.{is_tolerated}
use zadper.Payment.Policy.Caps.{cap_of}

-- The request and the declared resource agree.
pub record IsSameResource (input : PaymentEvaluationInput) : Type 0 where
  pub host : input.terms.resource_comparison.same_host ≡ true
  pub scheme : (input.terms.resource_comparison.same_scheme ≡ true) ⊎ (is_tolerated input ≡ true)
  pub path : input.terms.resource_comparison.same_path ≡ true

abbrev pub AgreesWith {ℓ} : {A : Type ℓ} → Option A → (A → Type ℓ) → Type ℓ
AgreesWith none P = Unit
AgreesWith (some a) P = P a

-- The evidence about the payment asset is complete, fresh and in agreement with the terms.
pub record IsSound (rt : Runtime) (input : PaymentEvaluationInput) (policy : OperatorPolicy)
    (now_ms : ℕ) : Type 0 where
  pub package_exists : input.evidence.package_exists ≡ some true
  pub address : lower input.evidence.address ≡ lower input.terms.asset
  pub active : input.evidence.active_contract_hash ≢ none
  pub entrypoint : input.evidence.authorization_entrypoint ≡ some true
  pub observed_decimals : ℕ
  pub decimals_known : input.evidence.decimals ≡ some observed_decimals
  pub decimals_agree :
      (input.terms.extra_decimals ≡ none)
      ⊎ ((t : String) × (input.terms.extra_decimals ≡ some t)
          × (decimal t ≡ some observed_decimals))
  pub name : (input.evidence.name ≡ none) ⊎ (input.evidence.name ≡ some input.terms.extra_name)
  pub complete : input.evidence.missing ≡ []
  pub observed_at : ℕ
  pub observed : rt.parse_date input.evidence.observed_at ≡ some observed_at
  pub not_future : observed_at ≤ now_ms
  pub fresh : now_ms ≤ observed_at + policy.evidence_max_age_seconds * 1000

-- A pin that has not expired names the request's origin, payee, asset, network and path, and the
-- amount is within its ceiling.
pub record IsPinned (rt : Runtime) (input : PaymentEvaluationInput) (decision : ProviderDecision)
    (now_ms : ℕ) : Type 0 where
  pub kind : decision.kind ≡ pin
  pub origin : decision.origin ≡ input.request.origin
  pub payee : lower decision.payee ≡ lower input.terms.pay_to
  pub asset : lower decision.asset ≡ lower input.terms.asset
  pub network : decision.network ≡ input.terms.network
  pub path :
      (decision.resource_path_prefix ≡ none)
      ⊎ ((prefix : String) × (decision.resource_path_prefix ≡ some prefix)
          × (starts_with input.request.path prefix ≡ true))
  pub expiry : ℕ
  pub expires : rt.parse_date decision.expires_at ≡ some expiry
  pub alive : now_ms < expiry
  pub amount : ℕ
  pub ceiling : ℕ
  pub amount_read : decimal input.terms.amount ≡ some amount
  pub ceiling_read : decimal decision.per_call_ceiling ≡ some ceiling
  pub within : amount ≤ ceiling

-- The operator's policy is in force and allows the payment: network, payer, no denied party, and
-- what is spent, reserved and asked for together within the daily cap of the asset.
pub record IsAllowed (rt : Runtime) (input : PaymentEvaluationInput) (policy : OperatorPolicy)
    (authorization : AuthorizationIntent) (now_ms : ℕ) : Type 0 where
  pub effective_at : ℕ
  pub effective : rt.parse_date policy.effective_at ≡ some effective_at
  pub in_force : effective_at ≤ now_ms
  pub network : any (λ n. same_network n input.terms.network) policy.allowed_networks ≡ true
  pub payer : includes policy.allowed_payer_public_keys authorization.payer_public_key ≡ true
  pub origin : includes policy.denied_origins input.request.origin ≡ false
  pub payee : includes (map lower policy.denied_payees) (lower input.terms.pay_to) ≡ false
  pub asset : includes (map lower policy.denied_assets) (lower input.terms.asset) ≡ false
  pub cap_text : String
  pub cap_found : cap_of policy.asset_daily_caps (lower input.terms.asset) ≡ some cap_text
  pub spent : ℕ
  pub reserved : ℕ
  pub amount : ℕ
  pub cap : ℕ
  pub spent_read : decimal input.spent ≡ some spent
  pub reserved_read : decimal input.reserved ≡ some reserved
  pub amount_read : decimal input.terms.amount ≡ some amount
  pub cap_read : decimal cap_text ≡ some cap
  pub under_cap : spent + reserved + amount ≤ cap
  pub room : input.active_reservations < policy.maximum_concurrent_reservations

-- The buyer's authorization repeats the terms, carries its own digest, is valid now and for no
-- longer than the policy and the terms allow, and its nonce is new.
pub record IsMatching (rt : Runtime) (input : PaymentEvaluationInput) (policy : OperatorPolicy)
    (a : AuthorizationIntent) (now_seconds : ℕ) : Type 0 where
  pub from : lower a.payer_public_key ≡ lower a.from
  pub to : lower input.terms.pay_to ≡ lower a.to
  pub amount : input.terms.amount ≡ a.amount
  pub network : input.terms.network ≡ a.network
  pub asset : lower input.terms.asset ≡ lower a.asset
  pub token_name : input.terms.extra_name ≡ a.token_name
  pub token_version : input.terms.extra_version ≡ a.token_version
  pub digest : safe_authorization_digest rt a.intent ≡ some (lower a.digest)
  pub valid_after : ℕ
  pub valid_before : ℕ
  pub after_read : decimal a.valid_after ≡ some valid_after
  pub before_read : decimal a.valid_before ≡ some valid_before
  pub before_safe : valid_before ≤ max_safe_integer
  pub started : valid_after ≤ now_seconds
  pub not_over : now_seconds < valid_before
  pub window : valid_before ≤ valid_after + policy.maximum_authorization_window_seconds
  pub lifetime : valid_before ≤ now_seconds + input.terms.max_timeout_seconds
  pub fresh_nonce : includes (map lower input.replayed_nonces) (lower a.nonce) ≡ false

-- No warning about the token that the policy wants reviewed.
pub record IsQuiet (evidence : PaymentAssetEvidence) : Type 0 where
  pub no_mint_burn : evidence.mint_burn_enabled ≢ some true
  pub no_public_mint : evidence.public_mint_entrypoint ≢ some true
  pub spread : (pct : ℕ) → evidence.holder_concentration_pct ≡ some pct → pct < 95
  pub aged : (age : ℕ) → evidence.contract_age_blocks ≡ some age → 1000 ≤ age

-- All conditions at a time.
pub record IsApproved (rt : Runtime) (input : PaymentEvaluationInput) (now_ms : ℕ) : Type 0 where
  pub policy : OperatorPolicy
  pub decision : ProviderDecision
  pub authorization : AuthorizationIntent
  pub policy_given : input.policy ≡ some policy
  pub decision_given : input.provider_decision ≡ some decision
  pub authorization_given : input.authorization ≡ some authorization
  pub resource : IsSameResource input
  pub evidence : IsSound rt input policy now_ms
  pub provider : IsPinned rt input decision now_ms
  pub rules : IsAllowed rt input policy authorization now_ms
  pub intent : IsMatching rt input policy authorization (now_ms / 1000)
  pub advisories : (policy.review_on_investment_advisories ≡ false) ⊎ IsQuiet input.evidence
