-- ===== src/Payment/Policy/Tests.antt =====
-- Runs of `evaluatePayment` on one payment, and the theorems at that payment.
use zadper.Common.{ℕ, ◌≡◌, ◌≢◌, ◌⊎◌, refl, ◌↔◌, String, true, false, none, some, [], ◌∷◌, arith, ok}
use zadper.Common.Text.{lower, starts_with, trim, is_hex_of, drop_chars}
use zadper.Common.Decimal.{decimal, to_decimal}
use zadper.Json.{artifact_hash}
use zadper.Payment.Types.{
  PaymentVerdict, pay, PaymentTerms, testnet, AuthorizationIntent, operator_pinned,
  PaymentAssetEvidence, OperatorPolicy, ProviderDecision, pin, PaymentDecision,
}
use zadper.Payment.Runtime.{Runtime}
use zadper.Payment.Authorization.{authorization_digest}
use zadper.Payment.Policy.{
  evaluate_payment, collect, decide, verdict_of, is_pay, reservation_of, iso_of_seconds,
}
use zadper.Payment.Policy.Input.{PaymentEvaluationInput, safe_authorization_digest}
use zadper.Payment.Policy.Resource.{evaluate_resource}
use zadper.Payment.Policy.Evidence.{evaluate_evidence}
use zadper.Payment.Policy.Provider.{evaluate_provider}
use zadper.Payment.Policy.Caps.{evaluate_policy, cap_of}
use zadper.Payment.Policy.Intent.{evaluate_authorization}
use zadper.Payment.Policy.Advisories.{evaluate_investment_advisories}
use zadper.Payment.Policy.Approval.{IsApproved}
use zadper.Payment.Policy.Decision.{evaluate_payment-pay_iff}
use zadper.Payment.Policy.Outcome.{
  approved_reservation, evaluate_payment-approves, evaluate_payment_reservation,
}

opened : Unit {0}
unfolding evaluate_payment collect decide verdict_of is_pay reservation_of iso_of_seconds
    evaluate_resource evaluate_evidence evaluate_provider evaluate_policy cap_of
    evaluate_authorization evaluate_investment_advisories authorization_digest artifact_hash decimal
    lower starts_with trim is_hex_of drop_chars safe_authorization_digest
opened = tt

-- A runtime in which a time is written as its milliseconds, and the hashes are constant.
abbrev plain : Runtime
plain = record {
  parse_date = λ s. decimal s;
  iso = to_decimal;
  parse_url = λ s.
      some (record { protocol = "https:"; host = "api.example"; pathname = "/v1"; search = "" });
  sha256 = λ s. "00";
  typed_data_hash = λ t. ok "0xd1";
}

abbrev token : String
token = "0x00000000000000000000000000000000000000aa"

abbrev buyer : String
buyer = "0x00000000000000000000000000000000000000bb"

abbrev seller : String
seller = "0x00000000000000000000000000000000000000cc"

abbrev terms : PaymentTerms
terms = record {
  network = testnet;
  asset = token;
  amount = "40";
  pay_to = seller;
  max_timeout_seconds = 60;
  extra_name = "WBOT";
  extra_version = "1";
  extra_decimals = some "9";
  resource_url = "https://api.example/v1";
  resource_comparison = record { same_host = true; same_scheme = true; same_path = true };
}

abbrev authorization : AuthorizationIntent
authorization = record {
  intent = record {
    payer_public_key = buyer;
    from = buyer;
    to = seller;
    amount = "40";
    valid_after = "995";
    valid_before = "1055";
    nonce = "1111111111111111111111111111111111111111111111111111111111111111";
    network = testnet;
    asset = token;
    token_name = "WBOT";
    token_version = "1";
  };
  digest = "0xd1";
}

abbrev evidence : PaymentAssetEvidence
evidence = record {
  address = token;
  package_exists = some true;
  active_contract_hash = some "c0";
  authorization_entrypoint = some true;
  name = some "WBOT";
  decimals = some 9;
  mint_burn_enabled = some false;
  public_mint_entrypoint = none;
  holder_concentration_pct = some 40;
  contract_age_blocks = none;
  observed_at = "999000";
  missing = [];
}

abbrev policy : OperatorPolicy
policy = record {
  policy_id = "p1";
  operator_public_key = "0xop";
  revision = 1;
  issued_at = "0";
  effective_at = "0";
  allowed_networks = testnet ∷ [];
  allowed_payer_public_keys = buyer ∷ [];
  asset_daily_caps = (token, "100") ∷ [];
  maximum_authorization_window_seconds = 60;
  maximum_concurrent_reservations = 2;
  denied_origins = [];
  denied_payees = [];
  denied_assets = [];
  evidence_max_age_seconds = 30;
  review_on_investment_advisories = true;
  allow_pinned_resource_scheme_mismatch = false;
}

abbrev provider : ProviderDecision
provider = record {
  kind = pin;
  origin = "https://api.example";
  payee = seller;
  asset = token;
  network = testnet;
  resource_path_prefix = some "/v1";
  per_call_ceiling = "50";
  expires_at = "2000000";
}

abbrev payment : PaymentEvaluationInput
payment = record {
  check_id = "c1";
  request = record {
    url = "https://api.example/v1";
    scheme = "https";
    origin = "https://api.example";
    path = "/v1";
  };
  terms = terms;
  authorization = some authorization;
  evidence = evidence;
  policy = some policy;
  provider_decision = some provider;
  spent = "30";
  reserved = "30";
  replayed_nonces = [];
  active_reservations = 1;
  now = "1000000";
}

paid : (d : PaymentDecision) × (evaluate_payment plain payment ≡ ok d) × (d.verdict ≡ pay)
unfolding opened
paid = (_, refl, refl)

-- One unit more in reserve passes the daily cap.
capped :
    (d : PaymentDecision) × (evaluate_payment plain (record payment { reserved = "31" }) ≡ ok d)
    × (d.verdict ≡ PaymentVerdict.block)
unfolding opened
capped = (_, refl, refl)

evaluate_payment-pay_iff_example : (paid.0.verdict ≡ pay) ↔ IsApproved plain payment 1000000
unfolding decimal
evaluate_payment-pay_iff_example = evaluate_payment-pay_iff plain payment 1000000 paid.0 refl paid.1

abbrev approved : IsApproved plain payment 1000000
unfolding decimal
approved = (evaluate_payment-pay_iff plain payment 1000000 paid.0 refl paid.1).0 paid.2

evaluate_payment-approves_example :
    (d : PaymentDecision) × (evaluate_payment plain payment ≡ ok d) × (d.verdict ≡ pay)
unfolding opened
evaluate_payment-approves_example =
    evaluate_payment-approves plain payment 1000000 _ approved refl refl (omega arith)

evaluate_payment_reservation_example :
    ((paid.0.verdict ≢ pay) × (paid.0.reservation ≡ none) × (paid.0.basis ≡ none))
    ⊎ ((paid.0.verdict ≡ pay)
        × (a : AuthorizationIntent) × (until : ℕ) × (payment.authorization ≡ some a)
        × (decimal a.valid_before ≡ some until)
        × (paid.0.reservation ≡ some (approved_reservation plain payment until))
        × (paid.0.basis ≡ some operator_pinned))
unfolding decimal
evaluate_payment_reservation_example =
    evaluate_payment_reservation plain payment 1000000 paid.0 refl paid.1
