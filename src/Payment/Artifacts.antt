-- ===== src/Payment/Artifacts.antt =====
-- packages/agent-pay-core/src/payment/artifacts.ts and types.ts: the texts and values of these records
-- in JSON, of which the hashes are made.
use zadper.Common.{String, Option, none, some, List, [], ◌∷◌, map}
use mathlib.Core.Option
use zadper.Json.{Value, Fields, null, bool, num, str, arr, obj, items, field, end}
use zadper.Payment.Types.{
  invalid_payment_required, unsupported_x402_version, unsupported_scheme, unsupported_network,
  resource_scheme_mismatch, resource_origin_mismatch, asset_package_not_found,
  authorization_entrypoint_missing, asset_decimals_mismatch, evidence_unavailable,
  provider_unapproved, provider_tuple_changed, signed_offer_invalid, operator_denied,
  policy_cap_missing, policy_per_call_exceeded, policy_daily_cap_exceeded, authorization_required,
  authorization_field_mismatch, authorization_not_yet_valid, authorization_expired,
  authorization_replay, settlement_pending, settlement_rpc_unavailable,
  settlement_shape_unsupported, settlement_field_mismatch, settlement_execution_failed,
  cep18_mint_burn_enabled, public_mint_entrypoint, holder_concentration, very_new_contract,
  operator_pinned, signed_offer, PaymentVerdict, ReasonCode, ReasonResult, Reason, OperatorPolicy,
  Basis, Reservation, DecisionWithoutHash, network_text,
}

abbrev pub code_text : ReasonCode → String
code_text invalid_payment_required = "invalid_payment_required"
code_text unsupported_x402_version = "unsupported_x402_version"
code_text unsupported_scheme = "unsupported_scheme"
code_text unsupported_network = "unsupported_network"
code_text resource_scheme_mismatch = "resource_scheme_mismatch"
code_text resource_origin_mismatch = "resource_origin_mismatch"
code_text asset_package_not_found = "asset_package_not_found"
code_text authorization_entrypoint_missing = "authorization_entrypoint_missing"
code_text asset_decimals_mismatch = "asset_decimals_mismatch"
code_text evidence_unavailable = "evidence_unavailable"
code_text provider_unapproved = "provider_unapproved"
code_text provider_tuple_changed = "provider_tuple_changed"
code_text signed_offer_invalid = "signed_offer_invalid"
code_text operator_denied = "operator_denied"
code_text policy_cap_missing = "policy_cap_missing"
code_text policy_per_call_exceeded = "policy_per_call_exceeded"
code_text policy_daily_cap_exceeded = "policy_daily_cap_exceeded"
code_text authorization_required = "authorization_required"
code_text authorization_field_mismatch = "authorization_field_mismatch"
code_text authorization_not_yet_valid = "authorization_not_yet_valid"
code_text authorization_expired = "authorization_expired"
code_text authorization_replay = "authorization_replay"
code_text settlement_pending = "settlement_pending"
code_text settlement_rpc_unavailable = "settlement_rpc_unavailable"
code_text settlement_shape_unsupported = "settlement_shape_unsupported"
code_text settlement_field_mismatch = "settlement_field_mismatch"
code_text settlement_execution_failed = "settlement_execution_failed"
code_text cep18_mint_burn_enabled = "cep18_mint_burn_enabled"
code_text public_mint_entrypoint = "public_mint_entrypoint"
code_text holder_concentration = "holder_concentration"
code_text very_new_contract = "very_new_contract"

abbrev pub result_text : ReasonResult → String
result_text ReasonResult.review = "review"
result_text ReasonResult.block = "block"
result_text ReasonResult.advisory = "advisory"

abbrev pub verdict_text : PaymentVerdict → String
verdict_text PaymentVerdict.pay = "pay"
verdict_text PaymentVerdict.review = "review"
verdict_text PaymentVerdict.block = "block"

abbrev pub basis_text : Basis → String
basis_text operator_pinned = "operator_pinned"
basis_text signed_offer = "signed_offer"

abbrev pub text_or_null : Option String → Value
text_or_null none = null
text_or_null (some s) = str s

abbrev pub texts : List String → Value
texts xs = arr (items (map str xs))

abbrev pub reason_value : Reason → Value
reason_value r = obj (
    field "code" (str (code_text r.code)) (
      field "result" (str (result_text r.result)) (
        field "message" (str r.message) (
          field "field" (text_or_null r.field)
            (field "expected" r.expected (field "received" r.received end))))))

abbrev caps_fields : List (String × String) → Fields
caps_fields [] = end
caps_fields ((asset, cap) ∷ caps) = field asset (str cap) (caps_fields caps)

-- The content that `operatorPolicyHash` hashes.
abbrev pub policy_value : OperatorPolicy → Value
policy_value p = obj (
    field "policyId" (str p.policy_id) (
      field "operatorPublicKey" (str p.operator_public_key) (
        field "revision" (num p.revision) (
          field "issuedAt" (str p.issued_at) (
            field "effectiveAt" (str p.effective_at) (
              field "allowedNetworks" (texts (map network_text p.allowed_networks)) (
                field "allowedPayerPublicKeys" (texts p.allowed_payer_public_keys) (
                  field "assetDailyCaps" (obj (caps_fields p.asset_daily_caps)) (
                    field "maximumAuthorizationWindowSeconds"
                      (num p.maximum_authorization_window_seconds)
                      (field "maximumConcurrentReservations" (num p.maximum_concurrent_reservations)
                        (field "deniedOrigins" (texts p.denied_origins) (
                          field "deniedPayees" (texts p.denied_payees) (
                            field "deniedAssets" (texts p.denied_assets) (
                              field "evidenceMaxAgeSeconds" (num p.evidence_max_age_seconds) (
                                field "reviewOnInvestmentAdvisories"
                                  (bool p.review_on_investment_advisories)
                                  (field "allowPinnedResourceSchemeMismatch"
                                    (bool p.allow_pinned_resource_scheme_mismatch)
                                    end))))))))))))))))

abbrev reservation_value : Option Reservation → Value
reservation_value none = null
reservation_value (some r) =
    obj (field "amount" (str r.amount) (field "expiresAt" (str r.expires_at) end))

-- The content of a decision that its hash covers.
abbrev pub decision_value : DecisionWithoutHash → Value
decision_value d = obj (
    field "checkId" (str d.check_id) (
      field "verdict" (str (verdict_text d.verdict)) (
        field "basis" (text_or_null (Option.map basis_text d.basis)) (
          field "reasons" (arr (items (map reason_value d.reasons))) (
            field "advisories" (arr (items (map reason_value d.advisories))) (
              field "policyHash" (text_or_null d.policy_hash) (
                field "authorizationDigest" (text_or_null d.authorization_digest) (
                  field "reservation" (reservation_value d.reservation)
                    (field "decidedAt" (str d.decided_at) end)))))))))
