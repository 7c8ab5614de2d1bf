-- ===== src/Payment/Types.antt =====
-- packages/agent-pay-core/src/payment/types.ts: the records of a payment check, with the fields
-- that the modelled code reads or writes.
use zadper.Common.{ℕ, String, Bool, true, false, Option, List}
use zadper.Json.{Value}

pub data PaymentVerdict : Type 0 where
  pay review block : PaymentVerdict

pub data ReasonCode : Type 0 where
  invalid_payment_required unsupported_x402_version unsupported_scheme unsupported_network :
      ReasonCode
  resource_scheme_mismatch resource_origin_mismatch asset_package_not_found : ReasonCode
  authorization_entrypoint_missing asset_decimals_mismatch evidence_unavailable : ReasonCode
  provider_unapproved provider_tuple_changed signed_offer_invalid operator_denied : ReasonCode
  policy_cap_missing policy_per_call_exceeded policy_daily_cap_exceeded : ReasonCode
  authorization_required authorization_field_mismatch authorization_not_yet_valid : ReasonCode
  authorization_expired authorization_replay settlement_pending settlement_rpc_unavailable :
      ReasonCode
  settlement_shape_unsupported settlement_field_mismatch settlement_execution_failed : ReasonCode
  cep18_mint_burn_enabled public_mint_entrypoint holder_concentration very_new_contract : ReasonCode

pub data ReasonResult : Type 0 where
  review block advisory : ReasonResult

pub record Reason : Type 0 where
  pub code : ReasonCode
  pub result : ReasonResult
  pub message : String
  pub field : Option String
  pub expected : Value
  pub received : Value

pub data Network : Type 0 where
  testnet mainnet : Network

abbrev pub network_text : Network → String
network_text testnet = "botchain:testnet"
network_text mainnet = "botchain:mainnet"

-- `===` on networks.
abbrev pub same_network : Network → Network → Bool
same_network testnet testnet = true
same_network mainnet mainnet = true
same_network _ _ = false

-- Of the request, `body_hash` and the other fields that no rule reads are left out.
pub record OriginalRequest : Type 0 where
  pub url : String
  pub scheme : String
  pub origin : String
  pub path : String

pub record ResourceComparison : Type 0 where
  pub same_host : Bool
  pub same_scheme : Bool
  pub same_path : Bool

pub record PaymentTerms : Type 0 where
  pub network : Network
  pub asset : String
  pub amount : String
  pub pay_to : String
  pub max_timeout_seconds : ℕ
  pub extra_name : String
  pub extra_version : String
  pub extra_decimals : Option String
  pub resource_url : String
  pub resource_comparison : ResourceComparison

-- `AuthorizationIntent` without the digest.
pub record IntentWithoutDigest : Type 0 where
  pub payer_public_key : String
  pub from : String
  pub to : String
  pub amount : String
  pub valid_after : String
  pub valid_before : String
  pub nonce : String
  pub network : Network
  pub asset : String
  pub token_name : String
  pub token_version : String

pub record AuthorizationIntent : Type 0 where
  pub intent : IntentWithoutDigest
  pub open intent use *
  pub digest : String

pub record PaymentAssetEvidence : Type 0 where
  pub address : String
  pub package_exists : Option Bool
  pub active_contract_hash : Option String
  pub authorization_entrypoint : Option Bool
  pub name : Option String
  pub decimals : Option ℕ
  pub mint_burn_enabled : Option Bool
  pub public_mint_entrypoint : Option Bool
  pub holder_concentration_pct : Option ℕ
  pub contract_age_blocks : Option ℕ
  pub observed_at : String
  pub missing : List String

-- The signature fields, which no rule reads and the policy's hash leaves out, are not modelled.
pub record OperatorPolicy : Type 0 where
  pub policy_id : String
  pub operator_public_key : String
  pub revision : ℕ
  pub issued_at : String
  pub effective_at : String
  pub allowed_networks : List Network
  pub allowed_payer_public_keys : List String
  pub asset_daily_caps : List (String × String)
  pub maximum_authorization_window_seconds : ℕ
  pub maximum_concurrent_reservations : ℕ
  pub denied_origins : List String
  pub denied_payees : List String
  pub denied_assets : List String
  pub evidence_max_age_seconds : ℕ
  pub review_on_investment_advisories : Bool
  pub allow_pinned_resource_scheme_mismatch : Bool

pub data ProviderKind : Type 0 where
  pin deny : ProviderKind

pub record ProviderDecision : Type 0 where
  pub kind : ProviderKind
  pub origin : String
  pub payee : String
  pub asset : String
  pub network : Network
  pub resource_path_prefix : Option String
  pub per_call_ceiling : String
  pub expires_at : String

pub data Basis : Type 0 where
  operator_pinned signed_offer : Basis

pub record Reservation : Type 0 where
  pub amount : String
  pub expires_at : String

-- `PaymentDecision` without its hash.
pub record DecisionWithoutHash : Type 0 where
  pub check_id : String
  pub verdict : PaymentVerdict
  pub basis : Option Basis
  pub reasons : List Reason
  pub advisories : List Reason
  pub policy_hash : Option String
  pub authorization_digest : Option String
  pub reservation : Option Reservation
  pub decided_at : String

pub record PaymentDecision : Type 0 where
  pub decision : DecisionWithoutHash
  pub open decision use *
  pub decision_hash : String

pub data SettlementVerdict : Type 0 where
  pending match mismatch unverifiable : SettlementVerdict

-- `SettlementProof` without its hash. A decoded transaction is a JSON object or null; the hash of the
-- block is what the node has sent.
pub record ProofWithoutHash : Type 0 where
  pub check_id : String
  pub transaction_hash : String
  pub verdict : SettlementVerdict
  pub reasons : List Reason
  pub rpc_endpoint : String
  pub block_hash : Value
  pub block_height : Option ℕ
  pub observed_at : String
  pub decoded : Value

pub record SettlementProof : Type 0 where
  pub proof : ProofWithoutHash
  pub open proof use *
  pub proof_hash : String

abbrev pub is_block : ReasonResult → Bool
is_block block = true
is_block _ = false

abbrev pub is_review : ReasonResult → Bool
is_review review = true
is_review _ = false

abbrev pub is_pin : ProviderKind → Bool
is_pin pin = true
is_pin deny = false
