-- ===== src/Payment/Policy/Input.antt =====
-- policy.ts: the input of an evaluation, and the helpers that the evaluations share.
use zadper.Common.{
  ℕ, String, Option, none, some, List, leb, if◌then◌else◌, Result, ok, throw, type_error,
}
use Prim.Native.String
use zadper.Common.Decimal.{decimal}
use zadper.Json.{Value}
use zadper.Payment.Types.{
  OriginalRequest, PaymentTerms, IntentWithoutDigest, AuthorizationIntent, PaymentAssetEvidence,
  OperatorPolicy, ProviderDecision, Reason, ReasonCode, ReasonResult,
}
use zadper.Payment.Runtime.{Runtime, Url}
use zadper.Payment.Authorization.{authorization_digest, max_safe_integer}

pub record PaymentEvaluationInput : Type 0 where
  pub check_id : String
  pub request : OriginalRequest
  pub terms : PaymentTerms
  pub authorization : Option AuthorizationIntent
  pub evidence : PaymentAssetEvidence
  pub policy : Option OperatorPolicy
  pub provider_decision : Option ProviderDecision
  pub spent : String
  pub reserved : String
  pub replayed_nonces : List String
  pub active_reservations : ℕ
  pub now : String

-- What an evaluation pushes onto the two lists.
pub record Pushed : Type 0 where
  pub reasons : List Reason
  pub advisories : List Reason

abbrev pub reason : ReasonCode → ReasonResult → String → String → Value → Value → Reason
reason code result message field expected received = record {
  code = code;
  result = result;
  message = message;
  field = some field;
  expected = expected;
  received = received;
}

-- `parseAmount`.
unfoldable pub parse_amount : String → String → Result ℕ
parse_amount value label = elim (decimal value) [
  | none ↦ throw (type_error (String.◌++◌ label " must be a non-negative integer string"))
  | some n ↦ ok n
]

-- `parseTimestampInteger`.
unfoldable pub parse_timestamp_integer : String → String → Result ℕ
parse_timestamp_integer value label = elim (decimal value) [
  | none ↦ throw (type_error (String.◌++◌ label " must be a non-negative integer string"))
  | some n ↦
      if leb n max_safe_integer
      then ok n
      else throw (type_error (String.◌++◌ label " must be a safe integer timestamp"))
]

unfoldable pub safe_authorization_digest : Runtime → IntentWithoutDigest → Option String
unfolding authorization_digest
safe_authorization_digest rt intent = elim (authorization_digest rt intent) [
  | ok digest ↦ some digest
  | throw e ↦ none
]

-- `new URL(text)`.
unfoldable pub url_of : Runtime → String → Result Url
url_of rt text = elim (rt.parse_url text) [
  | none ↦ throw (type_error "Invalid URL")
  | some url ↦ ok url
]
