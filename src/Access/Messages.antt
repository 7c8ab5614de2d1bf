-- ===== src/Access/Messages.antt =====
-- apps/report-api/src/auditor/auth.ts: what is asked of AuditorAuth, and the message of a challenge, which
-- the operator signs.
use zadper.Common.{ℕ, String, Option, none, some, ◌&&◌, ltb, leb}
use Prim.Native.String
use zadper.Common.Text.{lower, is_hex_of}
use zadper.Json.{Value, obj, str, num, field, end, canonical_json}
use zadper.Payment.Authorization.{max_safe_integer}
use zadper.Access.Tables.{Purpose, session, operator_action, AuthChallenge, invalid_challenge}
use zadper.Access.Acts.{Act, return, deny, require, ◌>>◌}

-- `CHALLENGE_TTL_MS` and `SESSION_TTL_MS`.
abbrev pub challenge_ttl_ms : ℕ
challenge_ttl_ms = 300000

abbrev pub session_ttl_ms : ℕ
session_ttl_ms = 3600000

pub data OperatorActionKind : Type 0 where
  policy_revision provider_decision agent_token_issue agent_token_revoke : OperatorActionKind

abbrev pub kind_text : OperatorActionKind → String
kind_text policy_revision = "policy_revision"
kind_text provider_decision = "provider_decision"
kind_text agent_token_issue = "agent_token_issue"
kind_text agent_token_revoke = "agent_token_revoke"

pub record OperatorActionDescriptor : Type 0 where
  pub kind : OperatorActionKind
  pub artifact_hash : String
  pub revision : ℕ

-- What the constructor keeps: the origin, and its host.
pub record Deployment : Type 0 where
  pub public_origin : String
  pub domain : String

-- What `randomUUID` and `randomBytes(32)` give.
pub record Draw : Type 0 where
  pub id : String
  pub bytes : String

pub record ChallengeInput : Type 0 where
  pub operator_public_key : String
  pub origin : String
  pub purpose : Purpose
  pub action : Option OperatorActionDescriptor

pub record SignedInput : Type 0 where
  pub challenge_id : String
  pub operator_public_key : String
  pub origin : String
  pub signature : String

-- The times at which a challenge is tested and used, and at which the session is made.
pub record Times : Type 0 where
  pub tested : ℕ
  pub used : ℕ
  pub created : ℕ

-- `operatorActionMessage` of receipt.ts.
unfoldable pub operator_action_message : Value → String
operator_action_message payload =
    String.◌++◌ "AgentPay Operator Action v1\n" (canonical_json payload)

abbrev pub purpose_text : Purpose → String
purpose_text session = "session"
purpose_text operator_action = "operator_action"

-- `{ kind: "session_create" }`, or the descriptor.
abbrev pub requested_value : Option OperatorActionDescriptor → Value
requested_value none = obj (field "kind" (str "session_create") end)
requested_value (some action) = obj (
    field "kind" (str (kind_text action.kind)) (
      field "artifactHash" (str action.artifact_hash) (field "revision" (num action.revision) end)))

unfoldable pub challenge_message : AuthChallenge → String → Option OperatorActionDescriptor → String
unfolding operator_action_message
challenge_message challenge domain action = operator_action_message (
    obj (
      field "kind" (str "agentpay_auth_challenge") (
        field "version" (num 1) (
          field "domain" (str domain) (
            field "origin" (str challenge.origin) (
              field "network" (str "botchain:testnet") (
                field "challengeId" (str challenge.id) (
                  field "operatorPublicKey" (str challenge.operator_public_key) (
                    field "purpose" (str (purpose_text challenge.purpose)) (
                      field "nonce" (str challenge.nonce) (
                        field "issuedAt" (str challenge.issued_at) (
                          field "expiresAt" (str challenge.expires_at)
                            (field "requestedAction" (requested_value action) end)))))))))))))

unfoldable pub validate_operator_action : OperatorActionDescriptor → Act (Unit {0})
validate_operator_action action = do
  require (is_hex_of 64 (lower action.artifact_hash)) invalid_challenge
  require (ltb 0 action.revision && leb action.revision max_safe_integer) invalid_challenge

-- `challengeRequestedAction`: none stands for `session_create`.
unfoldable pub challenge_requested_action :
    Purpose → Option OperatorActionDescriptor → Act (Option OperatorActionDescriptor)
unfolding validate_operator_action
challenge_requested_action session none = return none
challenge_requested_action session (some action) = deny invalid_challenge
challenge_requested_action operator_action none = deny invalid_challenge
challenge_requested_action operator_action (some action) =
    validate_operator_action action >> return (some action)
