-- ===== src/Access/Credentials.antt =====
-- apps/report-api/src/auditor/auth.ts: `authenticateCredential` and `authorizeAgent`. The clock's dates are
-- valid.
use zadper.Common.{
  ℕ, String, Bool, Option, none, some, ◌&&◌, not, any, includes, leb, ◌===◌, is_none, holds_of,
}
use zadper.Common.Text.{lower, utf16_length, is_hex_of}
use zadper.Payment.Runtime.{Runtime}
use zadper.Payment.Authorization.{normalize_address}
use zadper.Access.Tables.{
  AuthSession, AgentTokenRecord, AgentTokenScope, same_scope, session_revoked, session_expired,
  invalid_credentials, agent_token_required, agent_scope_denied, payer_not_allowed,
  agent_token_revoked, agent_token_expired,
}
use zadper.Access.Acts.{Act, return, deny, require, lift, ◌>>=◌, ◌>>◌}
use zadper.Access.Store.{find_session_by_token_hash, find_agent_token_by_hash}

pub data AuthPrincipal : Type 0 where
  operator : AuthSession → AuthPrincipal
  agent : AgentTokenRecord → AuthPrincipal

-- `constantTimeHexEqual`: the bytes are equal where the texts are in lower case.
unfoldable pub constant_time_hex_equal : String → String → Bool
constant_time_hex_equal left right =
    is_hex_of 64 (lower left) && (is_hex_of 64 (lower right) && lower left === lower right)

unfoldable pub ensure_token_hash : String → String → Act (Unit {0})
unfolding constant_time_hex_equal
ensure_token_hash stored computed =
    require (constant_time_hex_equal stored computed) invalid_credentials

module _ (runtime : Runtime) where
  unfoldable pub hash_bearer_token : String → Act String
  hash_bearer_token token = do
    require (leb 32 (utf16_length token) && leb (utf16_length token) 512) invalid_credentials
    return (runtime.sha256 token)

  -- `Date.parse(text) <= now`, false for a text that is no date.
  abbrev pub is_past : String → ℕ → Bool
  is_past text now = holds_of (runtime.parse_date text) (λ time. leb time now)

  -- `requireActiveAgentToken`.
  unfoldable pub require_active_agent_token : AgentTokenRecord → ℕ → Act (Unit {0})
  require_active_agent_token token now = do
    require (is_none token.revoked_at) agent_token_revoked
    require (not (holds_of token.expires_at (λ text. is_past text now))) agent_token_expired

  unfoldable pub authenticate_session : AuthSession → String → ℕ → Act AuthPrincipal
  authenticate_session held token_hash now = do
    ensure_token_hash held.token_hash token_hash
    require (is_none held.revoked_at) session_revoked
    require (not (is_past held.expires_at now)) session_expired
    return (operator held)

  -- The agent token that was found.
  unfoldable pub authenticate_token : String → ℕ → Option AgentTokenRecord → Act AuthPrincipal
  authenticate_token token_hash now none = deny invalid_credentials
  authenticate_token token_hash now (some token) = do
    ensure_token_hash token.token_hash token_hash
    require_active_agent_token token now
    return (agent token)

  unfoldable pub authenticate_agent : String → ℕ → Act AuthPrincipal
  authenticate_agent token_hash now = do
    found ← find_agent_token_by_hash runtime token_hash
    authenticate_token token_hash now found

  -- The session that was found, or else an agent token.
  unfoldable pub authenticate_found : String → ℕ → Option AuthSession → Act AuthPrincipal
  authenticate_found token_hash now (some held) = authenticate_session held token_hash now
  authenticate_found token_hash now none = authenticate_agent token_hash now

  unfoldable pub authenticate_credential : String → ℕ → Act AuthPrincipal
  authenticate_credential raw_token now = do
    token_hash ← hash_bearer_token raw_token
    found ← find_session_by_token_hash runtime token_hash
    authenticate_found token_hash now found

  -- The payer, if one is named, is among those of the token.
  unfoldable pub require_payer : AgentTokenRecord → Option String → Act AgentTokenRecord
  require_payer token none = return token
  require_payer token (some payer_public_key) = do
    normalized ← lift (normalize_address payer_public_key "BotChain public key")
    require (includes token.allowed_payer_public_keys normalized) payer_not_allowed
    return token

  unfoldable pub authorize_principal :
      AgentTokenScope → Option String → AuthPrincipal → Act AgentTokenRecord
  authorize_principal scope payer (operator held) = deny agent_token_required
  authorize_principal scope payer (agent token) = do
    require (any (same_scope scope) token.scopes) agent_scope_denied
    require_payer token payer

  unfoldable pub authorize_agent :
      String → AgentTokenScope → Option String → ℕ → Act AgentTokenRecord
  authorize_agent raw_token scope payer now = do
    principal ← authenticate_credential raw_token now
    authorize_principal scope payer principal
