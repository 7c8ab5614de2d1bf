-- ===== src/Access/Tables.antt =====
-- apps/report-api/src/auditor/repository.ts, auth.ts and the tables of sqliteRepository.ts: what the
-- store holds of challenges, sessions and agent tokens. A column that holds an ISO time is its
-- number of milliseconds; the texts of the JSON column are kept.
use zadper.Common.{ℕ, String, Bool, true, false, Option, List, Thrown}

pub data Purpose : Type 0 where
  session operator_action : Purpose

abbrev pub same_purpose : Purpose → Purpose → Bool
same_purpose session session = true
same_purpose operator_action operator_action = true
same_purpose _ _ = false

pub record AuthChallenge : Type 0 where
  pub id : String
  pub operator_public_key : String
  pub origin : String
  pub purpose : Purpose
  pub nonce : String
  pub action : String
  pub issued_at : String
  pub expires_at : String
  pub used_at : Option String

pub record AuthSession : Type 0 where
  pub id : String
  pub operator_public_key : String
  pub token_hash : String
  pub origin : String
  pub created_at : String
  pub expires_at : String
  pub revoked_at : Option String

pub data AgentTokenScope : Type 0 where
  checks_write settlements_write observations_write receipts_read : AgentTokenScope

abbrev pub same_scope : AgentTokenScope → AgentTokenScope → Bool
same_scope checks_write checks_write = true
same_scope settlements_write settlements_write = true
same_scope observations_write observations_write = true
same_scope receipts_read receipts_read = true
same_scope _ _ = false

pub record AgentTokenRecord : Type 0 where
  pub id : String
  pub operator_public_key : String
  pub agent_name : String
  pub token_hash : String
  pub scopes : List AgentTokenScope
  pub allowed_payer_public_keys : List String
  pub revision : ℕ
  pub action_hash : String
  pub signature : String
  pub created_at : String
  pub expires_at : Option String
  pub revoked_at : Option String

pub record AgentTokenRevocation : Type 0 where
  pub token_id : String
  pub operator_public_key : String
  pub revision : ℕ
  pub action_hash : String
  pub signature : String
  pub revoked_at : String

-- Rows: the columns that queries compare, and the value that the JSON column holds.
pub record ChallengeRow : Type 0 where
  pub id : String
  pub operator_key : String
  pub nonce : String
  pub issued_at : ℕ
  pub expires_at : ℕ
  pub used_at : Option ℕ
  pub challenge : AuthChallenge

pub record SessionRow : Type 0 where
  pub id : String
  pub operator_key : String
  pub token_hash : String
  pub created_at : ℕ
  pub expires_at : ℕ
  pub revoked_at : Option ℕ
  pub session : AuthSession

pub record TokenRow : Type 0 where
  pub id : String
  pub operator_key : String
  pub token_hash : String
  pub revision : ℕ
  pub expires_at : Option ℕ
  pub revoked_at : Option ℕ
  pub token : AgentTokenRecord

pub record RevocationRow : Type 0 where
  pub token_id : String
  pub operator_key : String
  pub revision : ℕ
  pub action_hash : String
  pub revoked_at : ℕ
  pub revocation : AgentTokenRevocation

pub record AccessDb : Type 0 where
  pub challenges : List ChallengeRow
  pub sessions : List SessionRow
  pub tokens : List TokenRow
  pub revocations : List RevocationRow

-- The codes of `AuthError`, and an exception of another class.
pub data AuthError : Type 0 where
  challenge_conflict session_conflict signed_action_mismatch session_revoked : AuthError
  session_expired invalid_credentials agent_token_required agent_scope_denied : AuthError
  payer_not_allowed challenge_not_found challenge_replayed challenge_purpose_mismatch : AuthError
  challenge_operator_mismatch origin_mismatch challenge_expired challenge_not_yet_valid : AuthError
  invalid_signature agent_token_revoked agent_token_expired invalid_challenge : AuthError
  other_exception : Thrown → AuthError
