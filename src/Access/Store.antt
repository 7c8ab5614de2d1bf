-- ===== src/Access/Store.antt =====
-- apps/report-api/src/auditor/sqliteRepository.ts: the methods for challenges, sessions and agent
-- tokens.
use zadper.Common.{
  ℕ, ◌+◌, String, Bool, true, false, Option, none, some, ◌∷◌, ◌&&◌, not, any, ◌==◌, ◌===◌,
  if◌then◌else◌, is_none, Result, ok, throw,
}
use mathlib.Core.Option
use zadper.Payment.Runtime.{Runtime}
use zadper.Auditor.Prepare.{normalize_key, normalize_hash, iso_timestamp}
use zadper.Access.Tables.{
  AuthChallenge, AuthSession, AgentTokenRecord, AgentTokenRevocation, ChallengeRow, SessionRow,
  TokenRow, RevocationRow, AccessDb,
}
use zadper.Access.Acts.{Act, granted, lift, ◌>>=◌}
use zadper.Access.Rows.{
  positive_integer, find_challenge, find_session, find_token, find_token_id, drop_expired,
  is_usable, use_rows, revoke_session_rows, revoke_token_rows, insert_challenge, insert_session,
  insert_token, breaks_revocation, latest_revision,
}

module _ (runtime : Runtime) where
  unfoldable pub nullable_timestamp : Option String → String → Result (Option ℕ)
  nullable_timestamp none field = ok none
  nullable_timestamp (some value) field = elim (iso_timestamp runtime.parse_date value field) [
    | throw exception ↦ throw exception
    | ok time ↦ ok (some time)
  ]

  -- The insertion of saveChallenge.
  unfoldable pub store_challenge : AuthChallenge → Act Bool
  store_challenge challenge = do
    operator_key ← lift (normalize_key challenge.operator_public_key)
    issued_at ← lift (iso_timestamp runtime.parse_date challenge.issued_at "challenge.issuedAt")
    expires_at ← lift (iso_timestamp runtime.parse_date challenge.expires_at "challenge.expiresAt")
    used_at ← lift (nullable_timestamp challenge.used_at "challenge.usedAt")
    insert_challenge (record {
      id = challenge.id;
      operator_key = operator_key;
      nonce = challenge.nonce;
      issued_at = issued_at;
      expires_at = expires_at;
      used_at = used_at;
      challenge = challenge;
    })

  -- `saveChallenge`, at a time of the repository's clock.
  unfoldable pub save_challenge : ℕ → AuthChallenge → Act Bool
  save_challenge now challenge db =
      store_challenge challenge (record db { challenges = drop_expired now db.challenges })

  abbrev pub challenge_of : ChallengeRow → AuthChallenge
  challenge_of row = record row.challenge { used_at = Option.map runtime.iso row.used_at }

  unfoldable pub get_challenge : String → Act (Option AuthChallenge)
  get_challenge id db = (granted (Option.map challenge_of (find_challenge id db.challenges)), db)

  unfoldable pub consume_challenge : String → String → Act Bool
  consume_challenge id used_at = do
    now ← lift (iso_timestamp runtime.parse_date used_at "challenge.usedAt")
    λ db. (
      granted (any (is_usable id now) db.challenges),
      record db { challenges = use_rows id now db.challenges },
    )

  unfoldable pub save_session : AuthSession → Act Bool
  save_session session = do
    operator_key ← lift (normalize_key session.operator_public_key)
    token_hash ← lift (normalize_hash session.token_hash "session.tokenHash")
    created_at ← lift (iso_timestamp runtime.parse_date session.created_at "session.createdAt")
    expires_at ← lift (iso_timestamp runtime.parse_date session.expires_at "session.expiresAt")
    revoked_at ← lift (nullable_timestamp session.revoked_at "session.revokedAt")
    insert_session (record {
      id = session.id;
      operator_key = operator_key;
      token_hash = token_hash;
      created_at = created_at;
      expires_at = expires_at;
      revoked_at = revoked_at;
      session = session;
    })

  abbrev pub session_of : SessionRow → AuthSession
  session_of row = record row.session { revoked_at = Option.map runtime.iso row.revoked_at }

  unfoldable pub find_session_by_token_hash : String → Act (Option AuthSession)
  find_session_by_token_hash token_hash = do
    hash ← lift (normalize_hash token_hash "session.tokenHash")
    λ db. (granted (Option.map session_of (find_session hash db.sessions)), db)

  unfoldable pub revoke_session : String → String → Act Bool
  revoke_session id revoked_at = do
    now ← lift (iso_timestamp runtime.parse_date revoked_at "session.revokedAt")
    λ db. (
      granted (any (λ s. s.id === id && is_none s.revoked_at) db.sessions),
      record db { sessions = revoke_session_rows id now db.sessions },
    )

  unfoldable pub save_agent_token : AgentTokenRecord → Act Bool
  save_agent_token token = do
    operator_key ← lift (normalize_key token.operator_public_key)
    token_hash ← lift (normalize_hash token.token_hash "agentToken.tokenHash")
    revision ← lift (positive_integer token.revision "agentToken.revision")
    expires_at ← lift (nullable_timestamp token.expires_at "agentToken.expiresAt")
    revoked_at ← lift (nullable_timestamp token.revoked_at "agentToken.revokedAt")
    insert_token (record {
      id = token.id;
      operator_key = operator_key;
      token_hash = token_hash;
      revision = revision;
      expires_at = expires_at;
      revoked_at = revoked_at;
      token = token;
    })

  -- `tokenFromRow`.
  abbrev pub token_of : TokenRow → AgentTokenRecord
  token_of row = record row.token { revoked_at = Option.map runtime.iso row.revoked_at }

  unfoldable pub get_agent_token : String → Act (Option AgentTokenRecord)
  get_agent_token id db = (granted (Option.map token_of (find_token_id id db.tokens)), db)

  unfoldable pub find_agent_token_by_hash : String → Act (Option AgentTokenRecord)
  find_agent_token_by_hash token_hash = do
    hash ← lift (normalize_hash token_hash "agentToken.tokenHash")
    λ db. (granted (Option.map token_of (find_token hash db.tokens)), db)

  unfoldable pub latest_agent_token_revision : String → Act ℕ
  latest_agent_token_revision operator_public_key = do
    operator_key ← lift (normalize_key operator_public_key)
    λ db. (granted (latest_revision operator_key db), db)

  -- Whether the transaction of revokeAgentToken goes on: the token is the operator's and is not
  -- revoked, and the revision is the next.
  unfoldable pub may_revoke : RevocationRow → AccessDb → Bool
  may_revoke new db = elim (find_token_id new.token_id db.tokens) [
    | none ↦ false
    | some token ↦
        token.operator_key === new.operator_key
        && (is_none token.revoked_at && new.revision == latest_revision new.operator_key db + 1)
  ]

  -- Whether it commits: the row breaks no constraint, and a token is changed.
  unfoldable pub can_revoke : RevocationRow → AccessDb → Bool
  unfolding may_revoke
  can_revoke new db =
      may_revoke new db
      && (not (any (breaks_revocation new) db.revocations)
          && any (λ t. t.id === new.token_id && is_none t.revoked_at) db.tokens)

  -- The transaction; where it is rolled back the store is as it was.
  unfoldable pub revoke_transaction : RevocationRow → Act Bool
  revoke_transaction new db =
      if can_revoke new db
      then (
        granted true,
        record db {
          tokens = revoke_token_rows new.token_id new.revoked_at db.tokens;
          revocations = new ∷ db.revocations;
        },
      )
      else (granted false, db)

  unfoldable pub revoke_agent_token : AgentTokenRevocation → Act Bool
  revoke_agent_token revocation = do
    operator_key ← lift (normalize_key revocation.operator_public_key)
    revoked_at ←
        lift
          (iso_timestamp runtime.parse_date revocation.revoked_at "agentTokenRevocation.revokedAt")
    revision ← lift (positive_integer revocation.revision "agentTokenRevocation.revision")
    action_hash ← lift (normalize_hash revocation.action_hash "agentTokenRevocation.actionHash")
    revoke_transaction (record {
      token_id = revocation.token_id;
      operator_key = operator_key;
      revision = revision;
      action_hash = action_hash;
      revoked_at = revoked_at;
      revocation = revocation;
    })
