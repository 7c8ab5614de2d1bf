-- ===== src/Access/Known.antt =====
-- When a credential is that of an agent.
use zadper.Common.{
  ℕ, ◌≡◌, refl, sym, subst, ◌∙◌, String, true, false, Option, none, some, ◌&&◌, is_none, leb,
  holds_of, arith,
}
use mathlib.Core.Option
use zadper.Common.Text.{lower, utf16_length, is_hex_of}
use zadper.Payment.Runtime.{Runtime}
use zadper.Auditor.Prepare.{normalize_hash}
use zadper.Access.Tables.{AuthSession, AgentTokenRecord, SessionRow, TokenRow, AccessDb}
use zadper.Access.Acts.{granted, return, require, deny, ◌>>◌, ◌>>=◌, lift, bind-granted}
use zadper.Access.Store.{token_of, session_of, find_agent_token_by_hash, find_session_by_token_hash}
use zadper.Access.Rows.{find_token, find_session}
use zadper.Access.Credentials.{
  AuthPrincipal, agent, is_past, hash_bearer_token, constant_time_hex_equal, ensure_token_hash,
  require_active_agent_token, authenticate_session, authenticate_token, authenticate_agent,
  authenticate_found, authenticate_credential,
}

move :
    (P : String → AccessDb → Type 0) {g h : String} {c d : AccessDb} → g ≡ h → c ≡ d → P g c → P h d
move P {g} {h} {c} {d} e f p = subst (P h) f (subst (λ x. P x c) e p)

module _ (runtime : Runtime) (raw : String) (now : ℕ) where
  abbrev pub hash_of : String
  hash_of = lower (runtime.sha256 raw)

  -- The credential has the length of one and a hash, is of no session, and is that of a token that is
  -- neither revoked nor expired.
  pub record IsAgent (db : AccessDb) (token : AgentTokenRecord) : Type 0 where
    pub sized : (leb 32 (utf16_length raw) && leb (utf16_length raw) 512) ≡ true
    pub hashed : is_hex_of 64 hash_of ≡ true
    pub no_session : find_session hash_of db.sessions ≡ none
    pub row : TokenRow
    pub found : find_token hash_of db.tokens ≡ some row
    pub is_token : token ≡ token_of runtime row
    pub same_hash : constant_time_hex_equal token.token_hash (runtime.sha256 raw) ≡ true
    pub unrevoked : is_none token.revoked_at ≡ true
    pub lasts : holds_of token.expires_at (λ text. is_past runtime text now) ≡ false

  pub hash-granted :
      (db : AccessDb) {hash : String} {after : AccessDb}
      → hash_bearer_token runtime raw db ≡ (granted hash, after)
      → ((leb 32 (utf16_length raw) && leb (utf16_length raw) 512) ≡ true)
        × (hash ≡ runtime.sha256 raw)
        × (after ≡ db)
  unfolding hash_bearer_token ◌>>◌ require return
  hash-granted db e = ground arith

  session-granted :
      (hash : String) (db : AccessDb) {found : Option AuthSession} {after : AccessDb}
      → find_session_by_token_hash runtime hash db ≡ (granted found, after)
      → (is_hex_of 64 (lower hash) ≡ true)
        × (found ≡ Option.map (session_of runtime) (find_session (lower hash) db.sessions))
        × (after ≡ db)
  unfolding find_session_by_token_hash normalize_hash ◌>>=◌ lift
  session-granted hash db e = ground arith

  token-granted :
      (hash : String) (db : AccessDb) {found : Option AgentTokenRecord} {after : AccessDb}
      → find_agent_token_by_hash runtime hash db ≡ (granted found, after)
      → (found ≡ Option.map (token_of runtime) (find_token (lower hash) db.tokens)) × (after ≡ db)
  unfolding find_agent_token_by_hash normalize_hash ◌>>=◌ lift
  token-granted hash db e = ground arith

  session-not-agent :
      (held : AuthSession) (hash : String) (db : AccessDb) {token : AgentTokenRecord}
      {after : AccessDb}
      → authenticate_session runtime held hash now db ≡ (granted (agent token), after)
      → ⊥
  unfolding authenticate_session ensure_token_hash ◌>>◌ require return
  session-not-agent held hash db e = ground arith

  active-granted :
      (token : AgentTokenRecord) (hash : String) (db : AccessDb)
      → {principal : AuthPrincipal} {after : AccessDb}
      → authenticate_token runtime hash now (some token) db ≡ (granted principal, after)
      → (principal ≡ agent token)
        × (after ≡ db)
        × (constant_time_hex_equal token.token_hash hash ≡ true)
        × (is_none token.revoked_at ≡ true)
        × (holds_of token.expires_at (λ text. is_past runtime text now) ≡ false)
  unfolding authenticate_token ensure_token_hash require_active_agent_token ◌>>◌ require return
  active-granted token hash db e = ground arith

  agent-token :
      (found : Option AgentTokenRecord) (hash : String) (db : AccessDb)
      → {token : AgentTokenRecord} {after : AccessDb}
      → authenticate_token runtime hash now found db ≡ (granted (agent token), after)
      → (found ≡ some token)
        × (after ≡ db)
        × (constant_time_hex_equal token.token_hash hash ≡ true)
        × (is_none token.revoked_at ≡ true)
        × (holds_of token.expires_at (λ text. is_past runtime text now) ≡ false)
  agent-token none hash db e = absurd (unfold authenticate_token deny in (cc e))
  agent-token (some stored) hash db {token} e =
      let met = active-granted stored hash db e in
      let same : token ≡ stored = cc in rw same (refl, met.1, met.2, met.3, met.4)

  some-map :
      (found : Option TokenRow) (token : AgentTokenRecord)
      → some token ≡ Option.map (token_of runtime) found
      → (row : TokenRow) × (found ≡ some row) × (token ≡ token_of runtime row)
  some-map none token e = cc
  some-map (some row) token e = (row, refl, cc)

  none-map :
      (found : Option SessionRow) → none ≡ Option.map (session_of runtime) found → found ≡ none
  none-map none e = refl
  none-map (some row) e = cc

  agent-found :
      (hash : String) (found : Option AuthSession) (db : AccessDb)
      → {token : AgentTokenRecord} {after : AccessDb}
      → authenticate_found runtime hash now found db ≡ (granted (agent token), after)
      → (found ≡ none) × (authenticate_agent runtime hash now db ≡ (granted (agent token), after))
  unfolding authenticate_found
  agent-found hash (some held) db e = absurd (session-not-agent held hash db e)
  agent-found hash none db e = (refl, e)

  -- A credential is authenticated as an agent's only under the conditions, and the store stays.
  pub agent-granted :
      (db : AccessDb) {token : AgentTokenRecord} {after : AccessDb}
      → authenticate_credential runtime raw now db ≡ (granted (agent token), after)
      → IsAgent db token × (after ≡ db)
  unfolding authenticate_credential authenticate_agent
  agent-granted db {token} {after} e =
      let hashing = bind-granted (hash_bearer_token runtime raw) _ db e in
      let hash = hash-granted db hashing.2 in
      let looking =
        bind-granted (find_session_by_token_hash runtime hashing.0) _ hashing.1 hashing.3 in
      let session = session-granted hashing.0 hashing.1 looking.2 in
      let alone = agent-found hashing.0 looking.0 looking.1 looking.3 in
      let finding = bind-granted (find_agent_token_by_hash runtime hashing.0) _ looking.1 alone.1 in
      let stored = token-granted hashing.0 looking.1 finding.2 in
      let met = agent-token finding.0 hashing.0 finding.1 finding.3 in
      let row =
        some-map (find_token (lower hashing.0) looking.1.tokens) token (sym met.0 ∙ stored.0) in
      let same_db : looking.1 ≡ db = session.2 ∙ hash.2 in
      (
        record {
          sized = hash.0;
          hashed = subst (λ h. is_hex_of 64 (lower h) ≡ true) hash.1 session.0;
          no_session =
              move (λ h (d : AccessDb). find_session (lower h) d.sessions ≡ none) hash.1 hash.2
                (none-map (find_session (lower hashing.0) hashing.1.sessions)
                  (sym alone.0 ∙ session.1));
          row = row.0;
          found =
              move (λ h (d : AccessDb). find_token (lower h) d.tokens ≡ some row.0) hash.1 same_db
                row.1;
          is_token = row.2;
          same_hash = subst (λ h. constant_time_hex_equal token.token_hash h ≡ true) hash.1 met.2;
          unrevoked = met.3;
          lasts = met.4;
        },
        met.1 ∙ stored.1 ∙ same_db,
      )

  pub hash-grants :
      (db : AccessDb)
      → (leb 32 (utf16_length raw) && leb (utf16_length raw) 512) ≡ true
      → hash_bearer_token runtime raw db ≡ (granted (runtime.sha256 raw), db)
  unfolding hash_bearer_token ◌>>◌ require return
  hash-grants db sized = rw sized refl

  pub session-grants :
      (db : AccessDb)
      → is_hex_of 64 hash_of ≡ true
      → find_session_by_token_hash runtime (runtime.sha256 raw) db
        ≡ (granted (Option.map (session_of runtime) (find_session hash_of db.sessions)), db)
  unfolding find_session_by_token_hash normalize_hash ◌>>=◌ lift
  session-grants db hashed = rw hashed refl

  token-grants :
      (db : AccessDb)
      → is_hex_of 64 hash_of ≡ true
      → find_agent_token_by_hash runtime (runtime.sha256 raw) db
        ≡ (granted (Option.map (token_of runtime) (find_token hash_of db.tokens)), db)
  unfolding find_agent_token_by_hash normalize_hash ◌>>=◌ lift
  token-grants db hashed = rw hashed refl

  active-grants :
      (token : AgentTokenRecord) (hash : String) (db : AccessDb)
      → constant_time_hex_equal token.token_hash hash ≡ true
      → is_none token.revoked_at ≡ true
      → holds_of token.expires_at (λ text. is_past runtime text now) ≡ false
      → authenticate_token runtime hash now (some token) db ≡ (granted (agent token), db)
  unfolding authenticate_token ensure_token_hash require_active_agent_token ◌>>◌ require return
  active-grants token hash db same unrevoked lasts = rw (same, unrevoked, lasts) refl

  -- Under the conditions a credential is authenticated as an agent's.
  pub agent-grants :
      (db : AccessDb) (token : AgentTokenRecord)
      → IsAgent db token
      → authenticate_credential runtime raw now db ≡ (granted (agent token), db)
  unfolding authenticate_credential authenticate_found authenticate_agent ◌>>=◌
  agent-grants db token a =
      rw
        (
          hash-grants db a.sized,
          session-grants db a.hashed,
          a.no_session,
          token-grants db a.hashed,
          a.found,
        )
        (rw (← a.is_token)
          (active-grants token (runtime.sha256 raw) db a.same_hash a.unrevoked a.lasts))
