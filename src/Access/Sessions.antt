-- ===== src/Access/Sessions.antt =====
-- The credential of a session that was opened.
use zadper.Common.{
  ℕ, ◌+◌, ◌≡◌, ap, sym, subst, ◌∙◌, String, true, Option, none, some, ltb, if◌then◌else◌, ok,
  eq_iff, arith,
}
use zadper.Common.Text.{lower, is_hex_of}
use zadper.Payment.Runtime.{Runtime}
use zadper.Payment.Authorization.{normalize_address}
use zadper.Access.Tables.{session, AuthChallenge, AuthSession, AccessDb, session_expired}
use zadper.Access.Acts.{
  granted, denied, return, require, ◌>>◌, ◌>>=◌, bind-granted, seq-granted, require-granted,
}
use zadper.Access.Messages.{SignedInput, Deployment, Draw, Times, session_ttl_ms}
use zadper.Access.Credentials.{
  operator, constant_time_hex_equal, ensure_token_hash, authenticate_session, authenticate_found,
  authenticate_credential,
}
use zadper.Access.Challenges.{
  verify_signature, use_challenge, require_usable_challenge, create_session,
}
use zadper.Access.Usable.{require_usable_challenge-granted}
use zadper.Access.Known.{hash-grants, session-grants}
use zadper.Access.Issued.{IsIssued, issue_session-IsIssued}

module _ (runtime : Runtime) where
  equal_self :
      (left right : String)
      → left ≡ right
      → is_hex_of 64 (lower right) ≡ true
      → constant_time_hex_equal left right ≡ true
  unfolding constant_time_hex_equal
  equal_self left right same hashed =
      rw (same, hashed) (ground (arith, eq_iff (lower right) (lower right)))

  -- A session that is open is authenticated until its time.
  issued-authenticates :
      (held : AuthSession) (hash : String) (now until : ℕ) (db : AccessDb)
      → constant_time_hex_equal held.token_hash hash ≡ true
      → held.revoked_at ≡ none
      → runtime.parse_date held.expires_at ≡ some until
      → authenticate_session runtime held hash now db
        ≡ (if ltb now until then (granted (operator held), db) else (denied session_expired, db))
  unfolding authenticate_session ensure_token_hash ◌>>◌ require return
  issued-authenticates held hash now until db same unrevoked parsed = ground arith

  credential-authenticates :
      (challenge : AuthChallenge) (created now : ℕ) (made : AuthSession) (token : String)
      (db : AccessDb)
      → runtime.parse_date (runtime.iso (created + session_ttl_ms))
        ≡ some (created + session_ttl_ms)
      → IsIssued runtime challenge created made token db
      → authenticate_credential runtime token now db ≡ (
          if ltb now (created + session_ttl_ms)
          then (granted (operator made), db)
          else (denied session_expired, db))
  unfolding authenticate_credential authenticate_found ◌>>=◌
  credential-authenticates challenge created now made token db parsed issued =
      let same = equal_self made.token_hash (runtime.sha256 token) issued.hash issued.hashed in
      let until = ap runtime.parse_date issued.until ∙ parsed in
      rw
        (
          hash-grants runtime token now db issued.sized,
          session-grants runtime token now db issued.hashed,
          issued.found,
        )
        (subst
          (λ (held : AuthSession).
            authenticate_session runtime held (runtime.sha256 token) now db ≡ (
              if ltb now (created + session_ttl_ms)
              then (granted (operator made), db)
              else (denied session_expired, db)))
          (sym issued.stored)
          (issued-authenticates made (runtime.sha256 token) now (created + session_ttl_ms) db same
            issued.unrevoked until))

  -- Where a session is opened, it is that of the operator whose key was presented; and where the ISO
  -- text of the time an hour later is read as that time, its credential is authenticated as the
  -- session before that time, and as expired from then on.
  pub create_session-authenticates :
      (recover : String → String → Option String) (deployment : Deployment)
      → (input : SignedInput) (draws : ℕ → Draw) (times : Times) (db : AccessDb)
      → (made : AuthSession) (token : String) (after : AccessDb) (now : ℕ)
      → runtime.parse_date (runtime.iso (times.created + session_ttl_ms))
        ≡ some (times.created + session_ttl_ms)
      → create_session runtime recover deployment input draws times db
        ≡ (granted (made, token), after)
      → (normalize_address input.operator_public_key "BotChain public key"
          ≡ ok made.operator_public_key)
        × (authenticate_credential runtime token now after ≡ (
            if ltb now (times.created + session_ttl_ms)
            then (granted (operator made), after)
            else (denied session_expired, after)))
  unfolding create_session verify_signature
  create_session-authenticates recover deployment input draws times db made token after now parsed
        e =
      let usable =
        bind-granted
          (require_usable_challenge runtime recover deployment input session times.tested) _ db e in
      let signed = require-granted _ _ _ usable.1 usable.3 in
      let used =
        seq-granted (use_challenge runtime recover deployment usable.0 times.used) _ usable.1
          signed.1 in
      let met =
        require_usable_challenge-granted runtime recover deployment input session times.tested db
          usable.2 in
      let issued =
        issue_session-IsIssued runtime recover deployment 3 0 usable.0 draws times.created used.0
          used.2 in
      (
        met.2.same_key ∙ ap ok (sym issued.owner),
        credential-authenticates usable.0 times.created now made token after parsed issued,
      )
