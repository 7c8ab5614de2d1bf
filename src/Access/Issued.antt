-- ===== src/Access/Issued.antt =====
-- What a session that was issued is, and how the store holds it.
use zadper.Common.{
  ℕ, zero, suc, ◌+◌, ◌≡◌, refl, ap, subst, ◌∙◌, String, Bool, true, false, Option, none, some, List,
  ◌∷◌, ◌&&◌, leb, if◌then◌else◌, Bool-cases, inl, inr, ok, eq_iff, arith,
}
use zadper.Common.Text.{lower, utf16_length, is_hex_of}
use zadper.Payment.Runtime.{Runtime}
use zadper.Auditor.Prepare.{normalize_hash}
use zadper.Access.Tables.{AuthChallenge, AuthSession, SessionRow, AccessDb}
use zadper.Access.Acts.{Act, Outcome, granted, return, deny, bind-granted, lift-granted}
use zadper.Access.Store.{session_of, nullable_timestamp, save_session}
use zadper.Access.Rows.{find_session, insert_session}
use zadper.Access.Messages.{Deployment, Draw, session_ttl_ms}
use zadper.Access.Credentials.{hash_bearer_token}
use zadper.Access.Challenges.{new_session, issue_session}
use zadper.Access.Known.{hash-granted}

module _ (runtime : Runtime) where
  insert-granted :
      (new : SessionRow) (db : AccessDb) {after : AccessDb}
      → insert_session new db ≡ (granted true, after)
      → after.sessions ≡ new ∷ db.sessions
  unfolding insert_session
  insert-granted new db e = ground arith

  hash-ok :
      (value what : String) {hash : String}
      → normalize_hash value what ≡ ok hash
      → (is_hex_of 64 (lower value) ≡ true) × (hash ≡ lower value)
  unfolding normalize_hash
  hash-ok value what e = ground arith

  null-ok :
      (value : Option String) (what : String) {time : Option ℕ}
      → value ≡ none
      → nullable_timestamp runtime value what ≡ ok time
      → time ≡ none
  unfolding nullable_timestamp
  null-ok none what h e = cc
  null-ok (some value) what h e = cc

  find-first :
      (row : SessionRow) (rows all_rows : List SessionRow) (hash : String)
      → all_rows ≡ row ∷ rows
      → row.token_hash ≡ hash
      → find_session hash all_rows ≡ some row
  unfolding find_session
  find-first row rows all_rows hash e same = rw (e, same) (ground (arith, eq_iff hash hash))

  session_of-made :
      (row : SessionRow) (made : AuthSession)
      → row.session ≡ made
      → row.revoked_at ≡ none
      → made.revoked_at ≡ none
      → session_of runtime row ≡ made
  session_of-made row made e f g = ground arith

  -- A session that is saved stands first, under its hash.
  save-granted :
      (made : AuthSession) (db : AccessDb) {after : AccessDb}
      → made.revoked_at ≡ none
      → save_session runtime made db ≡ (granted true, after)
      → (is_hex_of 64 (lower made.token_hash) ≡ true)
        × (row : SessionRow) × (find_session (lower made.token_hash) after.sessions ≡ some row)
        × (session_of runtime row ≡ made)
  unfolding save_session
  save-granted made db open_still e =
      let key = lift-granted _ _ db e in
      let hash = lift-granted (normalize_hash made.token_hash "session.tokenHash") _ db key.2 in
      let created = lift-granted _ _ db hash.2 in
      let expires = lift-granted _ _ db created.2 in
      let revoked =
        lift-granted (nullable_timestamp runtime made.revoked_at "session.revokedAt") _ db
          expires.2 in
      let stored = insert-granted _ db revoked.2 in
      let row : SessionRow = record {
        id = made.id;
        operator_key = key.0;
        token_hash = hash.0;
        created_at = created.0;
        expires_at = expires.0;
        revoked_at = revoked.0;
        session = made;
      } in
      let known = hash-ok made.token_hash "session.tokenHash" hash.1 in
      let unrevoked = null-ok made.revoked_at "session.revokedAt" open_still revoked.1 in
      (
        known.0,
        row,
        find-first row db.sessions _ (lower made.token_hash) stored known.1,
        session_of-made row made refl unrevoked open_still,
      )

  -- What a session that was issued is.
  pub record IsIssued (challenge : AuthChallenge) (now : ℕ) (made : AuthSession) (token : String)
      (after : AccessDb) : Type 0 where
    pub sized : (leb 32 (utf16_length token) && leb (utf16_length token) 512) ≡ true
    pub hashed : is_hex_of 64 (lower (runtime.sha256 token)) ≡ true
    pub hash : made.token_hash ≡ runtime.sha256 token
    pub owner : made.operator_public_key ≡ challenge.operator_public_key
    pub until : made.expires_at ≡ runtime.iso (now + session_ttl_ms)
    pub unrevoked : made.revoked_at ≡ none
    pub row : SessionRow
    pub found : find_session (lower (runtime.sha256 token)) after.sessions ≡ some row
    pub stored : session_of runtime row ≡ made

  if-true {ℓ} :
      {A : Type ℓ} (test : Bool) (first second : Act A) (db : AccessDb)
      {result : Outcome A × AccessDb}
      → test ≡ true
      → (if test then first else second) db ≡ result
      → first db ≡ result
  if-true true first second db h e = e
  if-true false first second db h e = cc

  if-false {ℓ} :
      {A : Type ℓ} (test : Bool) (first second : Act A) (db : AccessDb)
      {result : Outcome A × AccessDb}
      → test ≡ false
      → (if test then first else second) db ≡ result
      → second db ≡ result
  if-false true first second db h e = cc
  if-false false first second db h e = e

  returned {ℓ} :
      {A : Type ℓ} {a value : A} {db after : AccessDb}
      → return a db ≡ (granted value, after)
      → (a ≡ value) × (db ≡ after)
  unfolding return
  returned e = (cc, cc)

  module _ (recover : String → String → Option String) (deployment : Deployment) where
    first_saved :
        (challenge : AuthChallenge) (draw : Draw) (now : ℕ) (hash : String) (db after : AccessDb)
        → hash ≡ runtime.sha256 draw.bytes
        → (leb 32 (utf16_length draw.bytes) && leb (utf16_length draw.bytes) 512) ≡ true
        → save_session runtime (new_session runtime recover deployment challenge draw hash now) db
          ≡ (granted true, after)
        → IsIssued challenge now
            (new_session runtime recover deployment challenge draw hash now)
            draw.bytes
            after
    first_saved challenge draw now hash db after same sized saved =
        let fresh : AuthSession = new_session runtime recover deployment challenge draw hash now in
        let kept = save-granted fresh db refl saved in
        record {
          sized = sized;
          hashed = subst (λ h. is_hex_of 64 (lower h) ≡ true) same kept.0;
          hash = same;
          owner = refl;
          until = refl;
          unrevoked = refl;
          row = kept.1;
          found = subst (λ h. find_session (lower h) after.sessions ≡ some kept.1) same kept.2;
          stored = kept.3;
        }

    pub issue_session-IsIssued :
        (left attempt : ℕ) (challenge : AuthChallenge) (draws : ℕ → Draw) (now : ℕ) (db : AccessDb)
        → {made : AuthSession} {token : String} {after : AccessDb}
        → issue_session runtime recover deployment left attempt challenge draws now db
          ≡ (granted (made, token), after)
        → IsIssued challenge now made token after
    unfolding issue_session
    issue_session-IsIssued zero attempt challenge draws now db e = absurd (unfold deny in (cc e))
    issue_session-IsIssued (suc left) attempt challenge draws now db {made} {token} {after} e =
        let raw : String = (draws attempt).bytes in
        let hashing = bind-granted (hash_bearer_token runtime raw) _ db e in
        let fresh : AuthSession =
          new_session runtime recover deployment challenge (draws attempt) hashing.0 now in
        let saving = bind-granted (save_session runtime fresh) _ hashing.1 hashing.3 in
        elim (Bool-cases saving.0) [
          | inl stored ↦
              let saved = saving.2 ∙ ap (λ b. (granted b, saving.1)) stored in
              let hash = hash-granted runtime raw now db hashing.2 in
              let first =
                first_saved challenge (draws attempt) now hashing.0 hashing.1 saving.1 hash.1 hash.0
                  saved in
              let answer = returned (if-true saving.0 _ _ saving.1 stored saving.3) in
              subst (λ d. IsIssued challenge now made token d) answer.1
                (subst (λ (p : AuthSession × String). IsIssued challenge now (p.0) (p.1) saving.1)
                  answer.0 first)
          | inr taken ↦
              issue_session-IsIssued left (attempt + 1) challenge draws now saving.1
                (if-false saving.0 _ _ saving.1 taken saving.3)
        ]
