-- ===== src/Access/Revoked.antt =====
-- An agent token that has been revoked authenticates nothing.
use zadper.Common.{
  ℕ, ◌≡◌, ◌≢◌, refl, sym, subst, ◌∙◌, String, Bool, true, false, Option, some, List, [], ◌∷◌, ◌&&◌,
  any, is_none, ◌===◌, Bool-cases, Option-cases, inl, inr, eq_iff, arith,
}
use zadper.Common.Text.{lower}
use zadper.Payment.Runtime.{Runtime}
use zadper.Access.Tables.{AgentTokenRecord, AgentTokenRevocation, TokenRow, RevocationRow, AccessDb}
use zadper.Access.Acts.{granted, lift-granted}
use zadper.Access.Store.{can_revoke, may_revoke, revoke_transaction, revoke_agent_token}
use zadper.Access.Rows.{find_token, find_token_id, breaks_token, revoke_token_rows}
use zadper.Access.Credentials.{agent, authenticate_credential}
use zadper.Access.Known.{agent-granted}
use zadper.Access.Messages.{Deployment}
use zadper.Access.Stable.{IsStable}
use zadper.Access.Calls.{Call, empty, run, run-keeps, All-any}

abbrev has_hash : String → TokenRow → Bool
has_hash hash t = t.token_hash === hash

abbrev is_live_token : String → TokenRow → Bool
is_live_token hash t = t.token_hash === hash && is_none t.revoked_at

-- Each token has its own hash.
abbrev HasOwnHashes : List TokenRow → Type 0
HasOwnHashes [] = Unit
HasOwnHashes (t ∷ ts) = (any (has_hash t.token_hash) ts ≡ false) × HasOwnHashes ts

-- A token with the hash is there, and none with it is live.
abbrev IsDead : String → List TokenRow → Type 0
IsDead hash ts = (any (has_hash hash) ts ≡ true) × (any (is_live_token hash) ts ≡ false)

module _ (id : String) (now : ℕ) where
  any-revoke-hash :
      (hash : String) (ts : List TokenRow)
      → any (has_hash hash) (revoke_token_rows id now ts) ≡ any (has_hash hash) ts
  unfolding revoke_token_rows
  any-revoke-hash hash [] = refl
  any-revoke-hash hash (t ∷ ts) = ground (arith, any-revoke-hash hash ts)

  revoke-live :
      (hash : String) (ts : List TokenRow)
      → any (is_live_token hash) ts ≡ false
      → any (is_live_token hash) (revoke_token_rows id now ts) ≡ false
  unfolding revoke_token_rows
  revoke-live hash [] h = h
  revoke-live hash (t ∷ ts) h = ground (arith, revoke-live hash ts)

  revoke-HasOwnHashes :
      (ts : List TokenRow) → HasOwnHashes ts → HasOwnHashes (revoke_token_rows id now ts)
  unfolding revoke_token_rows
  revoke-HasOwnHashes [] h = h
  revoke-HasOwnHashes (t ∷ ts) h =
      ground (arith, revoke-HasOwnHashes ts h.1, any-revoke-hash t.token_hash ts)

free-hash :
    (new : TokenRow) (ts : List TokenRow)
    → any (breaks_token new) ts ≡ false
    → any (has_hash new.token_hash) ts ≡ false
free-hash new [] free = refl
free-hash new (t ∷ ts) free = ground (arith, free-hash new ts)

not_live :
    (hash : String) (ts : List TokenRow)
    → any (has_hash hash) ts ≡ false
    → any (is_live_token hash) ts ≡ false
not_live hash [] h = h
not_live hash (t ∷ ts) h = ground (arith, not_live hash ts)

own-stable : IsStable (λ db. HasOwnHashes db.tokens) (λ row. Unit)
own-stable = record {
  dropping = λ now db p. p;
  using = λ id now db p. p;
  inserting = λ new db admitted free p. p;
  opening = λ new db free p. p;
  closing = λ id now db p. p;
  issuing = λ new db free p. (free-hash new db.tokens free, p);
  revoking = λ new db p. revoke-HasOwnHashes new.token_id new.revoked_at db.tokens p;
}

-- A new token has another hash than one that is there.
issue-IsDead :
    (hash : String) (new : TokenRow) (ts : List TokenRow)
    → any (breaks_token new) ts ≡ false
    → IsDead hash ts
    → IsDead hash (new ∷ ts)
issue-IsDead hash new ts free dead = elim (Bool-cases (new.token_hash === hash)) [
  | inr other ↦ ground arith
  | inl same ↦
      let absent = free-hash new ts free in
      absurd (
        ground (
          arith,
          eq_iff new.token_hash hash,
          dead.0,
          subst (λ h. any (has_hash h) ts ≡ false) ((eq_iff new.token_hash hash).0 same) absent,
        ))
]

IsDead-stable : (hash : String) → IsStable (λ db. IsDead hash db.tokens) (λ row. Unit)
IsDead-stable hash = record {
  dropping = λ now db p. p;
  using = λ id now db p. p;
  inserting = λ new db admitted free p. p;
  opening = λ new db free p. p;
  closing = λ id now db p. p;
  issuing = λ new db free p. issue-IsDead hash new db.tokens free p;
  revoking = λ new db p. (
    any-revoke-hash new.token_id new.revoked_at hash db.tokens ∙ p.0,
    revoke-live new.token_id new.revoked_at hash db.tokens p.1,
  );
}

present :
    (id : String) (ts : List TokenRow) (row : TokenRow)
    → find_token_id id ts ≡ some row
    → any (has_hash row.token_hash) ts ≡ true
unfolding find_token_id
present id [] row e = cc
present id (t ∷ ts) row e = elim (Bool-cases (t.id === id)) [
  | inl same ↦ ground (arith, eq_iff t.token_hash t.token_hash)
  | inr other ↦ ground (arith, present id ts row)
]

-- Once a token is revoked, no token with its hash is live.
revoke-IsDead :
    (id : String) (now : ℕ) (ts : List TokenRow) (row : TokenRow)
    → HasOwnHashes ts
    → find_token_id id ts ≡ some row
    → any (is_live_token row.token_hash) (revoke_token_rows id now ts) ≡ false
unfolding find_token_id revoke_token_rows
revoke-IsDead id now [] row own e = refl
revoke-IsDead id now (t ∷ ts) row own e = elim (Bool-cases (t.id === id)) [
  | inl same ↦
      let first : t ≡ row = ground arith in
      let alone = revoke-live id now t.token_hash ts (not_live t.token_hash ts own.0) in
      subst
        (λ (r : TokenRow).
          any (is_live_token r.token_hash) (revoke_token_rows id now (t ∷ ts)) ≡ false)
        first (ground (arith, alone))
  | inr other ↦
      let later : find_token_id id ts ≡ some row = ground arith in
      let rest = revoke-IsDead id now ts row own.1 later in
      let there = present id ts row later in
      elim (Bool-cases (t.token_hash === row.token_hash)) [
        | inr differs ↦ ground (arith, rest)
        | inl same_hash ↦
            let absent : any (has_hash row.token_hash) ts ≡ false =
              subst (λ h. any (has_hash h) ts ≡ false)
                ((eq_iff t.token_hash row.token_hash).0 same_hash) own.0 in
            absurd (ground (arith, there, absent))
      ]
]

find_token-dead :
    (hash : String) (ts : List TokenRow) (row : TokenRow)
    → any (is_live_token hash) ts ≡ false
    → find_token hash ts ≡ some row
    → is_none row.revoked_at ≡ false
unfolding find_token
find_token-dead hash [] row dead e = cc
find_token-dead hash (t ∷ ts) row dead e = ground (arith, find_token-dead hash ts row)

module _ (runtime : Runtime) (recover : String → String → Option String)
    (deployment : Deployment) where
  found_to_revoke :
      (new : RevocationRow) (db : AccessDb)
      → can_revoke runtime new db ≡ true
      → (row : TokenRow) × (find_token_id new.token_id db.tokens ≡ some row)
  unfolding can_revoke may_revoke
  found_to_revoke new db can = elim (Option-cases (find_token_id new.token_id db.tokens)) [
    | inr (row, found) ↦ (row, found)
    | inl missing ↦ absurd (ground arith)
  ]

  transaction-granted :
      (new : RevocationRow) (db : AccessDb) {after : AccessDb}
      → revoke_transaction runtime new db ≡ (granted true, after)
      → (can_revoke runtime new db ≡ true)
        × (after.tokens ≡ revoke_token_rows new.token_id new.revoked_at db.tokens)
  unfolding revoke_transaction
  transaction-granted new db e = ground arith

  -- A revocation that answers true has revoked the token with the id.
  revoke-granted :
      (revocation : AgentTokenRevocation) (db : AccessDb) {after : AccessDb}
      → revoke_agent_token runtime revocation db ≡ (granted true, after)
      → (row : TokenRow) × (now : ℕ) × (find_token_id revocation.token_id db.tokens ≡ some row)
        × (after.tokens ≡ revoke_token_rows revocation.token_id now db.tokens)
  unfolding revoke_agent_token
  revoke-granted revocation db e =
      let key = lift-granted _ _ db e in
      let time = lift-granted _ _ db key.2 in
      let number = lift-granted _ _ db time.2 in
      let hash = lift-granted _ _ db number.2 in
      let done = transaction-granted _ db hash.2 in
      let row = found_to_revoke _ db done.0 in (row.0, time.0, row.1, done.1)

  revoked-IsDead :
      (revocation : AgentTokenRevocation) (db : AccessDb) (after : AccessDb) (row : TokenRow)
      → HasOwnHashes db.tokens
      → revoke_agent_token runtime revocation db ≡ (granted true, after)
      → find_token_id revocation.token_id db.tokens ≡ some row
      → IsDead row.token_hash after.tokens
  revoked-IsDead revocation db after row own revoked found =
      let done = revoke-granted revocation db revoked in
      let id : String = revocation.token_id in
      subst (IsDead row.token_hash) (sym done.3) (
        any-revoke-hash id done.1 row.token_hash db.tokens ∙ present id db.tokens row found,
        revoke-IsDead id done.1 db.tokens row own found,
      )

  dead-unauthenticated :
      (raw : String) (now : ℕ) (db : AccessDb) {token : AgentTokenRecord} {last : AccessDb}
      → IsDead (lower (runtime.sha256 raw)) db.tokens
      → authenticate_credential runtime raw now db ≡ (granted (agent token), last)
      → ⊥
  dead-unauthenticated raw now db dead e =
      let known = (agent-granted runtime raw now db e).0 in
      let revoked =
        find_token-dead (lower (runtime.sha256 raw)) db.tokens known.row dead.1 known.found in
      ground (arith, revoked, known.unrevoked, known.is_token)

  -- After any calls from an empty store, once the revocation of an agent token has answered true,
  -- no credential with the hash of that token is authenticated as an agent's, whatever calls follow.
  pub revoked-unauthenticated :
      (before : List Call) (revocation : AgentTokenRevocation) (row : TokenRow) (after : AccessDb)
      → (later : List Call) (raw : String) (now : ℕ) (token : AgentTokenRecord) (last : AccessDb)
      → find_token_id revocation.token_id (run runtime recover deployment before empty).tokens
        ≡ some row
      → revoke_agent_token runtime revocation (run runtime recover deployment before empty)
        ≡ (granted true, after)
      → lower (runtime.sha256 raw) ≡ row.token_hash
      → authenticate_credential runtime raw now (run runtime recover deployment later after)
        ≢ (granted (agent token), last)
  revoked-unauthenticated before revocation row after later raw now token last found revoked same
        e =
      let start : AccessDb = run runtime recover deployment before empty in
      let own =
        run-keeps runtime recover deployment _ _ own-stable before empty (All-any before) tt in
      let dead = revoked-IsDead revocation start after row own revoked found in
      let still =
        run-keeps runtime recover deployment _ _ (IsDead-stable row.token_hash) later after
          (All-any later) dead in
      let last_db : AccessDb = run runtime recover deployment later after in
      dead-unauthenticated raw now last_db (subst (λ h. IsDead h last_db.tokens) (sym same) still) e
