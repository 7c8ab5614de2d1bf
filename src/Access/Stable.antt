-- ===== src/Access/Stable.antt =====
-- The properties that the statements on the tables keep.
use zadper.Common.{ℕ, ◌≡◌, String, false, List, ◌∷◌, any}
use zadper.Access.Tables.{ChallengeRow, SessionRow, TokenRow, RevocationRow, AccessDb}
use zadper.Access.Rows.{
  drop_expired, use_rows, breaks_challenge, breaks_session, revoke_session_rows, revoke_token_rows,
  breaks_token,
}

-- A property that the statements on the tables keep; a row that is inserted breaks no constraint,
-- and that of a challenge is admitted.
pub record IsStable (P : AccessDb → Type 0) (Admits : ChallengeRow → Type 0) : Type 0 where
  pub dropping :
      (now : ℕ) (db : AccessDb)
      → P db
      → P (record db { challenges = drop_expired now db.challenges })
  pub using :
      (id : String) (now : ℕ) (db : AccessDb)
      → P db
      → P (record db { challenges = use_rows id now db.challenges })
  pub inserting :
      (new : ChallengeRow) (db : AccessDb)
      → Admits new
      → any (breaks_challenge new) db.challenges ≡ false
      → P db
      → P (record db { challenges = new ∷ db.challenges })
  pub opening :
      (new : SessionRow) (db : AccessDb)
      → any (breaks_session new) db.sessions ≡ false
      → P db
      → P (record db { sessions = new ∷ db.sessions })
  pub closing :
      (id : String) (now : ℕ) (db : AccessDb)
      → P db
      → P (record db { sessions = revoke_session_rows id now db.sessions })
  pub issuing :
      (new : TokenRow) (db : AccessDb)
      → any (breaks_token new) db.tokens ≡ false
      → P db
      → P (record db { tokens = new ∷ db.tokens })
  pub revoking :
      (new : RevocationRow) (db : AccessDb)
      → P db
      → P (record db {
        tokens = revoke_token_rows new.token_id new.revoked_at db.tokens;
        revocations = new ∷ db.revocations;
      })

-- A property of the challenges is kept if the statements on them keep it.
pub record IsStableOn (Q : List ChallengeRow → Type 0) (Admits : ChallengeRow → Type 0)
    : Type 0 where
  pub dropping_on : (now : ℕ) (cs : List ChallengeRow) → Q cs → Q (drop_expired now cs)
  pub using_on : (id : String) (now : ℕ) (cs : List ChallengeRow) → Q cs → Q (use_rows id now cs)
  pub inserting_on :
      (new : ChallengeRow) (cs : List ChallengeRow)
      → Admits new
      → any (breaks_challenge new) cs ≡ false
      → Q cs
      → Q (new ∷ cs)

pub challenges-stable :
    (Q : List ChallengeRow → Type 0) (Admits : ChallengeRow → Type 0)
    → IsStableOn Q Admits
    → IsStable (λ db. Q db.challenges) Admits
challenges-stable Q Admits on = record {
  dropping = λ now db q. on.dropping_on now db.challenges q;
  using = λ id now db q. on.using_on id now db.challenges q;
  inserting = λ new db admitted free q. on.inserting_on new db.challenges admitted free q;
  opening = λ new db free q. q;
  closing = λ id now db q. q;
  issuing = λ new db free q. q;
  revoking = λ new db q. q;
}
