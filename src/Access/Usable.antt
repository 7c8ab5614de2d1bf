-- ===== src/Access/Usable.antt =====
-- When a challenge that is presented may be used.
use zadper.Common.{
  ℕ, ◌≡◌, refl, String, true, false, Option, none, some, inl, inr, is_none, ltb, ◌===◌, holds_of,
  ok, Result-cases, subst, sym, eq_iff, arith,
}
use mathlib.Core.Option
use zadper.Payment.Runtime.{Runtime}
use zadper.Payment.Authorization.{normalize_address}
use zadper.Access.Tables.{Purpose, same_purpose, AuthChallenge, ChallengeRow, AccessDb}
use zadper.Access.Acts.{granted, require-granted, ◌>>=◌, ◌>>◌, lift, require, return, deny}
use zadper.Access.Store.{get_challenge, challenge_of}
use zadper.Access.Rows.{find_challenge}
use zadper.Access.Messages.{SignedInput, Deployment}
use zadper.Access.Credentials.{is_past}
use zadper.Access.Challenges.{usable_challenge, require_usable_challenge}

module _ (runtime : Runtime) (recover : String → String → Option String)
    (deployment : Deployment) where
  -- The conditions under which a challenge may be used.
  pub record IsUsable (input : SignedInput) (purpose : Purpose) (now : ℕ)
      (challenge : AuthChallenge) : Type 0 where
    pub unused : is_none challenge.used_at ≡ true
    pub same_kind : same_purpose challenge.purpose purpose ≡ true
    pub same_key :
        normalize_address input.operator_public_key "BotChain public key"
        ≡ ok challenge.operator_public_key
    pub same_origin : (challenge.origin === input.origin) ≡ true
    pub lasts : is_past runtime challenge.expires_at now ≡ false
    pub begun : holds_of (runtime.parse_date challenge.issued_at) (λ time. ltb now time) ≡ false

  usable_challenge-granted :
      (input : SignedInput) (purpose : Purpose) (now : ℕ) (challenge : AuthChallenge)
      (db : AccessDb)
      → IsUsable input purpose now challenge
      → usable_challenge runtime recover deployment input purpose now (some challenge) db
        ≡ (granted challenge, db)
  unfolding usable_challenge ◌>>=◌ ◌>>◌ lift require return
  usable_challenge-granted input purpose now challenge db u =
      ground (arith, eq_iff challenge.operator_public_key challenge.operator_public_key)

  granted-usable_challenge :
      (input : SignedInput) (purpose : Purpose) (now : ℕ) (stored : AuthChallenge) (db : AccessDb)
      → {challenge : AuthChallenge} {after : AccessDb}
      → usable_challenge runtime recover deployment input purpose now (some stored) db
        ≡ (granted challenge, after)
      → (stored ≡ challenge) × (after ≡ db) × IsUsable input purpose now stored
  unfolding usable_challenge ◌>>=◌ ◌>>◌ lift require return
  granted-usable_challenge input purpose now stored db e =
      elim (Result-cases (normalize_address input.operator_public_key "BotChain public key")) [
        | inl (key, valid) ↦ ground (arith, eq_iff stored.operator_public_key key)
        | inr (exception, invalid) ↦ absurd (ground arith)
      ]

  IsUsable-found :
      (input : SignedInput) (purpose : Purpose) (now : ℕ) (found : Option ChallengeRow)
      (db : AccessDb)
      → {challenge : AuthChallenge} {after : AccessDb}
      → usable_challenge runtime recover deployment input purpose now
          (Option.map (challenge_of runtime) found)
          db
        ≡ (granted challenge, after)
      → (after ≡ db)
        × IsUsable input purpose now challenge
        × (row : ChallengeRow) × (found ≡ some row)
        × (challenge ≡ challenge_of runtime row)
  IsUsable-found input purpose now none db e = absurd (unfold usable_challenge deny in (cc e))
  IsUsable-found input purpose now (some row) db e =
      let met = granted-usable_challenge input purpose now (challenge_of runtime row) db e in
      (met.1, subst (IsUsable input purpose now) met.0 met.2, row, refl, sym met.0)

  -- A challenge that may be used is the one stored under its id, is presented to this deployment,
  -- and meets the conditions; the store stays as it was.
  pub require_usable_challenge-granted :
      (input : SignedInput) (purpose : Purpose) (now : ℕ) (db : AccessDb)
      → {challenge : AuthChallenge} {after : AccessDb}
      → require_usable_challenge runtime recover deployment input purpose now db
        ≡ (granted challenge, after)
      → ((input.origin === deployment.public_origin) ≡ true)
        × (after ≡ db)
        × IsUsable input purpose now challenge
        × (row : ChallengeRow) × (find_challenge input.challenge_id db.challenges ≡ some row)
        × (challenge ≡ challenge_of runtime row)
  unfolding require_usable_challenge get_challenge ◌>>=◌
  require_usable_challenge-granted input purpose now db e =
      let here = require-granted (input.origin === deployment.public_origin) _ _ db e in
      let met =
        IsUsable-found input purpose now (find_challenge input.challenge_id db.challenges) db
          here.1 in
      (here.0, met.0, met.1, met.2, met.3, met.4)
