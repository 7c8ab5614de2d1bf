-- ===== src/Access/Rows.antt =====
-- apps/report-api/src/auditor/sqliteRepository.ts: the statements on the rows of challenges,
-- sessions and agent tokens.
use zadper.Common.{
  ℕ, max, String, Bool, true, false, Option, none, some, List, [], ◌∷◌, ◌&&◌, ◌||◌, any, ltb, leb,
  ◌==◌, ◌===◌, if◌then◌else◌, is_none, Result, ok, throw, type_error,
}
use Prim.Native.String
use zadper.Payment.Authorization.{max_safe_integer}
use zadper.Access.Tables.{ChallengeRow, SessionRow, TokenRow, RevocationRow, AccessDb}
use zadper.Access.Acts.{Act, granted}

unfoldable pub positive_integer : ℕ → String → Result ℕ
positive_integer value field =
    if ltb 0 value && leb value max_safe_integer
    then ok value
    else throw (type_error (String.◌++◌ field " must be a positive safe integer"))

-- `SELECT ... WHERE id = ?` and `WHERE token_hash = ?`.
unfoldable pub find_challenge : String → List ChallengeRow → Option ChallengeRow
find_challenge id [] = none
find_challenge id (c ∷ cs) = if c.id === id then some c else find_challenge id cs

unfoldable pub find_session : String → List SessionRow → Option SessionRow
find_session hash [] = none
find_session hash (s ∷ ss) = if s.token_hash === hash then some s else find_session hash ss

unfoldable pub find_token : String → List TokenRow → Option TokenRow
find_token hash [] = none
find_token hash (t ∷ ts) = if t.token_hash === hash then some t else find_token hash ts

unfoldable pub find_token_id : String → List TokenRow → Option TokenRow
find_token_id id [] = none
find_token_id id (t ∷ ts) = if t.id === id then some t else find_token_id id ts

-- `DELETE FROM auth_challenges WHERE expires_at <= ?`.
unfoldable pub drop_expired : ℕ → List ChallengeRow → List ChallengeRow
drop_expired now [] = []
drop_expired now (c ∷ cs) =
    let rest = drop_expired now cs in if leb c.expires_at now then rest else c ∷ rest

-- `used_at IS NULL AND issued_at <= ? AND expires_at > ?`, of the challenge.
unfoldable pub is_usable : String → ℕ → ChallengeRow → Bool
is_usable id now c =
    c.id === id && (is_none c.used_at && (leb c.issued_at now && ltb now c.expires_at))

-- `UPDATE auth_challenges SET used_at = ?`.
unfoldable pub use_rows : String → ℕ → List ChallengeRow → List ChallengeRow
unfolding is_usable
use_rows id now [] = []
use_rows id now (c ∷ cs) =
    (if is_usable id now c then record c { used_at = some now } else c) ∷ use_rows id now cs

-- `UPDATE auth_sessions SET revoked_at = ? WHERE id = ? AND revoked_at IS NULL`.
unfoldable pub revoke_session_rows : String → ℕ → List SessionRow → List SessionRow
revoke_session_rows id now [] = []
revoke_session_rows id now (s ∷ ss) =
    (if s.id === id && is_none s.revoked_at then record s { revoked_at = some now } else s)
    ∷ revoke_session_rows id now ss

-- `UPDATE agent_tokens SET revoked_at = ? WHERE id = ? AND revoked_at IS NULL`.
unfoldable pub revoke_token_rows : String → ℕ → List TokenRow → List TokenRow
revoke_token_rows id now [] = []
revoke_token_rows id now (t ∷ ts) =
    (if t.id === id && is_none t.revoked_at then record t { revoked_at = some now } else t)
    ∷ revoke_token_rows id now ts

-- `INSERT OR IGNORE`: a row that breaks a constraint of uniqueness is left out.
abbrev pub breaks_challenge : ChallengeRow → ChallengeRow → Bool
breaks_challenge new c = c.id === new.id || c.nonce === new.nonce

unfoldable pub insert_challenge : ChallengeRow → Act Bool
insert_challenge new db =
    if any (breaks_challenge new) db.challenges
    then (granted false, db)
    else (granted true, record db { challenges = new ∷ db.challenges })

abbrev pub breaks_session : SessionRow → SessionRow → Bool
breaks_session new s = s.id === new.id || s.token_hash === new.token_hash

unfoldable pub insert_session : SessionRow → Act Bool
insert_session new db =
    if any (breaks_session new) db.sessions
    then (granted false, db)
    else (granted true, record db { sessions = new ∷ db.sessions })

abbrev pub breaks_token : TokenRow → TokenRow → Bool
breaks_token new t =
    t.id === new.id
    || t.token_hash === new.token_hash
    || t.operator_key === new.operator_key && t.revision == new.revision

unfoldable pub insert_token : TokenRow → Act Bool
insert_token new db =
    if any (breaks_token new) db.tokens
    then (granted false, db)
    else (granted true, record db { tokens = new ∷ db.tokens })

abbrev pub breaks_revocation : RevocationRow → RevocationRow → Bool
breaks_revocation new r =
    r.token_id === new.token_id
    || r.action_hash === new.action_hash
    || r.operator_key === new.operator_key && r.revision == new.revision

-- `SELECT COALESCE(MAX(revision), 0)` of the tokens and the revocations of an operator.
unfoldable pub max_token_revision : String → List TokenRow → ℕ
max_token_revision operator [] = 0
max_token_revision operator (t ∷ ts) =
    max (if t.operator_key === operator then t.revision else 0) (max_token_revision operator ts)

unfoldable pub max_revocation_revision : String → List RevocationRow → ℕ
max_revocation_revision operator [] = 0
max_revocation_revision operator (r ∷ rs) =
    max (if r.operator_key === operator then r.revision else 0)
      (max_revocation_revision operator rs)

unfoldable pub latest_revision : String → AccessDb → ℕ
unfolding max_token_revision max_revocation_revision
latest_revision operator db =
    max (max_token_revision operator db.tokens) (max_revocation_revision operator db.revocations)
