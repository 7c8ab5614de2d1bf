-- ===== src/Access/Calls.antt =====
-- The calls that write to the store, and what they keep of its challenges: each id stands once, and
-- what is spent stays spent unless a challenge with its id is issued.
use zadper.Common.{
  ℕ, ◌≡◌, refl, sym, ◌∙◌, String, Bool, true, false, Option, List, [], ◌∷◌, any, ◌===◌, inl, inr,
  Result-cases, All, arith,
}
use zadper.Payment.Runtime.{Runtime}
use zadper.Auditor.Prepare.{iso_timestamp}
use zadper.Access.Tables.{
  AuthChallenge, AgentTokenRecord, AgentTokenRevocation, ChallengeRow, AccessDb,
}
use zadper.Access.Acts.{Outcome, granted, denied, ◌>>=◌, lift, require}
use zadper.Access.Store.{consume_challenge, revoke_session, save_agent_token, revoke_agent_token}
use zadper.Access.Rows.{breaks_challenge}
use zadper.Access.Messages.{
  ChallengeInput, SignedInput, OperatorActionDescriptor, Deployment, Draw, Times,
}
use zadper.Access.Challenges.{
  issue_challenge, use_challenge, create_session, verify_operator_action,
}
use zadper.Access.Spending.{
  IsKeyed, is_unused, has_id, drop_expired-spent, use_rows-spent, drop_expired-IsKeyed,
  use_rows-IsKeyed, use_rows-uses,
}
use zadper.Access.Keeping.{
  issue_challenge-Keeps, create_session-Keeps, verify_operator_action-Keeps, revoke_session-Keeps,
  save_agent_token-Keeps, revoke_agent_token-Keeps,
}
use zadper.Access.Stable.{IsStable, challenges-stable}

-- A presentation of a signed challenge.
pub data Attempt : Type 0 where
  opens : SignedInput → (ℕ → Draw) → Times → Attempt
  signs : SignedInput → OperatorActionDescriptor → Times → Attempt

abbrev pub input_of : Attempt → SignedInput
input_of (opens input draws times) = input
input_of (signs input action times) = input

-- The calls that write to the store.
pub data Call : Type 0 where
  issues : ChallengeInput → Draw → ℕ → ℕ → Call
  attempts : Attempt → Call
  revokes_session : String → String → Call
  saves_token : AgentTokenRecord → Call
  revokes_token : AgentTokenRevocation → Call

abbrev pub is_granted {ℓ} : {A : Type ℓ} → Outcome A → Bool
is_granted (granted a) = true
is_granted (denied error) = false

-- Whether a call issues a challenge with an id.
abbrev pub issues_id : String → Call → Bool
issues_id id (issues input draw now repository_now) = draw.id === id
issues_id id _ = false

-- The store at the start.
abbrev pub empty : AccessDb
empty = record { challenges = []; sessions = []; tokens = []; revocations = [] }

free-id :
    (new : ChallengeRow) (cs : List ChallengeRow)
    → any (breaks_challenge new) cs ≡ false
    → any (has_id new.id) cs ≡ false
free-id new [] free = refl
free-id new (c ∷ cs) free = ground (arith, free-id new cs)

IsKeyed-stable : IsStable (λ db. IsKeyed db.challenges) (λ row. row.challenge.id ≡ row.id)
IsKeyed-stable = challenges-stable IsKeyed _ (record {
  dropping_on = drop_expired-IsKeyed;
  using_on = use_rows-IsKeyed;
  inserting_on = λ new cs admitted free q. (free-id new cs free, admitted, q);
})

pub spent-stable :
    (id : String)
    → IsStable (λ db. any (is_unused id) db.challenges ≡ false) (λ row. (row.id === id) ≡ false)
spent-stable id =
    challenges-stable (λ cs. any (is_unused id) cs ≡ false) _
      (record {
        dropping_on = drop_expired-spent id;
        using_on = λ other now cs q. use_rows-spent id now other cs q;
        inserting_on = λ new cs admitted free q. ground arith;
      })

-- A challenge that is issued by the call is admitted.
abbrev pub AdmitsCall : (ChallengeRow → Type 0) → Call → Type 0
AdmitsCall Admits (issues input draw now repository_now) =
    (row : ChallengeRow) → row.id ≡ draw.id → row.challenge.id ≡ draw.id → Admits row
AdmitsCall Admits _ = Unit

All-keyed : (calls : List Call) → All (AdmitsCall (λ row. row.challenge.id ≡ row.id)) calls
All-keyed [] = tt
All-keyed (issues input draw now repository_now ∷ calls) =
    ((λ row e stored. stored ∙ sym e), All-keyed calls)
All-keyed (attempts attempt ∷ calls) = (tt, All-keyed calls)
All-keyed (revokes_session id revoked_at ∷ calls) = (tt, All-keyed calls)
All-keyed (saves_token token ∷ calls) = (tt, All-keyed calls)
All-keyed (revokes_token revocation ∷ calls) = (tt, All-keyed calls)

All-others :
    (id : String) (calls : List Call)
    → any (issues_id id) calls ≡ false
    → All (AdmitsCall (λ row. (row.id === id) ≡ false)) calls
All-others id [] h = tt
All-others id (issues input draw now repository_now ∷ calls) h =
    ((λ row e stored. rw e (ground arith)), All-others id calls (ground arith))
All-others id (attempts attempt ∷ calls) h = (tt, All-others id calls h)
All-others id (revokes_session session_id revoked_at ∷ calls) h = (tt, All-others id calls h)
All-others id (saves_token token ∷ calls) h = (tt, All-others id calls h)
All-others id (revokes_token revocation ∷ calls) h = (tt, All-others id calls h)

pub All-any : (calls : List Call) → All (AdmitsCall (λ row. Unit)) calls
All-any [] = tt
All-any (issues input draw now repository_now ∷ calls) = ((λ row e stored. tt), All-any calls)
All-any (attempts attempt ∷ calls) = (tt, All-any calls)
All-any (revokes_session id revoked_at ∷ calls) = (tt, All-any calls)
All-any (saves_token token ∷ calls) = (tt, All-any calls)
All-any (revokes_token revocation ∷ calls) = (tt, All-any calls)

module _ (runtime : Runtime) (recover : String → String → Option String)
    (deployment : Deployment) where
  unfoldable pub is_accepted : Attempt → AccessDb → Bool
  is_accepted (opens input draws times) db =
      is_granted ((create_session runtime recover deployment input draws times db).0)
  is_accepted (signs input action times) db =
      is_granted ((verify_operator_action runtime recover deployment input action times db).0)

  unfoldable pub after_attempt : Attempt → AccessDb → AccessDb
  after_attempt (opens input draws times) db =
      (create_session runtime recover deployment input draws times db).1
  after_attempt (signs input action times) db =
      (verify_operator_action runtime recover deployment input action times db).1

  unfoldable pub after_call : Call → AccessDb → AccessDb
  after_call (issues input draw now repository_now) db =
      (issue_challenge runtime recover deployment input draw now repository_now db).1
  after_call (attempts attempt) db = after_attempt attempt db
  after_call (revokes_session id revoked_at) db = (revoke_session runtime id revoked_at db).1
  after_call (saves_token token) db = (save_agent_token runtime token db).1
  after_call (revokes_token revocation) db = (revoke_agent_token runtime revocation db).1

  unfoldable pub run : List Call → AccessDb → AccessDb
  run [] db = db
  run (call ∷ calls) db = run calls (after_call call db)

  module _ (P : AccessDb → Type 0) (Admits : ChallengeRow → Type 0)
      (stable : IsStable P Admits) where
    attempt-keeps : (attempt : Attempt) (db : AccessDb) → P db → P (after_attempt attempt db)
    unfolding after_attempt
    attempt-keeps (opens input draws times) db p =
        (create_session-Keeps runtime recover deployment P Admits stable input draws times).holds db
          p
    attempt-keeps (signs input action times) db p =
        (verify_operator_action-Keeps runtime recover deployment P Admits stable input action
            times).holds
          db p

    call-keeps :
        (call : Call) (db : AccessDb) → AdmitsCall Admits call → P db → P (after_call call db)
    unfolding after_call
    call-keeps (issues input draw now repository_now) db admits p =
        (issue_challenge-Keeps runtime recover deployment P Admits stable input draw now
            repository_now admits).holds
          db p
    call-keeps (attempts attempt) db admits p = attempt-keeps attempt db p
    call-keeps (revokes_session id revoked_at) db admits p =
        (revoke_session-Keeps runtime recover deployment P Admits stable id revoked_at).holds db p
    call-keeps (saves_token token) db admits p =
        (save_agent_token-Keeps runtime recover deployment P Admits stable token).holds db p
    call-keeps (revokes_token revocation) db admits p =
        (revoke_agent_token-Keeps runtime recover deployment P Admits stable revocation).holds db p

    -- What every statement keeps holds after any calls.
    pub run-keeps :
        (calls : List Call) (db : AccessDb)
        → All (AdmitsCall Admits) calls
        → P db
        → P (run calls db)
    unfolding run
    run-keeps [] db admits p = p
    run-keeps (call ∷ calls) db admits p =
        run-keeps calls (after_call call db) admits.1 (call-keeps call db admits.0 p)

  pub run-IsKeyed :
      (calls : List Call) (db : AccessDb)
      → IsKeyed db.challenges
      → IsKeyed (run calls db).challenges
  run-IsKeyed calls db keyed = run-keeps _ _ IsKeyed-stable calls db (All-keyed calls) keyed

  pub run-spent :
      (id : String) (calls : List Call) (db : AccessDb)
      → any (issues_id id) calls ≡ false
      → any (is_unused id) db.challenges ≡ false
      → any (is_unused id) (run calls db).challenges ≡ false
  run-spent id calls db others spent =
      run-keeps _ _ (spent-stable id) calls db (All-others id calls others) spent

  pub use_challenge-spent :
      (challenge : AuthChallenge) (used : ℕ) (db : AccessDb) {done : Unit {0}} {after : AccessDb}
      → IsKeyed db.challenges
      → use_challenge runtime recover deployment challenge used db ≡ (granted done, after)
      → any (is_unused challenge.id) after.challenges ≡ false
  unfolding use_challenge consume_challenge ◌>>=◌ lift require
  use_challenge-spent challenge used db k e =
      elim (Result-cases (iso_timestamp runtime.parse_date (runtime.iso used) "challenge.usedAt")) [
        | inl (now, valid) ↦ ground (arith, use_rows-uses challenge.id now db.challenges k)
        | inr (exception, invalid) ↦ absurd (ground arith)
      ]
