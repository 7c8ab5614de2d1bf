-- ===== src/Access/Keeping.antt =====
-- What the calls keep of the challenges: any property that a deletion, a use and an insertion keep.
use zadper.Common.{
  ℕ, zero, suc, ◌+◌, ◌≡◌, refl, ap, String, Bool, true, false, Option, none, some, any,
  if◌then◌else◌, Bool-cases, inl, inr,
}
use zadper.Payment.Runtime.{Runtime}
use zadper.Access.Tables.{
  Purpose, session, operator_action, AuthChallenge, AuthSession, AgentTokenRecord,
  AgentTokenRevocation, ChallengeRow, SessionRow, TokenRow, RevocationRow, AccessDb,
}
use zadper.Access.Acts.{
  Act, Keeps, bind-Keeps, seq-Keeps, lift-Keeps, require-Keeps, return-Keeps, deny-Keeps, keeping,
}
use zadper.Access.Store.{
  store_challenge, save_challenge, get_challenge, consume_challenge, save_session, revoke_session,
  save_agent_token, can_revoke, revoke_transaction, revoke_agent_token,
}
use zadper.Access.Rows.{
  drop_expired, breaks_challenge, insert_challenge, insert_session, breaks_session, insert_token,
  breaks_token,
}
use zadper.Access.Messages.{
  ChallengeInput, SignedInput, OperatorActionDescriptor, Deployment, Draw, Times,
  challenge_requested_action, validate_operator_action,
}
use zadper.Access.Credentials.{hash_bearer_token}
use zadper.Access.Challenges.{
  issue_challenge, usable_challenge, require_usable_challenge, verify_signature, use_challenge,
  issue_session, create_session, verify_operator_action,
}
use zadper.Access.Stable.{IsStable}

module _ (runtime : Runtime) (recover : String → String → Option String) (deployment : Deployment)
    (Holds : AccessDb → Type 0) (Admits : ChallengeRow → Type 0)
    (stable : IsStable Holds Admits) where
  insert_challenge-Keeps : (new : ChallengeRow) → Admits new → Keeps Holds (insert_challenge new)
  unfolding insert_challenge
  insert_challenge-Keeps new admitted = record {
    holds = λ db q. elim (Bool-cases (any (breaks_challenge new) db.challenges)) [
      | inl broken ↦ rw broken q
      | inr free ↦ rw free (stable.inserting new db admitted free q)
    ];
  }

  insert_session-Keeps : (new : SessionRow) → Keeps Holds (insert_session new)
  unfolding insert_session
  insert_session-Keeps new = record {
    holds = λ db q. elim (Bool-cases (any (breaks_session new) db.sessions)) [
      | inl broken ↦ rw broken q
      | inr free ↦ rw free (stable.opening new db free q)
    ];
  }

  consume_challenge-Keeps :
      (id used_at : String) → Keeps Holds (consume_challenge runtime id used_at)
  unfolding consume_challenge
  consume_challenge-Keeps id used_at =
      bind-Keeps Holds (lift-Keeps Holds _)
        (λ now. record { holds = λ db q. stable.using id now db q })

  save_session-Keeps : (made : AuthSession) → Keeps Holds (save_session runtime made)
  unfolding save_session
  save_session-Keeps made = search (keeping, insert_session-Keeps) depth 14

  store_challenge-Keeps :
      (challenge : AuthChallenge)
      → ((row : ChallengeRow) → row.id ≡ challenge.id → row.challenge ≡ challenge → Admits row)
      → Keeps Holds (store_challenge runtime challenge)
  unfolding store_challenge
  store_challenge-Keeps challenge admits = bind-Keeps Holds (lift-Keeps Holds _) (λ key.
      bind-Keeps Holds (lift-Keeps Holds _) (λ issued.
        bind-Keeps Holds (lift-Keeps Holds _) (λ expires.
          bind-Keeps Holds (lift-Keeps Holds _)
            (λ used. insert_challenge-Keeps _ (admits _ refl refl)))))

  save_challenge-Keeps :
      (now : ℕ) (challenge : AuthChallenge)
      → ((row : ChallengeRow) → row.id ≡ challenge.id → row.challenge ≡ challenge → Admits row)
      → Keeps Holds (save_challenge runtime now challenge)
  unfolding save_challenge
  save_challenge-Keeps now challenge admits = record {
    holds = λ db q.
        (store_challenge-Keeps challenge admits).holds
          (record db { challenges = drop_expired now db.challenges }) (stable.dropping now db q);
  }

  if-Keeps {ℓ} :
      {A : Type ℓ} (test : Bool) {first second : Act A}
      → Keeps Holds first
      → Keeps Holds second
      → Keeps Holds (if test then first else second)
  if-Keeps true k l = k
  if-Keeps false k l = l

  hash_bearer_token-Keeps : (token : String) → Keeps Holds (hash_bearer_token runtime token)
  unfolding hash_bearer_token
  hash_bearer_token-Keeps token = search keeping

  pub issue_session-Keeps :
      (left attempt : ℕ) (challenge : AuthChallenge) (draws : ℕ → Draw) (now : ℕ)
      → Keeps Holds (issue_session runtime recover deployment left attempt challenge draws now)
  unfolding issue_session
  issue_session-Keeps zero attempt challenge draws now = deny-Keeps Holds _
  issue_session-Keeps (suc left) attempt challenge draws now =
      let again = issue_session-Keeps left (attempt + 1) challenge draws now in
      bind-Keeps Holds (hash_bearer_token-Keeps _) (λ hash.
        bind-Keeps Holds (save_session-Keeps _)
          (λ saved. if-Keeps saved (return-Keeps Holds _) again))

  requested-Keeps :
      (purpose : Purpose) (action : Option OperatorActionDescriptor)
      → Keeps Holds (challenge_requested_action purpose action)
  unfolding challenge_requested_action validate_operator_action
  requested-Keeps session none = search keeping
  requested-Keeps session (some action) = search keeping
  requested-Keeps operator_action none = search keeping
  requested-Keeps operator_action (some action) = search keeping

  -- A challenge is issued with a draw that is admitted.
  pub issue_challenge-Keeps :
      (input : ChallengeInput) (draw : Draw) (now repository_now : ℕ)
      → ((row : ChallengeRow) → row.id ≡ draw.id → row.challenge.id ≡ draw.id → Admits row)
      → Keeps Holds (issue_challenge runtime recover deployment input draw now repository_now)
  unfolding issue_challenge
  issue_challenge-Keeps input draw now repository_now admits =
      seq-Keeps Holds (require-Keeps Holds _ _) (
        bind-Keeps Holds (lift-Keeps Holds _) (λ key.
          bind-Keeps Holds (requested-Keeps _ _) (λ requested.
            bind-Keeps Holds
              (save_challenge-Keeps _ _
                (λ row same stored. admits row same (ap (λ (c : AuthChallenge). c.id) stored)))
              (λ saved. seq-Keeps Holds (require-Keeps Holds _ _) (return-Keeps Holds _)))))

  usable_challenge-Keeps :
      (input : SignedInput) (purpose : Purpose) (now : ℕ) (found : Option AuthChallenge)
      → Keeps Holds (usable_challenge runtime recover deployment input purpose now found)
  unfolding usable_challenge
  usable_challenge-Keeps input purpose now none = search keeping
  usable_challenge-Keeps input purpose now (some challenge) = search keeping depth 18

  require_usable_challenge-Keeps :
      (input : SignedInput) (purpose : Purpose) (now : ℕ)
      → Keeps Holds (require_usable_challenge runtime recover deployment input purpose now)
  unfolding require_usable_challenge get_challenge
  require_usable_challenge-Keeps input purpose now =
      seq-Keeps Holds (require-Keeps Holds _ _)
        (bind-Keeps Holds (record { holds = λ db q. q }) (λ found. usable_challenge-Keeps _ _ _ _))

  use_challenge-Keeps :
      (challenge : AuthChallenge) (used : ℕ)
      → Keeps Holds (use_challenge runtime recover deployment challenge used)
  unfolding use_challenge
  use_challenge-Keeps challenge used = search (keeping, consume_challenge-Keeps)

  verify_signature-Keeps :
      (challenge : AuthChallenge) (signature : String)
      → Keeps Holds (verify_signature runtime recover deployment challenge signature)
  unfolding verify_signature
  verify_signature-Keeps challenge signature = search keeping

  pub create_session-Keeps :
      (input : SignedInput) (draws : ℕ → Draw) (times : Times)
      → Keeps Holds (create_session runtime recover deployment input draws times)
  unfolding create_session
  create_session-Keeps input draws times =
      search
        (
          keeping, require_usable_challenge-Keeps, verify_signature-Keeps, use_challenge-Keeps,
          issue_session-Keeps,
        )
        depth 12

  pub verify_operator_action-Keeps :
      (input : SignedInput) (action : OperatorActionDescriptor) (times : Times)
      → Keeps Holds (verify_operator_action runtime recover deployment input action times)
  unfolding verify_operator_action validate_operator_action
  verify_operator_action-Keeps input action times =
      search (keeping, require_usable_challenge-Keeps, verify_signature-Keeps, use_challenge-Keeps)
        depth 14

  pub revoke_session-Keeps :
      (id revoked_at : String) → Keeps Holds (revoke_session runtime id revoked_at)
  unfolding revoke_session
  revoke_session-Keeps id revoked_at =
      bind-Keeps Holds (lift-Keeps Holds _)
        (λ now. record { holds = λ db q. stable.closing id now db q })

  insert_token-Keeps : (new : TokenRow) → Keeps Holds (insert_token new)
  unfolding insert_token
  insert_token-Keeps new = record {
    holds = λ db q. elim (Bool-cases (any (breaks_token new) db.tokens)) [
      | inl broken ↦ rw broken q
      | inr free ↦ rw free (stable.issuing new db free q)
    ];
  }

  pub save_agent_token-Keeps :
      (token : AgentTokenRecord) → Keeps Holds (save_agent_token runtime token)
  unfolding save_agent_token
  save_agent_token-Keeps token = search (keeping, insert_token-Keeps) depth 14

  revoke_transaction-Keeps : (new : RevocationRow) → Keeps Holds (revoke_transaction runtime new)
  unfolding revoke_transaction
  revoke_transaction-Keeps new = record {
    holds = λ db q. elim (Bool-cases (can_revoke runtime new db)) [
      | inl going ↦ rw going (stable.revoking new db q)
      | inr rolled_back ↦ rw rolled_back q
    ];
  }

  pub revoke_agent_token-Keeps :
      (revocation : AgentTokenRevocation) → Keeps Holds (revoke_agent_token runtime revocation)
  unfolding revoke_agent_token
  revoke_agent_token-Keeps revocation = search (keeping, revoke_transaction-Keeps) depth 14
