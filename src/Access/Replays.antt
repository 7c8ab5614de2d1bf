-- ===== src/Access/Replays.antt =====
-- A challenge is accepted at most once.
use zadper.Common.{
  ℕ, ◌≡◌, refl, ap, sym, subst, ◌∙◌, String, true, false, Option, List, any, Bool-cases, inl, inr,
  arith,
}
use zadper.Payment.Runtime.{Runtime}
use zadper.Access.Tables.{Purpose, session, operator_action, AuthChallenge, AuthSession, AccessDb}
use zadper.Access.Acts.{
  Outcome, granted, denied, return, require, ◌>>◌, bind-granted, seq-granted, require-granted,
}
use zadper.Access.Messages.{
  SignedInput, OperatorActionDescriptor, Deployment, Draw, Times, validate_operator_action,
}
use zadper.Access.Challenges.{
  require_usable_challenge, use_challenge, create_session, verify_operator_action, verify_signature,
}
use zadper.Access.Usable.{require_usable_challenge-granted}
use zadper.Access.Spending.{IsKeyed, is_unused, find_challenge-spent, find_challenge-id}
use zadper.Access.Keeping.{issue_session-Keeps}
use zadper.Access.Calls.{
  Attempt, opens, signs, Call, input_of, is_granted, issues_id, empty, spent-stable, is_accepted,
  after_attempt, run, run-IsKeyed, run-spent, use_challenge-spent,
}

is_granted-value {ℓ} :
    {A : Type ℓ} (r : Outcome A × AccessDb)
    → is_granted (r.0) ≡ true
    → (a : A) × (r ≡ (granted a, r.1))
is_granted-value (granted a, db) h = (a, refl)
is_granted-value (denied error, db) h = cc

module _ (runtime : Runtime) (recover : String → String → Option String)
    (deployment : Deployment) where
  -- A challenge that may be used, and is then used, is spent.
  used-spent :
      (input : SignedInput) (purpose : Purpose) (now used : ℕ) (db : AccessDb)
      → {challenge : AuthChallenge} {between after : AccessDb} → IsKeyed db.challenges
      → require_usable_challenge runtime recover deployment input purpose now db
        ≡ (granted challenge, between)
      → use_challenge runtime recover deployment challenge used between ≡ (granted tt, after)
      → any (is_unused input.challenge_id) after.challenges ≡ false
  used-spent input purpose now used db {challenge} {between} {after} keyed found spent =
      let met =
        require_usable_challenge-granted runtime recover deployment input purpose now db found in
      let same : challenge.id ≡ input.challenge_id =
        ap (λ (c : AuthChallenge). c.id) met.5
        ∙ find_challenge-id input.challenge_id db.challenges met.3 keyed met.4 in
      subst (λ id. any (is_unused id) after.challenges ≡ false) same
        (use_challenge-spent runtime recover deployment challenge used between
          (subst (λ (d : AccessDb). IsKeyed d.challenges) (sym met.1) keyed) spent)

  validate-store :
      (action : OperatorActionDescriptor) (db : AccessDb) {after : AccessDb}
      → validate_operator_action action db ≡ (granted tt, after)
      → after ≡ db
  unfolding validate_operator_action ◌>>◌ require
  validate-store action db e = ground arith

  abbrev Spent : String → AccessDb → Type 0
  Spent id db = any (is_unused id) db.challenges ≡ false

  opened-Spent :
      (input : SignedInput) (draws : ℕ → Draw) (times : Times) (db : AccessDb)
      → {made : AuthSession × String} {after : AccessDb} → IsKeyed db.challenges
      → create_session runtime recover deployment input draws times db ≡ (granted made, after)
      → Spent input.challenge_id after
  unfolding create_session verify_signature
  opened-Spent input draws times db keyed e =
      let usable =
        bind-granted
          (require_usable_challenge runtime recover deployment input session times.tested) _ db e in
      let signed = require-granted _ _ _ usable.1 usable.3 in
      let used =
        seq-granted (use_challenge runtime recover deployment usable.0 times.used) _ usable.1
          signed.1 in
      let spent = used-spent input session times.tested times.used db keyed usable.2 used.1 in
      let kept =
        (issue_session-Keeps runtime recover deployment _ _ (spent-stable input.challenge_id) 3 0
            usable.0 draws times.created).holds
          used.0 spent in
      subst (Spent input.challenge_id) (ap (λ r. r.1) used.2) kept

  signed-Spent :
      (input : SignedInput) (action : OperatorActionDescriptor) (times : Times) (db : AccessDb)
      → {message : String} {after : AccessDb} → IsKeyed db.challenges
      → verify_operator_action runtime recover deployment input action times db
        ≡ (granted message, after)
      → Spent input.challenge_id after
  unfolding verify_operator_action verify_signature return
  signed-Spent input action times db keyed e =
      let valid = seq-granted (validate_operator_action action) _ db e in
      let keyed_still =
        subst (λ (d : AccessDb). IsKeyed d.challenges) (sym (validate-store action db valid.1))
          keyed in
      let usable =
        bind-granted
          (require_usable_challenge runtime recover deployment input operator_action times.tested) _
          valid.0 valid.2 in
      let named = require-granted _ _ _ usable.1 usable.3 in
      let signed = require-granted _ _ _ usable.1 named.1 in
      let used =
        seq-granted (use_challenge runtime recover deployment usable.0 times.used) _ usable.1
          signed.1 in
      let spent =
        used-spent input operator_action times.tested times.used valid.0 keyed_still usable.2
          used.1 in
      subst (Spent input.challenge_id) (ap (λ r. r.1) used.2) spent

  accepted-Spent :
      (attempt : Attempt) (db : AccessDb)
      → IsKeyed db.challenges
      → is_accepted runtime recover deployment attempt db ≡ true
      → Spent (input_of attempt).challenge_id (after_attempt runtime recover deployment attempt db)
  unfolding is_accepted after_attempt
  accepted-Spent (opens input draws times) db keyed accepted =
      opened-Spent input draws times db keyed
        (is_granted-value (create_session runtime recover deployment input draws times db)
          accepted).1
  accepted-Spent (signs input action times) db keyed accepted =
      signed-Spent input action times db keyed
        (is_granted-value (verify_operator_action runtime recover deployment input action times db)
          accepted).1

  -- A challenge that is spent cannot be used.
  Spent-unusable :
      (input : SignedInput) (purpose : Purpose) (now : ℕ) (db : AccessDb)
      → {challenge : AuthChallenge} {between : AccessDb} → Spent input.challenge_id db
      → require_usable_challenge runtime recover deployment input purpose now db
        ≡ (granted challenge, between)
      → ⊥
  Spent-unusable input purpose now db spent found =
      let met =
        require_usable_challenge-granted runtime recover deployment input purpose now db found in
      let was_used = find_challenge-spent input.challenge_id db.challenges met.3 spent met.4 in
      ground (arith, was_used, met.2.unused, met.5)

  Spent-refused :
      (attempt : Attempt) (db : AccessDb)
      → Spent (input_of attempt).challenge_id db
      → is_accepted runtime recover deployment attempt db ≡ false
  unfolding is_accepted create_session verify_operator_action
  Spent-refused (opens input draws times) db spent =
      elim (Bool-cases (is_accepted runtime recover deployment (opens input draws times) db)) [
        | inr refused ↦ refused
        | inl accepted ↦
            let value =
              is_granted-value (create_session runtime recover deployment input draws times db)
                accepted in
            let usable =
              bind-granted
                (require_usable_challenge runtime recover deployment input session times.tested) _
                db value.1 in
            absurd (Spent-unusable input session times.tested db spent usable.2)
      ]
  Spent-refused (signs input action times) db spent =
      elim (Bool-cases (is_accepted runtime recover deployment (signs input action times) db)) [
        | inr refused ↦ refused
        | inl accepted ↦
            let value =
              is_granted-value
                (verify_operator_action runtime recover deployment input action times db)
                accepted in
            let valid = seq-granted (validate_operator_action action) _ db value.1 in
            let usable =
              bind-granted
                (require_usable_challenge runtime recover deployment input operator_action
                  times.tested)
                _ valid.0 valid.2 in
            absurd (
              Spent-unusable input operator_action times.tested valid.0
                (subst (Spent input.challenge_id) (sym (validate-store action db valid.1)) spent)
                usable.2)
      ]

  -- After any calls from an empty store, once a challenge has been accepted, to open a session or
  -- for an action of the operator, no second presentation of it is accepted, whatever calls come
  -- between, if none of them issues a challenge with its id.
  pub accepted-once :
      (before : List Call) (first : Attempt) (between : List Call) (second : Attempt)
      → is_accepted runtime recover deployment first (run runtime recover deployment before empty)
        ≡ true
      → (input_of second).challenge_id ≡ (input_of first).challenge_id
      → any (issues_id (input_of first).challenge_id) between ≡ false
      → is_accepted runtime recover deployment second (
          run runtime recover deployment between (
            after_attempt runtime recover deployment first
              (run runtime recover deployment before empty)))
        ≡ false
  accepted-once before first between second accepted same others =
      let start : AccessDb = run runtime recover deployment before empty in
      let used : AccessDb = after_attempt runtime recover deployment first start in
      let later : AccessDb = run runtime recover deployment between used in
      let keyed = run-IsKeyed runtime recover deployment before empty tt in
      let spent = accepted-Spent first start keyed accepted in
      let still =
        run-spent runtime recover deployment (input_of first).challenge_id between used others
          spent in
      Spent-refused second later (subst (λ id. Spent id later) (sym same) still)
