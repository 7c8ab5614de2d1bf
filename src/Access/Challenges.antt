-- ===== src/Access/Challenges.antt =====
-- apps/report-api/src/auditor/auth.ts: the challenges of AuditorAuth and the sessions made by them. The address
-- that a signature recovers to, the random draws and the times of the clock are parameters; the
-- clock's dates are valid.
use zadper.Common.{
  ℕ, zero, suc, ◌+◌, String, Bool, Option, none, some, not, ltb, ◌===◌, if◌then◌else◌, is_none,
  holds_of,
}
use zadper.Common.Text.{lower}
use zadper.Payment.Runtime.{Runtime}
use zadper.Payment.Authorization.{normalize_address}
use zadper.Access.Tables.{
  Purpose, same_purpose, session, operator_action, AuthChallenge, AuthSession, challenge_conflict,
  session_conflict, signed_action_mismatch, challenge_not_found, challenge_replayed,
  challenge_purpose_mismatch, challenge_operator_mismatch, origin_mismatch, challenge_expired,
  challenge_not_yet_valid, invalid_signature,
}
use zadper.Access.Acts.{Act, return, deny, require, lift, ◌>>=◌, ◌>>◌}
use zadper.Access.Store.{save_challenge, get_challenge, consume_challenge, save_session}
use zadper.Access.Messages.{
  challenge_ttl_ms, session_ttl_ms, OperatorActionDescriptor, Deployment, Draw, ChallengeInput,
  SignedInput, Times, challenge_message, validate_operator_action, challenge_requested_action,
}
use zadper.Access.Credentials.{hash_bearer_token, is_past}

module _ (runtime : Runtime) (recover : String → String → Option String)
    (deployment : Deployment) where
  -- `verifyBotChainMessageSignature` of receipt.ts; none is an exception of ethers.
  unfoldable pub verify_message_signature : String → String → String → Bool
  verify_message_signature message public_key_hex signature_hex =
      holds_of (recover message signature_hex)
        (λ recovered. lower recovered === lower public_key_hex)

  unfoldable pub verify_signature : AuthChallenge → String → Act (Unit {0})
  unfolding verify_message_signature
  verify_signature challenge signature =
      require (verify_message_signature challenge.action challenge.operator_public_key signature)
        invalid_signature

  unfoldable pub use_challenge : AuthChallenge → ℕ → Act (Unit {0})
  use_challenge challenge used = do
    consumed ← consume_challenge runtime challenge.id (runtime.iso used)
    require consumed challenge_replayed

  abbrev pub require_origin : String → Act (Unit {0})
  require_origin origin = require (origin === deployment.public_origin) origin_mismatch

  -- The challenge that is issued.
  abbrev pub new_challenge :
      ChallengeInput → Draw → String → Option OperatorActionDescriptor → ℕ → AuthChallenge
  new_challenge input draw operator_public_key requested now =
      let base : AuthChallenge = record {
        id = draw.id;
        operator_public_key = operator_public_key;
        origin = deployment.public_origin;
        purpose = input.purpose;
        nonce = draw.bytes;
        action = "";
        issued_at = runtime.iso now;
        expires_at = runtime.iso (now + challenge_ttl_ms);
        used_at = none;
      } in
      record base { action = challenge_message base deployment.domain requested }

  unfoldable pub issue_challenge : ChallengeInput → Draw → ℕ → ℕ → Act AuthChallenge
  issue_challenge input draw now repository_now = do
    require_origin input.origin
    operator_public_key ← lift (normalize_address input.operator_public_key "BotChain public key")
    requested ← challenge_requested_action input.purpose input.action
    let challenge : AuthChallenge = new_challenge input draw operator_public_key requested now
    saved ← save_challenge runtime repository_now challenge
    require saved challenge_conflict
    return challenge

  -- The tests of requireUsableChallenge on the challenge that is stored.
  unfoldable pub usable_challenge :
      SignedInput → Purpose → ℕ → Option AuthChallenge → Act AuthChallenge
  usable_challenge input purpose now none = deny challenge_not_found
  usable_challenge input purpose now (some challenge) = do
    require (is_none challenge.used_at) challenge_replayed
    require (same_purpose challenge.purpose purpose) challenge_purpose_mismatch
    key ← lift (normalize_address input.operator_public_key "BotChain public key")
    require (challenge.operator_public_key === key) challenge_operator_mismatch
    require (challenge.origin === input.origin) origin_mismatch
    require (not (is_past runtime challenge.expires_at now)) challenge_expired
    require (not (holds_of (runtime.parse_date challenge.issued_at) (λ time. ltb now time)))
        challenge_not_yet_valid
    return challenge

  unfoldable pub require_usable_challenge : SignedInput → Purpose → ℕ → Act AuthChallenge
  require_usable_challenge input purpose now = do
    require_origin input.origin
    found ← get_challenge runtime input.challenge_id
    usable_challenge input purpose now found

  abbrev pub new_session : AuthChallenge → Draw → String → ℕ → AuthSession
  new_session challenge draw token_hash now = record {
    id = draw.id;
    operator_public_key = challenge.operator_public_key;
    token_hash = token_hash;
    origin = challenge.origin;
    created_at = runtime.iso now;
    expires_at = runtime.iso (now + session_ttl_ms);
    revoked_at = none;
  }

  -- `for (let attempt = 0; attempt < 3; attempt += 1)`, with the attempts that are left.
  unfoldable pub issue_session : ℕ → ℕ → AuthChallenge → (ℕ → Draw) → ℕ → Act (AuthSession × String)
  issue_session zero attempt challenge draws now = deny session_conflict
  issue_session (suc left) attempt challenge draws now = do
    token_hash ← hash_bearer_token runtime (draws attempt).bytes
    let made : AuthSession = new_session challenge (draws attempt) token_hash now
    saved ← save_session runtime made
    let again = issue_session left (attempt + 1) challenge draws now
    if saved then return (made, (draws attempt).bytes) else again

  unfoldable pub create_session : SignedInput → (ℕ → Draw) → Times → Act (AuthSession × String)
  create_session input draws times = do
    challenge ← require_usable_challenge input session times.tested
    verify_signature challenge input.signature
    use_challenge challenge times.used
    issue_session 3 0 challenge draws times.created

  -- The message of the challenge that was signed.
  unfoldable pub verify_operator_action :
      SignedInput → OperatorActionDescriptor → Times → Act String
  verify_operator_action input action times = do
    validate_operator_action action
    challenge ← require_usable_challenge input operator_action times.tested
    require
        (runtime.sha256 challenge.action
          === runtime.sha256 (challenge_message challenge deployment.domain (some action)))
        signed_action_mismatch
    verify_signature challenge input.signature
    use_challenge challenge times.used
    return challenge.action
