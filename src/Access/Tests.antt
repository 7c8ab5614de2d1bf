-- ===== src/Access/Tests.antt =====
-- Runs of the challenges, sessions and agent tokens, and their theorems at concrete inputs.
use zadper.Common.{
  ℕ, ◌+◌, ◌≡◌, ◌≢◌, ◌↔◌, refl, String, true, false, Option, none, some, List, [], ◌∷◌, any, ltb,
  ◌===◌, if◌then◌else◌, ok,
}
use zadper.Common.Text.{lower, is_hex_of, utf16_length, trim, starts_with, drop_chars}
use zadper.Common.Decimal.{decimal, to_decimal}
use zadper.Payment.Runtime.{Runtime}
use zadper.Payment.Authorization.{normalize_address, strip_0x}
use zadper.Access.Tables.{
  session, checks_write, same_scope, AgentTokenRecord, AgentTokenRevocation, TokenRow, AuthSession,
  AccessDb, session_expired,
}
use zadper.Access.Acts.{granted, denied, ◌>>=◌, ◌>>◌, and_then, require, lift, deny, return}
use zadper.Access.Messages.{
  Deployment, Draw, ChallengeInput, SignedInput, Times, session_ttl_ms, challenge_requested_action,
  challenge_message, operator_action_message, validate_operator_action,
}
use zadper.Access.Credentials.{
  operator, agent, authenticate_credential, authorize_agent, hash_bearer_token,
  constant_time_hex_equal, ensure_token_hash, require_active_agent_token, authenticate_session,
  authenticate_token, authenticate_agent, authenticate_found, require_payer, authorize_principal,
}
use zadper.Access.Challenges.{
  create_session, require_usable_challenge, usable_challenge, issue_challenge, issue_session,
  use_challenge, verify_message_signature, verify_signature, verify_operator_action,
}
use zadper.Access.Calls.{
  Call, issues, revokes_session, saves_token, revokes_token, Attempt, opens, empty, run,
  is_accepted, after_attempt, after_call,
}
use zadper.Access.Agents.{PaysFor, authorize_agent-granted_iff}
use zadper.Access.Known.{IsAgent}
use zadper.Access.Replays.{accepted-once}
use zadper.Access.Revoked.{revoked-unauthenticated}
use zadper.Access.Sessions.{create_session-authenticates}
use zadper.Access.Store.{
  get_challenge, consume_challenge, save_challenge, store_challenge, save_session, save_agent_token,
  revoke_session, revoke_transaction, can_revoke, may_revoke, revoke_agent_token,
  nullable_timestamp, find_session_by_token_hash, find_agent_token_by_hash,
}
use zadper.Access.Rows.{
  find_challenge, find_session, find_token, find_token_id, drop_expired, use_rows, is_usable,
  insert_challenge, insert_session, insert_token, revoke_session_rows, revoke_token_rows,
  latest_revision, max_token_revision, max_revocation_revision, positive_integer,
}
use zadper.Auditor.Prepare.{iso_timestamp, normalize_hash, normalize_key}

unfoldable pub opened : Unit {0}
unfolding ◌>>=◌ ◌>>◌ and_then require lift deny return run after_call after_attempt is_accepted
    create_session require_usable_challenge usable_challenge issue_challenge issue_session
    use_challenge verify_message_signature verify_signature verify_operator_action hash_bearer_token
    constant_time_hex_equal ensure_token_hash require_active_agent_token authenticate_session
    authenticate_token authenticate_agent authenticate_found authenticate_credential require_payer
    authorize_principal authorize_agent challenge_requested_action challenge_message
    operator_action_message validate_operator_action get_challenge find_challenge find_session
    find_token find_token_id drop_expired use_rows is_usable consume_challenge insert_challenge
    insert_session insert_token save_challenge store_challenge save_session save_agent_token
    revoke_session revoke_session_rows revoke_token_rows revoke_transaction can_revoke may_revoke
    revoke_agent_token latest_revision max_token_revision max_revocation_revision nullable_timestamp
    positive_integer find_session_by_token_hash find_agent_token_by_hash iso_timestamp
    normalize_hash normalize_key lower is_hex_of utf16_length trim starts_with drop_chars decimal
    to_decimal normalize_address strip_0x
opened = tt

abbrev hash_a : String
hash_a = "aaaaaaaaaaaaaaaaaaaaaaaaaaaaaaaaaaaaaaaaaaaaaaaaaaaaaaaaaaaaaaaa"

abbrev hash_b : String
hash_b = "bbbbbbbbbbbbbbbbbbbbbbbbbbbbbbbbbbbbbbbbbbbbbbbbbbbbbbbbbbbbbbbb"

abbrev key : String
key = "0x1111111111111111111111111111111111111111"

abbrev session_token : String
session_token = "session-token-of-thirty-two-chars"

abbrev agent_token : String
agent_token = "agent-token-of-at-least-thirty-two"

-- Times are written as numerals, and a hash tells the agent's token from the others.
abbrev platform : Runtime
platform = record {
  parse_date = decimal;
  iso = to_decimal;
  parse_url = λ text. none;
  sha256 = λ text. if text === agent_token then hash_b else hash_a;
  typed_data_hash = λ typed. ok hash_a;
}

-- Every signature is the operator's.
abbrev signer : String → String → Option String
signer message signature = some key

abbrev site : Deployment
site = record { public_origin = "https://pay.example"; domain = "pay.example" }

abbrev asked : ChallengeInput
asked = record {
  operator_public_key = key;
  origin = "https://pay.example";
  purpose = session;
  action = none;
}

abbrev presented : SignedInput
presented = record {
  challenge_id = "challenge-1";
  operator_public_key = key;
  origin = "https://pay.example";
  signature = "0xsigned";
}

abbrev draws : ℕ → Draw
draws attempt = record { id = "session-1"; bytes = session_token }

abbrev times : Times
times = record { tested = 2000; used = 2000; created = 2000 }

abbrev issued : List Call
issued = issues asked (record { id = "challenge-1"; bytes = "nonce-1" }) 1000 1000 ∷ []

abbrev opening : Attempt
opening = opens presented draws times

ready : is_accepted platform signer site opening (run platform signer site issued empty) ≡ true
unfolding opened
ready = refl

-- The same signature does not open a second session.
accepted-once_example :
    is_accepted platform signer site opening (
      run platform signer site
        (revokes_session "session-1" "3000" ∷ [])
        (after_attempt platform signer site opening (run platform signer site issued empty)))
    ≡ false
accepted-once_example =
    accepted-once platform signer site issued opening (revokes_session "session-1" "3000" ∷ [])
      opening ready refl refl

abbrev made : AuthSession
made = record {
  id = "session-1";
  operator_public_key = key;
  token_hash = hash_a;
  origin = "https://pay.example";
  created_at = "2000";
  expires_at = "3602000";
  revoked_at = none;
}

opened_session :
    (create_session platform signer site presented draws times
      (run platform signer site issued empty)).0
    ≡ granted (made, session_token)
unfolding opened
opened_session = refl

abbrev with_session : AccessDb
with_session = after_attempt platform signer site opening (run platform signer site issued empty)

create_session-authenticates_example :
    (normalize_address key "BotChain public key" ≡ ok key)
    × (authenticate_credential platform session_token 3000 with_session ≡ (
        if ltb 3000 (2000 + session_ttl_ms)
        then (granted (operator made), with_session)
        else (denied session_expired, with_session)))
unfolding opened
create_session-authenticates_example =
    create_session-authenticates platform signer site presented draws times
      (run platform signer site issued empty) made session_token with_session 3000 refl refl

abbrev agent_record : AgentTokenRecord
agent_record = record {
  id = "agent-1";
  operator_public_key = key;
  agent_name = "buyer";
  token_hash = hash_b;
  scopes = checks_write ∷ [];
  allowed_payer_public_keys = key ∷ [];
  revision = 1;
  action_hash = hash_a;
  signature = "0xsigned";
  created_at = "2000";
  expires_at = none;
  revoked_at = none;
}

abbrev agent_row : TokenRow
agent_row = record {
  id = "agent-1";
  operator_key = key;
  token_hash = hash_b;
  revision = 1;
  expires_at = none;
  revoked_at = none;
  token = agent_record;
}

abbrev with_agent : AccessDb
with_agent = run platform signer site (saves_token agent_record ∷ []) empty

may_write :
    (authorize_agent platform agent_token checks_write (some key) 3000 with_agent).0
    ≡ granted agent_record
unfolding opened
may_write = refl

authorize_agent-granted_iff_example :
    (authorize_agent platform agent_token checks_write (some key) 3000 with_agent
      ≡ (granted agent_record, with_agent))
    ↔ (IsAgent platform agent_token 3000 with_agent agent_record
        × (any (same_scope checks_write) agent_record.scopes ≡ true)
        × PaysFor platform agent_token 3000 agent_record (some key))
authorize_agent-granted_iff_example =
    authorize_agent-granted_iff platform agent_token 3000 checks_write (some key) with_agent
      agent_record

abbrev revocation : AgentTokenRevocation
revocation = record {
  token_id = "agent-1";
  operator_public_key = key;
  revision = 2;
  action_hash = hash_b;
  signature = "0xsigned";
  revoked_at = "4000";
}

abbrev after_revocation : AccessDb
after_revocation = run platform signer site (revokes_token revocation ∷ []) with_agent

revoked-unauthenticated_example :
    authenticate_credential platform agent_token 5000
      (run platform signer site (saves_token agent_record ∷ []) after_revocation)
    ≢ (granted (agent agent_record), after_revocation)
unfolding opened
revoked-unauthenticated_example =
    revoked-unauthenticated platform signer site (saves_token agent_record ∷ []) revocation
      agent_row after_revocation (saves_token agent_record ∷ []) agent_token 5000 agent_record
      after_revocation refl refl refl
