-- ===== src/Access/Agents.antt =====
-- When an agent may act with a credential.
use zadper.Common.{
  ℕ, ◌≡◌, ◌↔◌, refl, ap, ◌∙◌, String, true, Option, none, some, any, includes, ok, arith,
}
use zadper.Payment.Runtime.{Runtime}
use zadper.Payment.Authorization.{normalize_address}
use zadper.Access.Tables.{AgentTokenRecord, AgentTokenScope, same_scope, AccessDb}
use zadper.Access.Acts.{
  granted, return, require, deny, ◌>>◌, ◌>>=◌, lift, bind-granted, require-granted, lift-granted,
}
use zadper.Access.Credentials.{
  AuthPrincipal, operator, agent, authenticate_credential, require_payer, authorize_principal,
  authorize_agent,
}
use zadper.Access.Known.{IsAgent, agent-granted, agent-grants}

module _ (runtime : Runtime) (raw : String) (now : ℕ) where
  -- The payer that is named, if one is, is among the token's.
  abbrev pub PaysFor : AgentTokenRecord → Option String → Type 0
  PaysFor token none = Unit
  PaysFor token (some payer) =
      (key : String) × (normalize_address payer "BotChain public key" ≡ ok key)
      × (includes token.allowed_payer_public_keys key ≡ true)

  payer-granted :
      (token : AgentTokenRecord) (payer : Option String) (db : AccessDb)
      → {allowed : AgentTokenRecord} {after : AccessDb}
      → require_payer runtime token payer db ≡ (granted allowed, after)
      → (allowed ≡ token) × (after ≡ db) × PaysFor token payer
  unfolding require_payer return
  payer-granted token none db e = (ground arith, ground arith, tt)
  payer-granted token (some payer) db e =
      let named = lift-granted (normalize_address payer "BotChain public key") _ db e in
      let allowed = require-granted _ _ _ db named.2 in
      (ground (arith, allowed.1), ground (arith, allowed.1), (named.0, named.1, allowed.0))

  payer-grants :
      (token : AgentTokenRecord) (payer : Option String) (db : AccessDb)
      → PaysFor token payer
      → require_payer runtime token payer db ≡ (granted token, db)
  unfolding require_payer return ◌>>=◌ ◌>>◌ lift require
  payer-grants token none db pays = refl
  payer-grants token (some payer) db pays = rw (pays.1, pays.2) refl

  principal-granted :
      (principal : AuthPrincipal) (scope : AgentTokenScope) (payer : Option String) (db : AccessDb)
      → {token : AgentTokenRecord} {after : AccessDb}
      → authorize_principal runtime scope payer principal db ≡ (granted token, after)
      → (principal ≡ agent token)
        × (any (same_scope scope) token.scopes ≡ true)
        × PaysFor token payer
  unfolding authorize_principal
  principal-granted (operator held) scope payer db e = absurd (unfold deny in (cc e))
  principal-granted (agent stored) scope payer db e =
      let scoped = require-granted _ _ _ db e in
      let paid = payer-granted stored payer db scoped.1 in rw paid.0 (refl, scoped.0, paid.2)

  authorize-grants :
      (scope : AgentTokenScope) (payer : Option String) (db : AccessDb) (token : AgentTokenRecord)
      → IsAgent runtime raw now db token
      → any (same_scope scope) token.scopes ≡ true
      → PaysFor token payer
      → authorize_agent runtime raw scope payer now db ≡ (granted token, db)
  unfolding authorize_agent authorize_principal ◌>>=◌ ◌>>◌ require
  authorize-grants scope payer db token known scoped pays =
      rw (agent-grants runtime raw now db token known)
        (rw scoped (payer-grants token payer db pays))

  -- An agent may act with a credential exactly when the credential is a live agent token of the
  -- store, the token has the scope, and the payer that is named, if one is, is among its payers;
  -- the token is then the answer.
  pub authorize_agent-granted_iff :
      (scope : AgentTokenScope) (payer : Option String) (db : AccessDb) (token : AgentTokenRecord)
      → (authorize_agent runtime raw scope payer now db ≡ (granted token, db)) ↔ (
          IsAgent runtime raw now db token
          × (any (same_scope scope) token.scopes ≡ true)
          × PaysFor token payer)
  unfolding authorize_agent authorize_principal
  authorize_agent-granted_iff scope payer db token = (
    λ e.
        let first = bind-granted (authenticate_credential runtime raw now) _ db e in
        let met = principal-granted first.0 scope payer first.1 first.3 in
        let known =
          agent-granted runtime raw now db (first.2 ∙ ap (λ p. (granted p, first.1)) met.0) in
        (known.0, met.1, met.2),
    λ (known, scoped, pays). authorize-grants scope payer db token known scoped pays,
  )
