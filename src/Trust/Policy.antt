-- ===== src/Trust/Policy.antt =====
-- trust/policy.ts: the vocabulary of flags that the hashes of the policies cover.
use zadper.Common.{String, List, [], ◌∷◌}
use zadper.Trust.Rules.{Severity}

pub record PolicyDefinition : Type 0 where
  pub version : String
  pub hard_fails : List String
  pub cautions : List String
  pub mandatory_for_clear : List String

abbrev pub policy_definition : PolicyDefinition
policy_definition = record {
  version = "agentpay-token-check/v3";
  hard_fails = "cep18_mint_burn_enabled" ∷ "single_lp_holder" ∷ "holder_concentration" ∷ [];
  cautions = "public_mint_entrypoint" ∷ "very_new_contract" ∷ "missing_mandatory_signal" ∷ [];
  mandatory_for_clear = "supplyControl" ∷ "contractAgeBlocks" ∷ "holderCount" ∷ "topHolderPct" ∷ [];
}

abbrev pub account_policy_definition : PolicyDefinition
account_policy_definition = record {
  version = "agentpay-account-check/v3";
  hard_fails = "account_not_found" ∷ [];
  cautions =
      "weak_key_management" ∷ "dust_balance" ∷ "very_new_account" ∷ "missing_mandatory_signal" ∷ [];
  mandatory_for_clear =
      "exists" ∷ "balanceMotes" ∷ "associatedKeyCount" ∷ "deploymentThreshold"
      ∷ "keyManagementThreshold" ∷ [];
}

-- The codes that a policy has for a severity.
abbrev pub codes_for : PolicyDefinition → Severity → List String
codes_for p Severity.danger = p.hard_fails
codes_for p Severity.caution = p.cautions
