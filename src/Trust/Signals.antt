-- ===== src/Trust/Signals.antt =====
-- trust/signals.ts and trust/accountSignals.ts: the signals that the facts of the evidence records
-- give. A number is a natural number; a percentage that is no whole number is taken by its whole
-- part, on which the rules' tests give the same answer.
use zadper.Common.{
  ℕ, ◌&&◌, leb, String, Bool, Option, none, some, List, [], ◌∷◌, ◌++◌, ◌===◌, if◌then◌else◌,
  is_none, not,
}
use zadper.Common.Text.{utf16_length}
use zadper.Common.Decimal.{digits}
use zadper.Evidence.{EvidenceRecord}
use zadper.Json.{Value, num, str, bool}

-- `Record<string, unknown>`, with the fact that counts first where a key is there twice.
abbrev pub Facts : Type 0
Facts = List (String × Value)

-- `facts[key]`.
unfoldable pub fact : Facts → String → Option Value
fact [] key = none
fact ((k, v) ∷ facts) key = if k === key then some v else fact facts key

-- `Object.assign(facts, r.facts)` for each record: a later record's fact takes the place of an
-- earlier one.
unfoldable pub assign_onto : Facts → List EvidenceRecord → Facts
assign_onto facts [] = facts
assign_onto facts (r ∷ rs) = assign_onto (r.facts ++ facts) rs

abbrev pub as_bool : Option Value → Option Bool
as_bool (some (bool b)) = some b
as_bool _ = none

abbrev pub as_num : Option Value → Option ℕ
as_num (some (num n)) = some n
as_num _ = none

-- `/^\d{1,155}$/`.
unfoldable pub is_motes : String → Bool
is_motes s = not (is_none (digits s)) && leb (utf16_length s) 155

unfoldable pub decimal_motes : Option Value → Option String
unfolding is_motes
decimal_motes (some (str s)) = if is_motes s then some s else none
decimal_motes _ = none

pub record SubjectSignals : Type 0 where
  pub mint_burn_enabled : Option Bool
  pub public_mint_entrypoint : Option Bool
  pub holder_count : Option ℕ
  pub top_holder_pct : Option ℕ
  pub contract_age_blocks : Option ℕ
  pub lp_holder_count : Option ℕ
  pub liquidity_depth : Option ℕ

unfoldable pub subject_signals_from_facts : Facts → SubjectSignals
unfolding fact
subject_signals_from_facts facts = record {
  mint_burn_enabled = as_bool (fact facts "mintBurnEnabled");
  public_mint_entrypoint = as_bool (fact facts "publicMintEntrypoint");
  holder_count = as_num (fact facts "holderCount");
  top_holder_pct = as_num (fact facts "topHolderPct");
  contract_age_blocks = as_num (fact facts "contractAgeBlocks");
  lp_holder_count = as_num (fact facts "lpHolderCount");
  liquidity_depth = as_num (fact facts "liquidityDepth");
}

unfoldable pub extract_signals : List EvidenceRecord → SubjectSignals
unfolding assign_onto subject_signals_from_facts
extract_signals records = subject_signals_from_facts (assign_onto [] records)

pub record AccountSignals : Type 0 where
  pub exists : Option Bool
  pub balance_motes : Option String
  pub associated_key_count : Option ℕ
  pub deployment_threshold : Option ℕ
  pub key_management_threshold : Option ℕ
  pub named_key_count : Option ℕ
  pub age_blocks : Option ℕ
  pub tx_count : Option ℕ

unfoldable pub account_signals_from_facts : Facts → AccountSignals
unfolding fact decimal_motes
account_signals_from_facts facts = record {
  exists = as_bool (fact facts "exists");
  balance_motes = decimal_motes (fact facts "balanceMotes");
  associated_key_count = as_num (fact facts "associatedKeyCount");
  deployment_threshold = as_num (fact facts "deploymentThreshold");
  key_management_threshold = as_num (fact facts "keyManagementThreshold");
  named_key_count = as_num (fact facts "namedKeyCount");
  age_blocks = as_num (fact facts "ageBlocks");
  tx_count = as_num (fact facts "txCount");
}

unfoldable pub extract_account_signals : List EvidenceRecord → AccountSignals
unfolding assign_onto account_signals_from_facts
extract_account_signals records = account_signals_from_facts (assign_onto [] records)
