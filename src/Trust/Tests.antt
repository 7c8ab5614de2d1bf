-- ===== src/Trust/Tests.antt =====
-- Scores of two tokens and an account, and the theorems at them.
use zadper.Common.{
  String, List, ◌≡◌, ◌↔◌, ◌⊎◌, ◌≤◌, ℕ, refl, true, false, some, none, [], ◌∷◌, all, includes,
}
use zadper.Common.Text.{utf16_length}
use zadper.Common.Decimal.{digits}
use zadper.Json.{Value, num, bool}
use zadper.Evidence.{EvidenceRecord}
use zadper.Trust.Signals.{
  SubjectSignals, AccountSignals, fact, assign_onto, subject_signals_from_facts, extract_signals,
  is_motes, decimal_motes, account_signals_from_facts, extract_account_signals,
}
use zadper.Trust.Rules.{approved, rejected, aspect_of, rule_result}
use zadper.Trust.SubjectRules.{
  is_concentrated, subject_flags, subject_not_checked, subject_passed, score_subject,
}
use zadper.Trust.AccountRules.{
  parse_balance_motes, is_weak, account_flags, account_not_checked, account_passed, score_account,
}
use zadper.Trust.Policy.{policy_definition, account_policy_definition, codes_for}
use zadper.Trust.SubjectClear as Subject
use zadper.Trust.SubjectClear.{
  score_subject-approved_iff, score_subject-rejected_iff, score_subject-covered,
}
use zadper.Trust.AccountClear as Account
use zadper.Trust.AccountClear.{
  score_account-approved_iff, score_account-rejected_iff, score_account-covered,
}

opened : Unit {0}
unfolding fact assign_onto subject_signals_from_facts extract_signals is_motes decimal_motes
    account_signals_from_facts extract_account_signals digits utf16_length aspect_of rule_result
    is_concentrated subject_flags subject_not_checked subject_passed score_subject
    parse_balance_motes is_weak account_flags account_not_checked account_passed score_account
opened = tt

abbrev token : SubjectSignals
token = record {
  mint_burn_enabled = some false;
  public_mint_entrypoint = none;
  holder_count = some 12;
  top_holder_pct = some 40;
  contract_age_blocks = some 2000;
  lp_holder_count = none;
  liquidity_depth = none;
}

abbrev observed : String → List (String × Value) → EvidenceRecord
observed id facts = record {
  id = id;
  product = "token";
  network = "testnet";
  subject = "0xaa";
  observed_at = "1000";
  source_url = "https://rpc.example";
  facts = facts;
  raw_hash = "00";
}

-- The second record's fact takes the place of the first's.
extract_test :
    extract_signals (
      observed "r1"
        (("mintBurnEnabled", bool true) ∷ ("holderCount", num 12) ∷ ("topHolderPct", num 40) ∷ [])
      ∷ observed "r2" (("mintBurnEnabled", bool false) ∷ ("contractAgeBlocks", num 2000) ∷ [])
      ∷ [])
    ≡ token
unfolding opened
extract_test = refl

token_test : (score_subject token).decision ≡ approved
unfolding opened
token_test = refl

score_subject-approved_iff_example :
    ((score_subject token).decision ≡ approved) ↔ Subject.IsClean token
score_subject-approved_iff_example = score_subject-approved_iff token

abbrev pooled : SubjectSignals
pooled = record token { lp_holder_count = some 1; top_holder_pct = none }

score_subject-rejected_iff_example : ((score_subject pooled).decision ≡ rejected) ↔ (
    (pooled.mint_burn_enabled ≡ some true)
    ⊎ (pooled.lp_holder_count ≡ some 1)
    ⊎ (pooled.holder_count ≡ some 1)
    ⊎ ((pct : ℕ) × (pooled.top_holder_pct ≡ some pct) × (95 ≤ pct)))
score_subject-rejected_iff_example = score_subject-rejected_iff pooled

score_subject-covered_example :
    (all
        (λ f. includes (codes_for policy_definition f.severity) f.code)
        (score_subject pooled).flags
      ≡ true)
    × (all (includes policy_definition.mandatory_for_clear) (score_subject pooled).not_checked
        ≡ true)
score_subject-covered_example = score_subject-covered pooled

abbrev account : AccountSignals
account = record {
  exists = some true;
  balance_motes = some "2000000000";
  associated_key_count = some 3;
  deployment_threshold = some 1;
  key_management_threshold = some 2;
  named_key_count = none;
  age_blocks = none;
  tx_count = none;
}

account_test : (score_account account).decision ≡ approved
unfolding opened
account_test = refl

score_account-approved_iff_example :
    ((score_account account).decision ≡ approved) ↔ Account.IsClean account
score_account-approved_iff_example = score_account-approved_iff account

abbrev missing : AccountSignals
missing = record account { exists = some false; balance_motes = none }

score_account-rejected_iff_example :
    ((score_account missing).decision ≡ rejected) ↔ (missing.exists ≡ some false)
score_account-rejected_iff_example = score_account-rejected_iff missing

score_account-covered_example :
    (all
        (λ f. includes (codes_for account_policy_definition f.severity) f.code)
        (score_account missing).flags
      ≡ true)
    × (all
          (includes account_policy_definition.mandatory_for_clear)
          (score_account missing).not_checked
        ≡ true)
score_account-covered_example = score_account-covered missing
