-- ===== src/Trust/AccountRules.antt =====
-- trust/accountRules.ts: `scoreAccount`.
use zadper.Common.{
  ℕ, String, Bool, Option, none, some, List, [], ◌∷◌, ◌++◌, ◌&&◌, not, ltb, leb, ◌==◌, ◌===◌, any,
  when, holds_of, is_none, if◌then◌else◌,
}
use zadper.Common.Decimal.{digits}
use zadper.Trust.Signals.{AccountSignals, is_motes}
use zadper.Trust.Rules.{Flag, Severity, RuleResult, rule_result}
use zadper.Trust.SubjectRules.{is_true, is_false}

abbrev pub dust_motes : ℕ
dust_motes = 1_000_000_000

abbrev pub young_account_blocks : ℕ
young_account_blocks = 5_000

-- `parseBalanceMotes`.
unfoldable pub parse_balance_motes : Option String → Option ℕ
parse_balance_motes none = none
parse_balance_motes (some s) = if is_motes s then digits s else none

-- Several keys, of which one alone can change them all.
unfoldable pub is_weak : AccountSignals → Bool
is_weak s =
    holds_of s.associated_key_count (λ n. ltb 1 n)
    && holds_of s.key_management_threshold (λ n. leb n 1)

unfoldable pub account_flags : AccountSignals → List Flag
unfolding is_weak parse_balance_motes
account_flags s =
    when (is_false s.exists) (record {
      code = "account_not_found";
      severity = Severity.danger;
      message = "No account exists at this address on-chain.";
    })
    ++ (when (is_weak s) (record {
      code = "weak_key_management";
      severity = Severity.caution;
      message = "A single key can rotate all keys on this multisig account.";
    })
        ++ (when (holds_of (parse_balance_motes s.balance_motes) (λ motes. ltb motes dust_motes))
              (record {
                code = "dust_balance";
                severity = Severity.caution;
                message = "The account balance is below 1 CSPR.";
              })
            ++ when (holds_of s.age_blocks (λ age. ltb age young_account_blocks)) (record {
              code = "very_new_account";
              severity = Severity.caution;
              message = "Account was created very recently.";
            })))

unfoldable pub account_not_checked : AccountSignals → List String
unfolding parse_balance_motes
account_not_checked s =
    when (is_none s.exists) "exists"
    ++ (when (is_none (parse_balance_motes s.balance_motes)) "balanceMotes"
        ++ (when (is_none s.associated_key_count) "associatedKeyCount"
            ++ (when (is_none s.deployment_threshold) "deploymentThreshold"
                ++ when (is_none s.key_management_threshold) "keyManagementThreshold")))

-- `flaggedCodes.has(code)`.
abbrev pub has_code : String → List Flag → Bool
has_code code flags = any (λ f. f.code === code) flags

keys_passed : AccountSignals → List String
keys_passed s =
    if holds_of s.associated_key_count (λ n. n == 1)
    then "Account has one associated key." ∷ []
    else when
        (holds_of s.associated_key_count (λ n. ltb 1 n)
          && holds_of s.key_management_threshold (λ n. ltb 1 n))
        "Key-management threshold requires more than one key."

unfoldable pub account_passed : AccountSignals → List String
unfolding account_flags keys_passed
account_passed s =
    when (is_true s.exists) "Account exists on-chain."
    ++ (when
          (not (is_none (parse_balance_motes s.balance_motes))
            && not (has_code "dust_balance" (account_flags s)))
          "CSPR balance is at least 1 CSPR."
        ++ keys_passed s)

unfoldable pub score_account : AccountSignals → RuleResult
unfolding account_flags account_not_checked account_passed rule_result
score_account s = rule_result (account_flags s) (account_not_checked s) (account_passed s)
