-- ===== src/Trust/SubjectRules.antt =====
-- trust/rules.ts: `scoreSubject`.
use zadper.Common.{
  ℕ, String, Bool, Option, List, [], ◌∷◌, ◌++◌, ◌&&◌, ◌||◌, not, ltb, leb, ◌==◌, when, holds_of,
  is_none, if◌then◌else◌,
}
use zadper.Trust.Signals.{SubjectSignals}
use zadper.Trust.Rules.{Flag, Severity, RuleResult, rule_result}

abbrev pub young_blocks : ℕ
young_blocks = 1000

-- `=== true` and `=== false` on a value that may be null.
abbrev pub is_true : Option Bool → Bool
is_true o = holds_of o (λ b. b)

abbrev pub is_false : Option Bool → Bool
is_false o = holds_of o not

-- Holdings are concentrated: one holder, or 95 per cent with the first.
unfoldable pub is_concentrated : SubjectSignals → Bool
is_concentrated s =
    holds_of s.holder_count (λ n. n == 1) || holds_of s.top_holder_pct (λ pct. leb 95 pct)

unfoldable pub subject_flags : SubjectSignals → List Flag
unfolding is_concentrated
subject_flags s =
    when (is_true s.mint_burn_enabled) (record {
      code = "cep18_mint_burn_enabled";
      severity = Severity.danger;
      message =
          "The CEP-18 mint and burn functions are enabled, so authorized roles can change token supply.";
    })
    ++ (when (is_none s.mint_burn_enabled && is_true s.public_mint_entrypoint) (record {
      code = "public_mint_entrypoint";
      severity = Severity.caution;
      message =
          "The active contract exposes a public mint entry point. Its internal access rules were not checked.";
    })
        ++ (when (holds_of s.lp_holder_count (λ n. n == 1)) (record {
          code = "single_lp_holder";
          severity = Severity.danger;
          message = "Liquidity is held by a single account.";
        })
            ++ (when (is_concentrated s) (record {
              code = "holder_concentration";
              severity = Severity.danger;
              message = "Token holdings are extremely concentrated.";
            })
                ++ when (holds_of s.contract_age_blocks (λ age. ltb age young_blocks)) (record {
                  code = "very_new_contract";
                  severity = Severity.caution;
                  message = "The contract has existed for fewer than 1,000 blocks.";
                }))))

unfoldable pub subject_not_checked : SubjectSignals → List String
subject_not_checked s =
    when (is_none s.mint_burn_enabled && is_none s.public_mint_entrypoint) "supplyControl"
    ++ (when (is_none s.contract_age_blocks) "contractAgeBlocks"
        ++ (when (is_none s.holder_count) "holderCount"
            ++ when (is_none s.top_holder_pct) "topHolderPct"))

supply_passed : SubjectSignals → List String
supply_passed s =
    if is_false s.mint_burn_enabled
    then "The standard CEP-18 mint and burn setting is disabled." ∷ []
    else when (is_false s.public_mint_entrypoint)
        "No public mint entry point was found in the active contract."

unfoldable pub subject_passed : SubjectSignals → List String
unfolding supply_passed
subject_passed s =
    supply_passed s
    ++ (when (holds_of s.contract_age_blocks (λ age. leb young_blocks age))
          "Contract has existed for at least 1,000 blocks."
        ++ when
            (holds_of s.holder_count (λ n. ltb 1 n)
              && holds_of s.top_holder_pct (λ pct. ltb pct 95))
            "Top-holder concentration is below 95%.")

unfoldable pub score_subject : SubjectSignals → RuleResult
unfolding subject_flags subject_not_checked subject_passed rule_result
score_subject s = rule_result (subject_flags s) (subject_not_checked s) (subject_passed s)
