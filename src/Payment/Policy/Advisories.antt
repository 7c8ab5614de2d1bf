-- ===== src/Payment/Policy/Advisories.antt =====
-- policy.ts: `evaluateInvestmentAdvisories`.
pub mod Clear
use zadper.Common.{
  ℕ, String, Bool, true, false, Option, none, some, List, [], ◌++◌, not, ◌&&◌, ltb, leb, when,
  holds_of, if◌then◌else◌,
}
use zadper.Json.{Value, bool, num, str, null}
use zadper.Payment.Types.{
  Reason, ReasonResult, cep18_mint_burn_enabled, public_mint_entrypoint, holder_concentration,
  very_new_contract,
}
use zadper.Payment.Policy.Input.{PaymentEvaluationInput, Pushed, reason}

pub reviews_advisories : PaymentEvaluationInput → Bool
reviews_advisories input = holds_of input.policy (λ p. p.review_on_investment_advisories)

-- `value === true`.
is_true : Option Bool → Bool
is_true none = false
is_true (some b) = b

-- `pct !== null && pct >= 95`. A share that is no whole number passes the test as its floor does.
is_concentrated : Option ℕ → Bool
is_concentrated none = false
is_concentrated (some pct) = leb 95 pct

-- `age !== null && age < 1000`.
is_young : Option ℕ → Bool
is_young none = false
is_young (some age) = ltb age 1000

abbrev number_or_null : Option ℕ → Value
number_or_null none = null
number_or_null (some n) = num n

mint_reasons : PaymentEvaluationInput → ReasonResult → List Reason
unfolding is_true
mint_reasons input result =
    if is_true input.evidence.mint_burn_enabled
    then when true (
        reason cep18_mint_burn_enabled result
          "The payment token's CEP-18 mint and burn functions are enabled"
          "evidence.mintBurnEnabled" (bool false) (bool true))
    else when (is_true input.evidence.public_mint_entrypoint) (
        reason public_mint_entrypoint result
          "The payment token contract exposes a public mint entry point"
          "evidence.publicMintEntrypoint" (bool false) (bool true))

advisory_reasons : PaymentEvaluationInput → ReasonResult → List Reason
unfolding mint_reasons is_concentrated is_young
advisory_reasons input result =
    mint_reasons input result
    ++ (when (is_concentrated input.evidence.holder_concentration_pct) (
          reason holder_concentration result "Payment token holdings are highly concentrated"
            "evidence.holderConcentrationPct" (str "< 95")
            (number_or_null input.evidence.holder_concentration_pct))
        ++ when (is_young input.evidence.contract_age_blocks) (
            reason very_new_contract result "Payment token contract is very new"
              "evidence.contractAgeBlocks" (str ">= 1000")
              (number_or_null input.evidence.contract_age_blocks)))

unfoldable pub evaluate_investment_advisories : PaymentEvaluationInput → Pushed
unfolding reviews_advisories advisory_reasons
evaluate_investment_advisories input =
    if reviews_advisories input
    then record { reasons = advisory_reasons input ReasonResult.review; advisories = [] }
    else record { reasons = []; advisories = advisory_reasons input ReasonResult.advisory }
