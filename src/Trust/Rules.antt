-- ===== src/Trust/Rules.antt =====
-- trust/rules.ts: the result of a rule engine, and the aspect that the flags and the checks that
-- did not run give.
use zadper.Common.{String, Bool, true, false, List, [], ◌∷◌, ◌||◌, not, any, if◌then◌else◌}

pub data Aspect : Type 0 where
  clear caution danger : Aspect

pub data WireDecision : Type 0 where
  approved needs_review rejected : WireDecision

pub data Severity : Type 0 where
  danger caution : Severity

pub record Flag : Type 0 where
  pub code : String
  pub severity : Severity
  pub message : String

pub record RuleResult : Type 0 where
  pub aspect : Aspect
  pub decision : WireDecision
  pub flags : List Flag
  pub not_checked : List String
  pub passed : List String

-- `f.severity === "danger"`.
abbrev pub is_danger : Flag → Bool
is_danger f = elim f.severity [ Severity.danger ↦ true | Severity.caution ↦ false ]

abbrev pub is_empty {ℓ} : {A : Type ℓ} → List A → Bool
is_empty [] = true
is_empty (x ∷ xs) = false

unfoldable pub aspect_of : List Flag → List String → Aspect
aspect_of flags not_checked =
    if any is_danger flags
    then Aspect.danger
    else if not (is_empty flags) || not (is_empty not_checked)
    then Aspect.caution
    else clear

abbrev pub decision_of : Aspect → WireDecision
decision_of Aspect.danger = rejected
decision_of Aspect.caution = needs_review
decision_of clear = approved

-- The object that both rule engines return.
unfoldable pub rule_result : List Flag → List String → List String → RuleResult
unfolding aspect_of
rule_result flags not_checked passed = record {
  aspect = aspect_of flags not_checked;
  decision = decision_of (aspect_of flags not_checked);
  flags = flags;
  not_checked = not_checked;
  passed = passed;
}
