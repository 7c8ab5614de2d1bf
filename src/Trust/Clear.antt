-- ===== src/Trust/Clear.antt =====
-- How the aspect follows from lists that are put together from guarded items.
use zadper.Common.{◌≡◌, ◌↔◌, Bool, true, false, String, List, [], ◌∷◌, ◌++◌, when, arith, any}
use zadper.Trust.Rules.{Flag, is_danger, approved, rejected, aspect_of, rule_result}

pub append_none_iff {ℓ} :
    {A : Type ℓ} (xs ys : List A) → ((xs ++ ys) ≡ []) ↔ ((xs ≡ []) × (ys ≡ []))
append_none_iff [] ys = ground arith
append_none_iff (x ∷ xs) ys = ground arith

pub when_none_iff {ℓ} : {A : Type ℓ} (b : Bool) (x : A) → (when b x ≡ []) ↔ (b ≡ false)
when_none_iff true x = ground arith
when_none_iff false x = ground arith

pub rule_result-approved_iff :
    (flags : List Flag) (not_checked passed : List String)
    → ((rule_result flags not_checked passed).decision ≡ approved)
      ↔ ((flags ≡ []) × (not_checked ≡ []))
unfolding rule_result aspect_of
rule_result-approved_iff [] [] passed = ground arith
rule_result-approved_iff [] (n ∷ ns) passed = ground arith
rule_result-approved_iff (f ∷ fs) ns passed = ground arith

pub rule_result-rejected_iff :
    (flags : List Flag) (not_checked passed : List String)
    → ((rule_result flags not_checked passed).decision ≡ rejected) ↔ (any is_danger flags ≡ true)
unfolding rule_result aspect_of
rule_result-rejected_iff flags ns passed = ground arith
