-- ===== src/Payment/Policy/Verdict.antt =====
-- How the verdict follows from the reasons.
use zadper.Common.{◌≡◌, refl, ◌↔◌, Bool, true, false, List, [], ◌∷◌, ◌++◌, ◌||◌, any, arith}
use zadper.Payment.Types.{PaymentVerdict, pay, Reason, is_block, is_review}
use zadper.Payment.Policy.{verdict_of}

abbrev pub blocks : List Reason → Bool
blocks rs = any (λ r. is_block r.result) rs

abbrev pub reviews : List Reason → Bool
reviews rs = any (λ r. is_review r.result) rs

-- A reason that keeps the verdict from being PAY.
abbrev pub bars : List Reason → Bool
bars rs = blocks rs || reviews rs

pub any-append {ℓ} :
    {A : Type ℓ} (p : A → Bool) (xs ys : List A) → any p (xs ++ ys) ≡ any p xs || any p ys
any-append p [] ys = refl
any-append p (x ∷ xs) ys = ground (arith, any-append p xs ys)

pub bars-append : (xs ys : List Reason) → bars (xs ++ ys) ≡ bars xs || bars ys
bars-append xs ys = ground (
  arith,
  any-append (λ (r : Reason). is_block r.result) xs ys,
  any-append (λ (r : Reason). is_review r.result) xs ys,
)

pub bars-append_clear :
    (xs ys : List Reason) → bars (xs ++ ys) ≡ false → (bars xs ≡ false) × (bars ys ≡ false)
bars-append_clear xs ys h = ground (arith, bars-append xs ys)

pub verdict_of-pay_iff : (rs : List Reason) → (verdict_of rs ≡ pay) ↔ (bars rs ≡ false)
unfolding verdict_of
verdict_of-pay_iff rs = ground arith

pub verdict_of-block_iff :
    (rs : List Reason) → (verdict_of rs ≡ PaymentVerdict.block) ↔ (blocks rs ≡ true)
unfolding verdict_of
verdict_of-block_iff rs = ground arith
