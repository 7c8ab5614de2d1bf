-- ===== src/Common/Decimal/RoundTrip.antt =====
-- Reading back a printed numeral.
use Prim.Native.Char.{Char, code}
use Prim.Native.Nat.{ℕ, zero, suc, ◌+◌, ◌-◌, ◌*◌, ◌/◌, ◌%◌, ◌≤◌, ◌<◌}
use Prim.Native.String.{String, [], ◌∷◌}
use mathlib.Core.Path.{◌≡◌, refl, ◌∙◌, ap}
use mathlib.Core.Logic.{inl, inr}
use mathlib.Core.Option.{none, some}
use native.Mathlib.Omega.{arith}
use zadper.Common.Tests.{ltb, Bool-cases}
use zadper.Common.Text.{is_digit}
use zadper.Common.Decimal.{
  decimal, positive_decimal, to_decimal, digit_char, digits_value, digits_onto,
}

-- The ten digits, one by one.
code-digit_char : (d : ℕ) → d < 10 → code (digit_char d) ≡ d + 48
unfolding digit_char
code-digit_char zero h = refl
code-digit_char (suc zero) h = refl
code-digit_char (suc (suc zero)) h = refl
code-digit_char (suc (suc (suc zero))) h = refl
code-digit_char (suc (suc (suc (suc zero)))) h = refl
code-digit_char (suc (suc (suc (suc (suc zero))))) h = refl
code-digit_char (suc (suc (suc (suc (suc (suc zero)))))) h = refl
code-digit_char (suc (suc (suc (suc (suc (suc (suc zero))))))) h = refl
code-digit_char (suc (suc (suc (suc (suc (suc (suc (suc zero)))))))) h = refl
code-digit_char (suc (suc (suc (suc (suc (suc (suc (suc (suc zero))))))))) h = refl
code-digit_char (suc (suc (suc (suc (suc (suc (suc (suc (suc (suc d)))))))))) h =
    absurd (omega arith)

digits_value-digit_char :
    (n d : ℕ) (s : String)
    → d < 10
    → digits_value n (digit_char d ∷ s) ≡ digits_value (n * 10 + d) s
unfolding digits_value is_digit
digits_value-digit_char n d s h = ground (arith, code-digit_char d h)

positive_decimal-digit_char :
    (d : ℕ) (s : String) → 0 < d → d < 10 → positive_decimal (digit_char d ∷ s) ≡ digits_value d s
unfolding positive_decimal is_digit
positive_decimal-digit_char d s p h = ground (arith, code-digit_char d h)

-- With fuel above the number, the digits in front of `s` read as the number, then `s`.
positive_decimal-digits_onto :
    (f n : ℕ) (s : String) → 0 < n → n < f → positive_decimal (digits_onto f n s) ≡ digits_value n s
unfolding digits_onto
positive_decimal-digits_onto zero n s p h = absurd (omega arith)
positive_decimal-digits_onto (suc f) n s p h = elim (Bool-cases (ltb n 10)) [
  | inl last ↦ rw last (positive_decimal-digit_char n s p (ground arith))
  | inr more ↦ rw more (
      positive_decimal-digits_onto f (n / 10) (digit_char (n % 10) ∷ s) (ground arith)
        (ground arith)
      ∙ digits_value-digit_char (n / 10) (n % 10) s (omega arith)
      ∙ ap (λ k. digits_value k s) (omega arith))
]

positive_zero : (c : Char) (s : String) → code c ≡ 48 → positive_decimal (c ∷ s) ≡ none
unfolding positive_decimal
positive_zero c s h = ground arith

decimal_of_positive : (t : String) (n : ℕ) → positive_decimal t ≡ some n → decimal t ≡ some n
unfolding decimal
decimal_of_positive [] n h = cc
decimal_of_positive (c ∷ []) n h = ground (arith, positive_zero c [])
decimal_of_positive (c ∷ d ∷ s) n h = h

pub positive_decimal-to_decimal : (n : ℕ) → 0 < n → positive_decimal (to_decimal n) ≡ some n
unfolding to_decimal digits_value
positive_decimal-to_decimal n p = positive_decimal-digits_onto (suc n) n [] p (omega arith)

-- A printed number reads as itself.
pub decimal-to_decimal : (n : ℕ) → decimal (to_decimal n) ≡ some n
unfolding decimal to_decimal
decimal-to_decimal zero = refl
decimal-to_decimal (suc n) =
    decimal_of_positive (to_decimal (suc n)) (suc n)
      (positive_decimal-to_decimal (suc n) (omega arith))

-- More digits make no smaller number.
digits_value-le : (k n : ℕ) (s : String) → digits_value k s ≡ some n → k ≤ n
unfolding digits_value
digits_value-le k n [] e = ground arith
digits_value-le k n (c ∷ s) e = ground (arith, digits_value-le (k * 10 + (code c - 48)) n s)

-- A canonical positive numeral is not zero.
pub positive_decimal-positive : (s : String) (n : ℕ) → positive_decimal s ≡ some n → 0 < n
unfolding positive_decimal is_digit
positive_decimal-positive [] n e = cc
positive_decimal-positive (c ∷ s) n e = ground (arith, digits_value-le (code c - 48) n s)
