-- ===== src/Common/Decimal.antt =====
-- Decimal numerals: the tests `/^(0|[1-9][0-9]*)$/` and `/^[1-9][0-9]*$/` with `BigInt(text)`, and
-- `String(n)` or `n.toString()`.
pub mod RoundTrip
use Prim.Native.Char.{Char, code}
use Prim.Native.Nat.{ℕ, zero, suc, ◌+◌, ◌-◌, ◌*◌, ◌/◌, ◌%◌}
use Prim.Native.String.{String, [], ◌∷◌, char_at}
use mathlib.Core.Option.{Option, none, some}
use zadper.Common.Tests.{◌==◌, ltb, if◌then◌else◌}
use zadper.Common.Text.{is_digit}

-- `BigInt` of the digits after a value, or none at a character that is no digit.
digits_value : ℕ → String → Option ℕ
unfolding is_digit
digits_value n [] = some n
digits_value n (c ∷ s) =
    let rest = digits_value (n * 10 + (code c - b'0')) s in if is_digit (code c) then rest else none

-- `/^\d+$/` with `BigInt(text)`: a numeral that may have leading zeros.
unfoldable pub digits : String → Option ℕ
unfolding digits_value
digits [] = none
digits (c ∷ s) = digits_value 0 (c ∷ s)

-- The number of a canonical positive numeral.
unfoldable pub positive_decimal : String → Option ℕ
unfolding is_digit digits_value
positive_decimal [] = none
positive_decimal (c ∷ s) =
    if code c == b'0'
    then none
    else if is_digit (code c)
    then digits_value (code c - b'0') s
    else none

-- The number of a canonical numeral.
unfoldable pub decimal : String → Option ℕ
unfolding positive_decimal
decimal [] = none
decimal (c ∷ []) = if code c == b'0' then some 0 else positive_decimal (c ∷ [])
decimal (c ∷ d ∷ s) = positive_decimal (c ∷ d ∷ s)

unfoldable pub digit_char : ℕ → Char
digit_char d = char_at "0123456789" d

-- The digits of a number in front of a text. The fuel bounds the number of digits.
digits_onto : ℕ → ℕ → String → String
unfolding digit_char
digits_onto zero n s = s
digits_onto (suc f) n s =
    let more = digits_onto f (n / 10) (digit_char (n % 10) ∷ s) in
    if ltb n 10 then digit_char n ∷ s else more

-- A number has at most as many digits as its value and one.
unfoldable pub to_decimal : ℕ → String
unfolding digits_onto
to_decimal n = digits_onto (suc n) n []
