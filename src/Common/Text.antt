-- ===== src/Common/Text.antt =====
-- The string methods that the source uses. A text is a native `String`, a sequence of code points.
use Prim.Native.Char.{Char, code}
use Prim.Native.Nat.{ℕ, zero, suc, ◌+◌, ◌-◌}
use Prim.Native.String.{String, [], ◌∷◌, char_at}
use mathlib.Core.Bool.{Bool, true, false, ◌&&◌, ◌||◌}
use zadper.Common.Tests.{leb, ltb, ◌==◌, if◌then◌else◌}

-- `toLowerCase`, on the letters of ASCII. Other letters, which JavaScript lowers by the Unicode
-- tables, stay as they are: the texts lowered are addresses, hashes and keys in hexadecimal.
unfoldable pub lower_char : Char → Char
lower_char c =
    if leb b'A' (code c) && leb (code c) b'Z'
    then char_at "abcdefghijklmnopqrstuvwxyz" (code c - b'A')
    else c

unfoldable pub lower : String → String
unfolding lower_char
lower [] = []
lower (c ∷ s) = lower_char c ∷ lower s

-- `length` counts UTF-16 code units.
unfoldable pub utf16_length : String → ℕ
utf16_length [] = 0
utf16_length (c ∷ s) = (if ltb (code c) 0x10000 then 1 else 2) + utf16_length s

-- `startsWith`.
unfoldable pub starts_with : String → String → Bool
starts_with s [] = true
starts_with [] (d ∷ t) = false
starts_with (c ∷ s) (d ∷ t) = code c == code d && starts_with s t

-- `slice(k)` at a number of characters.
unfoldable pub drop_chars : ℕ → String → String
drop_chars zero s = s
drop_chars (suc k) [] = []
drop_chars (suc k) (c ∷ s) = drop_chars k s

unfoldable pub is_digit : ℕ → Bool
is_digit c = leb b'0' c && leb c b'9'

-- `[0-9a-f]`.
unfoldable pub is_lower_hex : ℕ → Bool
unfolding is_digit
is_lower_hex c = is_digit c || leb b'a' c && leb c b'f'

-- `/^[0-9a-f]{n}$/`.
unfoldable pub is_hex_of : ℕ → String → Bool
unfolding is_lower_hex
is_hex_of zero [] = true
is_hex_of zero (c ∷ s) = false
is_hex_of (suc n) [] = false
is_hex_of (suc n) (c ∷ s) = is_lower_hex (code c) && is_hex_of n s

-- White space and line terminators.
is_space : ℕ → Bool
is_space c =
    leb 0x9 c && leb c 0xD
    || c == 0x20
    || c == 0xA0
    || c == 0x1680
    || leb 0x2000 c && leb c 0x200A
    || c == 0x2028
    || c == 0x2029
    || c == 0x202F
    || c == 0x205F
    || c == 0x3000
    || c == 0xFEFF

trim_start : String → String
unfolding is_space
trim_start [] = []
trim_start (c ∷ s) = let rest = trim_start s in if is_space (code c) then rest else c ∷ s

-- A character in front of a text whose white space at the end is gone.
trim_onto : Char → String → String
unfolding is_space
trim_onto c [] = if is_space (code c) then [] else c ∷ []
trim_onto c (d ∷ s) = c ∷ d ∷ s

trim_end : String → String
unfolding trim_onto
trim_end [] = []
trim_end (c ∷ s) = trim_onto c (trim_end s)

unfoldable pub trim : String → String
unfolding trim_start trim_end
trim s = trim_end (trim_start s)
