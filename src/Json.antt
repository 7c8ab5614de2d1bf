-- ===== src/Json.antt =====
-- Values of JSON, and packages/agent-pay-core/src/payment/canonical.ts: the canonical text of a
-- value and the hash of an artifact. Numbers are natural numbers; a cycle, a value that is no plain
-- object and a number that is not finite cannot be written down as a `Value`.
mod Tests
use Prim.Native.Char.{Char, code}
use Prim.Native.String.{◌++◌, [], ◌∷◌, char_at}
use text.Mathlib.Text.{is_le}
use Prim.Native.String as Text
use zadper.Common.{
  ℕ, ◌+◌, ◌/◌, ◌%◌, String, Bool, true, false, List, ◌||◌, if◌then◌else◌, ltb, leb, ◌==◌,
}
use mathlib.Core.List
use zadper.Common.Decimal.{to_decimal}

mutual
  pub data Value : Type 0 where
    str : String → Value
    num : ℕ → Value
    bool : Bool → Value
    null : Value
    obj : Fields → Value
    arr : Items → Value

  pub data Fields : Type 0 where
    end : Fields
    field : (key : String) (value : Value) (rest : Fields) → Fields

  pub data Items : Type 0 where
    nil : Items
    cons : (item : Value) (rest : Items) → Items

abbrev pub items : List Value → Items
items List.[] = nil
items (List.◌∷◌ v vs) = cons v (items vs)

-- A hexadecimal digit, in lower case.
hex_digit : ℕ → String
hex_digit d = char_at "0123456789abcdef" d ∷ []

-- `JSON.stringify` escapes the quote, the backslash and the control characters.
escape_char : Char → String
unfolding hex_digit
escape_char c =
    if code c == 0x22
    then "\\\""
    else if code c == 0x5C
    then "\\\\"
    else if code c == 0x8
    then "\\b"
    else if code c == 0x9
    then "\\t"
    else if code c == 0xA
    then "\\n"
    else if code c == 0xC
    then "\\f"
    else if code c == 0xD
    then "\\r"
    else if ltb (code c) 0x20
    then "\\u00" ++ hex_digit (code c / 16) ++ hex_digit (code c % 16)
    else c ∷ []

escape : String → String
unfolding escape_char
escape [] = []
escape (c ∷ s) = escape_char c ++ escape s

-- `JSON.stringify` of a string.
unfoldable pub quote : String → String
unfolding escape
quote s = "\"" ++ escape s ++ "\""

-- `join(",")`.
unfoldable pub join_comma : List String → String
join_comma List.[] = ""
join_comma (List.◌∷◌ s List.[]) = s
join_comma (List.◌∷◌ s (List.◌∷◌ t r)) = s ++ "," ++ join_comma (List.◌∷◌ t r)

-- The order of `sort()`, by code points; that of JavaScript, by UTF-16 code units, is the same on
-- keys in the basic plane.
abbrev pub text_le : String → String → Bool
text_le s t = is_le (Text.compare s t)

-- One step of the sort: an entry goes in front of the first that is not before it.
unfoldable pub insert : String × String → List (String × String) → List (String × String)
insert e List.[] = List.◌∷◌ e List.[]
insert e (List.◌∷◌ d r) =
    if text_le e.0 d.0 then List.◌∷◌ e (List.◌∷◌ d r) else List.◌∷◌ d (insert e r)

-- `Object.keys(record).sort()`, each key with the text of its value.
unfoldable pub sort : List (String × String) → List (String × String)
unfolding insert
sort List.[] = List.[]
sort (List.◌∷◌ e r) = insert e (sort r)

unfoldable pub entry_text : String × String → String
entry_text e = quote e.0 ++ ":" ++ e.1

unfoldable pub object_text : List (String × String) → String
unfolding sort entry_text join_comma
object_text entries = "{" ++ join_comma (List.map entry_text (sort entries)) ++ "}"

unfoldable mutual
  unfolding quote to_decimal join_comma object_text

  pub canonical_json : Value → String
  canonical_json null = "null"
  canonical_json (bool true) = "true"
  canonical_json (bool false) = "false"
  canonical_json (num n) = to_decimal n
  canonical_json (str s) = quote s
  canonical_json (arr vs) = "[" ++ join_comma (item_texts vs) ++ "]"
  canonical_json (obj fs) = object_text (field_texts fs)

  pub item_texts : Items → List String
  item_texts nil = List.[]
  item_texts (cons v vs) = List.◌∷◌ (canonical_json v) (item_texts vs)

  pub field_texts : Fields → List (String × String)
  field_texts end = List.[]
  field_texts (field k v fs) = List.◌∷◌ (k, canonical_json v) (field_texts fs)

-- `artifactHash`: SHA-256, of @noble/hashes, over the UTF-8 bytes of the canonical text.
unfoldable pub artifact_hash : (String → String) → Value → String
unfolding canonical_json
artifact_hash sha256 v = sha256 (canonical_json v)
