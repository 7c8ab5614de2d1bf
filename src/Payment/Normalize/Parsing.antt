-- ===== src/Payment/Normalize/Parsing.antt =====
-- packages/agent-pay-core/src/payment/normalize.ts: what the parsers return, a value or the reason of
-- a refusal.
use zadper.Common.{String, Bool, true, Option, none, some, ◌≡◌, refl, if◌then◌else◌, arith}
use zadper.Json.{Value, str, num, bool, null, obj, arr}
use zadper.Payment.Types.{ReasonCode}

-- A `Reason` that blocks. What was received may be undefined.
pub record Refusal : Type 0 where
  pub code : ReasonCode
  pub message : String
  pub field : String
  pub expected : Value
  pub received : Option Value

pub data Parsed (A : Type 0) : Type 0 where
  parsed : A → Parsed A
  refused : Refusal → Parsed A

infixl 5 ◌>>=◌
abbrev pub ◌>>=◌ : {A B : Type 0} → Parsed A → (A → Parsed B) → Parsed B
parsed a >>= k = k a
refused r >>= k = refused r

-- `if (!value) return ...`.
abbrev pub demand : {A : Type 0} → Option A → Refusal → Parsed A
demand none r = refused r
demand (some a) r = parsed a

-- `typeof value === "string"` and a test on the text.
abbrev pub string_with : (String → Bool) → Option Value → Option String
string_with p (some (str s)) = if p s then some s else none
string_with p _ = none

-- A block that parses has passed each of its steps.
pub bind-parsed :
    {A B : Type 0} (first : Parsed A) (k : A → Parsed B) {last : B}
    → (first >>= k) ≡ parsed last
    → (value : A) × (first ≡ parsed value) × (k value ≡ parsed last)
bind-parsed (parsed a) k e = (a, refl, e)
bind-parsed (refused r) k e = cc

pub demand-parsed :
    {A : Type 0} (found : Option A) (r : Refusal) {a : A}
    → demand found r ≡ parsed a
    → found ≡ some a
demand-parsed none r e = cc
demand-parsed (some a) r e = cc

pub string_with-some :
    (p : String → Bool) (v : Option Value) {s : String}
    → string_with p v ≡ some s
    → (v ≡ some (str s)) × (p s ≡ true)
string_with-some p (some (str s)) e = ground arith
string_with-some p (some (num n)) e = cc
string_with-some p (some (bool b)) e = cc
string_with-some p (some null) e = cc
string_with-some p (some (obj fs)) e = cc
string_with-some p (some (arr vs)) e = cc
string_with-some p none e = cc

pub parsed-injective : {A : Type 0} {a b : A} → parsed a ≡ parsed b → a ≡ b
parsed-injective e = cc
