-- ===== src/Payment/Normalize/Values.antt =====
-- packages/agent-pay-core/src/payment/normalize.ts: the tests on the values of JSON.
use zadper.Common.{ℕ, String, Bool, Option, none, some, ◌&&◌, ltb, leb}
use zadper.Common.Text.{utf16_length}
use zadper.Json.{Value, obj, Fields}
use zadper.Payment.Types.{invalid_payment_required}
use zadper.Payment.Normalize.Parsing.{Refusal}

unfoldable pub as_record : Option Value → Option Fields
as_record (some (obj fs)) = some fs
as_record _ = none

unfoldable pub invalid_payment : String → String → Value → Option Value → Refusal
invalid_payment message name expected received = record {
  code = invalid_payment_required;
  message = message;
  field = name;
  expected = expected;
  received = received;
}

-- A text that is not empty, of at most so many characters.
abbrev pub fits : ℕ → String → Bool
fits most s = ltb 0 (utf16_length s) && leb (utf16_length s) most
