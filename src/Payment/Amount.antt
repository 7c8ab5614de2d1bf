-- ===== src/Payment/Amount.antt =====
-- packages/agent-pay-core/src/payment/amount.ts: an amount of base units within 256 bits, and when a
-- text is read as one.
mod Tests
use zadper.Common.{
  ℕ, ◌+◌, ◌-◌, ◌^◌, ◌≤◌, ◌<◌, ◌≡◌, refl, ◌↔◌, ◌∙◌, String, Option, none, some, ltb, ◌==◌, zero, suc,
  if◌then◌else◌, arith, Option-cases, Bool-cases, inl, inr,
}
use zadper.Common.Decimal.{positive_decimal, to_decimal, decimal}
use zadper.Common.Decimal.RoundTrip.{positive_decimal-to_decimal, positive_decimal-positive}

abbrev pub u256_max : ℕ
u256_max = 2 ^ 256 - 1

pub data AmountRefusal : Type 0 where
  not_positive_integer exceeds_u256 : AmountRefusal

pub data BaseUnitAmount : Type 0 where
  amount_ok : ℕ → BaseUnitAmount
  amount_refused : AmountRefusal → BaseUnitAmount

unfoldable pub parse_base_unit_amount : String → BaseUnitAmount
parse_base_unit_amount value = elim (positive_decimal value) [
  | none ↦ amount_refused not_positive_integer
  | some amount ↦ if ltb u256_max amount then amount_refused exceeds_u256 else amount_ok amount
]

-- The printed form of a number is read as that number if it is positive and fits in 256 bits, as too
-- large if it does not fit, and as no amount if it is zero.
pub parse_base_unit_amount-to_decimal :
    (n : ℕ)
    → parse_base_unit_amount (to_decimal n) ≡ (
        if n == 0
        then amount_refused not_positive_integer
        else if ltb u256_max n
        then amount_refused exceeds_u256
        else amount_ok n)
unfolding parse_base_unit_amount to_decimal positive_decimal
parse_base_unit_amount-to_decimal zero = refl
parse_base_unit_amount-to_decimal (suc n) =
    ground (arith, positive_decimal-to_decimal (suc n) (omega arith))

-- An amount that is read is positive and fits in 256 bits.
pub parse_base_unit_amount-bounds :
    (s : String) (n : ℕ) → parse_base_unit_amount s ≡ amount_ok n → (0 < n) × (n ≤ u256_max)
unfolding parse_base_unit_amount
parse_base_unit_amount-bounds s n e = ground (arith, positive_decimal-positive s n)
