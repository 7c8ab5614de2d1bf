-- ===== src/Payment/Amount/Tests.antt =====
-- Amounts read from texts, and the theorems at them.
use zadper.Common.{◌≡◌, ◌<◌, ◌≤◌, refl, if◌then◌else◌, ltb, ◌==◌}
use zadper.Common.Decimal.{positive_decimal, to_decimal}
use zadper.Payment.Amount.{
  amount_ok, amount_refused, not_positive_integer, exceeds_u256, u256_max, parse_base_unit_amount,
  parse_base_unit_amount-to_decimal, parse_base_unit_amount-bounds,
}

parse_base_unit_amount-to_decimal_example : parse_base_unit_amount (to_decimal 40) ≡ (
    if 40 == 0
    then amount_refused not_positive_integer
    else if ltb u256_max 40
    then amount_refused exceeds_u256
    else amount_ok 40)
parse_base_unit_amount-to_decimal_example = parse_base_unit_amount-to_decimal 40

read_test : parse_base_unit_amount "40" ≡ amount_ok 40
unfolding parse_base_unit_amount positive_decimal
read_test = refl

parse_base_unit_amount-bounds_example : (0 < 40) × (40 ≤ u256_max)
parse_base_unit_amount-bounds_example = parse_base_unit_amount-bounds "40" 40 read_test
