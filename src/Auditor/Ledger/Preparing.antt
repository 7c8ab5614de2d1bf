-- ===== src/Auditor/Ledger/Preparing.antt =====
-- What a prepared reservation holds of the request.
use zadper.Common.{ℕ, ◌≡◌, ◌<◌, String, Option, some, arith, ok}
use zadper.Common.Text.{lower}
use zadper.Common.Decimal.{decimal}
use zadper.Auditor.Tables.{decimal_amount}
use zadper.Auditor.Prepare.{ReservationInput, PreparedReservation, prepare_reservation, utc_day_of}

pub record IsPrepared (parse_date : String → Option ℕ) (input : ReservationInput) (now : ℕ)
    (prepared : PreparedReservation) : Type 0 where
  pub amount : decimal input.amount ≡ some prepared.amount
  pub positive : 0 < prepared.amount
  pub daily_cap : decimal input.daily_cap ≡ some prepared.daily_cap
  pub limit : prepared.maximum_concurrent ≡ input.maximum_concurrent_reservations
  pub operator_key : prepared.operator_key ≡ lower input.operator_public_key
  pub asset : prepared.asset ≡ lower input.asset
  pub payer_key : prepared.payer_key ≡ lower input.payer_public_key
  pub nonce : prepared.nonce ≡ lower input.nonce
  pub at : prepared.now ≡ now
  pub day : prepared.utc_day ≡ utc_day_of now
  pub expiry : parse_date input.expires_at ≡ some prepared.expires_at
  pub future : now < prepared.expires_at

pub prepare_reservation-IsPrepared :
    (parse_date : String → Option ℕ) (input : ReservationInput) (now : ℕ)
    (prepared : PreparedReservation)
    → prepare_reservation parse_date input now ≡ ok prepared
    → IsPrepared parse_date input now prepared
unfolding prepare_reservation decimal_amount
prepare_reservation-IsPrepared parse_date input now prepared e = ground arith
