-- ===== src/Auditor/Prepare.antt =====
-- apps/report-api/src/auditor/sqliteRepository.ts: what a reservation asks for, and the checks on
-- its fields before the transaction begins.
use zadper.Common.{
  ℕ, ◌/◌, String, true, false, Option, none, some, ◌&&◌, ltb, leb, ◌===◌, if◌then◌else◌, Result, ok,
  throw, type_error, require, ◌>>=◌, ◌>>◌,
}
use Prim.Native.String
use zadper.Common.Text.{lower, is_hex_of}
use zadper.Payment.Authorization.{max_safe_integer}
use zadper.Auditor.Tables.{decimal_amount}

pub record ReservationInput : Type 0 where
  pub check_id : String
  pub operator_public_key : String
  pub asset : String
  pub amount : String
  pub daily_cap : String
  pub maximum_concurrent_reservations : ℕ
  pub payer_public_key : String
  pub nonce : String
  pub expires_at : String

pub record PreparedReservation : Type 0 where
  pub amount : ℕ
  pub daily_cap : ℕ
  pub maximum_concurrent : ℕ
  pub operator_key : String
  pub asset : String
  pub payer_key : String
  pub nonce : String
  pub now : ℕ
  pub expires_at : ℕ
  pub utc_day : ℕ

unfoldable pub normalize_key : String → Result String
normalize_key value =
    if value === "" then throw (type_error "Indexed key must not be empty") else ok (lower value)

-- `/^[0-9a-f]{64}$/i` is the same test on the text in lower case.
unfoldable pub normalize_hash : String → String → Result String
normalize_hash value field =
    if is_hex_of 64 (lower value)
    then ok (lower value)
    else throw (type_error (String.◌++◌ field " must be a 64-character hexadecimal hash"))

-- The day of a time: `now.slice(0, 10)` of its ISO text.
abbrev pub utc_day_of : ℕ → ℕ
utc_day_of now = now / 86_400_000

module _ (parse_date : String → Option ℕ) where
  unfoldable pub iso_timestamp : String → String → Result ℕ
  iso_timestamp value field = elim (parse_date value) [
    | none ↦ throw (type_error (String.◌++◌ field " must be a valid timestamp"))
    | some time ↦ ok time
  ]

  unfoldable pub prepare_reservation : ReservationInput → ℕ → Result PreparedReservation
  unfolding iso_timestamp normalize_key normalize_hash
  prepare_reservation input now = do
    expires_at ← iso_timestamp input.expires_at "reservation.expiresAt"
    require (ltb now expires_at) (type_error "reservation.expiresAt must be in the future")
    amount ← decimal_amount input.amount "reservation.amount" false
    daily_cap ← decimal_amount input.daily_cap "reservation.dailyCap" true
    require
        (ltb 0 input.maximum_concurrent_reservations
          && leb input.maximum_concurrent_reservations max_safe_integer)
        (type_error "reservation.maximumConcurrentReservations must be a positive safe integer")
    operator_key ← normalize_key input.operator_public_key
    asset ← normalize_key input.asset
    payer_key ← normalize_key input.payer_public_key
    nonce ← normalize_hash input.nonce "reservation.nonce"
    ok (record {
      amount = amount;
      daily_cap = daily_cap;
      maximum_concurrent = input.maximum_concurrent_reservations;
      operator_key = operator_key;
      asset = asset;
      payer_key = payer_key;
      nonce = nonce;
      now = now;
      expires_at = expires_at;
      utc_day = utc_day_of now;
    })
