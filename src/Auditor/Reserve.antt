-- ===== src/Auditor/Reserve.antt =====
-- apps/report-api/src/auditor/sqliteRepository.ts: `expireReservations`, `reserve`, `saveCheck` and
-- `saveCheckAndReserve`. A method is a transaction: its result, or an exception, and the database
-- that it leaves behind.
use zadper.Common.{
  ℕ, ◌+◌, String, Bool, true, false, Option, none, some, List, [], ◌∷◌, ◌&&◌, ◌||◌, not, ltb, leb,
  ◌===◌, if◌then◌else◌, is_none, Result, ok, throw, type_error, plain_error, require, ◌>>=◌, ◌>>◌,
}
use zadper.Payment.Types.{AuthorizationIntent}
use zadper.Auditor.Tables.{
  active, is_active, is_live, ReservationRow, ReplayRow, StoredPaymentCheck, CheckRow, Db,
  find_reservation, find_check, delete_due, expire_rows, held_count, replay_found,
  same_authorization, sum_rows,
}
use zadper.Auditor.Prepare.{
  ReservationInput, PreparedReservation, normalize_key, iso_timestamp, prepare_reservation,
}

pub data Refusal : Type 0 where
  check_not_found check_conflict reservation_conflict authorization_replay : Refusal
  policy_daily_cap_exceeded maximum_concurrent_reservations : Refusal

pub data ReservationResult : Type 0 where
  accepted : ReservationResult
  refused : Refusal → ReservationResult

-- `expireReservations`: the replay rows go first, while the reservations are still active.
unfoldable pub expire_reservations : ℕ → Db → Db
expire_reservations now db = record db {
  reservations = expire_rows now db.reservations;
  replays = delete_due now db.reservations db.replays;
}

-- The stored authorization is the one to be reserved; its payer is normalized first.
unfoldable pub same_payment : Option AuthorizationIntent → PreparedReservation → Result Bool
same_payment none prepared = ok false
same_payment (some a) prepared = do
  payer ← normalize_key a.payer_public_key
  ok (payer === prepared.payer_key && a.nonce === prepared.nonce)

-- The stored check has the terms and the authorization of the reservation.
unfoldable pub matches_check :
    StoredPaymentCheck → ReservationInput → PreparedReservation → Result Bool
unfolding same_payment
matches_check check input prepared = do
  asset ← normalize_key check.terms.asset
  if asset === prepared.asset && check.terms.amount === input.amount
      then same_payment check.authorization prepared
      else ok false

-- A repeated request for a reservation that is still active.
unfoldable pub is_identical : ReservationRow → ReservationInput → PreparedReservation → Bool
is_identical existing input prepared =
    existing.operator_key === prepared.operator_key
    && (existing.asset === prepared.asset
        && (existing.amount === input.amount && is_active existing.status))

abbrev pub new_reservation : ReservationInput → PreparedReservation → ReservationRow
new_reservation input prepared = record {
  check_id = input.check_id;
  operator_key = prepared.operator_key;
  asset = prepared.asset;
  amount = input.amount;
  utc_day = prepared.utc_day;
  status = active;
  expires_at = prepared.expires_at;
  created_at = prepared.now;
  updated_at = prepared.now;
}

abbrev pub new_replay : ReservationInput → PreparedReservation → ReplayRow
new_replay input prepared = record {
  check_id = input.check_id;
  operator_key = prepared.operator_key;
  asset = prepared.asset;
  payer_key = prepared.payer_key;
  nonce = prepared.nonce;
}

-- `PRIMARY KEY` on the check id and `UNIQUE(operator_key, asset, payer_key, nonce)`.
unfoldable pub clashes : ReplayRow → List ReplayRow → Bool
clashes new [] = false
clashes new (p ∷ ps) =
    p.check_id === new.check_id
    || same_authorization new.operator_key new.asset new.payer_key new.nonce p
    || clashes new ps

abbrev pub with_reservation : ReservationInput → PreparedReservation → Db → Db
with_reservation input prepared db = record db {
  reservations = new_reservation input prepared ∷ db.reservations;
  replays = new_replay input prepared ∷ db.replays;
}

-- The two inserts. A row that breaks a constraint is an exception.
unfoldable pub insert_rows :
    ReservationInput → PreparedReservation → Db → Result (ReservationResult × Db)
insert_rows input prepared db = do
  require (is_none (find_reservation input.check_id db.reservations))
      (plain_error "UNIQUE constraint failed: reservations.check_id")
  require (not (clashes (new_replay input prepared) db.replays))
      (plain_error "UNIQUE constraint failed: authorization_reservations")
  ok (accepted, with_reservation input prepared db)

abbrev pub refuse : Refusal → Db → Result (ReservationResult × Db)
refuse reason db = ok (refused reason, db)

-- The cap for the day.
unfoldable pub reserve_within_cap :
    ReservationInput → PreparedReservation → Db → Result (ReservationResult × Db)
unfolding insert_rows
reserve_within_cap input prepared db = do
  committed ← sum_rows is_live prepared.operator_key prepared.asset prepared.utc_day db.reservations
  if ltb prepared.daily_cap (committed + prepared.amount)
      then refuse policy_daily_cap_exceeded db
      else insert_rows input prepared db

-- The limits for a check that has no reservation yet.
unfoldable pub reserve_new :
    ReservationInput → PreparedReservation → Db → Result (ReservationResult × Db)
reserve_new input prepared db =
    if leb prepared.maximum_concurrent (held_count prepared.operator_key db.reservations)
    then refuse maximum_concurrent_reservations db
    else if replay_found prepared.operator_key prepared.asset prepared.payer_key prepared.nonce
        db.reservations db.replays
    then refuse authorization_replay db
    else reserve_within_cap input prepared db

-- The reservation that the check has already, or a new one.
unfoldable pub reserve_matching :
    ReservationInput
    → PreparedReservation
    → Db
    → Option ReservationRow
    → Result (ReservationResult × Db)
reserve_matching input prepared db none = reserve_new input prepared db
reserve_matching input prepared db (some existing) =
    if is_identical existing input prepared
    then ok (accepted, db)
    else refuse reservation_conflict db

-- The check that was found, or none.
unfoldable pub reserve_for :
    ReservationInput → PreparedReservation → Db → Option CheckRow → Result (ReservationResult × Db)
reserve_for input prepared db none = refuse check_not_found db
reserve_for input prepared db (some row) =
    if not (row.operator_key === prepared.operator_key) then refuse check_not_found db else do
      matching ← matches_check row.check input prepared
      if matching
          then reserve_matching input prepared db (find_reservation input.check_id db.reservations)
          else refuse reservation_conflict db

unfoldable pub reserve_within_transaction :
    ReservationInput → PreparedReservation → Db → Result (ReservationResult × Db)
reserve_within_transaction input prepared db =
    let db' = expire_reservations prepared.now db in
    reserve_for input prepared db' (find_check input.check_id db'.checks)

-- A method's result, or its exception, and the database after it.
abbrev pub Transaction : Type 0 → Type 0
Transaction A = Result A × Db

-- `COMMIT` on a result, `ROLLBACK` on an exception.
abbrev pub commit_or_rollback : {A : Type 0} → Db → Result (A × Db) → Transaction A
commit_or_rollback db (throw e) = (throw e, db)
commit_or_rollback db (ok (result, db')) = (ok result, db')

-- Two rows of one operator with one idempotency key.
unfoldable pub same_idempotency : CheckRow → CheckRow → Bool
same_idempotency c d = elim c.check.idempotency_key [
  | none ↦ false
  | some k ↦ elim d.check.idempotency_key [
    | none ↦ false
    | some j ↦ c.operator_key === d.operator_key && k === j
  ]
]

unfoldable pub check_clashes : CheckRow → List CheckRow → Bool
unfolding same_idempotency
check_clashes new [] = false
check_clashes new (c ∷ cs) =
    c.check.id === new.check.id || same_idempotency new c || check_clashes new cs

-- `check.payerPublicKey ? normalizeKey(check.payerPublicKey) : null`, which never throws.
unfoldable pub save_check : (String → Option ℕ) → StoredPaymentCheck → Db → Result (Bool × Db)
unfolding check_clashes
save_check parse_date check db = do
  operator_key ← normalize_key check.operator_public_key
  created_at ← iso_timestamp parse_date check.created_at "check.createdAt"
  updated_at ← iso_timestamp parse_date check.updated_at "check.updatedAt"
  let row : CheckRow = record {
    operator_key = operator_key;
    created_at = created_at;
    updated_at = updated_at;
    check = check;
  }
  ok (
      if check_clashes row db.checks
      then (false, db)
      else (true, record db { checks = row ∷ db.checks }))

-- What is refused after the check was saved leaves the database as it was.
abbrev pub rollback_refused : Db → Result (ReservationResult × Db) → Result (ReservationResult × Db)
rollback_refused db (throw e) = throw e
rollback_refused db (ok (accepted, db')) = ok (accepted, db')
rollback_refused db (ok (refused reason, db')) = ok (refused reason, db)

-- From the saved check on.
unfoldable pub reserve_saved :
    ReservationInput → PreparedReservation → Db → Bool × Db → Result (ReservationResult × Db)
reserve_saved input prepared db (false, db') = refuse check_conflict db
reserve_saved input prepared db (true, db') =
    rollback_refused db (reserve_within_transaction input prepared db')

module _ (parse_date : String → Option ℕ) where
  -- The body of `reserve`.
  unfoldable pub prepare_and_reserve : ReservationInput → ℕ → Db → Result (ReservationResult × Db)
  prepare_and_reserve input now db = do
    prepared ← prepare_reservation parse_date input now
    reserve_within_transaction input prepared db

  -- `reserve`. A refusal is committed too, with the expiry.
  unfoldable pub reserve : ReservationInput → ℕ → Db → Transaction ReservationResult
  unfolding prepare_and_reserve
  reserve input now db = commit_or_rollback db (prepare_and_reserve input now db)

  -- The body of `saveCheckAndReserve`.
  unfoldable pub save_and_reserve :
      StoredPaymentCheck → ReservationInput → ℕ → Db → Result (ReservationResult × Db)
  unfolding reserve_saved
  save_and_reserve check input now db = do
    require (check.id === input.check_id)
        (type_error "Reserved check id must match reservation.checkId")
    prepared ← prepare_reservation parse_date input now
    saved ← save_check parse_date check db
    reserve_saved input prepared db saved

  -- `saveCheckAndReserve`.
  unfoldable pub save_check_and_reserve :
      StoredPaymentCheck → ReservationInput → ℕ → Db → Transaction ReservationResult
  unfolding save_and_reserve
  save_check_and_reserve check input now db =
      commit_or_rollback db (save_and_reserve check input now db)
