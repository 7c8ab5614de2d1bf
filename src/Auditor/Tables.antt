-- ===== src/Auditor/Tables.antt =====
-- apps/report-api/src/auditor/sqliteRepository.ts and repository.ts: the tables that the
-- reservation code reads and writes, and the SQL statements on them. A table is the list of its
-- rows. A time is its milliseconds since the epoch: the ISO texts of one length that the columns
-- hold are in the order of the times.
use zadper.Common.{
  ℕ, ◌+◌, String, Bool, true, false, Option, none, some, List, [], ◌∷◌, ◌&&◌, ◌||◌, not, leb, ◌==◌,
  ◌===◌, if◌then◌else◌, Result, ok, throw, type_error, ◌>>=◌,
}
use zadper.Common.Decimal.{decimal}
use zadper.Payment.Types.{
  PaymentVerdict, PaymentTerms, AuthorizationIntent, SettlementVerdict, SettlementProof,
}

pub data ReservationStatus : Type 0 where
  active consumed released quarantined expired : ReservationStatus

abbrev pub is_active : ReservationStatus → Bool
is_active active = true
is_active _ = false

-- `status IN ('active', 'quarantined')`.
abbrev pub is_held : ReservationStatus → Bool
is_held active = true
is_held quarantined = true
is_held _ = false

-- `status IN ('consumed')`.
abbrev pub is_consumed : ReservationStatus → Bool
is_consumed consumed = true
is_consumed _ = false

-- `status IN ('active', 'quarantined', 'consumed')`.
abbrev pub is_live : ReservationStatus → Bool
is_live active = true
is_live quarantined = true
is_live consumed = true
is_live _ = false

-- A row of `reservations`.
pub record ReservationRow : Type 0 where
  pub check_id : String
  pub operator_key : String
  pub asset : String
  pub amount : String
  pub utc_day : ℕ
  pub status : ReservationStatus
  pub expires_at : ℕ
  pub created_at : ℕ
  pub updated_at : ℕ

-- A row of `authorization_reservations`.
pub record ReplayRow : Type 0 where
  pub check_id : String
  pub operator_key : String
  pub asset : String
  pub payer_key : String
  pub nonce : String

pub data CheckStatus : Type 0 where
  review blocked reserved cancelled settlement_pending settled settlement_mismatch : CheckStatus
  settlement_unverifiable : CheckStatus

-- `StoredPaymentCheck`, with the fields that the store's code reads or indexes; of the decision, its
-- verdict.
pub record StoredPaymentCheck : Type 0 where
  pub id : String
  pub operator_public_key : String
  pub payer_public_key : Option String
  pub idempotency_key : Option String
  pub terms : PaymentTerms
  pub authorization : Option AuthorizationIntent
  pub verdict : PaymentVerdict
  pub status : CheckStatus
  pub created_at : String
  pub updated_at : String

-- A row of `checks`: the columns that queries compare, and the check that the JSON column holds.
pub record CheckRow : Type 0 where
  pub operator_key : String
  pub created_at : ℕ
  pub updated_at : ℕ
  pub check : StoredPaymentCheck

-- A row of `settlements`, and of `settlement_attempts`: the columns that queries compare, and the
-- proof that the JSON column holds.
pub record SettlementRow : Type 0 where
  pub check_id : String
  pub transaction_hash : String
  pub proof_hash : String
  pub verdict : SettlementVerdict
  pub observed_at : ℕ
  pub proof : SettlementProof

pub record Db : Type 0 where
  pub checks : List CheckRow
  pub reservations : List ReservationRow
  pub replays : List ReplayRow
  pub settlements : List SettlementRow
  pub attempts : List SettlementRow

-- `SELECT * FROM reservations WHERE check_id = ?`.
unfoldable pub find_reservation : String → List ReservationRow → Option ReservationRow
find_reservation id [] = none
find_reservation id (r ∷ rs) = if r.check_id === id then some r else find_reservation id rs

-- `SELECT ... FROM checks WHERE id = ?`.
unfoldable pub find_check : String → List CheckRow → Option CheckRow
find_check id [] = none
find_check id (c ∷ cs) = if c.check.id === id then some c else find_check id cs

-- An active reservation whose time has come.
unfoldable pub is_due : ℕ → ReservationRow → Bool
is_due now r = is_active r.status && leb r.expires_at now

-- `check_id IN (SELECT check_id FROM reservations WHERE status = 'active' AND expires_at <= ?)`.
unfoldable pub is_due_id : ℕ → List ReservationRow → String → Bool
unfolding is_due
is_due_id now [] id = false
is_due_id now (r ∷ rs) id = r.check_id === id && is_due now r || is_due_id now rs id

-- `DELETE FROM authorization_reservations WHERE check_id IN (...)`.
unfoldable pub delete_due : ℕ → List ReservationRow → List ReplayRow → List ReplayRow
unfolding is_due_id
delete_due now rs [] = []
delete_due now rs (p ∷ ps) =
    let rest = delete_due now rs ps in if is_due_id now rs p.check_id then rest else p ∷ rest

unfoldable pub expire_row : ℕ → ReservationRow → ReservationRow
expire_row now r = if is_due now r then record r { status = expired; updated_at = now } else r

-- `UPDATE reservations SET status = 'expired', updated_at = ? WHERE status = 'active' AND ...`.
unfoldable pub expire_rows : ℕ → List ReservationRow → List ReservationRow
expire_rows now [] = []
expire_rows now (r ∷ rs) = expire_row now r ∷ expire_rows now rs

-- `SELECT COUNT(*) ... WHERE operator_key = ? AND status IN ('active', 'quarantined')`.
unfoldable pub held_count : String → List ReservationRow → ℕ
held_count operator [] = 0
held_count operator (r ∷ rs) =
    (if r.operator_key === operator && is_held r.status then 1 else 0) + held_count operator rs

-- Whether a replay row is for an authorization.
unfoldable pub same_authorization : String → String → String → String → ReplayRow → Bool
same_authorization operator asset payer nonce p =
    p.operator_key === operator
    && (p.asset === asset && (p.payer_key === payer && p.nonce === nonce))

-- Whether the join of a replay row with `reservations` has a live reservation.
unfoldable pub joins_live : List ReservationRow → String → Bool
joins_live [] id = false
joins_live (r ∷ rs) id = r.check_id === id && is_live r.status || joins_live rs id

-- `SELECT 1 ... FROM authorization_reservations replay JOIN reservations ...`.
unfoldable pub replay_found :
    String → String → String → String → List ReservationRow → List ReplayRow → Bool
unfolding same_authorization joins_live
replay_found operator asset payer nonce rs [] = false
replay_found operator asset payer nonce rs (p ∷ ps) =
    same_authorization operator asset payer nonce p && joins_live rs p.check_id
    || replay_found operator asset payer nonce rs ps

-- Whether a row counts towards a total.
unfoldable pub counts_for : (ReservationStatus → Bool) → String → String → ℕ → ReservationRow → Bool
counts_for wanted operator asset day r =
    r.operator_key === operator && (r.asset === asset && (r.utc_day == day && wanted r.status))

unfoldable pub decimal_amount : String → String → Bool → Result ℕ
decimal_amount value field allow_zero = elim (decimal value) [
  | none ↦ throw (type_error field)
  | some n ↦ if not allow_zero && n == 0 then throw (type_error field) else ok n
]

-- One step of the reduction.
unfoldable pub add_amount : ReservationRow → Result ℕ → Result ℕ
unfolding decimal_amount
add_amount r rest = do
  amount ← decimal_amount r.amount "reservation.amount" true
  total ← rest
  ok (amount + total)

-- `sumReservationRows`.
unfoldable pub sum_rows :
    (ReservationStatus → Bool) → String → String → ℕ → List ReservationRow → Result ℕ
unfolding counts_for add_amount
sum_rows wanted operator asset day [] = ok 0
sum_rows wanted operator asset day (r ∷ rs) =
    let rest = sum_rows wanted operator asset day rs in
    if counts_for wanted operator asset day r then add_amount r rest else rest
