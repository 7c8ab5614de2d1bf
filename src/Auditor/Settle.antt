-- ===== src/Auditor/Settle.antt =====
-- apps/report-api/src/auditor/sqliteRepository.ts: `applySettlement`, which records what the chain
-- says of a payment, with the check and the reservation that it changes, in one transaction.
use zadper.Common.{
  ℕ, String, Bool, true, false, Option, none, some, List, [], ◌∷◌, ◌&&◌, ◌||◌, not, ◌==◌, ◌===◌,
  if◌then◌else◌, holds_of, is_none, Result, ok, type_error, plain_error, require, ◌>>=◌, ◌>>◌,
}
use zadper.Payment.Types.{SettlementVerdict, match, mismatch, SettlementProof}
use zadper.Auditor.Tables.{
  ReservationStatus, active, consumed, quarantined, expired, CheckStatus, reserved,
  settlement_pending, settlement_unverifiable, ReservationRow, StoredPaymentCheck, CheckRow,
  SettlementRow, Db, find_reservation, find_check,
}
use zadper.Auditor.Prepare.{normalize_key, normalize_hash, iso_timestamp}
use zadper.Auditor.Reserve.{Transaction, commit_or_rollback}

pub data SettlementRefusal : Type 0 where
  check_not_found check_conflict transaction_conflict terminal_settlement : SettlementRefusal
  reservation_conflict : SettlementRefusal

pub data SettlementApplyResult : Type 0 where
  applied : (created : Bool) (settlement : SettlementProof) → SettlementApplyResult
  refused : SettlementRefusal → SettlementApplyResult

-- What the caller wants the reservation to become.
pub data Outcome : Type 0 where
  as_consumed as_quarantined : Outcome

abbrev pub outcome_status : Outcome → ReservationStatus
outcome_status as_consumed = consumed
outcome_status as_quarantined = quarantined

-- `currentReservationStatus === reservationStatus`.
abbrev pub is_already : Outcome → ReservationStatus → Bool
is_already as_consumed consumed = true
is_already as_quarantined quarantined = true
is_already _ _ = false

abbrev pub is_open : ReservationStatus → Bool
is_open active = true
is_open expired = true
is_open _ = false

-- `allowed`.
abbrev pub may_become : Outcome → ReservationStatus → Bool
may_become as_consumed quarantined = true
may_become _ status = is_open status

-- `UPDATE reservations SET status = ?, updated_at = ? WHERE check_id = ?`.
unfoldable pub settle_rows : Outcome → String → ℕ → List ReservationRow → List ReservationRow
settle_rows outcome id at [] = []
settle_rows outcome id at (r ∷ rs) =
    (if r.check_id === id then record r { status = outcome_status outcome; updated_at = at } else r)
    ∷ settle_rows outcome id at rs

-- The reservations after the settlement, or none where it may not have this outcome.
unfoldable pub settle_reservation :
    Option Outcome
    → ReservationStatus
    → String
    → ℕ
    → List ReservationRow
    → Option (List ReservationRow)
unfolding settle_rows
settle_reservation none status id at rows = if is_open status then some rows else none
settle_reservation (some outcome) status id at rows =
    if is_already outcome status
    then some rows
    else if may_become outcome status
    then some (settle_rows outcome id at rows)
    else none

-- `SELECT json FROM settlements WHERE check_id = ?`.
unfoldable pub find_settlement : String → List SettlementRow → Option SettlementRow
find_settlement id [] = none
find_settlement id (s ∷ ss) = if s.check_id === id then some s else find_settlement id ss

-- `SELECT ... FROM settlements WHERE transaction_hash = ? AND check_id <> ?`.
unfoldable pub used_elsewhere : String → String → List SettlementRow → Bool
used_elsewhere hash id [] = false
used_elsewhere hash id (s ∷ ss) =
    s.transaction_hash === hash && not (s.check_id === id) || used_elsewhere hash id ss

-- A column with a `UNIQUE` constraint.
unfoldable pub has_transaction : String → List SettlementRow → Bool
has_transaction hash [] = false
has_transaction hash (s ∷ ss) = s.transaction_hash === hash || has_transaction hash ss

unfoldable pub has_proof : String → List SettlementRow → Bool
has_proof hash [] = false
has_proof hash (s ∷ ss) = s.proof_hash === hash || has_proof hash ss

-- `UPDATE settlements SET verdict = ?, observed_at = ?, json = ? WHERE check_id = ? AND ...`. The
-- table has no column for the hash of the proof; that of the JSON changes with it.
unfoldable pub update_settlement : SettlementRow → List SettlementRow → List SettlementRow
update_settlement new [] = []
update_settlement new (s ∷ ss) =
    (if s.check_id === new.check_id && s.transaction_hash === new.transaction_hash then new else s)
    ∷ update_settlement new ss

-- `INSERT INTO settlements`.
unfoldable pub insert_settlement : SettlementRow → List SettlementRow → Result (List SettlementRow)
insert_settlement new rows = do
  require (is_none (find_settlement new.check_id rows))
      (plain_error "UNIQUE constraint failed: settlements.check_id")
  require (not (has_transaction new.transaction_hash rows))
      (plain_error "UNIQUE constraint failed: settlements.transaction_hash")
  ok (new ∷ rows)

-- `WHERE id = ? AND operator_key = ? AND created_at = ?`.
abbrev pub is_check : CheckRow → CheckRow → Bool
is_check new c =
    c.check.id === new.check.id
    && (c.operator_key === new.operator_key && c.created_at == new.created_at)

unfoldable pub update_check : CheckRow → List CheckRow → List CheckRow
update_check new [] = []
update_check new (c ∷ cs) = (if is_check new c then new else c) ∷ update_check new cs

unfoldable pub has_check : CheckRow → List CheckRow → Bool
has_check new [] = false
has_check new (c ∷ cs) = is_check new c || has_check new cs

-- `===` on texts that may be null.
abbrev pub same_option : Option String → Option String → Bool
same_option none none = true
same_option (some s) (some t) = s === t
same_option _ _ = false

abbrev pub is_final : SettlementVerdict → Bool
is_final match = true
is_final mismatch = true
is_final _ = false

-- `["reserved", "settlement_pending", "settlement_unverifiable"].includes(...)`.
abbrev pub is_unsettled : CheckStatus → Bool
is_unsettled reserved = true
is_unsettled settlement_pending = true
is_unsettled settlement_unverifiable = true
is_unsettled _ = false

abbrev refuse : SettlementRefusal → Db → Result (SettlementApplyResult × Db)
refuse reason db = ok (refused reason, db)

-- `created`.
unfoldable pub is_created : Option SettlementRow → String → Bool
is_created none proof_hash = true
is_created (some existing) proof_hash = not (existing.proof.proof_hash === proof_hash)

module _ (parse_date : String → Option ℕ) (check : StoredPaymentCheck) (new : SettlementRow) where
  -- The three tables that are written.
  unfoldable pub write_settlement :
      Option SettlementRow
      → CheckRow
      → List ReservationRow
      → Db
      → Result (SettlementApplyResult × Db)
  unfolding is_created
  write_settlement existing row reservations db = do
    settlements ← elim existing [
      | none ↦ insert_settlement new db.settlements
      | some _ ↦ ok (update_settlement new db.settlements)
    ]
    updated_at ← iso_timestamp parse_date check.updated_at "check.updatedAt"
    let new_row : CheckRow = record row { updated_at = updated_at; check = check }
    if has_check new_row db.checks
        then ok (
          applied (is_created existing new.proof_hash) new.proof,
          record db {
            checks = update_check new_row db.checks;
            reservations = reservations;
            settlements = settlements;
            attempts =
                if has_proof new.proof_hash db.attempts then db.attempts else new ∷ db.attempts;
          },
        )
        else refuse check_conflict db

  -- From the reservation's status on.
  unfoldable pub settle_open :
      Option Outcome → Option SettlementRow → CheckRow → Db → Result (SettlementApplyResult × Db)
  unfolding settle_reservation write_settlement
  settle_open outcome existing row db = elim (find_reservation check.id db.reservations) [
    | none ↦ refuse reservation_conflict db
    | some reservation ↦
        elim (settle_reservation outcome reservation.status check.id new.observed_at
          db.reservations) [
            | none ↦ refuse reservation_conflict db
            | some rows ↦
                if used_elsewhere new.transaction_hash check.id db.settlements
                then refuse transaction_conflict db
                else write_settlement existing row rows db
          ]
  ]

  -- From the settlement that the check has already.
  unfoldable pub settle_known :
      Option Outcome → Option SettlementRow → CheckRow → Db → Result (SettlementApplyResult × Db)
  settle_known outcome existing row db =
      if holds_of existing (λ s. not (s.proof.transaction_hash === new.transaction_hash))
      then refuse transaction_conflict db
      else elim existing [
        | none ↦
            if is_unsettled row.check.status
            then settle_open outcome none row db
            else refuse terminal_settlement db
        | some s ↦
            if is_final s.proof.verdict
            then ok (applied false s.proof, db)
            else if is_unsettled row.check.status
            then settle_open outcome (some s) row db
            else refuse terminal_settlement db
      ]

  -- The stored check is the one that is settled.
  unfoldable pub settle_stored :
      Option Outcome → CheckRow → Db → Result (SettlementApplyResult × Db)
  settle_stored outcome row db = do
    operator_key ← normalize_key check.operator_public_key
    if not (row.operator_key === operator_key) then refuse check_conflict db else do
      created_at ← iso_timestamp parse_date check.created_at "check.createdAt"
      if row.created_at == created_at && same_option row.check.idempotency_key check.idempotency_key
          then settle_known outcome (find_settlement check.id db.settlements) row db
          else refuse check_conflict db

-- The row for a settlement proof.
abbrev pub settlement_row : SettlementProof → String → String → ℕ → SettlementRow
settlement_row settlement transaction_hash proof_hash observed_at = record {
  check_id = settlement.check_id;
  transaction_hash = transaction_hash;
  proof_hash = proof_hash;
  verdict = settlement.verdict;
  observed_at = observed_at;
  proof = settlement;
}

module _ (parse_date : String → Option ℕ) (check : StoredPaymentCheck)
    (settlement : SettlementProof) (outcome : Option Outcome) where
  -- From the look at the stored check on.
  unfoldable pub settle_found :
      SettlementRow → Option CheckRow → Db → Result (SettlementApplyResult × Db)
  settle_found new none db = refuse check_not_found db
  settle_found new (some row) db = settle_stored parse_date check new outcome row db

  -- The body of `applySettlement`.
  unfoldable pub settle : Db → Result (SettlementApplyResult × Db)
  settle db = do
    require (check.id === settlement.check_id)
        (type_error "Settlement check id must match the updated check")
    transaction_hash ← normalize_hash settlement.transaction_hash "settlement.transactionHash"
    observed_at ← iso_timestamp parse_date settlement.observed_at "settlement.observedAt"
    proof_hash ← normalize_hash settlement.proof_hash "settlement.proofHash"
    settle_found (settlement_row settlement transaction_hash proof_hash observed_at)
        (find_check check.id db.checks) db

  -- `applySettlement`.
  unfoldable pub apply_settlement : Db → Transaction SettlementApplyResult
  apply_settlement db = commit_or_rollback db (settle db)
