-- ===== src/Auditor/Ledger/Late.antt =====
-- What a late settlement does to the total of a day.
use zadper.Common.{
  ℕ, ◌+◌, ◌≡◌, refl, sym, ap, subst, ◌∙◌, String, true, false, Option, none, some, List, [], ◌∷◌,
  arith, eq_iff, ok, ◌===◌, ==_iff, if◌then◌else◌, Bool-cases, inl, inr,
}
use zadper.Payment.Types.{SettlementProof}
use zadper.Auditor.Tables.{
  expired, is_live, ReservationStatus, ReservationRow, StoredPaymentCheck, CheckRow, SettlementRow,
  Db, find_reservation, find_check,
}
use zadper.Auditor.Prepare.{normalize_key, normalize_hash, iso_timestamp}
use zadper.Auditor.Reserve.{commit_or_rollback}
use zadper.Auditor.Settle.{
  Outcome, as_consumed, as_quarantined, outcome_status, settle_rows, applied, settle_reservation,
  find_settlement, used_elsewhere, has_transaction, insert_settlement, has_check, has_proof,
  update_check, same_option, is_unsettled, write_settlement, settle_open, settle_known,
  settle_stored, settlement_row, settle_found, settle, apply_settlement, is_created,
}
use zadper.Auditor.Ledger.Settling.{is_check_self}
use zadper.Auditor.Ledger.Totals.{amount_of, total}
use zadper.Auditor.Ledger.Lookups.{total-settle_rows}
use zadper.Auditor.Ledger.Shares.{share_live, share_expired, is_live-outcome_status}
use zadper.Auditor.Ledger.{IsWellFormed}

used_elsewhere-none :
    (hash id : String) (rows : List SettlementRow)
    → has_transaction hash rows ≡ false
    → used_elsewhere hash id rows ≡ false
unfolding has_transaction used_elsewhere
used_elsewhere-none hash id [] h = refl
used_elsewhere-none hash id (s ∷ ss) h = ground (arith, used_elsewhere-none hash id ss)

has_check-find_check :
    (check : StoredPaymentCheck) (u : ℕ) (cs : List CheckRow) (c : CheckRow)
    → find_check check.id cs ≡ some c
    → has_check (record c { updated_at = u; check = check }) cs ≡ true
unfolding find_check has_check
has_check-find_check check u [] c e = cc
has_check-find_check check u (x ∷ cs) c e = elim (Bool-cases (x.check.id === check.id)) [
  | inl here ↦
      let same : x ≡ c = ground arith in
      let it = subst (λ (y : CheckRow). (y.check.id === check.id) ≡ true) same here in
      rw (same, is_check_self c check u it) refl
  | inr further ↦ ground (arith, further, has_check-find_check check u cs c)
]

insert_settlement-grants :
    (new : SettlementRow) (rows : List SettlementRow)
    → find_settlement new.check_id rows ≡ none
    → has_transaction new.transaction_hash rows ≡ false
    → insert_settlement new rows ≡ ok (new ∷ rows)
unfolding insert_settlement
insert_settlement-grants new rows none_yet free = rw (none_yet, free) refl

expired-settles :
    (o : Outcome) (s : ReservationStatus) (id : String) (at : ℕ) (rows : List ReservationRow)
    → s ≡ expired
    → settle_reservation (some o) s id at rows ≡ some (settle_rows o id at rows)
unfolding settle_reservation
expired-settles as_consumed s id at rows e = rw e refl
expired-settles as_quarantined s id at rows e = rw e refl

module _ (parse_date : String → Option ℕ) (check : StoredPaymentCheck)
    (settlement : SettlementProof) where
  -- The first settlement of a check that waits for it, well formed and of a new transaction, whose
  -- reservation has expired.
  pub record IsLate (db : Db) (r : ReservationRow) : Type 0 where
    pub same_check : (check.id === settlement.check_id) ≡ true
    pub hash : String
    pub is_hash : normalize_hash settlement.transaction_hash "settlement.transactionHash" ≡ ok hash
    pub at : ℕ
    pub is_at : iso_timestamp parse_date settlement.observed_at "settlement.observedAt" ≡ ok at
    pub proof_hash : String
    pub is_proof : normalize_hash settlement.proof_hash "settlement.proofHash" ≡ ok proof_hash
    pub row : CheckRow
    pub stored : find_check check.id db.checks ≡ some row
    pub same_operator : normalize_key check.operator_public_key ≡ ok row.operator_key
    pub same_creation :
        iso_timestamp parse_date check.created_at "check.createdAt" ≡ ok row.created_at
    pub same_request : same_option row.check.idempotency_key check.idempotency_key ≡ true
    pub waits : is_unsettled row.check.status ≡ true
    pub updated : ℕ
    pub is_updated : iso_timestamp parse_date check.updated_at "check.updatedAt" ≡ ok updated
    pub first : find_settlement check.id db.settlements ≡ none
    pub unused : has_transaction hash db.settlements ≡ false
    pub found : find_reservation check.id db.reservations ≡ some r
    pub late : r.status ≡ expired

  module _ (o : Outcome) (db : Db) (r : ReservationRow) (l : IsLate db r) where
    abbrev new_row : SettlementRow
    new_row = settlement_row settlement l.hash l.proof_hash l.at

    -- The store after it.
    abbrev late_db : Db
    late_db = record db {
      checks = update_check (record l.row { updated_at = l.updated; check = check }) db.checks;
      reservations = settle_rows o check.id l.at db.reservations;
      settlements = new_row ∷ db.settlements;
      attempts = if has_proof l.proof_hash db.attempts then db.attempts else new_row ∷ db.attempts;
    }

    write-applies :
        write_settlement parse_date check new_row none l.row
          (settle_rows o check.id l.at db.reservations)
          db
        ≡ ok (applied true settlement, late_db)
    unfolding write_settlement is_created
    write-applies =
        let same = (eq_iff check.id settlement.check_id).0 l.same_check in
        let first = ap (λ id. find_settlement id db.settlements) (sym same) ∙ l.first in
        rw
          (
            insert_settlement-grants new_row db.settlements first l.unused,
            l.is_updated,
            has_check-find_check check l.updated db.checks l.row l.stored,
          )
          refl

    open-applies :
        settle_open parse_date check new_row (some o) none l.row db
        ≡ ok (applied true settlement, late_db)
    unfolding settle_open
    open-applies =
        rw
          (
            settle_open,
            l.found,
            expired-settles o r.status check.id l.at db.reservations l.late,
            used_elsewhere-none l.hash check.id db.settlements l.unused,
          )
          write-applies

    known-applies :
        settle_known parse_date check new_row (some o) none l.row db
        ≡ ok (applied true settlement, late_db)
    unfolding settle_known
    known-applies = rw l.waits open-applies

    stored-applies :
        settle_stored parse_date check new_row (some o) l.row db
        ≡ ok (applied true settlement, late_db)
    unfolding settle_stored
    stored-applies =
        rw
          (
            l.same_operator,
            (eq_iff l.row.operator_key l.row.operator_key).1 refl,
            l.same_creation,
            (==_iff l.row.created_at l.row.created_at).1 refl,
            l.same_request,
            l.first,
          )
          known-applies

    settle-applies :
        settle parse_date check settlement (some o) db ≡ ok (applied true settlement, late_db)
    unfolding settle settle_found
    settle-applies = rw (l.same_check, l.is_hash, l.is_at, l.is_proof, l.stored) stored-applies

    -- In a well-formed store, the first settlement of a check that waits for it, well formed and of a
    -- transaction that no other settlement has, is applied with its outcome though the reservation
    -- has expired; and it adds the amount of the reservation to the total of its day, which counts
    -- against the cap, whatever that total is.
    pub apply_settlement_late :
        IsWellFormed db
        → (db' : Db) × (apply_settlement parse_date check settlement (some o) db
            ≡ (ok (applied true settlement), db'))
          × (total is_live r.operator_key r.asset r.utc_day db'.reservations
              ≡ total is_live r.operator_key r.asset r.utc_day db.reservations + amount_of r)
    unfolding apply_settlement
    apply_settlement_late w =
        let settled : ReservationRow = record r { status = outcome_status o; updated_at = l.at } in
        (
          late_db,
          ap (commit_or_rollback db) settle-applies,
          omega (
            arith,
            total-settle_rows r.operator_key r.asset r.utc_day o check.id l.at db.reservations r
                w.distinct l.found,
            share_expired r l.late,
            share_live settled (is_live-outcome_status o),
          ),
        )
