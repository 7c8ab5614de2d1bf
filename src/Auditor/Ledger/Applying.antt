-- ===== src/Auditor/Ledger/Applying.antt =====
-- What `applySettlement` answers and writes, on each of its ways.
use zadper.Common.{
  ℕ, ◌≡◌, ◌⊎◌, refl, sym, ap, subst, String, Bool, Option, none, some, List, ◌∷◌, arith,
  if◌then◌else◌, Result, ok, throw, Thrown, ok-injective, bind-eq-ok, require-eq-ok, Bool-cases,
  Option-cases, inl, inr, ◌===◌, ◌==◌, ◌&&◌, not, eq_iff,
}
use zadper.Payment.Types.{SettlementProof}
use zadper.Auditor.Tables.{
  ReservationRow, StoredPaymentCheck, CheckRow, SettlementRow, Db, find_reservation, find_check,
}
use zadper.Auditor.Prepare.{normalize_key, normalize_hash, iso_timestamp}
use zadper.Auditor.Reserve.{commit_or_rollback}
use zadper.Auditor.Settle.{
  Outcome, SettlementApplyResult, applied, refused, transaction_conflict, terminal_settlement,
  reservation_conflict, check_not_found, check_conflict, has_check, insert_settlement,
  update_settlement, update_check, settle_reservation, used_elsewhere, is_unsettled, is_final,
  same_option, settle, settle_found, settlement_row, write_settlement, settle_open, settle_known,
  settle_stored, find_settlement, apply_settlement,
}
use zadper.Auditor.Ledger.Settling.{
  Settled, turned_down, final_already, written, Rewritten, settle_reservation-Rewritten,
  Rewritten-IsSettled, Touched, Settled-Touched, find_check-update_check,
}

insert_settlement-ok :
    (new : SettlementRow) (rows rows' : List SettlementRow)
    → insert_settlement new rows ≡ ok rows'
    → rows' ≡ new ∷ rows
unfolding insert_settlement
insert_settlement-ok new rows rows' e = ground arith

module _ (parse_date : String → Option ℕ) (check : StoredPaymentCheck) (new : SettlementRow)
    (outcome : Option Outcome) (row : CheckRow) (db : Db)
    (stored : find_check check.id db.checks ≡ some row) where
  -- The end of a write.
  abbrev end_write :
      List SettlementRow
      → List SettlementRow
      → List ReservationRow
      → ℕ
      → Bool
      → Result (SettlementApplyResult × Db)
  end_write settlements attempts rows u created =
      if has_check (record row { updated_at = u; check = check }) db.checks
      then ok (
        applied created new.proof,
        record db {
          checks = update_check (record row { updated_at = u; check = check }) db.checks;
          reservations = rows;
          settlements = settlements;
          attempts = attempts;
        },
      )
      else ok (refused check_conflict, db)

  -- The two ways to end a write, whichever settlements it has.
  written_or_refused :
      (settlements attempts : List SettlementRow) (rows : List ReservationRow) (u : ℕ)
      (created : Bool) (r : ReservationRow) {db' : Db} {result : SettlementApplyResult}
      → find_reservation check.id db.reservations ≡ some r
      → Rewritten outcome r.status check.id new.observed_at db.reservations rows
      → (find_settlement check.id db.settlements ≡ none → settlements ≡ new ∷ db.settlements)
      → end_write settlements attempts rows u created ≡ ok (result, db')
      → Settled outcome check new result db db'
  written_or_refused settlements attempts rows u created r found moved first e =
      elim (Bool-cases (has_check (record row { updated_at = u; check = check }) db.checks)) [
        | inr gone ↦
            let same = ok-injective (rw (gone, if◌then◌else◌) at e) in
            turned_down check_conflict (sym (ap (λ x. x.0) same)) (sym (ap (λ x. x.1) same))
        | inl there ↦
            let same = ok-injective (rw (there, if◌then◌else◌) at e) in
            subst (λ (x : SettlementApplyResult × Db). Settled outcome check new (x.0) db (x.1))
              same
              (written created refl (record {
                row = r;
                found = found;
                rows_written = moved;
                is_settled =
                    Rewritten-IsSettled outcome check.id new.observed_at r db.reservations rows
                      found moved;
                same_replays = refl;
                stored = (_, find_check-update_check check u db.checks row stored, refl);
                first = first;
              }))
      ]

  write_settlement-Settled :
      (existing : Option SettlementRow) (rows : List ReservationRow) (r : ReservationRow) (db' : Db)
      (result : SettlementApplyResult)
      → find_settlement check.id db.settlements ≡ existing
      → find_reservation check.id db.reservations ≡ some r
      → Rewritten outcome r.status check.id new.observed_at db.reservations rows
      → write_settlement parse_date check new existing row rows db ≡ ok (result, db')
      → Settled outcome check new result db db'
  unfolding write_settlement
  write_settlement-Settled none rows r db' result known found moved e =
      let (settlements, made, e₁) = bind-eq-ok (insert_settlement new db.settlements) _ e in
      let (u, _, e₂) = bind-eq-ok (iso_timestamp parse_date check.updated_at _) _ e₁ in
      written_or_refused settlements _ rows u _ r found moved
        (λ h. insert_settlement-ok new db.settlements settlements made) e₂
  write_settlement-Settled (some s) rows r db' result known found moved e =
      let (u, _, e₂) = bind-eq-ok (iso_timestamp parse_date check.updated_at _) _ e in
      written_or_refused (update_settlement new db.settlements) _ rows u _ r found moved (λ h. cc)
        e₂

  settle_open-Settled :
      (existing : Option SettlementRow) (db' : Db) (result : SettlementApplyResult)
      → find_settlement check.id db.settlements ≡ existing
      → settle_open parse_date check new outcome existing row db ≡ ok (result, db')
      → Settled outcome check new result db db'
  unfolding settle_open
  settle_open-Settled existing db' result known e =
      elim (Option-cases (find_reservation check.id db.reservations)) [
        | inl missing ↦
            turned_down reservation_conflict (ground (arith, missing)) (ground (arith, missing))
        | inr (r, found) ↦
            elim (Option-cases
              (settle_reservation outcome r.status check.id new.observed_at db.reservations)) [
                | inl barred ↦
                    turned_down reservation_conflict (ground (arith, found, barred))
                      (ground (arith, found, barred))
                | inr (rows, ready) ↦
                    elim (Bool-cases
                      (used_elsewhere new.transaction_hash check.id db.settlements)) [
                        | inl used ↦
                            turned_down transaction_conflict (ground (arith, found, ready, used))
                              (ground (arith, found, ready, used))
                        | inr free ↦
                            write_settlement-Settled existing rows r db' result known found
                              (settle_reservation-Rewritten outcome r.status check.id
                                new.observed_at db.reservations rows ready)
                              (ground (arith, found, ready, free, e))
                      ]
              ]
      ]

  settle_known-Settled :
      (existing : Option SettlementRow) (db' : Db) (result : SettlementApplyResult)
      → find_settlement check.id db.settlements ≡ existing
      → settle_known parse_date check new outcome existing row db ≡ ok (result, db')
      → Settled outcome check new result db db'
  unfolding settle_known
  settle_known-Settled none db' result known e = elim (Bool-cases (is_unsettled row.check.status)) [
    | inl going ↦ settle_open-Settled none db' result known (ground (arith, going))
    | inr done ↦ turned_down terminal_settlement (ground (arith, done)) (ground (arith, done))
  ]
  settle_known-Settled (some s) db' result known e =
      elim (Bool-cases (s.proof.transaction_hash === new.transaction_hash)) [
        | inr other ↦
            turned_down transaction_conflict (ground (arith, other)) (ground (arith, other))
        | inl same ↦ elim (Bool-cases (is_final s.proof.verdict)) [
          | inl ended ↦
              final_already s known ended
                ((eq_iff s.proof.transaction_hash new.transaction_hash).0 same)
                (ground (arith, same, ended)) (ground (arith, same, ended))
          | inr provisional ↦ elim (Bool-cases (is_unsettled row.check.status)) [
            | inl going ↦
                settle_open-Settled (some s) db' result known
                  (ground (arith, same, provisional, going))
            | inr done ↦
                turned_down terminal_settlement (ground (arith, same, provisional, done))
                  (ground (arith, same, provisional, done))
          ]
        ]
      ]

  settle_stored-Settled :
      (db' : Db) (result : SettlementApplyResult)
      → settle_stored parse_date check new outcome row db ≡ ok (result, db')
      → Settled outcome check new result db db'
  unfolding settle_stored
  settle_stored-Settled db' result e =
      let (key, _, e₁) = bind-eq-ok (normalize_key check.operator_public_key) _ e in
      elim (Bool-cases (row.operator_key === key)) [
        | inr other ↦ turned_down check_conflict (ground (arith, other)) (ground (arith, other))
        | inl owner ↦
            let (at, _, e₂) =
              bind-eq-ok (iso_timestamp parse_date check.created_at "check.createdAt") _
                (rw (owner, not, if◌then◌else◌) at e₁) in
            elim (Bool-cases (
              row.created_at == at
              && same_option row.check.idempotency_key check.idempotency_key)) [
                | inl same ↦
                    settle_known-Settled (find_settlement check.id db.settlements) db' result refl
                      (ground (arith, same))
                | inr differs ↦
                    turned_down check_conflict (ground (arith, differs)) (ground (arith, differs))
              ]
      ]

module _ (parse_date : String → Option ℕ) (check : StoredPaymentCheck)
    (settlement : SettlementProof) (outcome : Option Outcome) where
  settle_found-Settled :
      (new : SettlementRow) (row : Option CheckRow) (db db' : Db) (result : SettlementApplyResult)
      → find_check check.id db.checks ≡ row
      → settle_found parse_date check settlement outcome new row db ≡ ok (result, db')
      → Settled outcome check new result db db'
  unfolding settle_found
  settle_found-Settled new none db db' result stored e =
      turned_down check_not_found (ground arith) (ground arith)
  settle_found-Settled new (some row) db db' result stored e =
      settle_stored-Settled parse_date check new outcome row db stored db' result e

  -- The settlement's row, as it is written.
  abbrev pub NewRow : SettlementRow → Type 0
  NewRow new =
      (hash : String) × (proof_hash : String) × (at : ℕ) × (normalize_hash
          settlement.transaction_hash "settlement.transactionHash"
        ≡ ok hash)
      × (normalize_hash settlement.proof_hash "settlement.proofHash" ≡ ok proof_hash)
      × (iso_timestamp parse_date settlement.observed_at "settlement.observedAt" ≡ ok at)
      × (new ≡ settlement_row settlement hash proof_hash at)

  settle-Settled :
      (db db' : Db) (result : SettlementApplyResult)
      → settle parse_date check settlement outcome db ≡ ok (result, db')
      → (new : SettlementRow) × NewRow new × Settled outcome check new result db db'
  unfolding settle
  settle-Settled db db' result e =
      let (_, e₁) = require-eq-ok _ _ _ e in
      let (hash, is_hash, e₂) = bind-eq-ok (normalize_hash settlement.transaction_hash _) _ e₁ in
      let (at, is_at, e₃) = bind-eq-ok (iso_timestamp parse_date settlement.observed_at _) _ e₂ in
      let (proof_hash, is_proof, e₄) = bind-eq-ok (normalize_hash settlement.proof_hash _) _ e₃ in
      (
        settlement_row settlement hash proof_hash at,
        (hash, proof_hash, at, is_hash, is_proof, is_at, refl),
        settle_found-Settled (settlement_row settlement hash proof_hash at)
            (find_check check.id db.checks) db db' result refl e₄,
      )

  pub settle-Touched :
      (db db' : Db) (result : SettlementApplyResult)
      → settle parse_date check settlement outcome db ≡ ok (result, db')
      → Touched check.id db db'
  settle-Touched db db' result e =
      let met = settle-Settled db db' result e in
      Settled-Touched outcome check met.0 result db db' met.2

  committed :
      (db : Db) (m : Result (SettlementApplyResult × Db))
      → ((db' : Db) (result : SettlementApplyResult)
          → m ≡ ok (result, db')
          → (new : SettlementRow) × NewRow new × Settled outcome check new result db db')
      → ((exception : Thrown) × (commit_or_rollback db m ≡ (throw exception, db)))
        ⊎ ((result : SettlementApplyResult) × (db' : Db) × (new : SettlementRow)
            × (commit_or_rollback db m ≡ (ok result, db'))
            × NewRow new
            × Settled outcome check new result db db')
  committed db (throw exception) k = inl (exception, refl)
  committed db (ok (result, db')) k =
      let met = k db' result refl in inr (result, db', met.0, refl, met.1, met.2)

  -- `applySettlement` throws and leaves the store as it is; or it answers a refusal, and leaves it so
  -- too; or the check has a settlement of this transaction that is final, which is the answer, and
  -- leaves it so too; or it answers the settlement that was given. Then it has stored the check,
  -- and the settlement too if the check had none; no replay row has changed; and the check has a
  -- reservation, whose status is left active or expired if no outcome was asked for, and is otherwise
  -- the outcome that was asked for, from one of the statuses that may become it: its rows are kept if
  -- they have the outcome, and else they alone are set to it.
  pub apply_settlement-Settled :
      (db : Db)
      → ((exception : Thrown) × (apply_settlement parse_date check settlement outcome db
            ≡ (throw exception, db)))
        ⊎ ((result : SettlementApplyResult) × (db' : Db) × (new : SettlementRow) × (apply_settlement
                parse_date check settlement outcome db
              ≡ (ok result, db'))
            × NewRow new
            × Settled outcome check new result db db')
  unfolding apply_settlement
  apply_settlement-Settled db =
      committed db (settle parse_date check settlement outcome db) (settle-Settled db)
