-- ===== src/Auditor/Ledger/Settling.antt =====
-- What `applySettlement` does to the reservations.
use zadper.Common.{
  ℕ, ◌≡◌, ◌≢◌, refl, sym, subst, eq_iff, Bool, false, List, [], ◌∷◌, ◌∙◌, ap, ◌⊎◌, String, true,
  Option, none, some, arith, Bool-cases, inl, inr, ◌===◌,
}
use zadper.Auditor.Tables.{
  ReservationStatus, active, consumed, released, quarantined, expired, ReservationRow,
  StoredPaymentCheck, CheckRow, SettlementRow, Db, find_reservation, find_check,
}
use zadper.Auditor.Settle.{
  Outcome, as_consumed, as_quarantined, outcome_status, is_open, SettlementRefusal,
  SettlementApplyResult, applied, refused, is_check, update_check, may_become, settle_rows,
  settle_reservation, is_already, is_final, find_settlement,
}

-- The status of a reservation before and after a settlement with an outcome, or with none.
pub data CanSettle : Option Outcome → ReservationStatus → ReservationStatus → Type 0 where
  leaves_active : CanSettle none active active
  leaves_expired : CanSettle none expired expired
  consumes_active : CanSettle (some as_consumed) active consumed
  consumes_expired : CanSettle (some as_consumed) expired consumed
  consumes_quarantined : CanSettle (some as_consumed) quarantined consumed
  keeps_consumed : CanSettle (some as_consumed) consumed consumed
  quarantines_active : CanSettle (some as_quarantined) active quarantined
  quarantines_expired : CanSettle (some as_quarantined) expired quarantined
  keeps_quarantined : CanSettle (some as_quarantined) quarantined quarantined

-- The rows are kept, since the status is what it is to be, or those of the check get the outcome.
pub data Rewritten (outcome : Option Outcome) (status : ReservationStatus) (id : String) (at : ℕ)
    (rows rows' : List ReservationRow) : Type 0 where
  kept : CanSettle outcome status status → rows' ≡ rows → Rewritten outcome status id at rows rows'
  changed :
      (o : Outcome)
      → outcome ≡ some o
      → may_become o status ≡ true
      → rows' ≡ settle_rows o id at rows
      → Rewritten outcome status id at rows rows'

-- The reservation of the check has its next status, with its time if that is another one, and no
-- other reservation has changed.
pub record IsSettled (outcome : Option Outcome) (id : String) (at : ℕ) (row : ReservationRow)
    (rows rows' : List ReservationRow) : Type 0 where
  pub next : ReservationStatus
  pub time : ℕ
  pub can_settle : CanSettle outcome row.status next
  pub timed : ((next ≡ row.status) × (time ≡ row.updated_at)) ⊎ (time ≡ at)
  pub settled : find_reservation id rows' ≡ some (record row { status = next; updated_at = time })
  pub others : (j : String) → j ≢ id → find_reservation j rows' ≡ find_reservation j rows

-- What is written: the reservations with the outcome, the check, and the settlement if it is the
-- first; no replay row.
pub record IsWritten (outcome : Option Outcome) (check : StoredPaymentCheck) (new : SettlementRow)
    (db db' : Db) : Type 0 where
  pub row : ReservationRow
  pub found : find_reservation check.id db.reservations ≡ some row
  pub rows_written :
      Rewritten outcome row.status check.id new.observed_at db.reservations db'.reservations
  pub is_settled : IsSettled outcome check.id new.observed_at row db.reservations db'.reservations
  pub same_replays : db'.replays ≡ db.replays
  pub stored : (c : CheckRow) × (find_check check.id db'.checks ≡ some c) × (c.check ≡ check)
  pub first :
      find_settlement check.id db.settlements ≡ none → db'.settlements ≡ new ∷ db.settlements

-- A refusal, the settlement that was final already, or what is written.
pub data Settled (outcome : Option Outcome) (check : StoredPaymentCheck) (new : SettlementRow)
    (result : SettlementApplyResult) (db db' : Db) : Type 0 where
  turned_down :
      (reason : SettlementRefusal)
      → result ≡ refused reason
      → db' ≡ db
      → Settled outcome check new result db db'
  final_already :
      (s : SettlementRow)
      → find_settlement check.id db.settlements ≡ some s
      → is_final s.proof.verdict ≡ true
      → s.proof.transaction_hash ≡ new.transaction_hash
      → result ≡ applied false s.proof
      → db' ≡ db
      → Settled outcome check new result db db'
  written :
      (created : Bool)
      → result ≡ applied created new.proof
      → IsWritten outcome check new db db'
      → Settled outcome check new result db db'

already-CanSettle :
    (o : Outcome) (s : ReservationStatus) → is_already o s ≡ true → CanSettle (some o) s s
already-CanSettle as_consumed consumed e = keeps_consumed
already-CanSettle as_quarantined quarantined e = keeps_quarantined
already-CanSettle as_consumed active e = cc
already-CanSettle as_consumed released e = cc
already-CanSettle as_consumed quarantined e = cc
already-CanSettle as_consumed expired e = cc
already-CanSettle as_quarantined active e = cc
already-CanSettle as_quarantined released e = cc
already-CanSettle as_quarantined consumed e = cc
already-CanSettle as_quarantined expired e = cc

may_become-CanSettle :
    (o : Outcome) (s : ReservationStatus)
    → may_become o s ≡ true
    → CanSettle (some o) s (outcome_status o)
may_become-CanSettle as_consumed active e = consumes_active
may_become-CanSettle as_consumed expired e = consumes_expired
may_become-CanSettle as_consumed quarantined e = consumes_quarantined
may_become-CanSettle as_quarantined active e = quarantines_active
may_become-CanSettle as_quarantined expired e = quarantines_expired
may_become-CanSettle as_consumed consumed e = cc
may_become-CanSettle as_consumed released e = cc
may_become-CanSettle as_quarantined consumed e = cc
may_become-CanSettle as_quarantined released e = cc
may_become-CanSettle as_quarantined quarantined e = cc

open-CanSettle : (s : ReservationStatus) → is_open s ≡ true → CanSettle none s s
open-CanSettle active e = leaves_active
open-CanSettle expired e = leaves_expired
open-CanSettle consumed e = cc
open-CanSettle released e = cc
open-CanSettle quarantined e = cc

pub settle_reservation-Rewritten :
    (outcome : Option Outcome) (s : ReservationStatus) (id : String) (at : ℕ)
    (rows rows' : List ReservationRow)
    → settle_reservation outcome s id at rows ≡ some rows'
    → Rewritten outcome s id at rows rows'
unfolding settle_reservation
settle_reservation-Rewritten none s id at rows rows' e =
    kept (open-CanSettle s (ground arith)) (ground arith)
settle_reservation-Rewritten (some o) s id at rows rows' e = elim (Bool-cases (is_already o s)) [
  | inl already ↦ kept (already-CanSettle o s already) (ground arith)
  | inr other ↦ changed o refl (ground arith) (ground arith)
]

find_check-id :
    (id : String) (cs : List CheckRow) (c : CheckRow)
    → find_check id cs ≡ some c
    → (c.check.id === id) ≡ true
unfolding find_check
find_check-id id [] c e = cc
find_check-id id (x ∷ cs) c e = ground (arith, find_check-id id cs c)

pub is_check_self :
    (c : CheckRow) (check : StoredPaymentCheck) (u : ℕ)
    → (c.check.id === check.id) ≡ true
    → is_check (record c { updated_at = u; check = check }) c ≡ true
is_check_self c check u e = rw (e, (eq_iff c.operator_key c.operator_key).1 refl) (ground arith)

-- The check that is found is the one that is replaced.
pub find_check-update_check :
    (check : StoredPaymentCheck) (u : ℕ) (cs : List CheckRow) (c : CheckRow)
    → find_check check.id cs ≡ some c
    → find_check check.id (update_check (record c { updated_at = u; check = check }) cs)
      ≡ some (record c { updated_at = u; check = check })
unfolding find_check update_check
find_check-update_check check u [] c e = cc
find_check-update_check check u (x ∷ cs) c e = elim (Bool-cases (x.check.id === check.id)) [
  | inl here ↦
      let same : x ≡ c = ground arith in
      let met = is_check_self c check u (rw (← same) here) in
      rw (same, met, (eq_iff check.id check.id).1 refl) refl
  | inr further ↦ ground (arith, further, find_check-update_check check u cs c)
]

find-settle_rows :
    (o : Outcome) (id : String) (at : ℕ) (rs : List ReservationRow) (r : ReservationRow)
    → find_reservation id rs ≡ some r
    → find_reservation id (settle_rows o id at rs)
      ≡ some (record r { status = outcome_status o; updated_at = at })
unfolding find_reservation settle_rows
find-settle_rows o id at [] r e = cc
find-settle_rows o id at (x ∷ rs) r e = elim (Bool-cases (x.check_id === id)) [
  | inl here ↦
      let same : x ≡ r = ground arith in
      let it = subst (λ (y : ReservationRow). (y.check_id === id) ≡ true) same here in
      rw (same, it) (rw it refl)
  | inr further ↦ ground (arith, further, find-settle_rows o id at rs r)
]

find-settle_rows_other :
    (o : Outcome) (id : String) (at : ℕ) (j : String) (rs : List ReservationRow)
    → j ≢ id
    → find_reservation j (settle_rows o id at rs) ≡ find_reservation j rs
unfolding find_reservation settle_rows
find-settle_rows_other o id at j [] other = refl
find-settle_rows_other o id at j (x ∷ rs) other =
    let later = find-settle_rows_other o id at j rs other in
    elim (Bool-cases (x.check_id === id)) [
      | inr differs ↦ ground (arith, differs, later)
      | inl same ↦ elim (Bool-cases (x.check_id === j)) [
        | inl here ↦
            absurd (other (sym ((eq_iff x.check_id j).0 here) ∙ (eq_iff x.check_id id).0 same))
        | inr further ↦ rw (same, further) later
      ]
    ]

pub Rewritten-IsSettled :
    (outcome : Option Outcome) (id : String) (at : ℕ) (row : ReservationRow)
    (rows rows' : List ReservationRow)
    → find_reservation id rows ≡ some row
    → Rewritten outcome row.status id at rows rows'
    → IsSettled outcome id at row rows rows'
Rewritten-IsSettled outcome id at row rows rows' found (kept can same) = record {
  next = row.status;
  time = row.updated_at;
  can_settle = can;
  timed = inl (refl, refl);
  settled = ap (find_reservation id) same ∙ found;
  others = λ j other. ap (find_reservation j) same;
}
Rewritten-IsSettled outcome id at row rows rows' found (changed o asked may same) = record {
  next = outcome_status o;
  time = at;
  can_settle =
      subst (λ a. CanSettle a row.status (outcome_status o)) (sym asked)
        (may_become-CanSettle o row.status may);
  timed = inr refl;
  settled = ap (find_reservation id) same ∙ find-settle_rows o id at rows row found;
  others = λ j other. ap (find_reservation j) same ∙ find-settle_rows_other o id at j rows other;
}

-- What a settlement does to the reservations and the replay rows, whatever it answers.
pub data Touched (id : String) (db db' : Db) : Type 0 where
  untouched : db'.reservations ≡ db.reservations → db'.replays ≡ db.replays → Touched id db db'
  rewritten :
      (o : Outcome) (at : ℕ) (r : ReservationRow)
      → find_reservation id db.reservations ≡ some r
      → may_become o r.status ≡ true
      → db'.reservations ≡ settle_rows o id at db.reservations
      → db'.replays ≡ db.replays
      → Touched id db db'

Rewritten-Touched :
    (outcome : Option Outcome) (id : String) (at : ℕ) (row : ReservationRow) (db db' : Db)
    → find_reservation id db.reservations ≡ some row
    → Rewritten outcome row.status id at db.reservations db'.reservations
    → db'.replays ≡ db.replays
    → Touched id db db'
Rewritten-Touched outcome id at row db db' found (kept can same) ps = untouched same ps
Rewritten-Touched outcome id at row db db' found (changed o asked may same) ps =
    rewritten o at row found may same ps

pub Settled-Touched :
    (outcome : Option Outcome) (check : StoredPaymentCheck) (new : SettlementRow)
    (result : SettlementApplyResult) (db db' : Db)
    → Settled outcome check new result db db'
    → Touched check.id db db'
Settled-Touched outcome check new result db db' (turned_down reason answer same) =
    untouched (ap (λ d. d.reservations) same) (ap (λ d. d.replays) same)
Settled-Touched outcome check new result db db' (final_already s known ended hash answer same) =
    untouched (ap (λ d. d.reservations) same) (ap (λ d. d.replays) same)
Settled-Touched outcome check new result db db' (written created answer w) =
    Rewritten-Touched outcome check.id new.observed_at w.row db db' w.found w.rows_written
      w.same_replays
