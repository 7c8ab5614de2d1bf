-- ===== src/Auditor/Ledger/Transactions.antt =====
-- What the two ways to reserve keep, for any property of the store that the inner transaction keeps.
use zadper.Common.{
  ℕ, ◌≡◌, refl, ap, subst, String, Bool, true, false, Option, arith, Result, ok, throw, bind-eq-ok,
  require-eq-ok, ok-injective,
}
use zadper.Auditor.Tables.{StoredPaymentCheck, Db}
use zadper.Auditor.Prepare.{ReservationInput, PreparedReservation, prepare_reservation}
use zadper.Auditor.Reserve.{
  ReservationResult, accepted, refused, reserve_within_transaction, commit_or_rollback, save_check,
  prepare_and_reserve, reserve_saved, save_and_reserve, rollback_refused,
}
use zadper.Auditor.Ledger.Preparing.{IsPrepared, prepare_reservation-IsPrepared}

-- A transaction that ends by an exception leaves the database as it was.
pub commit_or_rollback_keeps :
    {A : Type 0} (P : Db → Type 0) (db : Db) (m : Result (A × Db))
    → P db
    → ((a : A) (db' : Db) → m ≡ ok (a, db') → P db')
    → P (commit_or_rollback db m).1
commit_or_rollback_keeps P db (throw e) h k = h
commit_or_rollback_keeps P db (ok (a, db')) h k = k a db' refl

-- A check that is saved changes no reservation and no replay row.
pub save_check_same :
    (parse_date : String → Option ℕ) (check : StoredPaymentCheck) (saved : Bool) (db db' : Db)
    → save_check parse_date check db ≡ ok (saved, db')
    → (db'.reservations ≡ db.reservations) × (db'.replays ≡ db.replays)
unfolding save_check
save_check_same parse_date check saved db db' e = ground arith

module _ (P : Db → Type 0) (db db' : Db) where
  -- A refusal goes back to the database before the check was saved.
  rollback_refused_keeps :
      (m : Result (ReservationResult × Db)) (r : ReservationResult)
      → P db
      → ((r' : ReservationResult) (d : Db) → m ≡ ok (r', d) → P d)
      → rollback_refused db m ≡ ok (r, db')
      → P db'
  rollback_refused_keeps (throw t) r h k e = cc
  rollback_refused_keeps (ok (accepted, d)) r h k e =
      subst P (ap (λ x. x.1) (ok-injective e)) (k accepted d refl)
  rollback_refused_keeps (ok (refused reason, d)) r h k e =
      subst P (ap (λ x. x.1) (ok-injective e)) h

  reserve_saved_keeps :
      (input : ReservationInput) (prepared : PreparedReservation) (saved : Bool × Db)
      (r : ReservationResult)
      → P db
      → ((r' : ReservationResult) (d : Db)
          → reserve_within_transaction input prepared saved.1 ≡ ok (r', d)
          → P d)
      → reserve_saved input prepared db saved ≡ ok (r, db')
      → P db'
  unfolding reserve_saved
  reserve_saved_keeps input prepared (false, d) r h k e = subst P (ap (λ x. x.1) (ok-injective e)) h
  reserve_saved_keeps input prepared (true, d) r h k e =
      rollback_refused_keeps (reserve_within_transaction input prepared d) r h k e

-- A property of the store, which the inner transaction keeps on a prepared input, and which depends
-- on the reservations and the replay rows only.
module _ (parse_date : String → Option ℕ) (P : Db → Type 0) (input : ReservationInput) (now : ℕ)
    (reserving : (prepared : PreparedReservation) (db db' : Db) (r : ReservationResult)
      → IsPrepared parse_date input now prepared
      → P db
      → reserve_within_transaction input prepared db ≡ ok (r, db')
      → P db') where
  pub prepare_and_reserve_keeps :
      (db db' : Db) (r : ReservationResult)
      → P db
      → prepare_and_reserve parse_date input now db ≡ ok (r, db')
      → P db'
  unfolding prepare_and_reserve
  prepare_and_reserve_keeps db db' r h e =
      let (prepared, made, e') = bind-eq-ok (prepare_reservation parse_date input now) _ e in
      reserving prepared db db' r
        (prepare_reservation-IsPrepared parse_date input now prepared made) h e'

  pub save_and_reserve_keeps :
      ((d d' : Db) → d'.reservations ≡ d.reservations → d'.replays ≡ d.replays → P d → P d')
      → (check : StoredPaymentCheck) (db db' : Db) (r : ReservationResult) → P db
      → save_and_reserve parse_date check input now db ≡ ok (r, db')
      → P db'
  unfolding save_and_reserve
  save_and_reserve_keeps saving check db db' r h e =
      let (_, e₁) = require-eq-ok _ _ _ e in
      let (prepared, made, e₂) = bind-eq-ok (prepare_reservation parse_date input now) _ e₁ in
      let (saved, kept, e₃) = bind-eq-ok (save_check parse_date check db) _ e₂ in
      let (rs, ps) = save_check_same parse_date check saved.0 db saved.1 kept in
      reserve_saved_keeps P db db' input prepared saved r h
        (λ r' d.
          reserving prepared saved.1 d r'
            (prepare_reservation-IsPrepared parse_date input now prepared made)
            (saving db saved.1 rs ps h))
        e₃
