-- ===== src/Auditor/Ledger/Histories.antt =====
-- Any history of calls keeps the store of reservations well formed.
use zadper.Common.{
  ℕ, ◌≡◌, ap, subst, String, Bool, Option, List, [], ◌∷◌, ok, bind-eq-ok, ok-injective,
}
use zadper.Payment.Types.{SettlementProof}
use zadper.Auditor.Tables.{StoredPaymentCheck, Db}
use zadper.Auditor.Prepare.{ReservationInput, PreparedReservation, iso_timestamp}
use zadper.Auditor.Reserve.{
  ReservationResult, expire_reservations, reserve_within_transaction, commit_or_rollback,
  save_check, prepare_and_reserve, save_and_reserve, reserve, save_check_and_reserve,
}
use zadper.Auditor.Transitions.{Transition, transition, transition_reservation}
use zadper.Auditor.Settle.{Outcome, settle, apply_settlement}
use zadper.Auditor.Cancel.{update_stored_check}
use zadper.Auditor.Ledger.Cancelling.{update_stored_check-same}
use zadper.Auditor.Ledger.Backing.{Backed-map, joins_live-settle_rows}
use zadper.Auditor.Ledger.Updates.{Updates-settle_rows, Updates-DistinctRows, Updates-Readable}
use zadper.Auditor.Ledger.Reserving.{expire_reservations-IsWellFormed}
use zadper.Auditor.Ledger.Preparing.{IsPrepared}
use zadper.Auditor.Ledger.Keeping.{
  reserve_within_transaction-IsWellFormed, transition_rows-IsWellFormed,
}
use zadper.Auditor.Ledger.Transactions.{
  commit_or_rollback_keeps, save_check_same, prepare_and_reserve_keeps, save_and_reserve_keeps,
}
use zadper.Auditor.Ledger.Settling.{Touched, untouched, rewritten}
use zadper.Auditor.Ledger.Applying.{settle-Touched}
use zadper.Auditor.Ledger.{IsWellFormed}

-- The calls that write these tables. `reads` is any of the totals, which expire reservations first.
pub data Call : Type 0 where
  reserves : ReservationInput → (now : ℕ) → Call
  saves : StoredPaymentCheck → Call
  saves_and_reserves : StoredPaymentCheck → ReservationInput → (now : ℕ) → Call
  transitions : (id : String) → Transition → (at : String) → Call
  settles : StoredPaymentCheck → SettlementProof → Option Outcome → Call
  updates : StoredPaymentCheck → Call
  reads : (now : ℕ) → Call

module _ (parse_date : String → Option ℕ) where
  unfoldable pub step : Db → Call → Db
  step db (reserves input now) = (reserve parse_date input now db).1
  step db (saves check) = (commit_or_rollback db (save_check parse_date check db)).1
  step db (saves_and_reserves check input now) =
      (save_check_and_reserve parse_date check input now db).1
  step db (transitions id t at) = (transition_reservation parse_date id t at db).1
  step db (settles check settlement outcome) =
      (apply_settlement parse_date check settlement outcome db).1
  step db (updates check) = (update_stored_check parse_date check db).1
  step db (reads now) = expire_reservations now db

  unfoldable pub run : Db → List Call → Db
  run db [] = db
  run db (c ∷ cs) = run (step db c) cs

pub same-IsWellFormed :
    (db db' : Db)
    → db'.reservations ≡ db.reservations
    → db'.replays ≡ db.replays
    → IsWellFormed db
    → IsWellFormed db'
same-IsWellFormed db db' rs ps w = record {
  distinct = rw rs w.distinct;
  unique = rw ps w.unique;
  backed = rw (rs, ps) w.backed;
  readable = rw rs w.readable;
}

Touched-IsWellFormed :
    (id : String) (db db' : Db) → Touched id db db' → IsWellFormed db → IsWellFormed db'
Touched-IsWellFormed id db db' (untouched rs ps) w = same-IsWellFormed db db' rs ps w
Touched-IsWellFormed id db db' (rewritten o at _ _ _ rs ps) w =
    let same = Updates-settle_rows o id at db.reservations in
    record {
      distinct = rw rs (Updates-DistinctRows db.reservations _ same w.distinct);
      unique = rw ps w.unique;
      backed =
          rw (rs, ps)
            (Backed-map db.reservations _ db.replays
              (joins_live-settle_rows o id at db.reservations) w.backed);
      readable = rw rs (Updates-Readable db.reservations _ same w.readable);
    }

module _ (parse_date : String → Option ℕ) where
  pub reserving-IsWellFormed :
      (input : ReservationInput) (now : ℕ) (prepared : PreparedReservation) (db db' : Db)
      (r : ReservationResult)
      → IsPrepared parse_date input now prepared
      → IsWellFormed db
      → reserve_within_transaction input prepared db ≡ ok (r, db')
      → IsWellFormed db'
  reserving-IsWellFormed input now prepared db db' r p w e =
      reserve_within_transaction-IsWellFormed parse_date input now prepared p db db' r w e

  transition-IsWellFormed :
      (id : String) (t : Transition) (at : String) (db db' : Db) (r : Bool)
      → IsWellFormed db
      → transition parse_date id t at db ≡ ok (r, db')
      → IsWellFormed db'
  unfolding transition
  transition-IsWellFormed id t at db db' r w e =
      let (time, _, same) = bind-eq-ok (iso_timestamp parse_date at "reservation.updatedAt") _ e in
      subst IsWellFormed (ap (λ x. x.1) (ok-injective same))
        (transition_rows-IsWellFormed t id time db w)

  -- Every call keeps the tables well formed.
  pub step-IsWellFormed :
      (db : Db) (c : Call) → IsWellFormed db → IsWellFormed (step parse_date db c)
  unfolding step reserve save_check_and_reserve transition_reservation apply_settlement
  step-IsWellFormed db (reserves input now) w =
      commit_or_rollback_keeps IsWellFormed db (prepare_and_reserve parse_date input now db) w
        (λ r db'.
          prepare_and_reserve_keeps parse_date IsWellFormed input now
            (reserving-IsWellFormed input now) db db' r w)
  step-IsWellFormed db (saves check) w =
      commit_or_rollback_keeps IsWellFormed db (save_check parse_date check db) w (λ saved db' e.
        let (rs, ps) = save_check_same parse_date check saved db db' e in
        same-IsWellFormed db db' rs ps w)
  step-IsWellFormed db (saves_and_reserves check input now) w =
      commit_or_rollback_keeps IsWellFormed db (save_and_reserve parse_date check input now db) w
        (λ r db'.
          save_and_reserve_keeps parse_date IsWellFormed input now
            (reserving-IsWellFormed input now) same-IsWellFormed check db db' r w)
  step-IsWellFormed db (transitions id t at) w =
      commit_or_rollback_keeps IsWellFormed db (transition parse_date id t at db) w
        (λ r db'. transition-IsWellFormed id t at db db' r w)
  step-IsWellFormed db (settles check settlement outcome) w =
      commit_or_rollback_keeps IsWellFormed db (settle parse_date check settlement outcome db) w
        (λ r db' e.
          Touched-IsWellFormed check.id db db'
            (settle-Touched parse_date check settlement outcome db db' r e) w)
  step-IsWellFormed db (updates check) w =
      let (rs, ps) = update_stored_check-same parse_date check db in
      same-IsWellFormed db (update_stored_check parse_date check db).1 rs ps w
  step-IsWellFormed db (reads now) w = expire_reservations-IsWellFormed now db w

  -- Whatever calls are made of a store that is well formed, each with its result or its exception, the
  -- tables stay well formed: at most one reservation of a check, at most one replay row of a check and
  -- of an authorization, every replay row with an active, quarantined or consumed reservation, and
  -- every amount a canonical numeral.
  pub run-IsWellFormed :
      (db : Db) (cs : List Call) → IsWellFormed db → IsWellFormed (run parse_date db cs)
  unfolding run
  run-IsWellFormed db [] w = w
  run-IsWellFormed db (c ∷ cs) w =
      run-IsWellFormed (step parse_date db c) cs (step-IsWellFormed db c w)
