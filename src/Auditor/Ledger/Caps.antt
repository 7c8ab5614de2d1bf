-- ===== src/Auditor/Ledger/Caps.antt =====
-- The daily cap over a history of calls, and what a late settlement does to it.
use zadper.Common.{
  ℕ, ◌+◌, ◌≤◌, ◌≡◌, ◌≢◌, ◌∙◌, sym, subst, String, Bool, ◌&&◌, Option, some, List, [], ◌∷◌, arith,
  eq_iff, ok, bind-eq-ok, ok-injective, Bool-cases, inl, inr, ◌===◌, ◌==◌, ==_iff,
}
use zadper.Common.Text.{lower}
use zadper.Common.Decimal.{decimal}
use zadper.Auditor.Tables.{expired, is_live, ReservationRow, Db, find_reservation}
use zadper.Auditor.Prepare.{ReservationInput, PreparedReservation, iso_timestamp}
use zadper.Auditor.Reserve.{
  ReservationResult, accepted, refused, expire_reservations, new_reservation, with_reservation,
  reserve_within_transaction, save_check, prepare_and_reserve, save_and_reserve, reserve,
  save_check_and_reserve,
}
use zadper.Auditor.Transitions.{Transition, transition, transition_rows, transition_reservation}
use zadper.Auditor.Settle.{settle, apply_settlement}
use zadper.Auditor.Ledger.Totals.{amount_of, share, total, total-expire_rows, total-move_rows}
use zadper.Auditor.Ledger.Shares.{share_settled, share-le-amount_of, share_other}
use zadper.Auditor.Ledger.Lookups.{total-settle_rows}
use zadper.Auditor.Ledger.Reserving.{
  IsWithinLimits, reserve_within_transaction-accepted_iff, reserve_within_transaction-refused,
}
use zadper.Auditor.Ledger.Preparing.{IsPrepared}
use zadper.Auditor.Ledger.Transactions.{
  commit_or_rollback_keeps, save_check_same, prepare_and_reserve_keeps, save_and_reserve_keeps,
}
use zadper.Auditor.Ledger.Settling.{Touched, untouched, rewritten}
use zadper.Auditor.Ledger.Applying.{settle-Touched}
use zadper.Auditor.Cancel.{update_stored_check}
use zadper.Auditor.Ledger.Cancelling.{update_stored_check-same}
use zadper.Auditor.Ledger.Histories.{
  Call, reserves, saves, saves_and_reserves, transitions, settles, updates, reads, step, run,
  step-IsWellFormed, reserving-IsWellFormed, same-IsWellFormed,
}
use zadper.Auditor.Ledger.{IsWellFormed}

-- No reservation that has expired is settled.
abbrev pub NotLate : String → Db → Type 0
NotLate id db =
    (r : ReservationRow) → find_reservation id db.reservations ≡ some r → r.status ≢ expired

module _ (operator asset : String) (cap : ℕ) where
  -- On every day the reservations that are active, quarantined or consumed are within the cap.
  abbrev pub IsUnder : Db → Type 0
  IsUnder db = (day : ℕ) → total is_live operator asset day db.reservations ≤ cap

  -- A reservation of this operator and asset asks for no more than the cap.
  abbrev pub AsksWithin : ReservationInput → Type 0
  AsksWithin input =
      lower input.operator_public_key ≡ operator
      → lower input.asset ≡ asset
      → (n : ℕ) → decimal input.daily_cap ≡ some n
      → n ≤ cap

  abbrev pub CallWithin : Db → Call → Type 0
  CallWithin db (reserves input now) = AsksWithin input
  CallWithin db (saves check) = Unit
  CallWithin db (saves_and_reserves check input now) = AsksWithin input
  CallWithin db (transitions id t at) = Unit
  CallWithin db (settles check settlement outcome) = NotLate check.id db
  CallWithin db (updates check) = Unit
  CallWithin db (reads now) = Unit

  module _ (parse_date : String → Option ℕ) (input : ReservationInput) (now : ℕ)
      (prepared : PreparedReservation) (p : IsPrepared parse_date input now prepared)
      (within : AsksWithin input) where
    amount_of-new : amount_of (new_reservation input prepared) ≡ prepared.amount
    amount_of-new = rw (p.amount, amount_of)

    share-new :
        (db : Db) (day : ℕ)
        → IsWithinLimits input prepared db
        → total is_live operator asset day db.reservations ≤ cap
        → share is_live operator asset day (new_reservation input prepared)
            + total is_live operator asset day db.reservations
          ≤ cap
    share-new db day limits h =
        elim (Bool-cases (
          prepared.operator_key === operator
          && (prepared.asset === asset && prepared.utc_day == day))) [
            | inl same ↦
                let owner = (eq_iff prepared.operator_key operator).0 (ground (arith, same)) in
                let token = (eq_iff prepared.asset asset).0 (ground (arith, same)) in
                let today = (==_iff prepared.utc_day day).0 (ground (arith, same)) in
                let low =
                  within (sym p.operator_key ∙ owner) (sym p.asset ∙ token) prepared.daily_cap
                    p.daily_cap in
                omega (
                  arith,
                  low,
                  share-le-amount_of operator asset day (new_reservation input prepared),
                  amount_of-new,
                  rw (owner, token, today) at limits.under_cap,
                )
            | inr other ↦
                omega (arith, share_other operator asset day (new_reservation input prepared) other)
          ]

    with_reservation-IsUnder :
        (db : Db)
        → IsWithinLimits input prepared db
        → IsUnder db
        → IsUnder (with_reservation input prepared db)
    unfolding total
    with_reservation-IsUnder db limits u day = share-new db day limits (u day)

    expire-IsUnder : (at : ℕ) (db : Db) → IsUnder db → IsUnder (expire_reservations at db)
    unfolding expire_reservations
    expire-IsUnder at db u day =
        omega (arith, total-expire_rows operator asset day at db.reservations, u day)

    reserve_within_transaction-IsUnder :
        (db db' : Db) (r : ReservationResult)
        → IsWellFormed db
        → IsUnder db
        → reserve_within_transaction input prepared db ≡ ok (r, db')
        → IsUnder db'
    reserve_within_transaction-IsUnder db db' accepted w u e =
        let expired_too = expire-IsUnder prepared.now db u in
        let (_, granted) = (reserve_within_transaction-accepted_iff input prepared db db' w).0 e in
        elim granted [
          | inl (fresh, limits, same) ↦
              subst IsUnder (sym same) (with_reservation-IsUnder _ limits expired_too)
          | inr (_, _, _, same) ↦ subst IsUnder (sym same) expired_too
        ]
    reserve_within_transaction-IsUnder db db' (refused reason) w u e =
        subst IsUnder (sym (reserve_within_transaction-refused input prepared db db' reason w e))
          (expire-IsUnder prepared.now db u)

  Touched-IsUnder :
      (id : String) (db db' : Db)
      → Touched id db db'
      → IsWellFormed db
      → NotLate id db
      → IsUnder db
      → IsUnder db'
  Touched-IsUnder id db db' (untouched rs ps) w early u day = rw rs (u day)
  Touched-IsUnder id db db' (rewritten o at r found may rs ps) w early u day = rw rs (
      omega (
        arith,
        total-settle_rows operator asset day o id at db.reservations r w.distinct found,
        share_settled operator asset day o at r may (early r found),
        u day,
      ))

transition-IsUnder :
    (parse_date : String → Option ℕ) (operator asset : String) (cap : ℕ) (id : String)
    (t : Transition) (at : String) (db db' : Db) (r : Bool)
    → IsUnder operator asset cap db
    → transition parse_date id t at db ≡ ok (r, db')
    → IsUnder operator asset cap db'
unfolding transition transition_rows
transition-IsUnder parse_date operator asset cap id t at db db' r u e day =
    let (time, _, same) = bind-eq-ok (iso_timestamp parse_date at "reservation.updatedAt") _ e in
    subst (λ x. total is_live operator asset day (x.1).reservations ≤ cap) (ok-injective same)
      (omega (arith, total-move_rows operator asset day t id time db.reservations, u day))

module _ (parse_date : String → Option ℕ) (operator asset : String) (cap : ℕ) where
  abbrev IsSound : Db → Type 0
  IsSound db = IsWellFormed db × IsUnder operator asset cap db

  reserving-IsSound :
      (input : ReservationInput) (now : ℕ)
      → AsksWithin operator asset cap input
      → (prepared : PreparedReservation) (db db' : Db) (r : ReservationResult)
      → IsPrepared parse_date input now prepared
      → IsSound db
      → reserve_within_transaction input prepared db ≡ ok (r, db')
      → IsSound db'
  reserving-IsSound input now within prepared db db' r p (w, u) e = (
    reserving-IsWellFormed parse_date input now prepared db db' r p w e,
    reserve_within_transaction-IsUnder operator asset cap parse_date input now prepared p within db
        db' r w u e,
  )

  same-IsSound :
      (db db' : Db)
      → db'.reservations ≡ db.reservations
      → db'.replays ≡ db.replays
      → IsSound db
      → IsSound db'
  same-IsSound db db' rs ps (w, u) = (same-IsWellFormed db db' rs ps w, λ day. rw rs (u day))

  step-IsUnder :
      (db : Db) (c : Call)
      → CallWithin operator asset cap db c
      → IsSound db
      → IsUnder operator asset cap (step parse_date db c)
  unfolding step reserve save_check_and_reserve transition_reservation apply_settlement
      expire_reservations
  step-IsUnder db (reserves input now) within s =
      (commit_or_rollback_keeps IsSound db (prepare_and_reserve parse_date input now db) s (λ r db'.
        prepare_and_reserve_keeps parse_date IsSound input now (reserving-IsSound input now within)
          db db' r s)).1
  step-IsUnder db (saves check) within s =
      (commit_or_rollback_keeps IsSound db (save_check parse_date check db) s (λ saved db' e.
        let (rs, ps) = save_check_same parse_date check saved db db' e in
        same-IsSound db db' rs ps s)).1
  step-IsUnder db (saves_and_reserves check input now) within s =
      (commit_or_rollback_keeps IsSound db (save_and_reserve parse_date check input now db) s
        (λ r db'.
          save_and_reserve_keeps parse_date IsSound input now (reserving-IsSound input now within)
            same-IsSound check db db' r s)).1
  step-IsUnder db (transitions id t at) within s =
      commit_or_rollback_keeps (IsUnder operator asset cap) db (transition parse_date id t at db)
        s.1 (λ r db'. transition-IsUnder parse_date operator asset cap id t at db db' r s.1)
  step-IsUnder db (settles check settlement outcome) within s =
      commit_or_rollback_keeps (IsUnder operator asset cap) db
        (settle parse_date check settlement outcome db) s.1
        (λ r db' e.
          Touched-IsUnder operator asset cap check.id db db'
            (settle-Touched parse_date check settlement outcome db db' r e) s.0 within s.1)
  step-IsUnder db (updates check) within s =
      let (rs, ps) = update_stored_check-same parse_date check db in
      (same-IsSound db (update_stored_check parse_date check db).1 rs ps s).1
  step-IsUnder db (reads now) within s =
      λ day. omega (arith, total-expire_rows operator asset day now db.reservations, s.1 day)

  -- Each call is within the cap where it is made.
  abbrev pub CallsWithin : Db → List Call → Type 0
  CallsWithin db [] = Unit
  CallsWithin db (c ∷ cs) =
      CallWithin operator asset cap db c × CallsWithin (step parse_date db c) cs

  -- Whatever calls are made of a well-formed store that is within the cap, if every reservation of
  -- this operator and asset asks for a daily cap of no more than `cap` and no reservation that has
  -- expired is settled, then on every day what is active, quarantined or consumed stays within `cap`
  -- together.
  pub run-IsUnder :
      (db : Db) (cs : List Call)
      → IsWellFormed db
      → CallsWithin db cs
      → IsUnder operator asset cap db
      → IsUnder operator asset cap (run parse_date db cs)
  unfolding run
  run-IsUnder db [] w within u = u
  run-IsUnder db (c ∷ cs) w (first, rest) u =
      run-IsUnder (step parse_date db c) cs (step-IsWellFormed parse_date db c w) rest
        (step-IsUnder db c first (w, u))
