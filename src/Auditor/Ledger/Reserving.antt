-- ===== src/Auditor/Ledger/Reserving.antt =====
-- When `reserveWithinTransaction` accepts a reservation, and what it stores.
use zadper.Common.{
  ℕ, ◌+◌, ◌≤◌, ◌<◌, ◌≡◌, ◌∙◌, sym, ◌⊎◌, ◌↔◌, true, false, none, some, arith, if◌then◌else◌, ok,
  Option-cases, inl, inr, ◌===◌, ltb, leb,
}
use zadper.Auditor.Tables.{
  is_live, ReservationRow, CheckRow, Db, find_reservation, find_check, held_count, replay_found,
}
use zadper.Auditor.Prepare.{ReservationInput, PreparedReservation}
use zadper.Auditor.Reserve.{
  ReservationResult, accepted, refused, Refusal, expire_reservations, matches_check, is_identical,
  with_reservation, new_replay, insert_rows, reserve_within_cap, reserve_new, reserve_matching,
  reserve_for, reserve_within_transaction,
}
use zadper.Auditor.Ledger.Backing.{delete_due-Backed, clashes-new}
use zadper.Auditor.Ledger.Updates.{
  Updates-expire_rows, Updates-DistinctRows, Updates-Readable, delete_due-DistinctReplays,
}
use zadper.Auditor.Ledger.Totals.{total, sum_rows-eq-total}
use zadper.Auditor.Ledger.{IsWellFormed}

pub expire_reservations-IsWellFormed :
    (now : ℕ) (db : Db) → IsWellFormed db → IsWellFormed (expire_reservations now db)
unfolding expire_reservations
expire_reservations-IsWellFormed now db w =
    let same = Updates-expire_rows now db.reservations in
    record {
      distinct = Updates-DistinctRows db.reservations _ same w.distinct;
      unique = delete_due-DistinctReplays now db.reservations db.replays w.unique;
      backed = delete_due-Backed now db.reservations db.replays w.backed;
      readable = Updates-Readable db.reservations _ same w.readable;
    }

module _ (input : ReservationInput) (prepared : PreparedReservation) where
  -- The limits that a new reservation meets.
  pub record IsWithinLimits (db : Db) : Type 0 where
    pub room : held_count prepared.operator_key db.reservations < prepared.maximum_concurrent
    pub unused :
        replay_found prepared.operator_key prepared.asset prepared.payer_key prepared.nonce
          db.reservations db.replays
        ≡ false
    pub under_cap :
        total is_live prepared.operator_key prepared.asset prepared.utc_day db.reservations
          + prepared.amount
        ≤ prepared.daily_cap

  -- The check has no reservation, the limits are met, and the two rows are added; or its
  -- reservation is active and the same, and nothing is added.
  abbrev pub Grants : Db → Db → Type 0
  Grants db db' =
      ((find_reservation input.check_id db.reservations ≡ none)
        × IsWithinLimits db
        × (db' ≡ with_reservation input prepared db))
      ⊎ ((existing : ReservationRow) × (find_reservation input.check_id db.reservations
            ≡ some existing)
          × (is_identical existing input prepared ≡ true)
          × (db' ≡ db))

  -- The check is stored, is the operator's, and has the terms and the authorization.
  pub record IsStored (db : Db) : Type 0 where
    pub row : CheckRow
    pub found : find_check input.check_id db.checks ≡ some row
    pub owner : (row.operator_key === prepared.operator_key) ≡ true
    pub matching : matches_check row.check input prepared ≡ ok true

  insert_rows-made :
      (db : Db)
      → IsWellFormed db
      → find_reservation input.check_id db.reservations ≡ none
      → replay_found prepared.operator_key prepared.asset prepared.payer_key prepared.nonce
          db.reservations db.replays
        ≡ false
      → insert_rows input prepared db ≡ ok (accepted, with_reservation input prepared db)
  unfolding insert_rows
  insert_rows-made db w fresh unused = rw (
    fresh,
    clashes-new (new_replay input prepared) db.reservations db.replays w.backed fresh unused,
  )

  -- Each way out of `reserve_new`, without the ways to throw.
  abbrev pub new_result : Db → ReservationResult × Db
  new_result db =
      if leb prepared.maximum_concurrent (held_count prepared.operator_key db.reservations)
      then (refused Refusal.maximum_concurrent_reservations, db)
      else if replay_found prepared.operator_key prepared.asset prepared.payer_key prepared.nonce
          db.reservations db.replays
      then (refused Refusal.authorization_replay, db)
      else if ltb prepared.daily_cap (
          total is_live prepared.operator_key prepared.asset prepared.utc_day db.reservations
          + prepared.amount)
      then (refused Refusal.policy_daily_cap_exceeded, db)
      else (accepted, with_reservation input prepared db)

  pub reserve_new-eq :
      (db : Db)
      → IsWellFormed db
      → find_reservation input.check_id db.reservations ≡ none
      → reserve_new input prepared db ≡ ok (new_result db)
  unfolding reserve_new reserve_within_cap
  reserve_new-eq db w fresh = ground (
    arith,
    insert_rows-made db w fresh,
    sum_rows-eq-total is_live prepared.operator_key prepared.asset prepared.utc_day db.reservations
        w.readable,
  )

  reserve_matching-accepted_iff :
      (db db' : Db)
      → IsWellFormed db
      → (reserve_matching input prepared db (find_reservation input.check_id db.reservations)
          ≡ ok (accepted, db'))
        ↔ Grants db db'
  unfolding reserve_matching
  reserve_matching-accepted_iff db db' w =
      elim (Option-cases (find_reservation input.check_id db.reservations)) [
        | inl fresh ↦ (
          λ e. inl (
            fresh,
            ground (arith, reserve_new-eq db w fresh, rw (fresh, reserve_matching) at e),
            ground (arith, reserve_new-eq db w fresh, rw (fresh, reserve_matching) at e),
          ),
          λ g. rw (fresh, reserve_matching) (ground (arith, reserve_new-eq db w fresh)),
        )
        | inr (existing, found) ↦ (
          λ e. inr (existing, found, ground (arith, found), ground (arith, found)),
          λ g. ground (arith, found),
        )
      ]

  reserve_for-eq :
      (db : Db)
      → IsStored db
      → reserve_for input prepared db (find_check input.check_id db.checks)
        ≡ reserve_matching input prepared db (find_reservation input.check_id db.reservations)
  unfolding reserve_for
  reserve_for-eq db s = rw (s.found, reserve_for, s.owner, s.matching)

  reserve_for-IsStored :
      (db db' : Db)
      → reserve_for input prepared db (find_check input.check_id db.checks) ≡ ok (accepted, db')
      → IsStored db
  unfolding reserve_for
  reserve_for-IsStored db db' e = elim (Option-cases (find_check input.check_id db.checks)) [
    | inl missing ↦ absurd (ground (arith, missing))
    | inr (row, found) ↦ record {
      row = row;
      found = found;
      owner = ground (arith, found);
      matching = ground (arith, found);
    }
  ]

  reserve_for-accepted_iff :
      (db db' : Db)
      → IsWellFormed db
      → (reserve_for input prepared db (find_check input.check_id db.checks) ≡ ok (accepted, db'))
        ↔ (IsStored db × Grants db db')
  reserve_for-accepted_iff db db' w =
      let matching = reserve_matching-accepted_iff db db' w in
      (
        λ e.
            let s = reserve_for-IsStored db db' e in
            (s, matching.0 (sym (reserve_for-eq db s) ∙ e)),
        λ (s, g). reserve_for-eq db s ∙ matching.1 g,
      )

  -- In a well-formed store a prepared reservation is accepted exactly when, after the reservations
  -- whose time has come are expired, the check is stored with the operator, terms and authorization
  -- of the request, and either it has no reservation, the limits on the number held, on the reuse of
  -- the authorization and on the day's total are met, and the two rows are added to the store, or its
  -- reservation is an identical active one and the store stays as it is.
  pub reserve_within_transaction-accepted_iff :
      (db db' : Db)
      → IsWellFormed db
      → (reserve_within_transaction input prepared db ≡ ok (accepted, db')) ↔ (
          IsStored (expire_reservations prepared.now db)
          × Grants (expire_reservations prepared.now db) db')
  unfolding reserve_within_transaction
  reserve_within_transaction-accepted_iff db db' w =
      reserve_for-accepted_iff (expire_reservations prepared.now db) db'
        (expire_reservations-IsWellFormed prepared.now db w)

  -- In a well-formed store, a refusal changes nothing but the reservations whose time has come, which
  -- are expired.
  pub reserve_within_transaction-refused :
      (db db' : Db) (reason : Refusal)
      → IsWellFormed db
      → reserve_within_transaction input prepared db ≡ ok (refused reason, db')
      → db' ≡ expire_reservations prepared.now db
  unfolding reserve_within_transaction reserve_for reserve_matching
  reserve_within_transaction-refused db db' reason w e =
      let db'' = expire_reservations prepared.now db in
      let w' = expire_reservations-IsWellFormed prepared.now db w in
      elim (Option-cases (find_reservation input.check_id db''.reservations)) [
        | inl fresh ↦ ground (arith, fresh, reserve_new-eq db'' w' fresh)
        | inr (existing, found) ↦ ground (arith, found)
      ]
