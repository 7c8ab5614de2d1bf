-- ===== src/Auditor/Ledger/Returning.antt =====
-- `reserveWithinTransaction` returns: in a well-formed store it breaks no constraint, and every
-- stored amount can be read.
use zadper.Common.{
  ◌≡◌, Bool, false, ◌&&◌, some, arith, ok, Option-cases, Bool-cases, inl, inr, ◌===◌,
}
use zadper.Common.Text.{lower}
use zadper.Payment.Types.{AuthorizationIntent}
use zadper.Auditor.Tables.{CheckRow, Db, find_reservation, find_check}
use zadper.Auditor.Prepare.{ReservationInput, PreparedReservation, normalize_key}
use zadper.Auditor.Reserve.{
  ReservationResult, refused, Refusal, accepted, expire_reservations, matches_check, is_identical,
  reserve_matching, reserve_for, reserve_within_transaction,
}
use zadper.Auditor.Ledger.Reserving.{expire_reservations-IsWellFormed, new_result, reserve_new-eq}
use zadper.Auditor.Ledger.{IsWellFormed}

-- The keys of a stored check that are normalized again are not empty.
pub record IsKeyed (row : CheckRow) : Type 0 where
  pub asset : (row.check.terms.asset === "") ≡ false
  pub payer :
      (a : AuthorizationIntent)
      → row.check.authorization ≡ some a
      → (a.payer_public_key === "") ≡ false

module _ (input : ReservationInput) (prepared : PreparedReservation) where
  matches_check-returns :
      (row : CheckRow) → IsKeyed row → (b : Bool) × (matches_check row.check input prepared ≡ ok b)
  unfolding matches_check normalize_key
  matches_check-returns row k = elim (Option-cases row.check.authorization) [
    | inl none_given ↦ (false, ground (arith, k.asset, none_given))
    | inr (a, given) ↦ (
      lower row.check.terms.asset === prepared.asset
          && (row.check.terms.amount === input.amount
              && (lower a.payer_public_key === prepared.payer_key && a.nonce === prepared.nonce)),
      ground (arith, k.asset, given, k.payer a given),
    )
  ]

  reserve_matching-returns :
      (db : Db)
      → IsWellFormed db
      → (r : ReservationResult) × (db' : Db) × (reserve_matching input prepared db
            (find_reservation input.check_id db.reservations)
          ≡ ok (r, db'))
  unfolding reserve_matching
  reserve_matching-returns db w =
      elim (Option-cases (find_reservation input.check_id db.reservations)) [
        | inl fresh ↦ (
          (new_result input prepared db).0,
          (new_result input prepared db).1,
          rw (fresh, reserve_matching) (reserve_new-eq input prepared db w fresh),
        )
        | inr (existing, found) ↦ elim (Bool-cases (is_identical existing input prepared)) [
          | inl same ↦ (accepted, db, rw (found, reserve_matching, same))
          | inr other ↦
              (refused Refusal.reservation_conflict, db, rw (found, reserve_matching, other))
        ]
      ]

  -- In a well-formed store, where the check that is asked for has keys that are not empty, a prepared
  -- reservation always has a result: no constraint of the tables is broken and no stored amount is
  -- unreadable.
  pub reserve_within_transaction-returns :
      (db : Db)
      → IsWellFormed db
      → ((row : CheckRow) → find_check input.check_id db.checks ≡ some row → IsKeyed row)
      → (r : ReservationResult) × (db' : Db) × (reserve_within_transaction input prepared db
          ≡ ok (r, db'))
  unfolding reserve_within_transaction reserve_for expire_reservations
  reserve_within_transaction-returns db w keyed =
      let db'' = expire_reservations prepared.now db in
      let (r, db', e) =
        reserve_matching-returns db'' (expire_reservations-IsWellFormed prepared.now db w) in
      elim (Option-cases (find_check input.check_id db.checks)) [
        | inl missing ↦ (refused Refusal.check_not_found, db'', ground (arith, missing))
        | inr (row, found) ↦ elim (Bool-cases (row.operator_key === prepared.operator_key)) [
          | inr other ↦ (refused Refusal.check_not_found, db'', ground (arith, found, other))
          | inl owner ↦
              let (b, matched) = matches_check-returns row (keyed row found) in
              elim (Bool-cases b) [
                | inl yes_match ↦ (r, db', ground (arith, found, owner, matched, yes_match, e))
                | inr no_match ↦ (
                  refused Refusal.reservation_conflict,
                  db'',
                  ground (arith, found, owner, matched, no_match),
                )
              ]
        ]
      ]
