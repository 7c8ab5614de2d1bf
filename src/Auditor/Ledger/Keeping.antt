-- ===== src/Auditor/Ledger/Keeping.antt =====
-- Reserving and moving reservations keeps the store well formed.
use zadper.Common.{
  ℕ, ◌≡◌, String, true, false, ◌&&◌, Option, none, List, ◌∷◌, arith, ok, Bool-cases, inl, inr,
}
use text.Mathlib.TextPositions.{eq_refl}
use zadper.Auditor.Tables.{ReservationRow, Db, find_reservation, joins_live}
use zadper.Auditor.Prepare.{ReservationInput, PreparedReservation}
use zadper.Auditor.Reserve.{
  ReservationResult, accepted, refused, with_reservation, new_reservation, new_replay,
  reserve_within_transaction,
}
use zadper.Auditor.Transitions.{
  Transition, is_release, to_released, to_consumed, to_quarantined, any_moves, transition_rows,
}
use zadper.Auditor.Ledger.Backing.{
  Backed, Backed-map, joins_live-move_rows, delete_replays-Backed, move_rows_none, clashes-new,
}
use zadper.Auditor.Ledger.Updates.{
  DistinctReplays, Updates-move_rows, Updates-DistinctRows, Updates-Readable,
  delete_replays-DistinctReplays,
}
use zadper.Auditor.Ledger.Reserving.{
  IsWithinLimits, expire_reservations-IsWellFormed, reserve_within_transaction-accepted_iff,
  reserve_within_transaction-refused,
}
use zadper.Auditor.Ledger.Preparing.{IsPrepared}
use zadper.Auditor.Ledger.{IsWellFormed}

joins_live-with :
    (r : ReservationRow) (rs : List ReservationRow) (j : String)
    → joins_live rs j ≡ true
    → joins_live (r ∷ rs) j ≡ true
unfolding joins_live
joins_live-with r rs j e = ground (arith, e)

joins_live_new :
    (input : ReservationInput) (prepared : PreparedReservation) (rs : List ReservationRow)
    → joins_live (new_reservation input prepared ∷ rs) input.check_id ≡ true
unfolding joins_live
joins_live_new input prepared rs = rw eq_refl

module _ (parse_date : String → Option ℕ) (input : ReservationInput) (now : ℕ)
    (prepared : PreparedReservation) (p : IsPrepared parse_date input now prepared) where
  with_reservation-IsWellFormed :
      (db : Db)
      → IsWellFormed db
      → find_reservation input.check_id db.reservations ≡ none
      → IsWithinLimits input prepared db
      → IsWellFormed (with_reservation input prepared db)
  with_reservation-IsWellFormed db w fresh limits = record {
    distinct = (fresh, w.distinct);
    unique = (
      clashes-new (new_replay input prepared) db.reservations db.replays w.backed fresh
          limits.unused,
      w.unique,
    );
    backed = (
      joins_live_new input prepared db.reservations,
      Backed-map db.reservations _ db.replays
          (joins_live-with (new_reservation input prepared) db.reservations) w.backed,
    );
    readable = ((prepared.amount, p.amount), w.readable);
  }

  pub reserve_within_transaction-IsWellFormed :
      (db db' : Db) (r : ReservationResult)
      → IsWellFormed db
      → reserve_within_transaction input prepared db ≡ ok (r, db')
      → IsWellFormed db'
  reserve_within_transaction-IsWellFormed db db' accepted w e =
      let (_, granted) = (reserve_within_transaction-accepted_iff input prepared db db' w).0 e in
      elim granted [
        | inl (fresh, limits, same) ↦ rw same (
            with_reservation-IsWellFormed _ (expire_reservations-IsWellFormed prepared.now db w)
              fresh limits)
        | inr (_, _, _, same) ↦ rw same (expire_reservations-IsWellFormed prepared.now db w)
      ]
  reserve_within_transaction-IsWellFormed db db' (refused reason) w e =
      rw (reserve_within_transaction-refused input prepared db db' reason w e)
        (expire_reservations-IsWellFormed prepared.now db w)

-- The replay rows after a move stand for live reservations.
transition-Backed :
    (t : Transition) (id : String) (at : ℕ) (db : Db)
    → Backed db.reservations db.replays
    → Backed (transition_rows t id at db).reservations (transition_rows t id at db).replays
unfolding transition_rows
transition-Backed to_released id at db b =
    elim (Bool-cases (any_moves to_released id db.reservations)) [
      | inl moved ↦ rw moved (delete_replays-Backed id at db.reservations db.replays b)
      | inr still ↦ rw (still, move_rows_none to_released id at db.reservations still) b
    ]
transition-Backed to_consumed id at db b =
    elim (Bool-cases (any_moves to_consumed id db.reservations && false)) [
      | inl e ↦ absurd (ground (arith, e))
      | inr e ↦ rw e (
          Backed-map db.reservations _ db.replays
            (λ j. joins_live-move_rows to_consumed id at db.reservations j (λ h. cc h)) b)
    ]
transition-Backed to_quarantined id at db b =
    elim (Bool-cases (any_moves to_quarantined id db.reservations && false)) [
      | inl e ↦ absurd (ground (arith, e))
      | inr e ↦ rw e (
          Backed-map db.reservations _ db.replays
            (λ j. joins_live-move_rows to_quarantined id at db.reservations j (λ h. cc h)) b)
    ]

transition-DistinctReplays :
    (t : Transition) (id : String) (at : ℕ) (db : Db)
    → DistinctReplays db.replays
    → DistinctReplays (transition_rows t id at db).replays
unfolding transition_rows
transition-DistinctReplays t id at db d =
    elim (Bool-cases (any_moves t id db.reservations && is_release t)) [
      | inl e ↦ rw e (delete_replays-DistinctReplays id db.replays d)
      | inr e ↦ rw e d
    ]

pub transition_rows-IsWellFormed :
    (t : Transition) (id : String) (at : ℕ) (db : Db)
    → IsWellFormed db
    → IsWellFormed (transition_rows t id at db)
unfolding transition_rows
transition_rows-IsWellFormed t id at db w =
    let same = Updates-move_rows t id at db.reservations in
    record {
      distinct = Updates-DistinctRows db.reservations _ same w.distinct;
      unique = transition-DistinctReplays t id at db w.unique;
      backed = transition-Backed t id at db w.backed;
      readable = Updates-Readable db.reservations _ same w.readable;
    }
