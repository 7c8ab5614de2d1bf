-- ===== src/Auditor/Ledger/Totals.antt =====
-- The sums over the reservations, as numbers, and how the statements change them.
use zadper.Common.{
  ℕ, ◌+◌, ◌≤◌, ◌≡◌, refl, Bool, none, some, List, [], ◌∷◌, arith, if◌then◌else◌, String, ok,
}
use zadper.Common.Decimal.{decimal}
use zadper.Auditor.Tables.{
  ReservationStatus, active, consumed, released, quarantined, expired, is_held, is_live,
  is_consumed, ReservationRow, expire_row, expire_rows, counts_for, sum_rows, is_due,
}
use zadper.Auditor.Transitions.{
  Transition, to_released, to_consumed, to_quarantined, move_row, move_rows,
}
use zadper.Auditor.Ledger.Updates.{Readable}

abbrev pub amount_of : ReservationRow → ℕ
amount_of r = elim (decimal r.amount) [ none ↦ 0 | some n ↦ n ]

-- The part of a row in a total.
unfoldable pub share : (ReservationStatus → Bool) → String → String → ℕ → ReservationRow → ℕ
share wanted operator asset day r =
    if counts_for wanted operator asset day r then amount_of r else 0

unfoldable pub total : (ReservationStatus → Bool) → String → String → ℕ → List ReservationRow → ℕ
total wanted operator asset day [] = 0
total wanted operator asset day (r ∷ rs) =
    share wanted operator asset day r + total wanted operator asset day rs

-- Over readable rows the sum of the code is this total.
pub sum_rows-eq-total :
    (wanted : ReservationStatus → Bool) (operator asset : String) (day : ℕ)
    (rs : List ReservationRow)
    → Readable rs
    → sum_rows wanted operator asset day rs ≡ ok (total wanted operator asset day rs)
unfolding sum_rows total share
sum_rows-eq-total wanted operator asset day [] h = refl
sum_rows-eq-total wanted operator asset day (r ∷ rs) ((n, e), h) =
    ground (arith, sum_rows-eq-total wanted operator asset day rs h, e)

module _ (operator asset : String) (day : ℕ) where
  share-live :
      (r : ReservationRow)
      → share is_live operator asset day r
        ≡ share is_held operator asset day r + share is_consumed operator asset day r
  unfolding share counts_for
  share-live r = by_status r.status
    where
      by_status :
          (s : ReservationStatus)
          → share is_live operator asset day (record r { status = s })
            ≡ share is_held operator asset day (record r { status = s })
              + share is_consumed operator asset day (record r { status = s })
      by_status active = ground arith
      by_status consumed = ground arith
      by_status released = ground arith
      by_status quarantined = ground arith
      by_status expired = ground arith

  -- What counts against a cap is what is held and what is spent.
  pub total-live :
      (rs : List ReservationRow)
      → total is_live operator asset day rs
        ≡ total is_held operator asset day rs + total is_consumed operator asset day rs
  unfolding total
  total-live [] = refl
  total-live (r ∷ rs) = omega (arith, share-live r, total-live rs)

  share-expire_row :
      (now : ℕ) (r : ReservationRow)
      → share is_live operator asset day (expire_row now r) ≤ share is_live operator asset day r
  unfolding share counts_for expire_row is_due
  share-expire_row now r = ground arith

  pub total-expire_rows :
      (now : ℕ) (rs : List ReservationRow)
      → total is_live operator asset day (expire_rows now rs) ≤ total is_live operator asset day rs
  unfolding total expire_rows
  total-expire_rows now [] = omega arith
  total-expire_rows now (r ∷ rs) = omega (arith, share-expire_row now r, total-expire_rows now rs)

  share-move_row :
      (t : Transition) (id : String) (at : ℕ) (r : ReservationRow)
      → share is_live operator asset day (move_row t id at r) ≤ share is_live operator asset day r
  unfolding share counts_for move_row
  share-move_row to_released id at r = ground arith
  share-move_row to_consumed id at r = ground arith
  share-move_row to_quarantined id at r = ground arith

  pub total-move_rows :
      (t : Transition) (id : String) (at : ℕ) (rs : List ReservationRow)
      → total is_live operator asset day (move_rows t id at rs)
        ≤ total is_live operator asset day rs
  unfolding total move_rows
  total-move_rows t id at [] = omega arith
  total-move_rows t id at (r ∷ rs) =
      omega (arith, share-move_row t id at r, total-move_rows t id at rs)
