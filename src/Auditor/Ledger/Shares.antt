-- ===== src/Auditor/Ledger/Shares.antt =====
-- The part of one reservation in the total of a day.
use zadper.Common.{
  ℕ, ◌≤◌, ◌≡◌, ◌≢◌, refl, ◌∙◌, ap, String, true, false, ◌&&◌, arith, if◌then◌else◌, Bool-cases, inl,
  inr, ◌===◌, ◌==◌, ==_iff,
}
use text.Mathlib.TextPositions.{eq_refl}
use zadper.Auditor.Tables.{expired, is_live, ReservationRow, counts_for}
use zadper.Auditor.Settle.{Outcome, as_consumed, as_quarantined, outcome_status, may_become}
use zadper.Auditor.Ledger.Totals.{amount_of, share}

-- A settlement that is not late leaves the part of the settled row as it was.
pub share_settled :
    (operator asset : String) (day : ℕ) (o : Outcome) (at : ℕ) (r : ReservationRow)
    → may_become o r.status ≡ true
    → r.status ≢ expired
    → share is_live operator asset day (record r { status = outcome_status o; updated_at = at })
      ≡ share is_live operator asset day r
unfolding share counts_for
share_settled operator asset day as_consumed at r m h = ground arith
share_settled operator asset day as_quarantined at r m h = ground arith

pub share-le-amount_of :
    (operator asset : String) (day : ℕ) (r : ReservationRow)
    → share is_live operator asset day r ≤ amount_of r
unfolding share
share-le-amount_of operator asset day r =
    elim (Bool-cases (counts_for is_live operator asset day r)) [
      | inl counted ↦ rw counted (omega arith)
      | inr left_out ↦ rw left_out (omega arith)
    ]

pub share_other :
    (operator asset : String) (day : ℕ) (r : ReservationRow)
    → (r.operator_key === operator && (r.asset === asset && r.utc_day == day)) ≡ false
    → share is_live operator asset day r ≡ 0
unfolding share counts_for
share_other operator asset day r h = ground (arith, h)

-- The part of a row in the total of its own day, in a status that counts and in one that does not.
pub share_own :
    (r : ReservationRow)
    → share is_live r.operator_key r.asset r.utc_day r
      ≡ (if is_live r.status then amount_of r else 0)
unfolding share counts_for
share_own r = simp (eq_refl r.operator_key, eq_refl r.asset, (==_iff r.utc_day r.utc_day).1 refl)

pub share_live :
    (r : ReservationRow)
    → is_live r.status ≡ true
    → share is_live r.operator_key r.asset r.utc_day r ≡ amount_of r
share_live r h = share_own r ∙ ap (λ b. if b then amount_of r else 0) h

pub share_expired :
    (r : ReservationRow) → r.status ≡ expired → share is_live r.operator_key r.asset r.utc_day r ≡ 0
share_expired r h = share_own r ∙ ap (λ s. if is_live s then amount_of r else 0) h

pub is_live-outcome_status : (o : Outcome) → is_live (outcome_status o) ≡ true
is_live-outcome_status as_consumed = refl
is_live-outcome_status as_quarantined = refl
