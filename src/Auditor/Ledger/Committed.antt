-- ===== src/Auditor/Ledger/Committed.antt =====
-- The totals that the policy check reads, and the total that the store compares with the cap.
use zadper.Common.{
  ℕ, ◌+◌, ◌≡◌, refl, ◌∙◌, sym, ap, subst, String, List, [], ◌∷◌, arith, ok, ok-injective,
  bind-eq-ok,
}
use zadper.Common.Text.{lower}
use zadper.Auditor.Tables.{
  is_live, is_held, is_consumed, ReservationRow, Db, sum_rows, expire_row, expire_rows, counts_for,
  is_due,
}
use zadper.Auditor.Prepare.{normalize_key}
use zadper.Auditor.Reserve.{expire_reservations}
use zadper.Auditor.Transitions.{reserved_total, spent_total}
use zadper.Auditor.Ledger.Reserving.{expire_reservations-IsWellFormed}
use zadper.Auditor.Ledger.Updates.{Readable}
use zadper.Auditor.Ledger.Totals.{share, total, total-live, sum_rows-eq-total}
use zadper.Auditor.Ledger.{IsWellFormed}

normalize_key-lower : (key value : String) → normalize_key value ≡ ok key → key ≡ lower value
unfolding normalize_key
normalize_key-lower key value e = ground arith

subst2 : (P : String → String → Type 0) {a b c d : String} → a ≡ b → c ≡ d → P a c → P b d
subst2 P {a} {b} {c} {d} h k p = subst (λ x. P b x) k (subst (λ x. P x c) h p)

module _ (operator asset : String) (day : ℕ) where
  share_spent :
      (now : ℕ) (r : ReservationRow)
      → share is_consumed operator asset day (expire_row now r)
        ≡ share is_consumed operator asset day r
  unfolding share counts_for expire_row is_due
  share_spent now r = ground arith

  -- The expiry changes nothing of what is spent.
  total_spent :
      (now : ℕ) (rs : List ReservationRow)
      → total is_consumed operator asset day (expire_rows now rs)
        ≡ total is_consumed operator asset day rs
  unfolding total expire_rows
  total_spent now [] = refl
  total_spent now (r ∷ rs) = omega (arith, share_spent now r, total_spent now rs)

  rows-committed :
      (now s r : ℕ) (db : Db)
      → IsWellFormed db
      → sum_rows is_consumed operator asset day db.reservations ≡ ok s
      → sum_rows is_held operator asset day (expire_rows now db.reservations) ≡ ok r
      → sum_rows is_live operator asset day (expire_rows now db.reservations) ≡ ok (s + r)
  unfolding expire_reservations
  rows-committed now s r db w spent held =
      let after : Readable (expire_rows now db.reservations) =
        (expire_reservations-IsWellFormed now db w).readable in
      let rows : List ReservationRow = expire_rows now db.reservations in
      let consumed = ok-injective (
        sym (sum_rows-eq-total is_consumed operator asset day db.reservations w.readable)
        ∙ spent) in
      let kept =
        ok-injective (sym (sum_rows-eq-total is_held operator asset day rows after) ∙ held) in
      sum_rows-eq-total is_live operator asset day rows after
      ∙ ap ok (
          omega (
            arith,
            total-live operator asset day rows,
            total_spent now db.reservations,
            consumed,
            kept,
          ))

-- In a well-formed store, what `spentTotal` and then `reservedTotal` answer for an operator, an asset
-- and a day is together what the store, after the expiry, counts against the cap of that day.
pub totals-committed :
    (operator asset : String) (day now s r : ℕ) (db db' : Db)
    → IsWellFormed db
    → spent_total operator asset day db ≡ ok s
    → reserved_total operator asset day now db ≡ (ok r, db')
    → sum_rows is_live (lower operator) (lower asset) day db'.reservations ≡ ok (s + r)
unfolding spent_total reserved_total expire_reservations
totals-committed operator asset day now s r db db' w spent reserved =
    let (key, operator_read, e₁) = bind-eq-ok (normalize_key operator) _ spent in
    let (coin, asset_read, e₂) = bind-eq-ok (normalize_key asset) _ e₁ in
    let answer = ap (λ x. x.0) reserved in
    let (key', operator_read', f₁) = bind-eq-ok (normalize_key operator) _ answer in
    let (coin', asset_read', f₂) = bind-eq-ok (normalize_key asset) _ f₁ in
    let spent_rows =
      subst2 (λ k c. sum_rows is_consumed k c day db.reservations ≡ ok s)
        (normalize_key-lower key operator operator_read) (normalize_key-lower coin asset asset_read)
        e₂ in
    let held_rows =
      subst2 (λ k c. sum_rows is_held k c day (expire_rows now db.reservations) ≡ ok r)
        (normalize_key-lower key' operator operator_read')
        (normalize_key-lower coin' asset asset_read') f₂ in
    subst (λ x. sum_rows is_live (lower operator) (lower asset) day x.reservations ≡ ok (s + r))
      (ap (λ x. x.1) reserved)
      (rows-committed (lower operator) (lower asset) day now s r db w spent_rows held_rows)
