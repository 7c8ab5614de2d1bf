-- ===== src/Auditor/Ledger/Updates.antt =====
-- The updates of the reservations change a row's status and time of update, and nothing else of it.
use zadper.Common.{ℕ, ◌≡◌, ◌∙◌, ap, false, some, none, List, [], ◌∷◌, arith, String}
use zadper.Common.Decimal.{decimal}
use zadper.Auditor.Tables.{
  ReservationRow, ReplayRow, find_reservation, expire_row, expire_rows, delete_due,
}
use zadper.Auditor.Reserve.{clashes}
use zadper.Auditor.Transitions.{Transition, move_row, move_rows, delete_replays}
use zadper.Auditor.Settle.{Outcome, settle_rows}

pub record IsRestated (r r' : ReservationRow) : Type 0 where
  pub check_id : r'.check_id ≡ r.check_id
  pub operator_key : r'.operator_key ≡ r.operator_key
  pub asset : r'.asset ≡ r.asset
  pub amount : r'.amount ≡ r.amount
  pub utc_day : r'.utc_day ≡ r.utc_day

-- Row by row.
abbrev pub Updates : List ReservationRow → List ReservationRow → Type 0
Updates [] [] = Unit
Updates (r ∷ rs) (r' ∷ rs') = IsRestated r r' × Updates rs rs'
Updates _ _ = ⊥

pub Updates-refl : (rs : List ReservationRow) → Updates rs rs
Updates-refl [] = tt
Updates-refl (r ∷ rs) = (ground arith, Updates-refl rs)

pub Updates-expire_rows : (now : ℕ) (rs : List ReservationRow) → Updates rs (expire_rows now rs)
unfolding expire_row expire_rows
Updates-expire_rows now [] = tt
Updates-expire_rows now (r ∷ rs) = (ground arith, Updates-expire_rows now rs)

pub Updates-move_rows :
    (t : Transition) (id : String) (at : ℕ) (rs : List ReservationRow)
    → Updates rs (move_rows t id at rs)
unfolding move_row move_rows
Updates-move_rows t id at [] = tt
Updates-move_rows t id at (r ∷ rs) = (ground arith, Updates-move_rows t id at rs)

pub Updates-settle_rows :
    (o : Outcome) (id : String) (at : ℕ) (rs : List ReservationRow)
    → Updates rs (settle_rows o id at rs)
unfolding settle_rows
Updates-settle_rows o id at [] = tt
Updates-settle_rows o id at (r ∷ rs) = (ground arith, Updates-settle_rows o id at rs)

-- No two reservations are of one check.
abbrev pub DistinctRows : List ReservationRow → Type 0
DistinctRows [] = Unit
DistinctRows (r ∷ rs) = (find_reservation r.check_id rs ≡ none) × DistinctRows rs

-- Every amount is a canonical numeral.
abbrev pub Readable : List ReservationRow → Type 0
Readable [] = Unit
Readable (r ∷ rs) = ((n : ℕ) × (decimal r.amount ≡ some n)) × Readable rs

pub Updates-find_none :
    (rs rs' : List ReservationRow) (id : String)
    → Updates rs rs'
    → find_reservation id rs ≡ none
    → find_reservation id rs' ≡ none
unfolding find_reservation
Updates-find_none [] [] id u h = h
Updates-find_none (r ∷ rs) (r' ∷ rs') id (same, u) h =
    ground (arith, same.check_id, Updates-find_none rs rs' id u)
Updates-find_none [] (r ∷ rs) id u h = absurd u
Updates-find_none (r ∷ rs) [] id u h = absurd u

pub Updates-DistinctRows :
    (rs rs' : List ReservationRow) → Updates rs rs' → DistinctRows rs → DistinctRows rs'
Updates-DistinctRows [] [] u d = tt
Updates-DistinctRows (r ∷ rs) (r' ∷ rs') (same, u) (new, d) =
    (rw same.check_id (Updates-find_none rs rs' r.check_id u new), Updates-DistinctRows rs rs' u d)
Updates-DistinctRows [] (r ∷ rs) u d = absurd u
Updates-DistinctRows (r ∷ rs) [] u d = absurd u

pub Updates-Readable : (rs rs' : List ReservationRow) → Updates rs rs' → Readable rs → Readable rs'
Updates-Readable [] [] u d = tt
Updates-Readable (r ∷ rs) (r' ∷ rs') (same, u) (h, d) =
    ((h.0, ap decimal same.amount ∙ h.1), Updates-Readable rs rs' u d)
Updates-Readable [] (r ∷ rs) u d = absurd u
Updates-Readable (r ∷ rs) [] u d = absurd u

-- No two replay rows are of one check, or of one authorization.
abbrev pub DistinctReplays : List ReplayRow → Type 0
DistinctReplays [] = Unit
DistinctReplays (p ∷ ps) = (clashes p ps ≡ false) × DistinctReplays ps

clashes-delete_due :
    (now : ℕ) (rs : List ReservationRow) (new : ReplayRow) (ps : List ReplayRow)
    → clashes new ps ≡ false
    → clashes new (delete_due now rs ps) ≡ false
unfolding clashes delete_due
clashes-delete_due now rs new [] h = h
clashes-delete_due now rs new (p ∷ ps) h = ground (arith, clashes-delete_due now rs new ps)

pub delete_due-DistinctReplays :
    (now : ℕ) (rs : List ReservationRow) (ps : List ReplayRow)
    → DistinctReplays ps
    → DistinctReplays (delete_due now rs ps)
unfolding delete_due
delete_due-DistinctReplays now rs [] d = tt
delete_due-DistinctReplays now rs (p ∷ ps) (new, d) =
    ground (arith, delete_due-DistinctReplays now rs ps d, clashes-delete_due now rs p ps new)

clashes-delete_replays :
    (id : String) (new : ReplayRow) (ps : List ReplayRow)
    → clashes new ps ≡ false
    → clashes new (delete_replays id ps) ≡ false
unfolding clashes delete_replays
clashes-delete_replays id new [] h = h
clashes-delete_replays id new (p ∷ ps) h = ground (arith, clashes-delete_replays id new ps)

pub delete_replays-DistinctReplays :
    (id : String) (ps : List ReplayRow)
    → DistinctReplays ps
    → DistinctReplays (delete_replays id ps)
unfolding delete_replays
delete_replays-DistinctReplays id [] d = tt
delete_replays-DistinctReplays id (p ∷ ps) (new, d) =
    ground (arith, delete_replays-DistinctReplays id ps d, clashes-delete_replays id p ps new)
