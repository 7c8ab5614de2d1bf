-- ===== src/Auditor/Ledger/Lookups.antt =====
-- The reservation of each check, as the updates see it.
use zadper.Common.{
  ℕ, ◌+◌, ◌≡◌, refl, ◌∙◌, sym, ap, String, true, false, ◌&&◌, Option, none, some, List, [], ◌∷◌,
  arith, eq_iff, if◌then◌else◌, ok, Bool-cases, inl, inr, ◌===◌, Option-cases,
}
use mathlib.Core.Option
use zadper.Auditor.Tables.{is_live, ReservationRow, Db, find_reservation}
use zadper.Auditor.Prepare.{iso_timestamp}
use zadper.Auditor.Transitions.{
  Transition, target, allowed_from, move_row, move_rows, any_moves, transition_rows, transition,
}
use zadper.Auditor.Settle.{Outcome, outcome_status, settle_rows}
use zadper.Auditor.Ledger.Updates.{DistinctRows}
use zadper.Auditor.Ledger.Totals.{share, total}

pub find_reservation-check_id :
    (id : String) (rs : List ReservationRow) (r : ReservationRow)
    → find_reservation id rs ≡ some r
    → (r.check_id === id) ≡ true
unfolding find_reservation
find_reservation-check_id id [] r e = cc
find_reservation-check_id id (x ∷ rs) r e = ground (arith, find_reservation-check_id id rs r)

move_row-check_id :
    (t : Transition) (id : String) (at : ℕ) (r : ReservationRow)
    → (move_row t id at r).check_id ≡ r.check_id
unfolding move_row
move_row-check_id t id at r = ground arith

find_reservation-move_rows :
    (t : Transition) (id : String) (at : ℕ) (rs : List ReservationRow) (j : String)
    → find_reservation j (move_rows t id at rs)
      ≡ Option.map (move_row t id at) (find_reservation j rs)
unfolding find_reservation move_rows
find_reservation-move_rows t id at [] j = refl
find_reservation-move_rows t id at (r ∷ rs) j = elim (Bool-cases (r.check_id === j)) [
  | inl here ↦ simp (move_row-check_id t id at r, here)
  | inr further ↦
      simp (move_row-check_id t id at r, further) (find_reservation-move_rows t id at rs j)
]

-- With no reservation of the check, no row moves.
pub any_moves-none :
    (t : Transition) (id : String) (rs : List ReservationRow)
    → find_reservation id rs ≡ none
    → any_moves t id rs ≡ false
unfolding find_reservation any_moves
any_moves-none t id [] h = refl
any_moves-none t id (r ∷ rs) h = ground (arith, any_moves-none t id rs)

find_none_of_same :
    (id j : String) (rs : List ReservationRow)
    → (j === id) ≡ true
    → find_reservation j rs ≡ none
    → find_reservation id rs ≡ none
find_none_of_same id j rs same h = ap (λ k. find_reservation k rs) (sym ((eq_iff j id).0 same)) ∙ h

pub any_moves-find :
    (t : Transition) (id : String) (rs : List ReservationRow) (r : ReservationRow)
    → DistinctRows rs
    → find_reservation id rs ≡ some r
    → any_moves t id rs ≡ allowed_from t r.status
unfolding find_reservation any_moves
any_moves-find t id [] r d e = cc
any_moves-find t id (x ∷ rs) r (new, d) e = elim (Bool-cases (x.check_id === id)) [
  | inl same ↦
      ground (arith, same, any_moves-none t id rs (find_none_of_same id x.check_id rs same new))
  | inr other ↦ ground (arith, other, any_moves-find t id rs r d)
]

-- A reservation after a transition, at the check it is asked for.
abbrev pub after_transition : Transition → String → ℕ → String → ReservationRow → ReservationRow
after_transition t id at j r =
    if j === id && allowed_from t r.status
    then record r { status = target t; updated_at = at }
    else r

move_row_found :
    (t : Transition) (id : String) (at : ℕ) (j : String) (r : ReservationRow)
    → (r.check_id === j) ≡ true
    → move_row t id at r ≡ after_transition t id at j r
unfolding move_row
move_row_found t id at j r e =
    ap
      (λ k.
        if k === id && allowed_from t r.status
        then record r { status = target t; updated_at = at }
        else r)
      ((eq_iff r.check_id j).0 e)

pub find_after_transition :
    (t : Transition) (id : String) (at : ℕ) (j : String) (rs : List ReservationRow)
    → find_reservation j (move_rows t id at rs)
      ≡ Option.map (after_transition t id at j) (find_reservation j rs)
find_after_transition t id at j rs = elim (Option-cases (find_reservation j rs)) [
  | inl missing ↦ find_reservation-move_rows t id at rs j ∙ rw missing
  | inr (r, found) ↦
      find_reservation-move_rows t id at rs j
      ∙ rw found (ap some (move_row_found t id at j r (find_reservation-check_id j rs r found)))
]

pub transition-eq :
    (parse_date : String → Option ℕ) (id : String) (t : Transition) (at : String) (time : ℕ)
    (db : Db)
    → parse_date at ≡ some time
    → transition parse_date id t at db
      ≡ ok (any_moves t id db.reservations, transition_rows t id time db)
unfolding transition iso_timestamp
transition-eq parse_date id t at time db clock = rw (clock, iso_timestamp)

settle_rows-none :
    (o : Outcome) (id : String) (at : ℕ) (rs : List ReservationRow)
    → find_reservation id rs ≡ none
    → settle_rows o id at rs ≡ rs
unfolding find_reservation settle_rows
settle_rows-none o id at [] h = refl
settle_rows-none o id at (r ∷ rs) h = ground (arith, settle_rows-none o id at rs)

-- The total after a settlement: the settled row's part is taken out, and put back as it is now.
pub total-settle_rows :
    (operator asset : String) (day : ℕ) (o : Outcome) (id : String) (at : ℕ)
    (rs : List ReservationRow) (r : ReservationRow)
    → DistinctRows rs
    → find_reservation id rs ≡ some r
    → total is_live operator asset day (settle_rows o id at rs) + share is_live operator asset day r
      ≡ total is_live operator asset day rs
        + share is_live operator asset day (record r { status = outcome_status o; updated_at = at })
unfolding find_reservation settle_rows total
total-settle_rows operator asset day o id at [] r d e = cc
total-settle_rows operator asset day o id at (x ∷ rs) r (new, d) e =
    elim (Bool-cases (x.check_id === id)) [
      | inl same ↦
          ground
            (arith, same, settle_rows-none o id at rs (find_none_of_same id x.check_id rs same new))
      | inr other ↦ ground (arith, other, total-settle_rows operator asset day o id at rs r d)
    ]
