-- ===== src/Auditor/Ledger/Backing.antt =====
-- How the statements on the tables keep every replay row backed by a live reservation.
use zadper.Common.{
  ℕ, ◌≡◌, refl, ◌∙◌, sym, ap, String, Bool, true, false, none, List, [], ◌∷◌, ◌&&◌, All, arith,
  eq_iff, Bool-cases, inl, inr, ◌===◌,
}
use zadper.Auditor.Tables.{
  ReservationRow, ReplayRow, find_reservation, is_due_id, delete_due, expire_row, expire_rows,
  joins_live, is_live, replay_found,
}
use zadper.Auditor.Reserve.{clashes}
use zadper.Auditor.Transitions.{
  Transition, to_released, to_consumed, to_quarantined, is_release, move_row, move_rows, any_moves,
  delete_replays,
}
use zadper.Auditor.Settle.{Outcome, as_consumed, as_quarantined, settle_rows}

-- Every replay row stands for a reservation that is active, quarantined or consumed.
abbrev pub Backed : List ReservationRow → List ReplayRow → Type 0
Backed rs ps = All (λ p. joins_live rs p.check_id ≡ true) ps

pub joins_live-expire_rows :
    (now : ℕ) (rs : List ReservationRow) (id : String)
    → is_due_id now rs id ≡ false
    → joins_live rs id ≡ true
    → joins_live (expire_rows now rs) id ≡ true
unfolding joins_live expire_row expire_rows is_due_id
joins_live-expire_rows now [] id h e = e
joins_live-expire_rows now (r ∷ rs) id h e = ground (arith, joins_live-expire_rows now rs id)

pub delete_due-Backed :
    (now : ℕ) (rs : List ReservationRow) (ps : List ReplayRow)
    → Backed rs ps
    → Backed (expire_rows now rs) (delete_due now rs ps)
unfolding delete_due
delete_due-Backed now rs [] b = tt
delete_due-Backed now rs (p ∷ ps) (e, b) =
    ground (arith, delete_due-Backed now rs ps b, joins_live-expire_rows now rs p.check_id)

abbrev live_for : String → ReservationRow → Bool
live_for j r = r.check_id === j && is_live r.status

-- A move that is no release keeps a live row live; a release touches only the rows of its check.
live_for-move_row :
    (t : Transition) (id : String) (at : ℕ) (r : ReservationRow) (j : String)
    → (is_release t ≡ true → (j === id) ≡ false)
    → live_for j r ≡ true
    → live_for j (move_row t id at r) ≡ true
unfolding move_row
live_for-move_row to_released id at r j h e = elim (Bool-cases (r.check_id === id)) [
  | inl same ↦
      let away = h refl in
      cc (
        sym away
        ∙ (eq_iff j id).1
            (sym ((eq_iff r.check_id j).0 (ground arith)) ∙ (eq_iff r.check_id id).0 same))
  | inr other ↦ rw other e
]
live_for-move_row to_consumed id at r j h e = ground arith
live_for-move_row to_quarantined id at r j h e = ground arith

pub joins_live-move_rows :
    (t : Transition) (id : String) (at : ℕ) (rs : List ReservationRow) (j : String)
    → (is_release t ≡ true → (j === id) ≡ false)
    → joins_live rs j ≡ true
    → joins_live (move_rows t id at rs) j ≡ true
unfolding joins_live move_rows
joins_live-move_rows t id at [] j h e = e
joins_live-move_rows t id at (r ∷ rs) j h e =
    ground (arith, live_for-move_row t id at r j h, joins_live-move_rows t id at rs j h)

pub joins_live-settle_rows :
    (o : Outcome) (id : String) (at : ℕ) (rs : List ReservationRow) (j : String)
    → joins_live rs j ≡ true
    → joins_live (settle_rows o id at rs) j ≡ true
unfolding joins_live settle_rows
joins_live-settle_rows o id at [] j e = e
joins_live-settle_rows as_consumed id at (r ∷ rs) j e =
    ground (arith, joins_live-settle_rows as_consumed id at rs j)
joins_live-settle_rows as_quarantined id at (r ∷ rs) j e =
    ground (arith, joins_live-settle_rows as_quarantined id at rs j)

-- A change of the reservations that keeps every backed row backed.
pub Backed-map :
    (rs rs' : List ReservationRow) (ps : List ReplayRow)
    → ((j : String) → joins_live rs j ≡ true → joins_live rs' j ≡ true)
    → Backed rs ps
    → Backed rs' ps
Backed-map rs rs' [] keep b = tt
Backed-map rs rs' (p ∷ ps) keep (e, b) = (keep p.check_id e, Backed-map rs rs' ps keep b)

-- A release deletes the replay rows of its check.
pub delete_replays-Backed :
    (id : String) (at : ℕ) (rs : List ReservationRow) (ps : List ReplayRow)
    → Backed rs ps
    → Backed (move_rows to_released id at rs) (delete_replays id ps)
unfolding delete_replays
delete_replays-Backed id at rs [] b = tt
delete_replays-Backed id at rs (p ∷ ps) (e, b) = elim (Bool-cases (p.check_id === id)) [
  | inl gone ↦ rw (gone, delete_replays) (delete_replays-Backed id at rs ps b)
  | inr kept ↦
      rw (kept, delete_replays)
        (
          joins_live-move_rows to_released id at rs p.check_id (λ _. kept) e,
          delete_replays-Backed id at rs ps b,
        )
]

-- An update that changes no row leaves the rows as they are.
pub move_rows_none :
    (t : Transition) (id : String) (at : ℕ) (rs : List ReservationRow)
    → any_moves t id rs ≡ false
    → move_rows t id at rs ≡ rs
unfolding move_row move_rows any_moves
move_rows_none t id at [] h = refl
move_rows_none t id at (r ∷ rs) h = ground (arith, move_rows_none t id at rs)

-- No reservation of a check means no live one.
pub joins_live-none :
    (rs : List ReservationRow) (id : String)
    → find_reservation id rs ≡ none
    → joins_live rs id ≡ false
unfolding joins_live find_reservation
joins_live-none [] id h = refl
joins_live-none (r ∷ rs) id h = ground (arith, joins_live-none rs id)

-- Where every replay row is backed, the row of a new check clashes with none but one of the same
-- authorization, which the query for replays finds.
pub clashes-new :
    (new : ReplayRow) (rs : List ReservationRow) (ps : List ReplayRow)
    → Backed rs ps
    → find_reservation new.check_id rs ≡ none
    → replay_found new.operator_key new.asset new.payer_key new.nonce rs ps ≡ false
    → clashes new ps ≡ false
unfolding clashes replay_found
clashes-new new rs [] b h f = refl
clashes-new new rs (p ∷ ps) (e, b) h f = elim (Bool-cases (p.check_id === new.check_id)) [
  | inl same ↦ cc (
      sym e
      ∙ ap (joins_live rs) ((eq_iff p.check_id new.check_id).0 same)
      ∙ joins_live-none rs new.check_id h)
  | inr other ↦ ground (arith, clashes-new new rs ps b h)
]
