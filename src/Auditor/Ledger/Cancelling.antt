-- ===== src/Auditor/Ledger/Cancelling.antt =====
-- What the cancellation of a check does.
use zadper.Common.{
  ℕ, ◌≡◌, refl, ◌∙◌, sym, ap, subst, String, true, false, Option, none, some, List, [], ◌∷◌, arith,
  eq_iff, ok, Result-cases, Bool-cases, inl, inr, ◌===◌, ◌==◌, ==_iff, any,
}
use mathlib.Core.Option
use mathlib.Core.Option.{some-injective}
use zadper.Auditor.Tables.{
  cancelled, is_held, ReservationRow, ReplayRow, StoredPaymentCheck, CheckRow, Db, find_reservation,
  find_check,
}
use zadper.Auditor.Prepare.{normalize_key, iso_timestamp}
use zadper.Auditor.Transitions.{
  to_released, transition_rows, transition_reservation, delete_replays,
}
use zadper.Auditor.Settle.{same_option}
use zadper.Auditor.Cancel.{
  is_same_check, replace_check, has_same_check, updated_row, update_stored_check, cancel_ok,
  is_reserved, store_cancelled, release_and_store, cancel_check,
}
use zadper.Auditor.Ledger.Lookups.{after_transition, any_moves-find, find_after_transition}
use zadper.Auditor.Ledger.{IsWellFormed}

-- `updateCheck` leaves the reservations and the replay rows as they are.
pub update_stored_check-same :
    (parse_date : String → Option ℕ) (check : StoredPaymentCheck) (db : Db)
    → ((update_stored_check parse_date check db).1.reservations ≡ db.reservations)
      × ((update_stored_check parse_date check db).1.replays ≡ db.replays)
unfolding update_stored_check
update_stored_check-same parse_date check db = elim (Result-cases (updated_row parse_date check)) [
  | inl (new, made) ↦ (simp (update_stored_check, made), simp (update_stored_check, made))
  | inr (exception, thrown) ↦
      (simp (update_stored_check, thrown), simp (update_stored_check, thrown))
]

-- The columns of the row are those of the check that it holds.
pub record IsFaithful (parse_date : String → Option ℕ) (row : CheckRow) : Type 0 where
  pub operator : normalize_key row.check.operator_public_key ≡ ok row.operator_key
  pub created : parse_date row.check.created_at ≡ some row.created_at

abbrev pub cancelled_row : CheckRow → String → ℕ → CheckRow
cancelled_row row now time = record row {
  updated_at = time;
  check = record row.check { status = cancelled; updated_at = now };
}

same_option_refl : (o : Option String) → same_option o o ≡ true
same_option_refl none = refl
same_option_refl (some s) = (eq_iff s s).1 refl

==-refl : (n : ℕ) → (n == n) ≡ true
==-refl n = (==_iff n n).1 refl

===-refl : (s : String) → (s === s) ≡ true
===-refl s = (eq_iff s s).1 refl

cancelled_same :
    (row : CheckRow) (now : String) (time : ℕ)
    → is_same_check (cancelled_row row now time) row ≡ true
cancelled_same row now time = ground (
  arith,
  ===-refl row.check.id,
  ===-refl row.operator_key,
  ==-refl row.created_at,
  same_option_refl row.check.idempotency_key,
)

other_check :
    (new c : CheckRow) (id : String)
    → (new.check.id === id) ≡ true
    → (c.check.id === id) ≡ false
    → is_same_check new c ≡ false
other_check new c id n h =
    let differs : (c.check.id === new.check.id) ≡ false =
      ap (λ x. c.check.id === x) ((eq_iff new.check.id id).0 n) ∙ h in
    ground (arith, differs)

replaced_found :
    (new row : CheckRow) (id : String) (cs : List CheckRow)
    → (new.check.id === id) ≡ true
    → is_same_check new row ≡ true
    → find_check id cs ≡ some row
    → (find_check id (replace_check new cs) ≡ some new) × (has_same_check new cs ≡ true)
unfolding find_check replace_check has_same_check
replaced_found new row id [] n s e = cc
replaced_found new row id (c ∷ cs) n s e = elim (Bool-cases (c.check.id === id)) [
  | inl here ↦
      let matched : is_same_check new c ≡ true =
        subst (λ x. is_same_check new x ≡ true)
          (sym (some-injective _ _ (rw (here, find_check) at e))) s in
      (rw (matched, n), rw matched)
  | inr further ↦
      let other = other_check new c id n further in
      let (found, has) = replaced_found new row id cs n s (rw (further, find_check) at e) in
      (rw (other, further) found, rw other has)
]

no_replay :
    (id : String) (ps : List ReplayRow)
    → any (λ p. p.check_id === id) (delete_replays id ps) ≡ false
unfolding delete_replays
no_replay id [] = refl
no_replay id (p ∷ ps) = ground (arith, no_replay id ps)

module _ (parse_date : String → Option ℕ) (now : String) (time : ℕ) (row : CheckRow)
    (f : IsFaithful parse_date row) (clock : parse_date now ≡ some time) where
  -- The row that is written for the cancelled check.
  row_written :
      updated_row parse_date (cancelled_row row now time).check ≡ ok (cancelled_row row now time)
  unfolding updated_row iso_timestamp
  row_written = simp (clock, iso_timestamp, f.operator, f.created)

  stored :
      (db : Db)
      → find_check row.check.id db.checks ≡ some row
      → store_cancelled parse_date now row.check db ≡ (
        cancel_ok (cancelled_row row now time).check,
        record db { checks = replace_check (cancelled_row row now time) db.checks },
      )
  unfolding store_cancelled update_stored_check
  stored db found =
      let (_, has) =
        replaced_found (cancelled_row row now time) row row.check.id db.checks
          (===-refl row.check.id) (cancelled_same row now time) found in
      simp (store_cancelled, update_stored_check, row_written, has)

  reservation_released :
      (db : Db) (r : ReservationRow)
      → IsWellFormed db
      → find_reservation row.check.id db.reservations ≡ some r
      → is_held r.status ≡ true
      → transition_reservation parse_date row.check.id to_released now db
        ≡ (ok true, transition_rows to_released row.check.id time db)
  unfolding transition_reservation iso_timestamp
  reservation_released db r w reservation held = simp (
    clock,
    iso_timestamp,
    any_moves-find to_released row.check.id db.reservations r w.distinct reservation,
    held,
  )

-- Cancelling a reserved check whose reservation is active or quarantined, in a well-formed store that
-- has faithful columns for the check, at a time that can be read: the answer is the cancelled check,
-- which is stored; its reservation is released, every other reservation stays as it is, and no replay
-- row of the check is left.
pub cancel_check-releases :
    (parse_date : String → Option ℕ) (now : String) (time : ℕ) (db : Db) (row : CheckRow)
    (r : ReservationRow)
    → IsWellFormed db
    → parse_date now ≡ some time
    → IsFaithful parse_date row
    → find_check row.check.id db.checks ≡ some row
    → is_reserved row.check.status ≡ true
    → find_reservation row.check.id db.reservations ≡ some r
    → is_held r.status ≡ true
    → (db' : Db) × (cancel_check parse_date now row.check.id db
        ≡ (cancel_ok (cancelled_row row now time).check, db'))
      × (find_check row.check.id db'.checks ≡ some (cancelled_row row now time))
      × ((j : String)
          → find_reservation j db'.reservations
            ≡ Option.map
                (after_transition to_released row.check.id time j)
                (find_reservation j db.reservations))
      × (any (λ p. p.check_id === row.check.id) db'.replays ≡ false)
unfolding cancel_check release_and_store transition_rows
cancel_check-releases parse_date now time db row r w clock f found status reservation held =
    let id : String = row.check.id in
    let new : CheckRow = cancelled_row row now time in
    let released : Db = transition_rows to_released id time db in
    let (checked, _) =
      replaced_found new row id db.checks (===-refl id) (cancelled_same row now time) found in
    (
      record released { checks = replace_check new db.checks },
      simp (
        cancel_check,
        found,
        status,
        release_and_store,
        reservation_released parse_date now time row f clock db r w reservation held,
        stored parse_date now time row f clock released found,
      ),
      checked,
      λ j. find_after_transition to_released id time j db.reservations,
      simp (any_moves-find to_released id db.reservations r w.distinct reservation, held)
          (no_replay id db.replays),
    )
