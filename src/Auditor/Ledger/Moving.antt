-- ===== src/Auditor/Ledger/Moving.antt =====
-- What `transitionReservation` does to the store.
use zadper.Common.{
  ℕ, ◌≡◌, ◌≢◌, ◌⊎◌, refl, ◌∙◌, ap, String, Bool, true, false, ◌&&◌, not, Option, none, some, List,
  [], ◌∷◌, arith, eq_iff, keep, if◌then◌else◌, ok, Bool-cases, Option-cases, inl, inr, ◌===◌,
}
use mathlib.Core.Option
use zadper.Auditor.Tables.{
  ReservationStatus, active, consumed, released, quarantined, expired, ReservationRow, ReplayRow,
  Db, find_reservation,
}
use zadper.Auditor.Reserve.{commit_or_rollback}
use zadper.Auditor.Transitions.{
  Transition, to_consumed, to_released, to_quarantined, target, allowed_from, is_release, move_row,
  move_rows, any_moves, delete_replays, transition_rows, transition_reservation,
}
use zadper.Auditor.Ledger.Lookups.{
  after_transition, find_after_transition, any_moves-none, any_moves-find, transition-eq,
}
use zadper.Auditor.Ledger.{IsWellFormed}

-- The statuses of a reservation before and after a transition.
pub data CanMove : Transition → ReservationStatus → ReservationStatus → Type 0 where
  spends_active : CanMove to_consumed active consumed
  spends_quarantined : CanMove to_consumed quarantined consumed
  releases_active : CanMove to_released active released
  releases_quarantined : CanMove to_released quarantined released
  quarantines_active : CanMove to_quarantined active quarantined

-- The reservation of the check alone is changed, from one status to the next; a release, and nothing
-- else, deletes the replay rows of the check and no other; the other tables are as they were.
pub record IsMoved (t : Transition) (id : String) (time : ℕ) (db db' : Db) : Type 0 where
  pub row : ReservationRow
  pub next : ReservationStatus
  pub found : find_reservation id db.reservations ≡ some row
  pub can_move : CanMove t row.status next
  pub moved :
      find_reservation id db'.reservations ≡ some (record row { status = next; updated_at = time })
  pub others :
      (j : String)
      → j ≢ id
      → find_reservation j db'.reservations ≡ find_reservation j db.reservations
  pub freed :
      t ≡ to_released → db'.replays ≡ keep (λ (p : ReplayRow). not (p.check_id === id)) db.replays
  pub held : t ≢ to_released → db'.replays ≡ db.replays
  pub rest : db' ≡ record db { reservations = db'.reservations; replays = db'.replays }

-- The check has no reservation, or one whose status has no next one.
abbrev pub CannotMove : Transition → String → Db → Type 0
CannotMove t id db =
    (row : ReservationRow) (next : ReservationStatus)
    → find_reservation id db.reservations ≡ some row
    → CanMove t row.status next
    → ⊥

allowed_from-CanMove :
    (t : Transition) (s : ReservationStatus) → allowed_from t s ≡ true → CanMove t s (target t)
allowed_from-CanMove to_consumed active e = spends_active
allowed_from-CanMove to_consumed quarantined e = spends_quarantined
allowed_from-CanMove to_consumed consumed e = cc
allowed_from-CanMove to_consumed released e = cc
allowed_from-CanMove to_consumed expired e = cc
allowed_from-CanMove to_released active e = releases_active
allowed_from-CanMove to_released quarantined e = releases_quarantined
allowed_from-CanMove to_released consumed e = cc
allowed_from-CanMove to_released released e = cc
allowed_from-CanMove to_released expired e = cc
allowed_from-CanMove to_quarantined active e = quarantines_active
allowed_from-CanMove to_quarantined quarantined e = cc
allowed_from-CanMove to_quarantined consumed e = cc
allowed_from-CanMove to_quarantined released e = cc
allowed_from-CanMove to_quarantined expired e = cc

CanMove-allowed_from :
    (t : Transition) (s next : ReservationStatus) → CanMove t s next → allowed_from t s ≡ true
CanMove-allowed_from _ _ _ spends_active = refl
CanMove-allowed_from _ _ _ spends_quarantined = refl
CanMove-allowed_from _ _ _ releases_active = refl
CanMove-allowed_from _ _ _ releases_quarantined = refl
CanMove-allowed_from _ _ _ quarantines_active = refl

delete_replays-keep :
    (id : String) (ps : List ReplayRow)
    → delete_replays id ps ≡ keep (λ (p : ReplayRow). not (p.check_id === id)) ps
unfolding delete_replays
delete_replays-keep id [] = refl
delete_replays-keep id (p ∷ ps) = ground (arith, delete_replays-keep id ps)

move_rows-still :
    (t : Transition) (id : String) (at : ℕ) (rs : List ReservationRow)
    → any_moves t id rs ≡ false
    → move_rows t id at rs ≡ rs
unfolding any_moves move_rows move_row
move_rows-still t id at [] e = refl
move_rows-still t id at (r ∷ rs) e = ground (arith, move_rows-still t id at rs)

transition_rows-still :
    (t : Transition) (id : String) (at : ℕ) (db : Db)
    → any_moves t id db.reservations ≡ false
    → transition_rows t id at db ≡ db
unfolding transition_rows
transition_rows-still t id at db e = rw (move_rows-still t id at db.reservations e, e) refl

after_transition-other :
    (t : Transition) (id : String) (at : ℕ) (j : String)
    → j ≢ id
    → (o : Option ReservationRow) → Option.map (after_transition t id at j) o ≡ o
after_transition-other t id at j other none = refl
after_transition-other t id at j other (some r) = elim (Bool-cases (j === id)) [
  | inl same ↦ absurd (other ((eq_iff j id).0 same))
  | inr differs ↦ rw differs refl
]

transition_rows-IsMoved :
    (t : Transition) (id : String) (at : ℕ) (db : Db) (r : ReservationRow)
    → find_reservation id db.reservations ≡ some r
    → allowed_from t r.status ≡ true
    → any_moves t id db.reservations ≡ true
    → IsMoved t id at db (transition_rows t id at db)
unfolding transition_rows
transition_rows-IsMoved t id at db r found allowed moving = record {
  row = r;
  next = target t;
  found = found;
  can_move = allowed_from-CanMove t r.status allowed;
  moved =
      find_after_transition t id at id db.reservations
      ∙ rw (found, (eq_iff id id).1 refl, allowed) refl;
  others = λ j other.
      find_after_transition t id at j db.reservations
      ∙ after_transition-other t id at j other (find_reservation j db.reservations);
  freed = λ release. rw (moving, release) (delete_replays-keep id db.replays);
  held =
      elim t
        as (λ u.
          u ≢ to_released
          → (if any_moves t id db.reservations && is_release u
              then delete_replays id db.replays
              else db.replays)
            ≡ db.replays) [
              | to_consumed ↦ λ h. rw moving refl
              | to_released ↦ λ h. absurd (h refl)
              | to_quarantined ↦ λ h. rw moving refl
            ];
  rest = refl;
}

module _ (parse_date : String → Option ℕ) (id : String) (t : Transition) (at : String) (time : ℕ)
    (db : Db) where
  moving_answer :
      parse_date at ≡ some time
      → (answer : Bool) → any_moves t id db.reservations ≡ answer
      → transition_reservation parse_date id t at db ≡ (ok answer, transition_rows t id time db)
  unfolding transition_reservation
  moving_answer clock answer e =
      ap (commit_or_rollback db) (transition-eq parse_date id t at time db clock)
      ∙ ap (λ b. (ok b, transition_rows t id time db)) e

  still_answer :
      parse_date at ≡ some time
      → any_moves t id db.reservations ≡ false
      → transition_reservation parse_date id t at db ≡ (ok false, db)
  still_answer clock e =
      moving_answer clock false e ∙ ap (λ d. (ok false, d)) (transition_rows-still t id time db e)

  -- In a well-formed store, at a time that is read, a transition of a check either answers true, and
  -- then the reservation of the check has one of the statuses from which it may be made, it alone
  -- gets the next one and the time, and a release, and nothing else, deletes the replay rows of the
  -- check and no others; or it answers false and the store stays as it is, and then the check has no
  -- reservation, or one whose status does not allow the transition.
  pub transition_reservation_lem :
      IsWellFormed db
      → parse_date at ≡ some time
      → ((db' : Db) × (transition_reservation parse_date id t at db ≡ (ok true, db'))
          × IsMoved t id time db db')
        ⊎ ((transition_reservation parse_date id t at db ≡ (ok false, db)) × CannotMove t id db)
  transition_reservation_lem w clock = elim (Option-cases (find_reservation id db.reservations)) [
    | inl missing ↦ inr (
      still_answer clock (any_moves-none t id db.reservations missing),
      λ row next found move. cc,
    )
    | inr (r, found) ↦
        let moving = any_moves-find t id db.reservations r w.distinct found in
        elim (Bool-cases (allowed_from t r.status)) [
          | inl allowed ↦ inl (
            transition_rows t id time db,
            moving_answer clock true (moving ∙ allowed),
            transition_rows-IsMoved t id time db r found allowed (moving ∙ allowed),
          )
          | inr barred ↦ inr (
            still_answer clock (moving ∙ barred),
            λ row next held move.
                let allowed = CanMove-allowed_from t row.status next move in
                let same : row ≡ r = cc in cc,
          )
        ]
  ]
