-- ===== src/Auditor/Transitions.antt =====
-- apps/report-api/src/auditor/sqliteRepository.ts: `transitionReservation`, and the totals and tests
-- over the reservations that a policy check reads.
use zadper.Common.{
  ℕ, String, Bool, true, false, Option, List, [], ◌∷◌, ◌&&◌, ◌||◌, ◌===◌, if◌then◌else◌, Result, ok,
  ◌>>=◌,
}
use zadper.Auditor.Tables.{
  ReservationStatus, consumed, released, quarantined, is_active, is_held, is_consumed,
  ReservationRow, ReplayRow, Db, held_count, replay_found, sum_rows,
}
use zadper.Auditor.Prepare.{normalize_key, normalize_hash, iso_timestamp}
use zadper.Auditor.Reserve.{expire_reservations, Transaction, commit_or_rollback}

-- The statuses that a caller may ask for.
pub data Transition : Type 0 where
  to_consumed to_released to_quarantined : Transition

abbrev pub target : Transition → ReservationStatus
target to_consumed = consumed
target to_released = released
target to_quarantined = quarantined

-- `allowedFrom`.
abbrev pub allowed_from : Transition → ReservationStatus → Bool
allowed_from to_quarantined status = is_active status
allowed_from _ status = is_held status

-- `WHERE check_id = ? AND status IN (...)`.
abbrev pub moves : Transition → String → ReservationRow → Bool
moves t id r = r.check_id === id && allowed_from t r.status

unfoldable pub move_row : Transition → String → ℕ → ReservationRow → ReservationRow
move_row t id at r = if moves t id r then record r { status = target t; updated_at = at } else r

unfoldable pub move_rows : Transition → String → ℕ → List ReservationRow → List ReservationRow
move_rows t id at [] = []
move_rows t id at (r ∷ rs) = move_row t id at r ∷ move_rows t id at rs

-- Whether the update changes a row.
unfoldable pub any_moves : Transition → String → List ReservationRow → Bool
any_moves t id [] = false
any_moves t id (r ∷ rs) = moves t id r || any_moves t id rs

-- `DELETE FROM authorization_reservations WHERE check_id = ?`.
unfoldable pub delete_replays : String → List ReplayRow → List ReplayRow
delete_replays id [] = []
delete_replays id (p ∷ ps) =
    let rest = delete_replays id ps in if p.check_id === id then rest else p ∷ rest

abbrev pub is_release : Transition → Bool
is_release to_released = true
is_release _ = false

-- The statements of `transitionReservation`.
unfoldable pub transition_rows : Transition → String → ℕ → Db → Db
transition_rows t id at db = record db {
  reservations = move_rows t id at db.reservations;
  replays =
      if any_moves t id db.reservations && is_release t
      then delete_replays id db.replays
      else db.replays;
}

-- The body of `transitionReservation`.
unfoldable pub transition :
    (String → Option ℕ) → String → Transition → String → Db → Result (Bool × Db)
transition parse_date id t at db = do
  time ← iso_timestamp parse_date at "reservation.updatedAt"
  ok (any_moves t id db.reservations, transition_rows t id time db)

-- `transitionReservation`.
unfoldable pub transition_reservation :
    (String → Option ℕ) → String → Transition → String → Db → Transaction Bool
unfolding transition
transition_reservation parse_date id t at db =
    commit_or_rollback db (transition parse_date id t at db)

-- `reservedTotal`; the expiry is done also where the query then throws.
unfoldable pub reserved_total : String → String → ℕ → ℕ → Db → Transaction ℕ
reserved_total operator_public_key asset day now db =
    let db' = expire_reservations now db in
    (
      do
        operator ← normalize_key operator_public_key
        key ← normalize_key asset
        sum_rows is_held operator key day db'.reservations,
      db',
    )

-- `spentTotal`.
unfoldable pub spent_total : String → String → ℕ → Db → Result ℕ
spent_total operator_public_key asset day db = do
  operator ← normalize_key operator_public_key
  key ← normalize_key asset
  sum_rows is_consumed operator key day db.reservations

-- `activeReservationCount`.
unfoldable pub active_reservation_count : String → ℕ → Db → Transaction ℕ
active_reservation_count operator_public_key now db =
    let db' = expire_reservations now db in
    (
      do operator ← normalize_key operator_public_key; ok (held_count operator db'.reservations),
      db',
    )

-- `authorizationReplayUsed`.
unfoldable pub authorization_replay_used :
    String → String → String → String → ℕ → Db → Transaction Bool
authorization_replay_used operator_public_key asset payer_public_key nonce now db =
    let db' = expire_reservations now db in
    (
      do
        operator ← normalize_key operator_public_key
        asset_key ← normalize_key asset
        payer ← normalize_key payer_public_key
        hash ← normalize_hash nonce "authorization.nonce"
        ok (replay_found operator asset_key payer hash db'.reservations db'.replays),
      db',
    )
