-- ===== src/Auditor/Cancel.antt =====
-- apps/report-api/src/auditor/sqliteRepository.ts: `updateCheck`, and service.ts: `cancelCheck`, which
-- releases the reservation of a check and then stores the check as cancelled, each in its own
-- transaction.
use zadper.Common.{
  ℕ, String, Bool, true, false, Option, none, some, List, [], ◌∷◌, ◌&&◌, ◌||◌, if◌then◌else◌,
  Result, ok, throw, Thrown, ◌>>=◌,
}
use zadper.Auditor.Tables.{
  CheckStatus, cancelled, reserved, StoredPaymentCheck, CheckRow, Db, find_check,
}
use zadper.Auditor.Prepare.{normalize_key, iso_timestamp}
use zadper.Auditor.Reserve.{Transaction}
use zadper.Auditor.Transitions.{to_released, transition_reservation}
use zadper.Auditor.Settle.{is_check, same_option}

-- `WHERE id = ? AND operator_key = ? AND created_at = ? AND ((idempotency_key IS NULL AND ...) ...)`.
abbrev pub is_same_check : CheckRow → CheckRow → Bool
is_same_check new c =
    is_check new c && same_option c.check.idempotency_key new.check.idempotency_key

unfoldable pub replace_check : CheckRow → List CheckRow → List CheckRow
replace_check new [] = []
replace_check new (c ∷ cs) = (if is_same_check new c then new else c) ∷ replace_check new cs

unfoldable pub has_same_check : CheckRow → List CheckRow → Bool
has_same_check new [] = false
has_same_check new (c ∷ cs) = is_same_check new c || has_same_check new cs

-- The row that `updateCheck` writes.
unfoldable pub updated_row : (String → Option ℕ) → StoredPaymentCheck → Result CheckRow
updated_row parse_date check = do
  updated_at ← iso_timestamp parse_date check.updated_at "check.updatedAt"
  operator_key ← normalize_key check.operator_public_key
  created_at ← iso_timestamp parse_date check.created_at "check.createdAt"
  ok (record {
    operator_key = operator_key;
    created_at = created_at;
    updated_at = updated_at;
    check = check;
  })

-- `updateCheck`.
unfoldable pub update_stored_check :
    (String → Option ℕ) → StoredPaymentCheck → Db → Transaction Bool
unfolding updated_row replace_check has_same_check
update_stored_check parse_date check db = elim (updated_row parse_date check) [
  | throw exception ↦ (throw exception, db)
  | ok new ↦ (ok (has_same_check new db.checks), record db { checks = replace_check new db.checks })
]

-- The `AuthError`s by their codes, with a name of its own for the second check_not_cancellable, which is
-- about the reservation; or an exception of the store.
pub data CancelError : Type 0 where
  check_not_found check_not_cancellable reservation_not_active check_persistence_failed :
      CancelError
  store_failed : Thrown → CancelError

pub data CancelResult : Type 0 where
  cancel_ok : StoredPaymentCheck → CancelResult
  cancel_failed : CancelError → CancelResult

abbrev pub is_reserved : CheckStatus → Bool
is_reserved reserved = true
is_reserved _ = false

module _ (parse_date : String → Option ℕ) (now : String) where
  -- From the released reservation on.
  unfoldable pub store_cancelled : StoredPaymentCheck → Db → CancelResult × Db
  unfolding update_stored_check
  store_cancelled check db =
      let new : StoredPaymentCheck = record check { status = cancelled; updated_at = now } in
      let updated = update_stored_check parse_date new db in
      elim updated.0 [
        | throw exception ↦ (cancel_failed (store_failed exception), updated.1)
        | ok stored ↦
            if stored
            then (cancel_ok new, updated.1)
            else (cancel_failed check_persistence_failed, updated.1)
      ]

  -- A check that is reserved.
  unfoldable pub release_and_store : StoredPaymentCheck → Db → CancelResult × Db
  unfolding store_cancelled
  release_and_store check db =
      let released = transition_reservation parse_date check.id to_released now db in
      elim released.0 [
        | throw exception ↦ (cancel_failed (store_failed exception), released.1)
        | ok changed ↦
            if changed
            then store_cancelled check released.1
            else (cancel_failed reservation_not_active, released.1)
      ]

  unfoldable pub cancel_check : String → Db → CancelResult × Db
  unfolding release_and_store
  cancel_check id db = elim (find_check id db.checks) [
    | none ↦ (cancel_failed check_not_found, db)
    | some row ↦
        if is_reserved row.check.status
        then release_and_store row.check db
        else (cancel_failed check_not_cancellable, db)
  ]
