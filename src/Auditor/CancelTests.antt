-- ===== src/Auditor/CancelTests.antt =====
-- The cancellation of the check that holds the reservation in the store of Tests.antt, and the totals
-- of that store.
use zadper.Common.{String, ◌≡◌, refl, false, some, any, ◌===◌, ◌+◌, ok}
use mathlib.Core.Option
use zadper.Common.Text.{lower}
use zadper.Common.Decimal.{decimal}
use zadper.Auditor.Tables.{active, Db, ReservationRow, find_reservation, find_check}
use zadper.Auditor.Tables.{is_live, sum_rows, counts_for, add_amount, decimal_amount}
use zadper.Auditor.Transitions.{spent_total, reserved_total}
use zadper.Auditor.Ledger.Committed.{totals-committed}
use zadper.Auditor.Prepare.{normalize_key}
use zadper.Auditor.Transitions.{to_released}
use zadper.Auditor.Cancel.{cancel_ok, cancel_check}
use zadper.Auditor.Ledger.Lookups.{after_transition}
use zadper.Auditor.Ledger.Cancelling.{IsFaithful, cancelled_row, cancel_check-releases}
use zadper.Auditor.Tests.{opened, clock, row, held, held-IsWellFormed}

abbrev active_row : ReservationRow
active_row = record {
  check_id = "c1";
  operator_key = "0xop";
  asset = "0xaa";
  amount = "40";
  utc_day = 0;
  status = active;
  expires_at = 2000;
  created_at = 1000;
  updated_at = 1000;
}

row-IsFaithful : IsFaithful clock (row "c1")
unfolding normalize_key lower decimal
row-IsFaithful = record { operator = refl; created = refl }

time_read : clock "1500" ≡ some 1500
unfolding decimal
time_read = refl

row_found : find_check "c1" held.checks ≡ some (row "c1")
unfolding opened
row_found = refl

reservation_found : find_reservation "c1" held.reservations ≡ some active_row
unfolding opened
reservation_found = refl

cancel_check-releases_example :
    (db' : Db) × (cancel_check clock "1500" "c1" held
      ≡ (cancel_ok (cancelled_row (row "c1") "1500" 1500).check, db'))
    × (find_check "c1" db'.checks ≡ some (cancelled_row (row "c1") "1500" 1500))
    × ((j : String)
        → find_reservation j db'.reservations
          ≡ Option.map
              (after_transition to_released "c1" 1500 j)
              (find_reservation j held.reservations))
    × (any (λ p. p.check_id === "c1") db'.replays ≡ false)
cancel_check-releases_example =
    cancel_check-releases clock "1500" 1500 held (row "c1") active_row held-IsWellFormed time_read
      row-IsFaithful row_found refl reservation_found refl

spent_read : spent_total "0xOP" "0xAA" 0 held ≡ ok 0
unfolding opened spent_total normalize_key counts_for
spent_read = refl

reserved_read : reserved_total "0xOP" "0xAA" 0 1500 held ≡ (ok 40, held)
unfolding opened reserved_total normalize_key counts_for add_amount decimal_amount
reserved_read = refl

totals-committed_example :
    sum_rows is_live (lower "0xOP") (lower "0xAA") 0 held.reservations ≡ ok (0 + 40)
totals-committed_example =
    totals-committed "0xOP" "0xAA" 0 1500 0 40 held held held-IsWellFormed spent_read reserved_read
