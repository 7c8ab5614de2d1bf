-- ===== src/Auditor/SettleTests.antt =====
-- Refusals and settlements on the store of Tests.antt, and the theorems at these runs.
use zadper.Common.{◌≡◌, ◌+◌, ◌⊎◌, refl, some, ok, throw, Thrown, true, false, [], ◌∷◌}
use mathlib.Core.Option
use zadper.Auditor.Tables.{
  expired, consumed, is_live, ReservationRow, SettlementRow, Db, find_reservation,
}
use zadper.Auditor.Reserve.{Refusal, expire_reservations}
use zadper.Auditor.Transitions.{to_released, transition_reservation}
use zadper.Auditor.Settle.{as_consumed, applied, apply_settlement, SettlementApplyResult}
use zadper.Auditor.Ledger.{IsWellFormed}
use zadper.Auditor.Ledger.Histories.{run-IsWellFormed, reads}
use zadper.Auditor.Ledger.Reserving.{reserve_within_transaction-refused}
use zadper.Auditor.Ledger.Settling.{Settled}
use zadper.Auditor.Ledger.Applying.{NewRow, apply_settlement-Settled}
use zadper.Auditor.Ledger.Moving.{IsMoved, CannotMove, transition_reservation_lem}
use zadper.Auditor.Ledger.Totals.{total, amount_of}
use zadper.Auditor.Ledger.Late.{IsLate, apply_settlement_late}
use zadper.Auditor.Tests.{
  opened, clock, clock_reads, request, prepared, held, held-IsWellFormed, transfer, paid,
}

-- Another check with the authorization of the reservation.
reserve_within_transaction-refused_example : held ≡ expire_reservations prepared.now held
unfolding opened
reserve_within_transaction-refused_example =
    reserve_within_transaction-refused (request "c2") prepared held held
      Refusal.authorization_replay held-IsWellFormed refl

abbrev late : Db
late = expire_reservations 2050 held

abbrev late_row : ReservationRow
late_row = record {
  check_id = "c1";
  operator_key = "0xop";
  asset = "0xaa";
  amount = "40";
  utc_day = 0;
  status = expired;
  expires_at = 2000;
  created_at = 1000;
  updated_at = 2050;
}

late-IsWellFormed : IsWellFormed late
unfolding opened
late-IsWellFormed = run-IsWellFormed clock held (reads 2050 ∷ []) held-IsWellFormed

late_found : find_reservation "c1" late.reservations ≡ some late_row
unfolding opened
late_found = refl

late-IsLate : IsLate clock paid transfer late late_row
unfolding opened
late-IsLate = record {
  same_check = refl;
  hash = _;
  is_hash = refl;
  at = _;
  is_at = refl;
  proof_hash = _;
  is_proof = refl;
  row = _;
  stored = refl;
  same_operator = refl;
  same_creation = refl;
  same_request = refl;
  waits = refl;
  updated = _;
  is_updated = refl;
  first = refl;
  unused = refl;
  found = refl;
  late = refl;
}

apply_settlement_late_example :
    (db' : Db) × (apply_settlement clock paid transfer (some as_consumed) late
      ≡ (ok (applied true transfer), db'))
    × (total is_live "0xop" "0xaa" 0 db'.reservations
        ≡ total is_live "0xop" "0xaa" 0 late.reservations + amount_of late_row)
apply_settlement_late_example =
    apply_settlement_late clock paid transfer as_consumed late late_row late-IsLate
      late-IsWellFormed

-- A settlement in time is applied: the reservation is consumed, and the check is stored.
settled_test :
    ((apply_settlement clock paid transfer (some as_consumed) held).0 ≡ ok (applied true transfer))
    × (Option.map
          (λ r. r.status)
          (find_reservation "c1"
            (apply_settlement clock paid transfer (some as_consumed) held).1.reservations)
        ≡ some consumed)
unfolding opened
settled_test = (refl, refl)

apply_settlement-Settled_example :
    ((exception : Thrown) × (apply_settlement clock paid transfer (some as_consumed) held
        ≡ (throw exception, held)))
    ⊎ ((result : SettlementApplyResult) × (db' : Db) × (new : SettlementRow) × (apply_settlement
            clock paid transfer
            (some as_consumed)
            held
          ≡ (ok result, db'))
        × NewRow clock paid transfer (some as_consumed) new
        × Settled (some as_consumed) paid new result held db')
apply_settlement-Settled_example =
    apply_settlement-Settled clock paid transfer (some as_consumed) held

transition_reservation_lem_example :
    ((db' : Db) × (transition_reservation clock "c1" to_released "1500" held ≡ (ok true, db'))
      × IsMoved to_released "c1" 1500 held db')
    ⊎ ((transition_reservation clock "c1" to_released "1500" held ≡ (ok false, held))
        × CannotMove to_released "c1" held)
transition_reservation_lem_example =
    transition_reservation_lem clock "c1" to_released "1500" 1500 held held-IsWellFormed clock_reads
