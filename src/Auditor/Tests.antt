-- ===== src/Auditor/Tests.antt =====
-- A store with two checks of one operator, runs of its methods, and the theorems at these runs.
use zadper.Common.{
  ℕ, ◌≡◌, ◌≤◌, refl, ◌↔◌, String, true, false, Option, none, some, List, [], ◌∷◌, arith, ok, subst,
  ◌===◌,
}
use mathlib.Core.Option
use mathlib.Core.Option.{some-injective}
use zadper.Common.Text.{lower, is_hex_of}
use zadper.Common.Decimal.{decimal}
use zadper.Payment.Types.{pay, PaymentTerms, testnet, AuthorizationIntent, SettlementProof, match}
use zadper.Payment.Types
use zadper.Json.{null}
use zadper.Auditor.Tables.{
  consumed, CheckStatus, StoredPaymentCheck, CheckRow, Db, find_reservation, find_check, delete_due,
  is_due, expire_row, expire_rows, held_count, replay_found, sum_rows,
}
use zadper.Auditor.Prepare.{ReservationInput, PreparedReservation, prepare_reservation}
use zadper.Auditor.Reserve.{
  ReservationResult, accepted, refused, Refusal, expire_reservations, matches_check, insert_rows,
  with_reservation, reserve_within_transaction, reserve_for, reserve_matching, reserve_new,
  reserve_within_cap, clashes, reserve, save_check, save_check_and_reserve, is_identical,
}
use zadper.Auditor.Transitions.{
  to_released, transition, transition_rows, move_row, move_rows, any_moves, delete_replays,
  authorization_replay_used,
}
use zadper.Auditor.Settle.{
  as_consumed, settle, settle_found, settle_stored, settle_known, settle_open, settle_reservation,
  write_settlement, find_settlement, used_elsewhere, has_transaction, has_proof, insert_settlement,
  has_check, update_check, apply_settlement,
}
use zadper.Auditor.Ledger.{IsWellFormed}
use zadper.Auditor.Ledger.Reserving.{IsStored, Grants, reserve_within_transaction-accepted_iff}
use zadper.Auditor.Ledger.Returning.{IsKeyed, reserve_within_transaction-returns}
use zadper.Auditor.Ledger.Histories.{
  Call, reserves, saves_and_reserves, settles, reads, transitions, step, run, run-IsWellFormed,
}
use zadper.Auditor.Ledger.Caps.{IsUnder, CallsWithin, run-IsUnder}
use zadper.Auditor.Ledger.Totals.{total}

unfoldable pub opened : Unit {0}
unfolding step run reserve save_check save_check_and_reserve reserve_within_transaction reserve_for
    reserve_matching reserve_new reserve_within_cap insert_rows clashes expire_reservations
    expire_row expire_rows is_due delete_due matches_check find_reservation find_check held_count
    replay_found sum_rows prepare_reservation decimal lower is_hex_of is_identical transition
    transition_rows move_row move_rows any_moves delete_replays authorization_replay_used
    apply_settlement settle settle_found settle_stored settle_known settle_open settle_reservation
    write_settlement find_settlement used_elsewhere has_transaction has_proof insert_settlement
    has_check update_check
opened = tt

-- A time is written as its milliseconds.
abbrev pub clock : String → Option ℕ
clock s = decimal s

abbrev nonce : String
nonce = "1111111111111111111111111111111111111111111111111111111111111111"

abbrev terms : PaymentTerms
terms = record {
  network = testnet;
  asset = "0xaa";
  amount = "40";
  pay_to = "0xcc";
  max_timeout_seconds = 60;
  extra_name = "WBOT";
  extra_version = "1";
  extra_decimals = none;
  resource_url = "https://api.example/v1";
  resource_comparison = record { same_host = true; same_scheme = true; same_path = true };
}

abbrev authorization : AuthorizationIntent
authorization = record {
  intent = record {
    payer_public_key = "0xbb";
    from = "0xbb";
    to = "0xcc";
    amount = "40";
    valid_after = "995";
    valid_before = "1055";
    nonce = nonce;
    network = testnet;
    asset = "0xaa";
    token_name = "WBOT";
    token_version = "1";
  };
  digest = "0xd1";
}

abbrev pub check : String → StoredPaymentCheck
check id = record {
  id = id;
  operator_public_key = "0xop";
  payer_public_key = some "0xbb";
  idempotency_key = none;
  terms = terms;
  authorization = some authorization;
  verdict = pay;
  status = CheckStatus.reserved;
  created_at = "1000";
  updated_at = "1000";
}

abbrev pub row : String → CheckRow
row id = record { operator_key = "0xop"; created_at = 1000; updated_at = 1000; check = check id }

abbrev pub store : Db
store = record {
  checks = row "c1" ∷ row "c2" ∷ [];
  reservations = [];
  replays = [];
  settlements = [];
  attempts = [];
}

pub store-IsWellFormed : IsWellFormed store
store-IsWellFormed = record { distinct = tt; unique = tt; backed = tt; readable = tt }

abbrev pub request : String → ReservationInput
request id = record {
  check_id = id;
  operator_public_key = "0xOP";
  asset = "0xAA";
  amount = "40";
  daily_cap = "100";
  maximum_concurrent_reservations = 2;
  payer_public_key = "0xBB";
  nonce = nonce;
  expires_at = "2000";
}

abbrev pub prepared : PreparedReservation
prepared = record {
  amount = 40;
  daily_cap = 100;
  maximum_concurrent = 2;
  operator_key = "0xop";
  asset = "0xaa";
  payer_key = "0xbb";
  nonce = nonce;
  now = 1000;
  expires_at = 2000;
  utc_day = 0;
}

prepared_test : prepare_reservation clock (request "c1") 1000 ≡ ok prepared
unfolding opened
prepared_test = refl

reserve_test :
    reserve clock (request "c1") 1000 store
    ≡ (ok accepted, with_reservation (request "c1") prepared store)
unfolding opened
reserve_test = refl

abbrev pub held : Db
held = with_reservation (request "c1") prepared store

-- The second check has the same authorization.
replay_test : (reserve clock (request "c2") 1500 held).0 ≡ ok (refused Refusal.authorization_replay)
unfolding opened
replay_test = refl

-- Asking again for the same check is accepted, and changes nothing.
repeat_test : reserve clock (request "c1") 1500 held ≡ (ok accepted, held)
unfolding opened
repeat_test = refl

abbrev proof_hash : String
proof_hash = "2222222222222222222222222222222222222222222222222222222222222222"

abbrev pub transfer : SettlementProof
transfer = record {
  proof = record {
    check_id = "c1";
    transaction_hash = "3333333333333333333333333333333333333333333333333333333333333333";
    verdict = Types.SettlementVerdict.match;
    reasons = [];
    rpc_endpoint = "https://rpc.example";
    block_hash = null;
    block_height = none;
    observed_at = "2100";
    decoded = null;
  };
  proof_hash = proof_hash;
}

abbrev pub paid : StoredPaymentCheck
paid = record (check "c1") { status = CheckStatus.settled; updated_at = "2100" }

-- A payment is reserved, the reservation expires, and the payment is then found on the chain.
abbrev late_payment : List Call
late_payment =
    reserves (request "c1") 1000 ∷ reads 2050 ∷ settles paid transfer (some as_consumed) ∷ []

-- The authorization is consumed, and yet the store answers that it is unused, and reserves it again.
late_payment_test :
    (Option.map (λ r. r.status) (find_reservation "c1" (run clock store late_payment).reservations)
      ≡ some consumed)
    × ((authorization_replay_used "0xop" "0xaa" "0xbb" nonce 2200 (run clock store late_payment)).0
        ≡ ok false)
    × ((reserve clock
          (record (request "c2") { expires_at = "3000" })
          2200
          (run clock store late_payment)).0
        ≡ ok accepted)
unfolding opened
late_payment_test = (refl, refl, refl)

-- Two checks that one after the other hold an authorization, and a settlement in time.
abbrev busy_day : List Call
busy_day =
    reserves (request "c1") 1000
    ∷ saves_and_reserves (check "c3") (request "c3") 1100
    ∷ settles paid transfer (some as_consumed)
    ∷ transitions "c1" to_released "1500"
    ∷ reads 1600
    ∷ []

run-IsWellFormed_example : IsWellFormed (run clock store busy_day)
run-IsWellFormed_example = run-IsWellFormed clock store busy_day store-IsWellFormed

store-IsUnder : IsUnder "0xop" "0xaa" 100 store
unfolding total
store-IsUnder day = omega arith

asks_within : (n : ℕ) → decimal "100" ≡ some n → n ≤ 100
unfolding opened
asks_within n e = ground arith

busy_day_within : CallsWithin clock "0xop" "0xaa" 100 store busy_day
unfolding opened
busy_day_within = (λ _ _. asks_within, (λ _ _. asks_within, (λ r e. ground arith, (tt, (tt, tt)))))

run-IsUnder_example : IsUnder "0xop" "0xaa" 100 (run clock store busy_day)
run-IsUnder_example =
    run-IsUnder clock "0xop" "0xaa" 100 store busy_day store-IsWellFormed busy_day_within
      store-IsUnder

reserve_within_transaction-accepted_iff_example :
    (reserve_within_transaction (request "c1") prepared store
      ≡ ok (accepted, with_reservation (request "c1") prepared store))
    ↔ (IsStored (request "c1") prepared (expire_reservations 1000 store)
        × Grants (request "c1") prepared (expire_reservations 1000 store) held)
reserve_within_transaction-accepted_iff_example =
    reserve_within_transaction-accepted_iff (request "c1") prepared store held store-IsWellFormed

keyed : (r : CheckRow) → find_check "c1" store.checks ≡ some r → IsKeyed r
unfolding opened
keyed r e = subst IsKeyed (some-injective _ _ e) (record {
  asset = refl;
  payer = λ a h. subst (λ x. (x.payer_public_key === "") ≡ false) (some-injective _ _ h) refl;
})

reserve_within_transaction-returns_example :
    (r : ReservationResult) × (db' : Db) × (reserve_within_transaction (request "c1") prepared store
      ≡ ok (r, db'))
reserve_within_transaction-returns_example =
    reserve_within_transaction-returns (request "c1") prepared store store-IsWellFormed keyed

pub held-IsWellFormed : IsWellFormed held
unfolding opened
held-IsWellFormed =
    run-IsWellFormed clock store (reserves (request "c1") 1000 ∷ []) store-IsWellFormed

transition_test :
    transition clock "c1" to_released "1500" held
    ≡ ok (true, transition_rows to_released "c1" 1500 held)
unfolding opened
transition_test = refl

pub clock_reads : clock "1500" ≡ some 1500
unfolding decimal
clock_reads = refl
