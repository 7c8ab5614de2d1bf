-- ===== src/Limits/Tests.antt =====
-- Runs of the limiters of requests, and their theorems at concrete inputs.
use zadper.Common.{ℕ, ◌+◌, ◌≤◌, String, ◌≡◌, refl, List, [], ◌∷◌, min, arith}
use zadper.Limits.Maps.{Entries, get, set}
use zadper.Limits.Windows.{Options, Bucket, allowed, refused, create, consume}
use zadper.Limits.Windows.Bounds.{IsBounded, run, run-IsBounded}
use zadper.Limits.Windows.Counting.{requests_of, allowed_of}
use zadper.Limits.Windows.Allowance.{allowed_of-window, consume-retry}
use zadper.Limits.Assessments
use zadper.Limits.Assessments.{Access}
use zadper.Limits.Assessments.Daily.{allowed_on, allowed_on-daily_limit}
use zadper.Limits.Assessments.Keeping
use zadper.Limits.Assessments.Allowance

-- Two requests in a minute, for three clients.
abbrev two_a_minute : Options
two_a_minute = record { limit = 2; window_ms = 60000; max_keys = 3 }

abbrev empty : Entries Bucket
empty = []

abbrev burst : List (String × ℕ)
burst = ("ann", 1000) ∷ ("bob", 1500) ∷ ("ann", 2000) ∷ ("ann", 3000) ∷ []

abbrev after_burst : Entries Bucket
after_burst =
    ("ann", record { count = 2; started_at = 1000 })
    ∷ ("bob", record { count = 1; started_at = 1500 })
    ∷ []

run-burst : run two_a_minute burst empty ≡ after_burst
unfolding run consume get set
run-burst = refl

-- The fourth request of the minute waits until the window is over.
ann_refused : (consume two_a_minute "ann" 3000 after_burst).0 ≡ refused 58
unfolding consume get
ann_refused = refl

-- A new client has the oldest client's place when all places are taken.
carl_and_dan :
    run two_a_minute (("carl", 4000) ∷ ("dan", 5000) ∷ ("ann", 6000) ∷ []) after_burst
    ≡ ("carl", record { count = 1; started_at = 4000 })
      ∷ ("dan", record { count = 1; started_at = 5000 })
      ∷ ("ann", record { count = 1; started_at = 6000 })
      ∷ []
unfolding run consume get set
carl_and_dan = refl

run-IsBounded_example : IsBounded two_a_minute (run two_a_minute burst empty)
unfolding create
run-IsBounded_example = run-IsBounded two_a_minute burst empty refl

abbrev shared_minute : Options
shared_minute = record { limit = 2; window_ms = 60000; max_keys = 10 }

allowed_of-window_example :
    allowed_of shared_minute "ann"
      (("ann", 1000) ∷ ("bob", 1500) ∷ ("ann", 2000) ∷ ("ann", 3000) ∷ [])
      empty
    ≡ min 2 (1 + requests_of "ann" (("bob", 1500) ∷ ("ann", 2000) ∷ ("ann", 3000) ∷ []))
unfolding get
allowed_of-window_example =
    allowed_of-window shared_minute "ann" 1000 (("bob", 1500) ∷ ("ann", 2000) ∷ ("ann", 3000) ∷ [])
      empty (omega arith) refl (omega arith) (omega arith)

consume-retry_example :
    ((consume two_a_minute "ann" 3000 after_burst).1 ≡ after_burst)
    × (1 ≤ 58)
    × ((consume two_a_minute "ann" 61000 after_burst).0 ≡ allowed 1)
consume-retry_example =
    consume-retry two_a_minute "ann" 3000 61000 58 after_burst (omega arith) ann_refused
      (omega arith)

-- Two assessments a minute for a client, three a day for all.
abbrev three_a_day : Access
three_a_day = record {
  window_ms = 60000;
  requests_per_window = 2;
  daily_limit = 3;
  max_tracked_clients = 10;
}

abbrev a_day : List (String × ℕ)
a_day =
    ("ann", 1000)
    ∷ ("ann", 2000)
    ∷ ("ann", 3000)
    ∷ ("bob", 4000)
    ∷ ("carl", 5000)
    ∷ ("carl", 86400000)
    ∷ []

day_zero : allowed_on three_a_day 0 a_day Assessments.create ≡ 3
unfolding allowed_on Assessments.create Assessments.consume Assessments.open_day
    Assessments.consume_today Assessments.count_request Assessments.client_state
    Assessments.set_bounded_client Assessments.seconds_until_next_utc_day get
day_zero = refl

allowed_on-daily_limit_example : allowed_on three_a_day 0 a_day Assessments.create ≤ 3
allowed_on-daily_limit_example = allowed_on-daily_limit three_a_day 0 0 a_day (omega arith)

run-WithinLimits_example :
    Keeping.WithinLimits three_a_day (Keeping.run three_a_day a_day Assessments.create)
run-WithinLimits_example =
    Keeping.run-WithinLimits three_a_day a_day (refl, (refl, (refl, (refl, (refl, (refl, tt))))))

abbrev a_minute : List (String × ℕ)
a_minute = ("ann", 1000) ∷ ("ann", 2000) ∷ ("ann", 3000) ∷ ("bob", 4000) ∷ []

allowed_of-window_le_example :
    Allowance.allowed_of three_a_day "ann" a_minute Assessments.create ≤ 2
unfolding Assessments.create get
allowed_of-window_le_example =
    Allowance.allowed_of-window_le three_a_day "ann" 1000 a_minute Assessments.create
      (λ state held. ground arith) (omega arith) (omega arith) (omega arith)
