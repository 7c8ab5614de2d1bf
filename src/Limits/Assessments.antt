-- ===== src/Limits/Assessments.antt =====
-- apps/mcp-server/src/publicAccess.ts: PublicAssessmentLimiter, which limits the requests of a
-- client in a window and those of all clients in a day. A time is a number of milliseconds since
-- the epoch, at or after it; the text of its UTC date is its number of whole days.
pub mod Allowance
pub mod Daily
pub mod Keeping
pub mod States
use zadper.Common.{
  ℕ, suc, ◌+◌, ◌-◌, ◌*◌, ◌/◌, min, String, Bool, Option, none, some, List, [], ◌∷◌, length, leb,
  ltb, ◌==◌, ◌===◌, if◌then◌else◌, holds_of,
}
use zadper.Limits.Maps.{Entries, get, delete, set, ceil_seconds}

-- `PublicAssessmentAccess`.
pub record Access : Type 0 where
  pub window_ms : ℕ
  pub requests_per_window : ℕ
  pub daily_limit : ℕ
  pub max_tracked_clients : ℕ

pub record ClientState : Type 0 where
  pub started_at : ℕ
  pub count : ℕ

pub data LimitReason : Type 0 where
  client_rate daily_limit_reached : LimitReason

pub data LimitResult : Type 0 where
  allowed : ℕ → LimitResult
  refused : LimitReason → ℕ → LimitResult

-- The fields that change. No day is the text "".
pub record Limiter : Type 0 where
  pub clients : Entries ClientState
  pub daily_key : Option ℕ
  pub daily_count : ℕ

unfoldable pub create : Limiter
create = record { clients = []; daily_key = none; daily_count = 0 }

-- `now.toISOString().slice(0, 10)`.
unfoldable pub utc_day : ℕ → ℕ
utc_day now = now / 86400000

unfoldable pub seconds_until_next_utc_day : ℕ → ℕ
unfolding ceil_seconds utc_day
seconds_until_next_utc_day now = ceil_seconds ((utc_day now + 1) * 86400000 - now)

-- `while (map.size > maximum)`: the first key goes, unless it is the empty text.
unfoldable pub drop_oldest {ℓ} : {V : Type ℓ} → ℕ → Entries V → Entries V
drop_oldest maximum [] = []
drop_oldest maximum ((oldest, value) ∷ rest) =
    let fewer = drop_oldest maximum rest in
    if ltb maximum (suc (length rest))
    then if oldest === "" then (oldest, value) ∷ rest else fewer
    else (oldest, value) ∷ rest

unfoldable pub set_bounded_client {ℓ} : {V : Type ℓ} → Entries V → String → V → ℕ → Entries V
unfolding delete set drop_oldest
set_bounded_client map key value maximum = drop_oldest maximum (set key value (delete key map))

-- The count of the day starts again on another day.
unfoldable pub open_day : ℕ → Limiter → Limiter
unfolding utc_day
open_day now limiter =
    if holds_of limiter.daily_key (λ day. utc_day now == day)
    then limiter
    else record limiter { daily_key = some (utc_day now); daily_count = 0 }

module _ (options : Access) where
  -- A new state if there is none or its window is over.
  unfoldable pub current_state : ℕ → Option ClientState → ClientState
  current_state now none = record { started_at = now; count = 0 }
  current_state now (some state) =
      if leb (state.started_at + options.window_ms) now
      then record { started_at = now; count = 0 }
      else state

  unfoldable pub client_state : String → ℕ → Entries ClientState → ClientState
  unfolding current_state
  client_state client now clients = current_state now (get client clients)

  -- The rest of consume, from the state of the client.
  unfoldable pub count_request : String → ℕ → Limiter → ClientState → LimitResult × Limiter
  count_request client now limiter state =
      if leb options.requests_per_window state.count
      then (
        refused client_rate (ceil_seconds (state.started_at + options.window_ms - now)),
        limiter,
      )
      else (
        allowed (
            min (options.requests_per_window - suc state.count)
              (options.daily_limit - suc limiter.daily_count)),
        record limiter {
          clients =
              set_bounded_client limiter.clients client (record state { count = suc state.count })
                options.max_tracked_clients;
          daily_count = suc limiter.daily_count;
        },
      )

  -- Consume after the day is set.
  unfoldable pub consume_today : String → ℕ → Limiter → LimitResult × Limiter
  consume_today client now limiter =
      if leb options.daily_limit limiter.daily_count
      then (refused daily_limit_reached (seconds_until_next_utc_day now), limiter)
      else count_request client now limiter (client_state client now limiter.clients)

  unfoldable pub consume : String → ℕ → Limiter → LimitResult × Limiter
  consume client now limiter = consume_today client now (open_day now limiter)
