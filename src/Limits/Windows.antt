-- ===== src/Limits/Windows.antt =====
-- apps/report-api/src/securityLimits.ts: FixedWindowRateLimiter and setBoundedMapEntry. A time is
-- a number of milliseconds since the epoch.
pub mod Allowance
pub mod Counting
pub mod Eviction
pub mod Bounds
use zadper.Common.{
  ℕ, suc, ◌+◌, ◌-◌, ◌^◌, String, Bool, Option, none, some, List, [], ◌∷◌, ◌&&◌, not, keep, length,
  leb, ltb, ◌===◌, if◌then◌else◌, is_none, holds_of, Result, require, ok, type_error, ◌>>◌,
}
use zadper.Limits.Maps.{Entries, get, delete, set, ceil_seconds}

-- `FixedWindowRateLimiterOptions`.
pub record Options : Type 0 where
  pub limit : ℕ
  pub window_ms : ℕ
  pub max_keys : ℕ

pub record Bucket : Type 0 where
  pub count : ℕ
  pub started_at : ℕ

pub data RateLimitResult : Type 0 where
  allowed : ℕ → RateLimitResult
  refused : ℕ → RateLimitResult

-- The test of `requirePositiveInteger`, for a whole number.
abbrev pub is_positive_integer : ℕ → Bool
is_positive_integer value = leb value (2 ^ 53 - 1) && ltb 0 value

-- The constructor: a limiter with no buckets, its options checked.
unfoldable pub create : Options → Result (Entries Bucket)
create options =
    require (is_positive_integer options.limit) (type_error "rate limit must be a positive integer")
    >> (require (is_positive_integer options.window_ms)
          (type_error "rate limit window must be a positive integer")
        >> (require (is_positive_integer options.max_keys)
              (type_error "rate limit key capacity must be a positive integer")
            >> ok []))

module _ (options : Options) where
  -- `now - bucket.startedAt >= windowMs`.
  unfoldable pub is_over : ℕ → Bucket → Bool
  is_over now bucket = leb (bucket.started_at + options.window_ms) now

  -- `for (const [key, bucket] of this.buckets)` of makeRoom.
  unfoldable pub sweep : ℕ → Entries Bucket → Entries Bucket
  unfolding is_over
  sweep now buckets = keep (λ entry. not (is_over now (entry.1))) buckets

  -- `while (this.buckets.size >= maxKeys)`: the first key goes.
  unfoldable pub drop_oldest {ℓ} : {V : Type ℓ} → Entries V → Entries V
  drop_oldest [] = []
  drop_oldest (oldest ∷ rest) =
      let fewer = drop_oldest rest in
      if leb options.max_keys (suc (length rest)) then fewer else oldest ∷ rest

  unfoldable pub make_room : ℕ → Entries Bucket → Entries Bucket
  unfolding sweep drop_oldest
  make_room now buckets = drop_oldest (sweep now buckets)

  -- A bucket whose window is over goes.
  unfoldable pub forget_over : String → ℕ → Entries Bucket → Entries Bucket
  unfolding is_over
  forget_over key now buckets =
      if holds_of (get key buckets) (is_over now) then delete key buckets else buckets

  -- `if (!bucket)`: a new bucket, and the map that holds it.
  unfoldable pub or_fresh : String → ℕ → Entries Bucket → Option Bucket → Bucket × Entries Bucket
  unfolding make_room
  or_fresh key now buckets (some bucket) = (bucket, buckets)
  or_fresh key now buckets none =
      let fresh : Bucket = record { count = 0; started_at = now } in
      (fresh, set key fresh (make_room now buckets))

  unfoldable pub open_bucket : String → ℕ → Entries Bucket → Bucket × Entries Bucket
  unfolding or_fresh
  open_bucket key now buckets = or_fresh key now buckets (get key buckets)

  -- `bucket.count += 1` writes through to the map.
  unfoldable pub count_request :
      String → ℕ → Bucket × Entries Bucket → RateLimitResult × Entries Bucket
  unfolding ceil_seconds
  count_request key now (bucket, buckets) =
      if leb options.limit bucket.count
      then (refused (ceil_seconds (bucket.started_at + options.window_ms - now)), buckets)
      else (
        allowed (options.limit - suc bucket.count),
        set key (record bucket { count = suc bucket.count }) buckets,
      )

  unfoldable pub consume : String → ℕ → Entries Bucket → RateLimitResult × Entries Bucket
  unfolding forget_over open_bucket count_request
  consume key now buckets =
      count_request key now (open_bucket key now (forget_over key now buckets))

module _ {ℓ} {V : Type ℓ} where
  -- The oldest entry of a full map goes.
  unfoldable pub evict_oldest : ℕ → Entries V → Option (String × V) × Entries V
  evict_oldest maximum_entries [] = (none, [])
  evict_oldest maximum_entries (oldest ∷ rest) =
      if leb maximum_entries (suc (length rest)) then (some oldest, rest) else (none, oldest ∷ rest)

  -- `setBoundedMapEntry`: the entry that had to go, and the map.
  unfoldable pub set_bounded_map_entry :
      Entries V → String → V → ℕ → Result (Option (String × V) × Entries V)
  unfolding set delete evict_oldest
  set_bounded_map_entry map key value maximum_entries =
      require (is_positive_integer maximum_entries)
        (type_error "map capacity must be a positive integer")
      >> (let room = evict_oldest maximum_entries (delete key map) in
          ok (room.0, set key value room.1))
