-- ===== src/Limits/Windows/Counting.antt =====
-- How many requests of one client the fixed-window limiter allows, and when it allows again.
use zadper.Common.{
  ℕ, suc, ◌+◌, ◌-◌, ◌≤◌, ◌<◌, min, String, ◌≡◌, refl, true, false, some, List, [], ◌∷◌, inl, inr,
  not, All, length, leb, ◌===◌, if◌then◌else◌, Bool-cases, Option-cases, eq_iff, arith,
}
use zadper.Limits.Maps.{
  Entries, get, get-set, get-delete, length-set_new, length-set_old, length-delete-le,
  length-keep-le,
}
use zadper.Limits.Windows.{
  Options, Bucket, RateLimitResult, allowed, refused, is_over, sweep, drop_oldest, make_room,
  forget_over, open_bucket, count_request, consume,
}
use zadper.Limits.Windows.Bounds.{get-open_bucket}

-- 1 for a request that is allowed.
unfoldable pub one_if_allowed : RateLimitResult → ℕ
one_if_allowed (allowed remaining) = 1
one_if_allowed (refused retry_after) = 0

-- How many requests come from a client.
unfoldable pub requests_of : String → List (String × ℕ) → ℕ
requests_of key [] = 0
requests_of key ((k, now) ∷ requests) = (if k === key then 1 else 0) + requests_of key requests

-- Every request comes before a time.
abbrev pub Before : ℕ → List (String × ℕ) → Type 0
Before end requests = All (λ request. request.1 < end) requests

module _ (options : Options) where
  -- How many requests of a client are allowed.
  unfoldable pub allowed_of : String → List (String × ℕ) → Entries Bucket → ℕ
  unfolding one_if_allowed
  allowed_of key [] buckets = 0
  allowed_of key ((k, now) ∷ requests) buckets =
      (if k === key then one_if_allowed ((consume options k now buckets).0) else 0)
      + allowed_of key requests ((consume options k now buckets).1)

  get-keep :
      (now : ℕ) (key : String) (bucket : Bucket) (m : Entries Bucket)
      → is_over options now bucket ≡ false
      → get key m ≡ some bucket
      → get key (sweep options now m) ≡ some bucket
  unfolding get sweep
  get-keep now key bucket [] h e = cc
  get-keep now key bucket ((j, b) ∷ m) h e = ground (arith, get-keep now key bucket m)

  pub drop_oldest_room :
      (m : Entries Bucket) → length m < options.max_keys → drop_oldest options m ≡ m
  unfolding drop_oldest
  drop_oldest_room [] h = refl
  drop_oldest_room (e ∷ m) h = ground arith

  -- With a key to spare, room is made without dropping what is not over.
  make_room_keeps :
      (now : ℕ) (key : String) (bucket : Bucket) (m : Entries Bucket)
      → is_over options now bucket ≡ false
      → length m < options.max_keys
      → get key m ≡ some bucket
      → (get key (make_room options now m) ≡ some bucket)
        × (length (make_room options now m) ≤ length m)
  unfolding make_room sweep
  make_room_keeps now key bucket m h room e =
      let shorter = length-keep-le (λ entry. not (is_over options now (entry.1))) m in
      rw (drop_oldest_room (sweep options now m) (omega (arith, shorter)))
        (get-keep now key bucket m h e, shorter)

  module _ (key other : String) (differs : (other === key) ≡ false) (now : ℕ) (bucket : Bucket)
      (active : is_over options now bucket ≡ false) where
    forget_over_keeps :
        (m : Entries Bucket)
        → get key m ≡ some bucket
        → (get key (forget_over options other now m) ≡ some bucket)
          × (length (forget_over options other now m) ≤ length m)
    unfolding forget_over
    forget_over_keeps m e = ground (arith, get-delete other key m, length-delete-le other m)

    open_bucket_keeps :
        (m : Entries Bucket)
        → length m < options.max_keys
        → get key m ≡ some bucket
        → (get key ((open_bucket options other now m).1) ≡ some bucket)
          × (length ((open_bucket options other now m).1) ≤ length m + 1)
    unfolding open_bucket
    open_bucket_keeps m room e = elim (Option-cases (get other m)) [
      | inr (b, found) ↦ rw found (e, omega arith)
      | inl absent ↦
          let fresh : Bucket = record { count = 0; started_at = now } in
          let kept = make_room_keeps now key bucket m active room e in
          rw absent (
            ground (arith, get-set other key fresh (make_room options now m), kept.0),
            omega (arith, length-set_new other fresh (make_room options now m), kept.1),
          )
    ]

    count_request_keeps :
        (b : Bucket) (m : Entries Bucket)
        → get other m ≡ some b
        → get key m ≡ some bucket
        → (get key ((count_request options other now (b, m)).1) ≡ some bucket)
          × (length ((count_request options other now (b, m)).1) ≡ length m)
    unfolding count_request
    count_request_keeps b m held e = ground (
      arith,
      get-set other key (record b { count = suc b.count }) m,
      length-set_old other (record b { count = suc b.count }) b m held,
    )

    -- The request of another client leaves the bucket, and adds at most one.
    consume_other :
        (m : Entries Bucket)
        → length m < options.max_keys
        → get key m ≡ some bucket
        → (get key ((consume options other now m).1) ≡ some bucket)
          × (length ((consume options other now m).1) ≤ length m + 1)
    unfolding consume
    consume_other m room e =
        let left : Entries Bucket = forget_over options other now m in
        let forgot = forget_over_keeps m e in
        let opened = open_bucket_keeps left (omega (arith, forgot.1)) forgot.0 in
        let counted =
          count_request_keeps ((open_bucket options other now left).0)
            ((open_bucket options other now left).1) (get-open_bucket options other now left)
            opened.0 in
        (counted.0, omega (arith, counted.1, opened.1, forgot.1))

  -- The request of a client that is counted in a window that is not over.
  pub consume_self :
      (key : String) (now : ℕ) (bucket : Bucket) (m : Entries Bucket)
      → is_over options now bucket ≡ false
      → get key m ≡ some bucket
      → consume options key now m ≡ count_request options key now (bucket, m)
  unfolding consume forget_over open_bucket
  consume_self key now bucket m active e = rw (e, active, e) refl

  pub active_before :
      (now : ℕ) (bucket : Bucket)
      → now < bucket.started_at + options.window_ms
      → is_over options now bucket ≡ false
  unfolding is_over
  active_before now bucket h = ground arith

  spent_self :
      (key : String) (now : ℕ) (bucket : Bucket) (m : Entries Bucket)
      → leb options.limit bucket.count ≡ true
      → (one_if_allowed ((count_request options key now (bucket, m)).0) ≡ 0)
        × ((count_request options key now (bucket, m)).1 ≡ m)
  unfolding count_request one_if_allowed
  spent_self key now bucket m spent = rw spent (refl, refl)

  counted_self :
      (key : String) (now : ℕ) (bucket : Bucket) (m : Entries Bucket)
      → get key m ≡ some bucket
      → leb options.limit bucket.count ≡ false
      → let after : Entries Bucket = (count_request options key now (bucket, m)).1 in
        (one_if_allowed ((count_request options key now (bucket, m)).0) ≡ 1)
        × (get key after ≡ some (record bucket { count = suc bucket.count }))
        × (length after ≡ length m)
  unfolding count_request one_if_allowed
  counted_self key now bucket m e left =
      let counted : Bucket = record bucket { count = suc bucket.count } in
      rw left (
        refl,
        ground (arith, eq_iff key key, get-set key key counted m),
        length-set_old key counted bucket m e,
      )

  -- While the window of a client's bucket runs, and there is a key to spare for every request,
  -- its requests are allowed until limit is reached and no longer.
  pub allowed_of-bucket :
      (key : String) (requests : List (String × ℕ)) (bucket : Bucket) (m : Entries Bucket)
      → get key m ≡ some bucket
      → Before (bucket.started_at + options.window_ms) requests
      → length m + length requests ≤ options.max_keys
      → allowed_of key requests m ≡ min (options.limit - bucket.count) (requests_of key requests)
  unfolding allowed_of requests_of
  allowed_of-bucket key [] bucket m e before room = omega arith
  allowed_of-bucket key ((k, now) ∷ requests) bucket m e before room =
      let active = active_before now bucket before.0 in
      elim (Bool-cases (k === key)) [
        | inr differs ↦
            let next = consume_other key k differs now bucket active m (omega arith) e in
            let rest =
              allowed_of-bucket key requests bucket ((consume options k now m).1) next.0 before.1
                (omega (arith, next.1)) in
            rw differs (omega (arith, rest))
        | inl same ↦
            let here : get k m ≡ some bucket = ground (arith, eq_iff k key) in
            let step = consume_self k now bucket m active here in
            elim (Bool-cases (leb options.limit bucket.count)) [
              | inl spent ↦
                  let done = spent_self k now bucket m spent in
                  let rest = allowed_of-bucket key requests bucket m e before.1 (omega arith) in
                  rw (same, step, done.0, done.1) (ground (arith, rest))
              | inr left ↦
                  let counted : Bucket = record bucket { count = suc bucket.count } in
                  let done = counted_self k now bucket m here left in
                  let kept : get key ((count_request options k now (bucket, m)).1) ≡ some counted =
                    ground (arith, eq_iff k key, done.1) in
                  let rest =
                    allowed_of-bucket key requests counted
                      ((count_request options k now (bucket, m)).1) kept before.1
                      (omega (arith, done.2)) in
                  rw (same, step, done.0) (ground (arith, rest))
            ]
      ]
