-- ===== src/Limits/Windows/Allowance.antt =====
-- What a client of the fixed-window limiter can rely on: limit requests in a window, and another
-- window after the time that a refusal names.
use zadper.Common.{
  ℕ, suc, ◌+◌, ◌-◌, ◌*◌, ◌≤◌, ◌<◌, min, String, ◌≡◌, refl, Bool, true, false, none, some, List, ◌∷◌,
  inl, inr, not, length, leb, ◌===◌, Bool-cases, Option-cases, eq_iff, holds_of, ap, sym, ◌∙◌,
  arith,
}
use zadper.Limits.Maps.{
  Entries, get, set, get-set, get-delete, length-set_new, length-set_old, length-delete-le,
  length-keep-le, ceil_seconds,
}
use zadper.Limits.Windows.{
  Options, Bucket, allowed, refused, is_over, sweep, make_room, forget_over, open_bucket,
  count_request, consume,
}
use zadper.Limits.Windows.Bounds.{get-open_bucket}
use zadper.Limits.Windows.Counting.{
  one_if_allowed, requests_of, Before, allowed_of, drop_oldest_room, consume_self,
  allowed_of-bucket,
}

module _ (options : Options) where
  -- The client has a bucket whose window is not over.
  abbrev pub has_window : String → ℕ → Entries Bucket → Bool
  has_window key now buckets = holds_of (get key buckets) (λ b. not (is_over options now b))

  forget_over_absent :
      (key : String) (now : ℕ) (m : Entries Bucket)
      → has_window key now m ≡ false
      → (get key (forget_over options key now m) ≡ none)
        × (length (forget_over options key now m) ≤ length m)
  unfolding forget_over
  forget_over_absent key now m idle = elim (Option-cases (get key m)) [
    | inl absent ↦ rw absent (absent, omega arith)
    | inr (b, found) ↦
        let over : is_over options now b ≡ true = ground arith in
        rw (found, over)
          (ground (arith, eq_iff key key, get-delete key key m), length-delete-le key m)
  ]

  length-make_room-le :
      (now : ℕ) (m : Entries Bucket)
      → length m < options.max_keys
      → length (make_room options now m) ≤ length m
  unfolding make_room sweep
  length-make_room-le now m room =
      let shorter = length-keep-le (λ entry. not (is_over options now (entry.1))) m in
      rw (drop_oldest_room options (sweep options now m) (omega (arith, shorter))) shorter

  -- The first request of a window is allowed.
  consume_fresh :
      (key : String) (now : ℕ) (m : Entries Bucket)
      → 0 < options.limit
      → has_window key now m ≡ false
      → let first : Bucket = record { count = 1; started_at = now } in
        ((consume options key now m).0 ≡ allowed (options.limit - 1))
        × (get key ((consume options key now m).1) ≡ some first)
  unfolding consume open_bucket count_request
  consume_fresh key now m positive idle =
      let left : Entries Bucket = forget_over options key now m in
      let fresh : Bucket = record { count = 0; started_at = now } in
      let first : Bucket = record { count = 1; started_at = now } in
      let below : leb options.limit 0 ≡ false = ground arith in
      rw ((forget_over_absent key now m idle).0, below)
        (
          ground arith,
          ground (
            arith,
            eq_iff key key,
            get-set key key first (set key fresh (make_room options now left)),
          ),
        )

  length-forget_over-le :
      (key : String) (now : ℕ) (m : Entries Bucket)
      → length (forget_over options key now m) ≤ length m
  unfolding forget_over
  length-forget_over-le key now m = ground (arith, length-delete-le key m)

  length-open_bucket-le :
      (key : String) (now : ℕ) (m : Entries Bucket)
      → length m < options.max_keys
      → length ((open_bucket options key now m).1) ≤ length m + 1
  unfolding open_bucket
  length-open_bucket-le key now m room = elim (Option-cases (get key m)) [
    | inr (b, found) ↦ rw found (omega arith)
    | inl absent ↦
        let fresh : Bucket = record { count = 0; started_at = now } in
        rw absent (
          omega (
            arith,
            length-set_new key fresh (make_room options now m),
            length-make_room-le now m room,
          ))
  ]

  length-count_request :
      (key : String) (now : ℕ) (b : Bucket) (m : Entries Bucket)
      → get key m ≡ some b
      → length ((count_request options key now (b, m)).1) ≡ length m
  unfolding count_request
  length-count_request key now b m held =
      ground (arith, length-set_old key (record b { count = suc b.count }) b m held)

  -- A request adds at most one bucket while there is a key to spare.
  length-consume-le :
      (key : String) (now : ℕ) (m : Entries Bucket)
      → length m < options.max_keys
      → length ((consume options key now m).1) ≤ length m + 1
  unfolding consume
  length-consume-le key now m room =
      let left : Entries Bucket = forget_over options key now m in
      let forgot = length-forget_over-le key now m in
      let opened = length-open_bucket-le key now left (omega (arith, forgot)) in
      let counted = length-count_request key now _ _ (get-open_bucket options key now left) in
      omega (arith, counted, opened, forgot)

  -- A client whose window is over, or that is not tracked, makes a request, and others follow, its
  -- own and those of other clients, all before the window that opens is over. While there is a key
  -- to spare for each request, exactly the first `limit` requests of the client are allowed.
  pub allowed_of-window :
      (key : String) (now : ℕ) (requests : List (String × ℕ)) (m : Entries Bucket)
      → 0 < options.limit
      → has_window key now m ≡ false
      → Before (now + options.window_ms) requests
      → length m + 1 + length requests ≤ options.max_keys
      → allowed_of options key ((key, now) ∷ requests) m
        ≡ min options.limit (1 + requests_of key requests)
  unfolding allowed_of one_if_allowed
  allowed_of-window key now requests m positive idle before room =
      let first : Bucket = record { count = 1; started_at = now } in
      let opened = consume_fresh key now m positive idle in
      let longer = length-consume-le key now m (omega arith) in
      let rest =
        allowed_of-bucket options key requests first ((consume options key now m).1) opened.1 before
          (omega (arith, longer)) in
      let same : (key === key) ≡ true = (eq_iff key key).1 refl in
      rw (same, opened.0) (ground (arith, rest))

  refused_self :
      (key : String) (now wait : ℕ) (b : Bucket) (m : Entries Bucket)
      → (count_request options key now (b, m)).0 ≡ refused wait
      → (b.started_at + options.window_ms ≤ now + wait * 1000)
        × ((count_request options key now (b, m)).1 ≡ m)
        × (1 ≤ wait)
  unfolding count_request ceil_seconds
  refused_self key now wait b m e = ground arith

  window_over :
      (key : String) (later : ℕ) (b : Bucket) (m : Entries Bucket)
      → get key m ≡ some b
      → b.started_at + options.window_ms ≤ later
      → has_window key later m ≡ false
  unfolding is_over
  window_over key later b m found over = ground arith

  window_bucket :
      (key : String) (now : ℕ) (m : Entries Bucket)
      → has_window key now m ≡ true
      → (b : Bucket) × (get key m ≡ some b) × (is_over options now b ≡ false)
  window_bucket key now m running = elim (Option-cases (get key m)) [
    | inl absent ↦ absurd (ground arith)
    | inr (b, found) ↦ (b, found, ground arith)
  ]

  refused_window :
      (key : String) (now wait : ℕ) (m : Entries Bucket)
      → 0 < options.limit
      → (consume options key now m).0 ≡ refused wait
      → (b : Bucket) × (get key m ≡ some b)
        × (consume options key now m ≡ count_request options key now (b, m))
  refused_window key now wait m positive e = elim (Bool-cases (has_window key now m)) [
    | inr idle ↦ absurd (ground (arith, consume_fresh key now m positive idle))
    | inl running ↦
        let held = window_bucket key now m running in
        (held.0, held.1, consume_self options key now held.0 m held.2 held.1)
  ]

  -- A request that is refused leaves the limiter as it was and names at least one second, and
  -- when the seconds it names are over, the client's next request is allowed.
  pub consume-retry :
      (key : String) (now later wait : ℕ) (m : Entries Bucket)
      → 0 < options.limit
      → (consume options key now m).0 ≡ refused wait
      → now + wait * 1000 ≤ later
      → ((consume options key now m).1 ≡ m)
        × (1 ≤ wait)
        × ((consume options key later m).0 ≡ allowed (options.limit - 1))
  consume-retry key now later wait m positive e due =
      let held = refused_window key now wait m positive e in
      let told = refused_self key now wait held.0 m (ap (λ r. r.0) (sym held.2) ∙ e) in
      let idle = window_over key later held.0 m held.1 (omega (arith, told.0)) in
      (ap (λ r. r.1) held.2 ∙ told.1, told.2, (consume_fresh key later m positive idle).0)
