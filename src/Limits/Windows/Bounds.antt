-- ===== src/Limits/Windows/Bounds.antt =====
-- What every history of requests leaves bounded in the fixed-window limiter.
use zadper.Common.{
  ℕ, suc, ◌≤◌, ◌<◌, String, ◌≡◌, some, List, [], ◌∷◌, inl, inr, length, leb, Bool-cases,
  Option-cases, eq_iff, holds_of, ok, arith,
}
use zadper.Limits.Maps.{
  Entries, get, get-set, length-set_new, length-set_old, length-delete-le, Distinct, set-Distinct,
  delete-Distinct, EveryValue, set-EveryValue, delete-EveryValue, keep-Distinct, keep-EveryValue,
}
use zadper.Limits.Windows.{
  Options, Bucket, is_over, sweep, drop_oldest, make_room, forget_over, open_bucket, count_request,
  consume, create,
}

module _ (options : Options) where
  -- The map holds at most max_keys buckets, one for each key, none with more than limit requests.
  pub record IsBounded (buckets : Entries Bucket) : Type 0 where
    pub few : length buckets ≤ options.max_keys
    pub distinct : Distinct buckets
    pub limited : EveryValue (λ bucket. bucket.count ≤ options.limit) buckets

  drop_oldest-le :
      (m : Entries Bucket)
      → 0 < options.max_keys
      → length (drop_oldest options m) < options.max_keys
  unfolding drop_oldest
  drop_oldest-le [] h = omega arith
  drop_oldest-le (e ∷ m) h = ground (arith, drop_oldest-le m h)

  drop_oldest-Distinct : (m : Entries Bucket) → Distinct m → Distinct (drop_oldest options m)
  unfolding drop_oldest
  drop_oldest-Distinct [] d = d
  drop_oldest-Distinct (e ∷ m) d = ground (arith, drop_oldest-Distinct m d.1)

  drop_oldest-EveryValue :
      (P : Bucket → Type 0) (m : Entries Bucket)
      → EveryValue P m
      → EveryValue P (drop_oldest options m)
  unfolding drop_oldest
  drop_oldest-EveryValue P [] h = h
  drop_oldest-EveryValue P (e ∷ m) h = elim (Bool-cases (leb options.max_keys (suc (length m)))) [
    | inl full ↦ rw full (drop_oldest-EveryValue P m h.1)
    | inr room ↦ rw room h
  ]

  forget_over-IsBounded :
      (key : String) (now : ℕ) (m : Entries Bucket)
      → IsBounded m
      → IsBounded (forget_over options key now m)
  unfolding forget_over
  forget_over-IsBounded key now m b =
      elim (Bool-cases (holds_of (get key m) (is_over options now))) [
        | inr kept ↦ rw kept b
        | inl over ↦ rw over (record {
          few = omega (arith, length-delete-le key m, b.few);
          distinct = delete-Distinct key m b.distinct;
          limited = delete-EveryValue (λ bucket. bucket.count ≤ options.limit) key m b.limited;
        })
      ]

  make_room-IsBounded :
      (now : ℕ) (m : Entries Bucket)
      → 0 < options.max_keys
      → IsBounded m
      → IsBounded (make_room options now m) × (length (make_room options now m) < options.max_keys)
  unfolding make_room sweep
  make_room-IsBounded now m positive b =
      let short = drop_oldest-le (sweep options now m) positive in
      (
        record {
          few = omega (arith, short);
          distinct = drop_oldest-Distinct _ (keep-Distinct _ m b.distinct);
          limited = drop_oldest-EveryValue _ _ (keep-EveryValue _ _ m b.limited);
        },
        short,
      )

  -- The bucket that is opened is the one the map then holds.
  pub get-open_bucket :
      (key : String) (now : ℕ) (m : Entries Bucket)
      → get key ((open_bucket options key now m).1) ≡ some ((open_bucket options key now m).0)
  unfolding open_bucket
  get-open_bucket key now m = elim (Option-cases (get key m)) [
    | inr (bucket, found) ↦ rw found found
    | inl absent ↦
        let fresh : Bucket = record { count = 0; started_at = now } in
        rw absent (ground (arith, eq_iff key key, get-set key key fresh (make_room options now m)))
  ]

  open_bucket-IsBounded :
      (key : String) (now : ℕ) (m : Entries Bucket)
      → 0 < options.max_keys
      → IsBounded m
      → IsBounded ((open_bucket options key now m).1)
  unfolding open_bucket
  open_bucket-IsBounded key now m positive b = elim (Option-cases (get key m)) [
    | inr (bucket, found) ↦ rw found b
    | inl absent ↦
        let fresh : Bucket = record { count = 0; started_at = now } in
        let room = make_room-IsBounded now m positive b in
        rw absent (record {
          few = omega (arith, length-set_new key fresh (make_room options now m), room.1);
          distinct = set-Distinct key fresh _ room.0.distinct;
          limited =
              set-EveryValue (λ bucket. bucket.count ≤ options.limit) key fresh _ (omega arith)
                room.0.limited;
        })
  ]

  count_request-IsBounded :
      (key : String) (now : ℕ) (bucket : Bucket) (m : Entries Bucket)
      → IsBounded m
      → get key m ≡ some bucket
      → IsBounded ((count_request options key now (bucket, m)).1)
  unfolding count_request
  count_request-IsBounded key now bucket m b found =
      elim (Bool-cases (leb options.limit bucket.count)) [
        | inl spent ↦ rw spent b
        | inr left ↦
            let counted : Bucket = record bucket { count = suc bucket.count } in
            rw left (record {
              few = omega (arith, length-set_old key counted bucket m found, b.few);
              distinct = set-Distinct key counted m b.distinct;
              limited =
                  set-EveryValue (λ bucket. bucket.count ≤ options.limit) key counted m
                    (ground arith) b.limited;
            })
      ]

  pub consume-IsBounded :
      (key : String) (now : ℕ) (m : Entries Bucket)
      → 0 < options.max_keys
      → IsBounded m
      → IsBounded ((consume options key now m).1)
  unfolding consume
  consume-IsBounded key now m positive b =
      let opened = open_bucket-IsBounded key now _ positive (forget_over-IsBounded key now m b) in
      count_request-IsBounded key now _ _ opened
        (get-open_bucket key now (forget_over options key now m))

  -- The limiter after requests of clients, each with its time.
  unfoldable pub run : List (String × ℕ) → Entries Bucket → Entries Bucket
  unfolding consume
  run [] buckets = buckets
  run ((key, now) ∷ requests) buckets = run requests ((consume options key now buckets).1)

  run_from-IsBounded :
      (requests : List (String × ℕ)) (m : Entries Bucket)
      → 0 < options.max_keys
      → IsBounded m
      → IsBounded (run requests m)
  unfolding run
  run_from-IsBounded [] m positive b = b
  run_from-IsBounded ((key, now) ∷ requests) m positive b =
      run_from-IsBounded requests _ positive (consume-IsBounded key now m positive b)

  create-eq-ok :
      (initial : Entries Bucket)
      → create options ≡ ok initial
      → (initial ≡ []) × (0 < options.max_keys)
  unfolding create
  create-eq-ok initial made = ground arith

  -- The limiter that the constructor makes holds, after any requests at any times, at most
  -- max_keys buckets, one for each key, and none counts more than limit requests.
  pub run-IsBounded :
      (requests : List (String × ℕ)) (initial : Entries Bucket)
      → create options ≡ ok initial
      → IsBounded (run requests initial)
  run-IsBounded requests initial made =
      let start = create-eq-ok initial made in
      run_from-IsBounded requests initial start.1
        (rw start.0 (record { few = omega arith; distinct = tt; limited = tt }))
