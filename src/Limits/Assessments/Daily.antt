-- ===== src/Limits/Assessments/Daily.antt =====
-- How many requests the limiter of the public assessments allows on a day.
use zadper.Common.{
  ℕ, ◌+◌, ◌≤◌, ◌<◌, String, ◌≡◌, refl, some, List, [], ◌∷◌, ◌⊎◌, inl, inr, ◌∙◌, ◌==◌, if◌then◌else◌,
  holds_of, Bool-cases, Option-cases, arith,
}
use zadper.Limits.Assessments.{
  Access, ClientState, Limiter, LimitResult, allowed, refused, create, utc_day, open_day,
  consume_today, count_request, client_state, consume,
}

-- 1 for a request that is allowed.
unfoldable pub one_if_allowed : LimitResult → ℕ
one_if_allowed (allowed remaining) = 1
one_if_allowed (refused reason retry_after) = 0

-- The times of the requests do not run back, from a time on.
abbrev pub InOrder : ℕ → List (String × ℕ) → Type 0
InOrder start [] = Unit
InOrder start ((client, now) ∷ requests) = (start ≤ now) × InOrder now requests

-- What the limiter counts for a day.
unfoldable pub used_on : ℕ → Limiter → ℕ
used_on day limiter =
    if holds_of limiter.daily_key (λ key. day == key) then limiter.daily_count else 0

module _ (options : Access) where
  -- How many of the requests of a day are allowed.
  unfoldable pub allowed_on : ℕ → List (String × ℕ) → Limiter → ℕ
  unfolding one_if_allowed
  allowed_on day [] limiter = 0
  allowed_on day ((client, now) ∷ requests) limiter =
      (if utc_day now == day then one_if_allowed ((consume options client now limiter).0) else 0)
      + allowed_on day requests ((consume options client now limiter).1)

  -- What a request that the day's limit lets through does with the counts.
  count_request-count :
      (client : String) (now : ℕ) (limiter : Limiter) (state : ClientState)
      → let after = count_request options client now limiter state in
        (after.1.daily_count ≡ limiter.daily_count + one_if_allowed (after.0))
        × (after.1.daily_key ≡ limiter.daily_key)
  unfolding count_request one_if_allowed
  count_request-count client now limiter state = ground arith

  consume_today-count :
      (client : String) (now : ℕ) (limiter : Limiter)
      → limiter.daily_count ≤ options.daily_limit
      → let after = consume_today options client now limiter in
        (after.1.daily_count ≡ limiter.daily_count + one_if_allowed (after.0))
        × (after.1.daily_key ≡ limiter.daily_key)
        × (after.1.daily_count ≤ options.daily_limit)
  unfolding consume_today one_if_allowed
  consume_today-count client now limiter fits = ground (
    arith,
    count_request-count client now limiter (client_state options client now limiter.clients),
  )

  open_day-count :
      (now : ℕ) (limiter : Limiter)
      → limiter.daily_count ≤ options.daily_limit
      → ((open_day now limiter).daily_key ≡ some (utc_day now))
        × ((open_day now limiter).daily_count ≡ used_on (utc_day now) limiter)
        × ((open_day now limiter).daily_count ≤ options.daily_limit)
  unfolding open_day used_on utc_day
  open_day-count now limiter fits = ground arith

  -- A request is counted for its day, and its day is then the limiter's.
  consume-count :
      (client : String) (now : ℕ) (limiter : Limiter)
      → limiter.daily_count ≤ options.daily_limit
      → let after = consume options client now limiter in
        (after.1.daily_count ≡ used_on (utc_day now) limiter + one_if_allowed (after.0))
        × (after.1.daily_key ≡ some (utc_day now))
        × (after.1.daily_count ≤ options.daily_limit)
  unfolding consume
  consume-count client now limiter fits =
      let opened = open_day-count now limiter fits in
      let spent = consume_today-count client now (open_day now limiter) opened.2 in
      (omega (arith, spent.0, opened.1), spent.1 ∙ opened.0, spent.2)

  day-le : (a b : ℕ) → a ≤ b → utc_day a ≤ utc_day b
  unfolding utc_day
  day-le a b h = omega arith

  -- No request of a day follows a later day.
  allowed_on-later :
      (day start : ℕ) (requests : List (String × ℕ)) (limiter : Limiter)
      → day < utc_day start
      → InOrder start requests
      → allowed_on day requests limiter ≡ 0
  unfolding allowed_on
  allowed_on-later day start [] limiter later order = refl
  allowed_on-later day start ((client, now) ∷ requests) limiter later order =
      let after = day-le start now order.0 in
      ground (arith, allowed_on-later day now requests ((consume options client now limiter).1))

  used_on-other :
      (day other : ℕ) (limiter : Limiter)
      → limiter.daily_key ≡ some other
      → used_on day limiter ≡ (if day == other then limiter.daily_count else 0)
  unfolding used_on
  used_on-other day other limiter e = ground arith

  -- The day of the limiter is not after a time.
  abbrev pub Reached : ℕ → Limiter → Type 0
  Reached start limiter = (key : ℕ) → limiter.daily_key ≡ some key → key ≤ utc_day start

  used_on-cases :
      (day : ℕ) (limiter : Limiter)
      → (used_on day limiter ≡ 0)
        ⊎ ((limiter.daily_key ≡ some day) × (used_on day limiter ≡ limiter.daily_count))
  unfolding used_on
  used_on-cases day limiter = elim (Option-cases limiter.daily_key) [
    | inl first ↦ rw first (inl refl)
    | inr (key, e) ↦ elim (Bool-cases (day == key)) [
      | inl same ↦ inr (ground arith, ground arith)
      | inr other ↦ rw (e, other) (inl refl)
    ]
  ]

  allowed_on-used :
      (day start : ℕ) (requests : List (String × ℕ)) (limiter : Limiter)
      → limiter.daily_count ≤ options.daily_limit
      → Reached start limiter
      → InOrder start requests
      → allowed_on day requests limiter + used_on day limiter ≤ options.daily_limit
  unfolding allowed_on
  allowed_on-used day start [] limiter fits reached order = elim (used_on-cases day limiter) [
    | inl unused ↦ omega arith
    | inr used ↦ omega (arith, used.1)
  ]
  allowed_on-used day start ((client, now) ∷ requests) limiter fits reached order =
      let after : Limiter = (consume options client now limiter).1 in
      let counted = consume-count client now limiter fits in
      let ahead : Reached now after = λ key e. ground (arith, counted.1) in
      let rest = allowed_on-used day now requests after counted.2 ahead order.1 in
      let used = used_on-other day (utc_day now) after counted.1 in
      let forward = day-le start now order.0 in
      elim (Bool-cases (utc_day now == day)) [
        | inl today ↦ ground (arith, counted.0, rest, used)
        | inr elsewhere ↦ rw elsewhere (elim (used_on-cases day limiter) [
          | inl unused ↦ omega (arith, rest)
          | inr (held, count) ↦
              let later : day < utc_day now = ground (arith, reached day held, forward) in
              omega (arith, count, allowed_on-later day now requests after later order.1)
        ])
      ]

  -- From a new limiter on, over any requests of any clients whose times do not run back, at most
  -- daily_limit of the requests of each UTC day are allowed.
  pub allowed_on-daily_limit :
      (day start : ℕ) (requests : List (String × ℕ))
      → InOrder start requests
      → allowed_on day requests create ≤ options.daily_limit
  unfolding create
  allowed_on-daily_limit day start requests order =
      let bound =
        allowed_on-used day start requests create (omega arith) (λ key e. ground arith) order in
      omega (arith, bound)
