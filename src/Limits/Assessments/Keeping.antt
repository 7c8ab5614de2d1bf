-- ===== src/Limits/Assessments/Keeping.antt =====
-- What every history of requests leaves bounded in the limiter of the public assessments.
use zadper.Common.{
  ℕ, suc, ◌≤◌, ◌<◌, String, ◌≡◌, false, List, [], ◌∷◌, inl, inr, length, All, leb, ltb, ◌===◌,
  Bool-cases, holds_of, ◌==◌, arith,
}
use zadper.Limits.Maps.{
  Entries, delete, set, Distinct, set-Distinct, delete-Distinct, EveryValue, set-EveryValue,
  delete-EveryValue,
}
use zadper.Limits.Assessments.{
  Access, utc_day, ClientState, Limiter, create, open_day, consume_today, count_request, consume,
  drop_oldest, set_bounded_client,
}

-- No key is the empty text.
abbrev pub Named {ℓ} : {V : Type ℓ} → Entries V → Type 0
Named m = All (λ entry. (entry.0 === "") ≡ false) m

module _ {ℓ} {V : Type ℓ} where
  set-Named :
      (k : String) (v : V) (m : Entries V) → (k === "") ≡ false → Named m → Named (set k v m)
  unfolding set
  set-Named k v [] h n = (h, tt)
  set-Named k v ((j, w) ∷ m) h n = elim (Bool-cases (j === k)) [
    | inl same ↦ rw same (h, n.1)
    | inr other ↦ rw other (n.0, set-Named k v m h n.1)
  ]

  delete-Named : (k : String) (m : Entries V) → Named m → Named (delete k m)
  unfolding delete
  delete-Named k [] n = n
  delete-Named k ((j, w) ∷ m) n = elim (Bool-cases (j === k)) [
    | inl same ↦ rw same (delete-Named k m n.1)
    | inr other ↦ rw other (n.0, delete-Named k m n.1)
  ]

  module _ (maximum : ℕ) where
    length-drop_oldest-le : (m : Entries V) → Named m → length (drop_oldest maximum m) ≤ maximum
    unfolding drop_oldest
    length-drop_oldest-le [] n = omega arith
    length-drop_oldest-le ((k, v) ∷ m) n = ground (arith, length-drop_oldest-le m n.1)

    drop_oldest-Distinct : (m : Entries V) → Distinct m → Distinct (drop_oldest maximum m)
    unfolding drop_oldest
    drop_oldest-Distinct [] d = d
    drop_oldest-Distinct ((k, v) ∷ m) d = ground (arith, drop_oldest-Distinct m d.1)

    -- What is left is the end of the map.
    drop_oldest-All {κ} :
        (P : String × V → Type κ) (m : Entries V) → All P m → All P (drop_oldest maximum m)
    unfolding drop_oldest
    drop_oldest-All P [] h = h
    drop_oldest-All P ((k, v) ∷ m) h = elim (Bool-cases (ltb maximum (suc (length m)))) [
      | inr fits ↦ rw fits h
      | inl full ↦ elim (Bool-cases (k === "")) [
        | inl stop ↦ rw (full, stop) h
        | inr gone ↦ rw (full, gone) (drop_oldest-All P m h.1)
      ]
    ]

module _ (options : Access) where
  -- At most max_tracked_clients clients, each once, with at most requests_per_window requests, and
  -- at most daily_limit requests of the day.
  pub record WithinLimits (limiter : Limiter) : Type 0 where
    pub few : length limiter.clients ≤ options.max_tracked_clients
    pub distinct : Distinct limiter.clients
    pub named : Named limiter.clients
    pub limited : EveryValue (λ state. state.count ≤ options.requests_per_window) limiter.clients
    pub daily : limiter.daily_count ≤ options.daily_limit

  create-WithinLimits : WithinLimits create
  unfolding create
  create-WithinLimits = record {
    few = omega arith;
    distinct = tt;
    named = tt;
    limited = tt;
    daily = omega arith;
  }

  open_day-WithinLimits :
      (now : ℕ) (limiter : Limiter) → WithinLimits limiter → WithinLimits (open_day now limiter)
  unfolding open_day
  open_day-WithinLimits now limiter b =
      elim (Bool-cases (holds_of limiter.daily_key (λ day. utc_day now == day))) [
        | inl today ↦ rw today b
        | inr another ↦ rw another (record {
          few = b.few;
          distinct = b.distinct;
          named = b.named;
          limited = b.limited;
          daily = omega arith;
        })
      ]

  count_request-WithinLimits :
      (client : String) (now : ℕ) (limiter : Limiter) (state : ClientState)
      → (client === "") ≡ false
      → WithinLimits limiter
      → limiter.daily_count < options.daily_limit
      → WithinLimits ((count_request options client now limiter state).1)
  unfolding count_request set_bounded_client
  count_request-WithinLimits client now limiter state nonempty b left =
      elim (Bool-cases (leb options.requests_per_window state.count)) [
        | inl spent ↦ rw spent b
        | inr below ↦
            let counted : ClientState = record state { count = suc state.count } in
            let kept : Entries ClientState = delete client limiter.clients in
            let added : Entries ClientState = set client counted kept in
            rw below (record {
              few =
                  length-drop_oldest-le _ added
                    (set-Named client counted kept nonempty (delete-Named client _ b.named));
              distinct =
                  drop_oldest-Distinct _ added
                    (set-Distinct client counted kept (delete-Distinct client _ b.distinct));
              named =
                  drop_oldest-All _ _ added
                    (set-Named client counted kept nonempty (delete-Named client _ b.named));
              limited = drop_oldest-All _ _ added (
                  set-EveryValue (λ s. s.count ≤ options.requests_per_window) client counted kept
                    (ground arith) (delete-EveryValue _ client _ b.limited));
              daily = left;
            })
      ]

  consume-WithinLimits :
      (client : String) (now : ℕ) (limiter : Limiter)
      → (client === "") ≡ false
      → WithinLimits limiter
      → WithinLimits ((consume options client now limiter).1)
  unfolding consume consume_today
  consume-WithinLimits client now limiter nonempty b =
      let opened = open_day-WithinLimits now limiter b in
      elim (Bool-cases (leb options.daily_limit (open_day now limiter).daily_count)) [
        | inl full ↦ rw full opened
        | inr left ↦ rw left (
            count_request-WithinLimits client now (open_day now limiter) _ nonempty opened
              (ground arith))
      ]

  -- The limiter after requests of clients, each with its time.
  unfoldable pub run : List (String × ℕ) → Limiter → Limiter
  run [] limiter = limiter
  run ((client, now) ∷ requests) limiter = run requests ((consume options client now limiter).1)

  run_from-WithinLimits :
      (requests : List (String × ℕ)) (limiter : Limiter)
      → Named requests
      → WithinLimits limiter
      → WithinLimits (run requests limiter)
  unfolding run
  run_from-WithinLimits [] limiter named b = b
  run_from-WithinLimits ((client, now) ∷ requests) limiter named b =
      run_from-WithinLimits requests _ named.1 (consume-WithinLimits client now limiter named.0 b)

  -- After any requests, at any times, of clients that are not the empty text, a limiter tracks at
  -- most max_tracked_clients clients, each once, counts at most requests_per_window requests for
  -- each and at most daily_limit for the day.
  pub run-WithinLimits :
      (requests : List (String × ℕ)) → Named requests → WithinLimits (run requests create)
  run-WithinLimits requests named = run_from-WithinLimits requests create named create-WithinLimits
