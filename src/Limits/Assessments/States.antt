-- ===== src/Limits/Assessments/States.antt =====
-- What a request does to the states of the clients that the limiter of the public assessments keeps.
use zadper.Common.{
  ℕ, suc, ◌+◌, ◌≤◌, ◌<◌, String, ◌≡◌, refl, some, [], ◌∷◌, ◌⊎◌, inl, inr, sym, subst, length, leb,
  ◌===◌, if◌then◌else◌, Bool-cases, arith,
}
use zadper.Limits.Maps.{
  Entries, get, delete, set, get-set, get-delete, length-set_new, length-delete-le,
}
use zadper.Limits.Assessments.{
  Access, ClientState, Limiter, LimitResult, open_day, consume_today, count_request, client_state,
  consume, drop_oldest, set_bounded_client,
}
use zadper.Limits.Assessments.Daily.{one_if_allowed}

module _ {ℓ} {V : Type ℓ} (maximum : ℕ) where
  drop_oldest_room : (m : Entries V) → length m ≤ maximum → drop_oldest maximum m ≡ m
  unfolding drop_oldest
  drop_oldest_room [] h = refl
  drop_oldest_room (e ∷ m) h = ground arith

  -- With an entry to spare, nothing else changes.
  set_bounded_client_room :
      (key j : String) (value : V) (m : Entries V)
      → length m < maximum
      → (get j (set_bounded_client m key value maximum)
          ≡ (if key === j then some value else get j m))
        × (length (set_bounded_client m key value maximum) ≤ length m + 1)
  unfolding set_bounded_client
  set_bounded_client_room key j value m room =
      let added = length-set_new key value (delete key m) in
      let fewer = length-delete-le key m in
      rw (drop_oldest_room (set key value (delete key m)) (omega (arith, added, fewer))) (
        ground (arith, get-set key j value (delete key m), get-delete key j m),
        omega (arith, added, fewer),
      )

module _ (options : Access) where
  clients-open_day :
      (now : ℕ) (limiter : Limiter) → (open_day now limiter).clients ≡ limiter.clients
  unfolding open_day
  clients-open_day now limiter = ground arith

  -- What a request does to the states of the clients: none changes if it is refused; the state of
  -- its own client has one more if it is allowed.
  abbrev pub ClientsAfter :
      String → String → ClientState → Entries ClientState → LimitResult × Limiter → Type 0
  ClientsAfter client j state clients after =
      (length after.1.clients ≤ length clients + 1)
      × (((one_if_allowed (after.0) ≡ 0) × (after.1.clients ≡ clients))
          ⊎ ((one_if_allowed (after.0) ≡ 1)
              × (state.count < options.requests_per_window)
              × (get j after.1.clients ≡ (
                  if client === j
                  then some (record state { count = suc state.count })
                  else get j clients))))

  count_request-clients :
      (client j : String) (now : ℕ) (limiter : Limiter) (state : ClientState)
      → length limiter.clients < options.max_tracked_clients
      → ClientsAfter client j state limiter.clients (count_request options client now limiter state)
  unfolding count_request one_if_allowed
  count_request-clients client j now limiter state room =
      elim (Bool-cases (leb options.requests_per_window state.count)) [
        | inl spent ↦ rw spent (omega arith, inl (refl, refl))
        | inr left ↦
            let counted : ClientState = record state { count = suc state.count } in
            let kept =
              set_bounded_client_room options.max_tracked_clients client j counted limiter.clients
                room in
            rw left (kept.1, inr (refl, ground arith, kept.0))
      ]

  consume_today-clients :
      (client j : String) (now : ℕ) (limiter : Limiter)
      → length limiter.clients < options.max_tracked_clients
      → ClientsAfter client j
          (client_state options client now limiter.clients)
          limiter.clients
          (consume_today options client now limiter)
  unfolding consume_today one_if_allowed
  consume_today-clients client j now limiter room =
      elim (Bool-cases (leb options.daily_limit limiter.daily_count)) [
        | inl full ↦ rw full (omega arith, inl (refl, refl))
        | inr left ↦ rw left (
            count_request-clients client j now limiter
              (client_state options client now limiter.clients) room)
      ]

  pub consume-clients :
      (client j : String) (now : ℕ) (limiter : Limiter)
      → length limiter.clients < options.max_tracked_clients
      → ClientsAfter client j
          (client_state options client now limiter.clients)
          limiter.clients
          (consume options client now limiter)
  unfolding consume
  consume-clients client j now limiter room =
      let same = clients-open_day now limiter in
      subst
        (λ clients.
          ClientsAfter client j (client_state options client now clients) clients
            (consume_today options client now (open_day now limiter)))
        same
        (consume_today-clients client j now (open_day now limiter)
          (subst (λ clients. length clients < options.max_tracked_clients) (sym same) room))
