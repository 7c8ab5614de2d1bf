-- ===== src/Limits/Assessments/Allowance.antt =====
-- How many requests of one client the limiter of the public assessments allows in a window.
use zadper.Common.{
  ℕ, suc, ◌+◌, ◌≤◌, ◌<◌, String, ◌≡◌, refl, some, List, [], ◌∷◌, inl, inr, ◌∙◌, ap, sym, subst,
  length, ◌===◌, if◌then◌else◌, Bool-cases, Option-cases, eq_iff, arith,
}
use zadper.Limits.Maps.{Entries, get}
use zadper.Limits.Assessments.{Access, ClientState, Limiter, client_state, consume}
use zadper.Limits.Assessments.Daily.{one_if_allowed, InOrder}
use zadper.Limits.Windows.Counting.{Before}
use zadper.Limits.Assessments.States.{consume-clients}

module _ (options : Access) where
  -- How many requests of a client are allowed.
  unfoldable pub allowed_of : String → List (String × ℕ) → Limiter → ℕ
  unfolding one_if_allowed
  allowed_of client [] limiter = 0
  allowed_of client ((other, now) ∷ requests) limiter =
      (if other === client then one_if_allowed ((consume options other now limiter).0) else 0)
      + allowed_of client requests ((consume options other now limiter).1)

  client_state_running :
      (client : String) (now : ℕ) (state : ClientState) (clients : Entries ClientState)
      → get client clients ≡ some state
      → now < state.started_at + options.window_ms
      → client_state options client now clients ≡ state
  unfolding client_state
  client_state_running client now state clients held active = rw held (ground arith)

  -- The requests in the window that a client's state has opened: no more than are left.
  allowed_of-state :
      (client : String) (requests : List (String × ℕ)) (state : ClientState) (limiter : Limiter)
      → get client limiter.clients ≡ some state
      → state.count ≤ options.requests_per_window
      → Before (state.started_at + options.window_ms) requests
      → length limiter.clients + length requests ≤ options.max_tracked_clients
      → allowed_of client requests limiter + state.count ≤ options.requests_per_window
  unfolding allowed_of
  allowed_of-state client [] state limiter held fits before room = omega arith
  allowed_of-state client ((other, now) ∷ requests) state limiter held fits before room =
      let step = consume-clients options other client now limiter (omega arith) in
      let after : Limiter = (consume options other now limiter).1 in
      elim (step.1) [
        | inl (zero_allowed, kept) ↦
            let rest =
              allowed_of-state client requests state after (rw kept held) fits before.1
                (omega (arith, step.0)) in
            ground (arith, rest)
        | inr (one, below, now_held) ↦ elim (Bool-cases (other === client)) [
          | inr differs ↦
              let rest =
                allowed_of-state client requests state after (now_held ∙ rw differs held) fits
                  before.1 (omega (arith, step.0)) in
              rw differs (omega (arith, rest))
          | inl same ↦
              let here : get other limiter.clients ≡ some state =
                ground (arith, eq_iff other client) in
              let current = client_state_running other now state limiter.clients here before.0 in
              let counted : ClientState = record state { count = suc state.count } in
              let now_counted : get client after.clients ≡ some counted =
                now_held
                ∙ rw same
                    (ap (λ (s : ClientState). some (record s { count = suc s.count })) current) in
              let rest =
                allowed_of-state client requests counted after now_counted
                  (subst (λ (s : ClientState). s.count < options.requests_per_window) current below)
                  before.1 (omega (arith, step.0)) in
              rw same (omega (arith, rest, one))
        ]
      ]

  weaken-InOrder :
      (start now : ℕ) (requests : List (String × ℕ))
      → start ≤ now
      → InOrder now requests
      → InOrder start requests
  weaken-InOrder start now [] h order = order
  weaken-InOrder start now ((client, at_time) ∷ requests) h order =
      (omega (arith, order.0), order.1)

  weaken-Before :
      (early late : ℕ) (requests : List (String × ℕ))
      → early ≤ late
      → Before early requests
      → Before late requests
  weaken-Before early late [] h before = before
  weaken-Before early late (request ∷ requests) h before =
      (omega (arith, before.0), weaken-Before early late requests h before.1)

  -- The window of the client's state, if it has one, is over.
  abbrev pub IsIdle : String → ℕ → Limiter → Type 0
  IsIdle client start limiter =
      (state : ClientState)
      → get client limiter.clients ≡ some state
      → state.started_at + options.window_ms ≤ start

  client_state_idle :
      (client : String) (start now : ℕ) (limiter : Limiter)
      → IsIdle client start limiter
      → start ≤ now
      → client_state options client now limiter.clients ≡ record { started_at = now; count = 0 }
  unfolding client_state
  client_state_idle client start now limiter idle h =
      elim (Option-cases (get client limiter.clients)) [
        | inl absent ↦ rw absent refl
        | inr (state, held) ↦ let over = idle state held in rw held (ground arith)
      ]

  -- A client whose window is over, or that is not tracked, has at most requests_per_window of its
  -- requests allowed among any requests of any clients within one window from a time on, whose
  -- times do not run back, while there is an entry to spare for each.
  pub allowed_of-window_le :
      (client : String) (start : ℕ) (requests : List (String × ℕ)) (limiter : Limiter)
      → IsIdle client start limiter
      → InOrder start requests
      → Before (start + options.window_ms) requests
      → length limiter.clients + length requests ≤ options.max_tracked_clients
      → allowed_of client requests limiter ≤ options.requests_per_window
  unfolding allowed_of
  allowed_of-window_le client start [] limiter idle order before room = omega arith
  allowed_of-window_le client start ((other, now) ∷ requests) limiter idle order before room =
      let step = consume-clients options other client now limiter (omega arith) in
      let after : Limiter = (consume options other now limiter).1 in
      let later = weaken-InOrder start now requests order.0 order.1 in
      let again = allowed_of-window_le client start requests after in
      elim (step.1) [
        | inl (none_allowed, kept) ↦
            let rest =
              again (λ state held. idle state (rw (← kept) held)) later before.1
                (omega (arith, step.0)) in
            ground (arith, rest)
        | inr (one, below, now_held) ↦ elim (Bool-cases (other === client)) [
          | inr differs ↦
              let same : get client after.clients ≡ get client limiter.clients =
                now_held ∙ rw differs refl in
              let rest =
                again (λ state held. idle state (sym same ∙ held)) later before.1
                  (omega (arith, step.0)) in
              rw differs (omega (arith, rest))
          | inl same ↦
              let e : other ≡ client = (eq_iff other client).0 same in
              let fresh =
                client_state_idle other start now limiter
                  (subst (λ c. IsIdle c start limiter) (sym e) idle) order.0 in
              let first : ClientState = record { started_at = now; count = 1 } in
              let held : get client after.clients ≡ some first = now_held ∙ rw (same, fresh) refl in
              let rest =
                allowed_of-state client requests first after held
                  (subst (λ (s : ClientState). s.count < options.requests_per_window) fresh below)
                  (weaken-Before _ _ requests (omega (arith, order.0)) before.1)
                  (omega (arith, step.0)) in
              rw same (omega (arith, rest, one))
        ]
      ]
