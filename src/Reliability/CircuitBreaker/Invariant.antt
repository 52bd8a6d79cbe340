-- ===== src/Reliability/CircuitBreaker/Invariant.antt =====
-- internal/reliability/circuit_breaker.go: what holds of a shared breaker after any calls.
use k8s_operator_cloudflare.Prelude.{
  Option-cases, inl, inr, ◌⊎◌, ℕ, suc, ◌+◌, ◌*◌, ◌^◌, ◌≤◌, ◌<◌, ◌≡◌, ◌≢◌, refl, sym, ap, subst, ◌⊎◌,
  inl, inr, Option, none, some, List, [], ◌∷◌, arith, Bool-cases, ◌==◌, length,
}
use native.Mathlib.Nat.{add-zero, add-suc, suc-add, zero-add}
use k8s_operator_cloudflare.Reliability.CircuitBreaker.{
  CircuitBreaker, CircuitBreakerConfig, Error, state_half_open, before_request, after_request,
  reset, current_state, state_of,
}
use k8s_operator_cloudflare.Reliability.CircuitBreaker.Requests.{
  System, shared, Call, begin, finish, observe, reset_at, count, remove, enter, step, run,
}
use k8s_operator_cloudflare.Reliability.CircuitBreaker.Fine.{
  Fine, Moves, current_state-Moves, before_request_cases, after_request-Moves, after_request_late,
  reset-Fine,
}
use k8s_operator_cloudflare.Reliability.CircuitBreaker.InFlight.{
  AtMost, AtMost-mono, remove-AtMost, count_above, count-remove_self, count-remove_ne, count_pos,
}

-- After `n` calls.
pub record Sound {E : Type 0} (n : ℕ) (s : System E) : Type 0 where
  pub fine : Fine (count s.breaker.generation s.in_flight) s.breaker
  pub tokens : AtMost s.breaker.generation s.in_flight
  pub requests_bound : s.breaker.counts.requests ≤ n
  pub generation_bound : s.breaker.generation ≤ 2 * n

module _ {E : Type 0} where
  refused_full :
      (cb : CircuitBreaker E) (now : ℕ)
      → cb.state ≡ state_half_open
      → (before_request cb now).2 ≢ none
      → cb.config.max_requests ≤ cb.counts.requests
  unfolding before_request
  refused_full cb now h r = ground arith

  recount : (cb : CircuitBreaker E) {j k : ℕ} → j ≡ k → Fine j cb → Fine k cb
  recount cb e = subst (λ i. Fine i cb) e

  before_request-requests :
      (cb : CircuitBreaker E) (now : ℕ)
      → (before_request cb now).0.counts.requests ≤ cb.counts.requests + 1
  unfolding before_request
  before_request-requests cb now = ground arith

  after_request-requests :
      (cb : CircuitBreaker E) (g : ℕ) (err : Option E) (now : ℕ)
      → (after_request cb g err now).counts.requests ≤ cb.counts.requests
  unfolding after_request
  after_request-requests cb g err now = ground arith

  current_state-requests :
      (cb : CircuitBreaker E) (now : ℕ)
      → (current_state cb now).counts.requests ≤ cb.counts.requests
  unfolding current_state
  current_state-requests cb now = ground arith

  reset-requests :
      (cb : CircuitBreaker E) (now later : ℕ) → (reset cb now later).counts.requests ≡ 0
  unfolding reset
  reset-requests cb now later = ground arith

  -- The breaker moves on, and `xs` are the requests that run then.
  settle-Sound :
      (n : ℕ) (cb cb' : CircuitBreaker E) (xs : List ℕ)
      → Moves (count cb.generation xs) cb cb'
      → cb'.counts.requests ≤ suc n
      → cb.generation ≤ 2 * n
      → AtMost cb.generation xs
      → Sound (suc n) (record { breaker = cb'; in_flight = xs })
  settle-Sound n cb cb' xs (inl (e, f)) r g a = record {
    fine = recount cb' (ap (λ h. count h xs) (sym e)) f;
    tokens = AtMost-mono xs (omega arith) a;
    requests_bound = r;
    generation_bound = omega arith;
  }
  settle-Sound n cb cb' xs (inr (e, f)) r g a = record {
    fine = recount cb' (sym (count_above cb.generation cb'.generation xs a (omega arith))) f;
    tokens = AtMost-mono xs (omega arith) a;
    requests_bound = r;
    generation_bound = omega arith;
  }

  enter-Sound :
      (n : ℕ) (cb : CircuitBreaker E) (xs : List ℕ) (r : CircuitBreaker E × ℕ × Option Error)
      → r.1 ≡ r.0.generation
      → ((r.2 ≡ none) × (r.0.generation ≡ cb.generation) × Fine (suc (count cb.generation xs)) r.0)
        ⊎ ((r.2 ≡ none) × (r.0.generation ≡ suc cb.generation) × Fine 1 r.0)
        ⊎ ((r.2 ≢ none) × Moves (count cb.generation xs) cb r.0)
      → r.0.counts.requests ≤ suc n
      → cb.generation ≤ 2 * n
      → AtMost cb.generation xs
      → Sound (suc n) (enter xs r)
  unfolding enter count
  enter-Sound n cb xs (cb', g, none) e (inl (d, s, f)) r b a = record {
    fine = recount cb' (ground (arith, ap (λ h. count h xs) s)) f;
    tokens = (omega arith, AtMost-mono xs (omega arith) a);
    requests_bound = r;
    generation_bound = omega arith;
  }
  enter-Sound n cb xs (cb', g, none) e (inr (inl (d, s, f))) r b a = record {
    fine = recount cb' (ground (arith, count_above cb.generation cb'.generation xs a)) f;
    tokens = (omega arith, AtMost-mono xs (omega arith) a);
    requests_bound = r;
    generation_bound = omega arith;
  }
  enter-Sound n cb xs (cb', g, none) e (inr (inr (d, m))) r b a = absurd (d refl)
  enter-Sound n cb xs (cb', g, some x) e (inl (d, _, _)) r b a = cc
  enter-Sound n cb xs (cb', g, some x) e (inr (inl (d, _, _))) r b a = cc
  enter-Sound n cb xs (cb', g, some x) e (inr (inr (d, m))) r b a = settle-Sound n cb cb' xs m r b a

  finish-Sound :
      (n g : ℕ) (s : System E) (err : Option E) (now : ℕ)
      → n + 2 < 2 ^ 31
      → Sound n s
      → 0 < count g s.in_flight
      → (g ≡ s.breaker.generation) ⊎ (g < s.breaker.generation)
      → Sound
          (suc n)
          (record { breaker = after_request s.breaker g err now; in_flight = remove g s.in_flight })
  finish-Sound n g s err now b v p m =
      settle-Sound n s.breaker (after_request s.breaker g err now) rest (moves m)
        (omega (arith, after_request-requests s.breaker g err now)) v.generation_bound
        (remove-AtMost s.breaker.generation g s.in_flight v.tokens)
    where
      rest : List ℕ
      rest = remove g s.in_flight

      moves :
          (g ≡ s.breaker.generation) ⊎ (g < s.breaker.generation)
          → Moves (count s.breaker.generation rest) s.breaker (after_request s.breaker g err now)
      moves (inl e) =
          after_request-Moves (count s.breaker.generation rest) g s.breaker err now (omega arith)
            (omega arith) e
            (recount s.breaker (count-remove_self g s.breaker.generation s.in_flight e p) v.fine)
      moves (inr l) =
          after_request_late (count s.breaker.generation rest) g s.breaker err now (omega arith) l (
            recount s.breaker
              (sym (count-remove_ne g s.breaker.generation s.in_flight (omega arith))) v.fine)

  weaken : (n : ℕ) (s : System E) → Sound n s → Sound (suc n) s
  weaken n s v = record {
    fine = v.fine;
    tokens = v.tokens;
    requests_bound = omega arith;
    generation_bound = omega arith;
  }

  step-Sound :
      (n : ℕ) (s : System E) (c : Call E) → n + 2 < 2 ^ 31 → Sound n s → Sound (suc n) (step s c)
  unfolding step state_of
  step-Sound n s (begin now) b v =
      let (e, m) =
        before_request_cases (count s.breaker.generation s.in_flight) s.breaker now (omega arith)
          (omega arith) v.fine in
      enter-Sound n s.breaker s.in_flight (before_request s.breaker now) e m
        (omega (arith, before_request-requests s.breaker now)) v.generation_bound v.tokens
  step-Sound n s (finish g err now) b v = elim (Bool-cases (count g s.in_flight == 0)) [
    | inl e ↦ rw e (weaken n s v)
    | inr e ↦ rw e (
        finish-Sound n g s err now b v (ground arith)
          (ground (arith, count_pos s.breaker.generation g s.in_flight v.tokens)))
  ]
  step-Sound n s (observe now) b v =
      settle-Sound n s.breaker (current_state s.breaker now) s.in_flight
        (current_state-Moves _ s.breaker now (omega arith) v.fine)
        (omega (arith, current_state-requests s.breaker now)) v.generation_bound v.tokens
  step-Sound n s (reset_at now later) b v =
      let (f, _, l, u) =
        reset-Fine (count s.breaker.generation s.in_flight) s.breaker now later (omega arith)
          v.fine in
      record {
        fine = recount _ (sym (count_above s.breaker.generation _ s.in_flight v.tokens l)) f;
        tokens = AtMost-mono s.in_flight (omega arith) v.tokens;
        requests_bound = omega (arith, reset-requests s.breaker now later);
        generation_bound = omega arith;
      }

  new-Sound : (c : CircuitBreakerConfig E) (now : ℕ) → Sound 0 (shared c now)
  unfolding shared count
  new-Sound c now = ground arith

  run_from-Sound :
      (n : ℕ) (s : System E) (cs : List (Call E))
      → n + length cs + 2 < 2 ^ 31
      → Sound n s
      → Sound (n + length cs) (run s cs)
  unfolding run
  run_from-Sound n s [] b v = rw add-zero v
  run_from-Sound n s (c ∷ cs) b v =
      rw (add-suc, ← suc-add)
        (run_from-Sound (suc n) (step s c) cs (omega arith) (step-Sound n s c (omega arith) v))

  -- Where fewer than 2^31 - 2 calls were made, nothing has wrapped: the requests of the generation
  -- are its successes, its failures and those that still run; while half-open no probe has failed,
  -- and fewer have succeeded than the breaker admits.
  pub run-Sound :
      (c : CircuitBreakerConfig E) (now : ℕ) (cs : List (Call E))
      → length cs + 2 < 2 ^ 31
      → Sound (length cs) (run (shared c now) cs)
  run-Sound c now cs b =
      rw zero-add at (run_from-Sound 0 (shared c now) cs (omega arith) (new-Sound c now))

  -- After fewer than 2^31 - 2 calls, a half-open breaker runs at most `max_requests` requests of its
  -- generation at once; and it admits the next request, or one of them still runs.
  pub half_open_probes :
      (c : CircuitBreakerConfig E) (now : ℕ) (cs : List (Call E)) (later : ℕ)
      → length cs + 2 < 2 ^ 31
      → (run (shared c now) cs).breaker.state ≡ state_half_open
      → let s = run (shared c now) cs in
        let probes = count s.breaker.generation s.in_flight in
        (probes ≤ s.breaker.config.max_requests)
        × (((before_request s.breaker later).2 ≡ none) ⊎ (0 < probes))
  half_open_probes c now cs later b h =
      let s = run (shared c now) cs in
      let v = run-Sound c now cs b in
      (
        ground arith,
        elim (Option-cases (before_request s.breaker later).2) [
          | inl admitted ↦ inl admitted
          | inr (e, refused) ↦
              inr (ground (arith, refused_full s.breaker later h (λ n. ground (arith, n, refused))))
        ],
      )
