-- ===== src/Reliability/CircuitBreaker/Fine.antt =====
-- internal/reliability/circuit_breaker.go: what the operations keep, for a breaker with `k`
-- requests of its generation running.
use k8s_operator_cloudflare.Prelude.{ℕ, suc, ◌+◌, ◌^◌, ◌≤◌, ◌<◌, ◌≡◌, ◌≢◌, ◌⊎◌, Option, none, arith}
use k8s_operator_cloudflare.Reliability.CircuitBreaker.{
  state_closed, state_half_open, CircuitBreaker, current_state, gate, before_request, on_success,
  on_failure, after_request, reset,
}

pub record Fine {E : Type 0} (k : ℕ) (cb : CircuitBreaker E) : Type 0 where
  pub accounted : cb.counts.requests ≡ cb.counts.total_successes + cb.counts.total_failures + k
  pub successes_bound : cb.counts.consecutive_successes ≤ cb.counts.total_successes
  pub failures_bound : cb.counts.consecutive_failures ≤ cb.counts.total_failures
  pub positive : 0 < cb.config.max_requests
  pub no_failed_probe : cb.state ≡ state_half_open → cb.counts.total_failures ≡ 0
  pub probes_in_a_row :
      cb.state ≡ state_half_open → cb.counts.consecutive_successes ≡ cb.counts.total_successes
  pub more_probes_wanted :
      cb.state ≡ state_half_open → cb.counts.total_successes < cb.config.max_requests
  pub probes_capped : cb.state ≡ state_half_open → cb.counts.requests ≤ cb.config.max_requests

-- The breaker stays in its generation, or starts the next with empty counts.
abbrev pub Moves : {E : Type 0} → ℕ → CircuitBreaker E → CircuitBreaker E → Type 0
Moves k cb cb' =
    ((cb'.generation ≡ cb.generation) × Fine k cb')
    ⊎ ((cb'.generation ≡ suc cb.generation) × Fine 0 cb')

module _ {E : Type 0} where
  pub current_state-Moves :
      (k : ℕ) (cb : CircuitBreaker E) (now : ℕ)
      → cb.generation + 1 < 2 ^ 64
      → Fine k cb
      → Moves k cb (current_state cb now)
  unfolding current_state
  current_state-Moves k cb now h f = ground arith

  -- The gate lets a request in, which then runs in this generation, or changes nothing but the log.
  gate-Fine :
      (k : ℕ) (cb : CircuitBreaker E)
      → cb.counts.requests + 1 < 2 ^ 32
      → Fine k cb
      → let (cb', generation, err) = gate cb.state cb in
        (cb'.generation ≡ cb.generation)
        × (generation ≡ cb.generation)
        × (((err ≡ none) × Fine (suc k) cb') ⊎ ((err ≢ none) × Fine k cb'))
  unfolding gate
  gate-Fine k cb h f = ground arith

  on_success-Moves :
      (k : ℕ) (cb : CircuitBreaker E) (now : ℕ)
      → cb.generation + 1 < 2 ^ 64
      → cb.counts.requests + 1 < 2 ^ 32
      → Fine (suc k) cb
      → Moves k cb (on_success cb.state cb now)
  unfolding on_success
  on_success-Moves k cb now h b f = ground arith

  on_failure-Moves :
      (k : ℕ) (cb : CircuitBreaker E) (now : ℕ)
      → cb.generation + 1 < 2 ^ 64
      → cb.counts.requests + 1 < 2 ^ 32
      → Fine (suc k) cb
      → Moves k cb (on_failure cb.state cb now)
  unfolding on_failure
  on_failure-Moves k cb now h b f = ground arith

  pub reset-Fine :
      (k : ℕ) (cb : CircuitBreaker E) (now later : ℕ)
      → cb.generation + 2 < 2 ^ 64
      → Fine k cb
      → let cb' = reset cb now later in
        Fine 0 cb'
        × (cb'.state ≡ state_closed)
        × (cb.generation < cb'.generation)
        × (cb'.generation ≤ cb.generation + 2)
  unfolding reset
  reset-Fine k cb now later h f = ground arith

  -- What a new request does to the breaker.
  pub before_request_cases :
      (k : ℕ) (cb : CircuitBreaker E) (now : ℕ)
      → cb.generation + 1 < 2 ^ 64
      → cb.counts.requests + 1 < 2 ^ 32
      → Fine k cb
      → let (cb', generation, err) = before_request cb now in
        (generation ≡ cb'.generation)
        × (((err ≡ none) × (cb'.generation ≡ cb.generation) × Fine (suc k) cb')
            ⊎ ((err ≡ none) × (cb'.generation ≡ suc cb.generation) × Fine 1 cb')
            ⊎ ((err ≢ none) × Moves k cb cb'))
  unfolding before_request
  before_request_cases k cb now h b f = ground arith

  -- The end of a request that runs in the generation `g`.
  pub after_request-Moves :
      (k g : ℕ) (cb : CircuitBreaker E) (err : Option E) (now : ℕ)
      → cb.generation + 2 < 2 ^ 64
      → cb.counts.requests + 1 < 2 ^ 32
      → g ≡ cb.generation
      → Fine (suc k) cb
      → Moves k cb (after_request cb g err now)
  unfolding after_request
  after_request-Moves k g cb err now h b e f = ground arith

  pub after_request_late :
      (k g : ℕ) (cb : CircuitBreaker E) (err : Option E) (now : ℕ)
      → cb.generation + 1 < 2 ^ 64
      → g < cb.generation
      → Fine k cb
      → Moves k cb (after_request cb g err now)
  unfolding after_request
  after_request_late k g cb err now h b f = ground (arith, current_state-Moves k cb now)
