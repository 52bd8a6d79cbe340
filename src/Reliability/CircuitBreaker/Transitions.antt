-- ===== src/Reliability/CircuitBreaker/Transitions.antt =====
-- internal/reliability/circuit_breaker.go: when the breaker opens, probes and closes.
use k8s_operator_cloudflare.Prelude.{
  not, ◌&&◌, if◌then◌else◌, ℕ, suc, ◌+◌, ◌*◌, ◌^◌, ◌≤◌, ◌<◌, ◌≡◌, ◌↔◌, ◌⊎◌, true, false, Option,
  none, some, List, [], ◌∷◌, arith, add_time, length,
}
use k8s_operator_cloudflare.Reliability.CircuitBreaker.{
  CircuitBreakerState, state_closed, state_open, state_half_open, Counts, CircuitBreaker,
  request_counted, default_ready_to_trip, count_failure, before_request, after_request, state_of,
  circuit_breaker_open,
}
use k8s_operator_cloudflare.Reliability.CircuitBreaker.Requests.{returned, execute}

-- The changes of state that a request, its end or a look at the state makes.
pub data IsEdge : CircuitBreakerState → CircuitBreakerState → Type 0 where
  trips : IsEdge state_closed state_open
  probes : IsEdge state_open state_half_open
  recovers : IsEdge state_half_open state_closed
  relapses : IsEdge state_half_open state_open

abbrev pub Follows : CircuitBreakerState → CircuitBreakerState → Type 0
Follows s t = (s ≡ t) ⊎ IsEdge s t

-- The default of ReadyToTrip: at least five requests, three fifths of which failed.
pub default_ready_to_trip_iff :
    (c : Counts)
    → (default_ready_to_trip c ≡ true)
      ↔ ((5 ≤ c.requests) × (3 * c.requests ≤ 5 * c.total_failures))
unfolding default_ready_to_trip
default_ready_to_trip_iff c = ground arith

module _ {E : Type 0} where
  -- An open breaker that admits a probe when half-open (`max_requests` is positive) refuses every
  -- request up to its expiry, and changes only the log. After it, the breaker is half-open and admits
  -- the request as the first probe, with the other counts empty.
  pub before_request_open :
      (cb : CircuitBreaker E) (now : ℕ)
      → cb.state ≡ state_open
      → 0 < cb.config.max_requests
      → let (cb', generation, err) = before_request cb now in
        ((now ≤ cb.expiry)
          × (err ≡ some circuit_breaker_open)
          × (cb' ≡ record cb { events = request_counted "open" ∷ cb.events }))
        ⊎ ((cb.expiry < now)
            × (err ≡ none)
            × (cb'.state ≡ state_half_open)
            × (cb'.counts.requests ≡ 1)
            × (cb'.counts.total_successes ≡ 0)
            × (cb'.counts.total_failures ≡ 0))
  unfolding before_request
  before_request_open cb now h p = ground arith

  -- The end of a request of the current generation, in a closed breaker that has not expired: a
  -- failure after which ReadyToTrip holds opens the breaker for `timeout`, and nothing else does; a
  -- breaker that stays closed keeps its expiry.
  pub after_request_closed :
      (cb : CircuitBreaker E) (err : Option E) (now : ℕ)
      → cb.state ≡ state_closed
      → now ≤ cb.expiry
      → let cb' = after_request cb cb.generation err now in
        let trips_now =
          not (cb.config.is_successful err) && cb.config.ready_to_trip (count_failure cb.counts) in
        (cb'.state ≡ (if trips_now then state_open else state_closed))
        × (cb'.expiry ≡ (if trips_now then add_time now cb.config.timeout else cb.expiry))
  unfolding after_request
  after_request_closed cb err now h t = ground arith

  -- A request of the current generation that fails in a half-open breaker opens it again, for
  -- `timeout`, with no request counted.
  pub after_request_half_open :
      (cb : CircuitBreaker E) (err : Option E) (now : ℕ)
      → cb.state ≡ state_half_open
      → cb.config.is_successful err ≡ false
      → let cb' = after_request cb cb.generation err now in
        (cb'.state ≡ state_open)
        × (cb'.expiry ≡ add_time now cb.config.timeout)
        × (cb'.counts.requests ≡ 0)
  unfolding after_request
  after_request_half_open cb err now h f = ground arith

  -- Every change of state is an edge of the diagram: a request that begins or ends, whatever its
  -- generation and outcome, and a look at the state, each from any state.
  pub operations_follow_edges :
      (cb : CircuitBreaker E) (g : ℕ) (err : Option E) (now : ℕ)
      → Follows cb.state (before_request cb now).0.state
        × Follows cb.state (state_of cb now).0.state
        × Follows (state_of cb now).0.state (after_request cb g err now).state
  unfolding before_request state_of after_request
  operations_follow_edges cb g err now = grind (arith, trips, probes, recovers, relapses)

  -- One call of `execute` after another, each of a function that returns nil.
  abbrev pub succeed : E → CircuitBreaker E → List (ℕ × ℕ) → CircuitBreaker E
  succeed panic_error cb [] = cb
  succeed panic_error cb ((now, done) ∷ rest) =
      succeed panic_error (execute panic_error cb (λ b. (b, returned none)) now done).0 rest

  pub record IsProbing (j : ℕ) (cb : CircuitBreaker E) : Type 0 where
    pub half_open : cb.state ≡ state_half_open
    pub admitted : cb.counts.requests ≡ j
    pub in_a_row : cb.counts.consecutive_successes ≡ j
    pub small : cb.config.max_requests < 2 ^ 32
    pub nil_succeeds : cb.config.is_successful none ≡ true

  one_probe :
      (panic_error : E) (j now done : ℕ) (cb : CircuitBreaker E)
      → IsProbing j cb
      → let cb' = (execute panic_error cb (λ b. (b, returned none)) now done).0 in
        (suc j ≡ cb.config.max_requests → cb'.state ≡ state_closed)
        × (suc j < cb.config.max_requests
            → IsProbing (suc j) cb' × (cb'.config.max_requests ≡ cb.config.max_requests))
  unfolding execute before_request after_request
  one_probe panic_error j now done cb p = ground arith

  -- Where IsSuccessful accepts nil and MaxRequests is a uint32: a half-open breaker with `j` probes so
  -- far, all successful and ended, closes when the calls that it still wants, one after another,
  -- return nil.
  pub succeed_closes :
      (panic_error : E) (j : ℕ) (cb : CircuitBreaker E) (time : ℕ × ℕ) (times : List (ℕ × ℕ))
      → IsProbing j cb
      → j + suc (length times) ≡ cb.config.max_requests
      → (succeed panic_error cb (time ∷ times)).state ≡ state_closed
  succeed_closes panic_error j cb (now, done) [] p e =
      (one_probe panic_error j now done cb p).0 (omega arith)
  succeed_closes panic_error j cb (now, done) (t ∷ ts) p e =
      let (q, m) = (one_probe panic_error j now done cb p).1 (omega arith) in
      succeed_closes panic_error (suc j) _ t ts q (omega arith)
