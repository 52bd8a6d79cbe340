-- ===== src/Reliability/CircuitBreaker/Tests.antt =====
-- internal/reliability/circuit_breaker.go: a breaker through its states, on numbers as errors.
use k8s_operator_cloudflare.Prelude.{
  ℕ, ◌*◌, ◌≤◌, ◌<◌, ◌≡◌, refl, ◌⊎◌, none, some, List, [], ◌∷◌, arith, pos, second,
}
use k8s_operator_cloudflare.Reliability.CircuitBreaker.{
  state_closed, state_open, state_half_open, Counts, Settings, CircuitBreaker, CircuitBreakerConfig,
  reset_counts, default_ready_to_trip, default_is_successful, before_request, after_request,
  state_of,
}
use k8s_operator_cloudflare.Reliability.CircuitBreaker.Requests.{
  Call, begin, finish, count, remove, shared, step, run,
}
use k8s_operator_cloudflare.Reliability.CircuitBreaker.Invariant.{
  Sound, run-Sound, half_open_probes,
}
use k8s_operator_cloudflare.Reliability.CircuitBreaker.Transitions.{
  Follows, operations_follow_edges, succeed, succeed_closes,
}

abbrev config : CircuitBreakerConfig ℕ
config = record {
  name = "api";
  max_requests = 2;
  interval = pos 0;
  timeout = pos 10;
  ready_to_trip = none;
  is_successful = none;
}

abbrev five_failures : List (Call ℕ)
five_failures =
    begin 1
    ∷ begin 1
    ∷ begin 1
    ∷ begin 2
    ∷ begin 2
    ∷ finish 0 (some 7) 3
    ∷ finish 0 (some 7) 3
    ∷ finish 0 (some 7) 3
    ∷ finish 0 none 4
    ∷ []

-- Three failures among five requests open the breaker; the fourth end is of an old generation.
opens : (run (shared config 0) five_failures).breaker.state ≡ state_open
unfolding run shared step before_request after_request reset_counts count remove
    default_is_successful default_ready_to_trip
opens = refl

-- Eleven seconds later two probes run, and a third is refused.
abbrev probing : List (Call ℕ)
probing =
    begin 1
    ∷ begin 1
    ∷ begin 1
    ∷ begin 2
    ∷ begin 2
    ∷ finish 0 (some 7) 3
    ∷ finish 0 (some 7) 3
    ∷ finish 0 (some 7) 3
    ∷ begin 14
    ∷ begin 14
    ∷ []

-- Built by hand: the state that `probing` reaches.
abbrev settings : Settings ℕ
settings = record {
  name = "api";
  max_requests = 2;
  interval = pos (60 * second);
  timeout = pos 10;
  ready_to_trip = default_ready_to_trip;
  is_successful = default_is_successful;
}

abbrev no_counts : Counts
no_counts = record {
  requests = 0;
  total_successes = 0;
  total_failures = 0;
  consecutive_successes = 0;
  consecutive_failures = 0;
}

abbrev closed_breaker : CircuitBreaker ℕ
closed_breaker = record {
  config = settings;
  state = state_closed;
  generation = 0;
  counts = record no_counts { requests = 5; total_failures = 2; consecutive_failures = 2 };
  expiry = 60 * second;
  events = [];
}

abbrev opened : CircuitBreaker ℕ
opened = record closed_breaker { state = state_open; expiry = 13; counts = no_counts }

abbrev half_opened : CircuitBreaker ℕ
half_opened = record closed_breaker { state = state_half_open; expiry = 0; counts = no_counts }

run-Sound_example : Sound 9 (run (shared config 0) five_failures)
run-Sound_example = run-Sound config 0 five_failures (omega arith)

half_open_probes_example :
    let s = run (shared config 0) probing in
    let probes = count s.breaker.generation s.in_flight in
    (probes ≤ s.breaker.config.max_requests)
    × (((before_request s.breaker 15).2 ≡ none) ⊎ (0 < probes))
unfolding run shared step before_request after_request reset_counts count remove
    default_is_successful default_ready_to_trip
half_open_probes_example = half_open_probes config 0 probing 15 (omega arith) refl

operations_follow_edges_example :
    Follows state_open (before_request opened 14).0.state
    × Follows state_open (state_of opened 14).0.state
    × Follows (state_of opened 14).0.state (after_request opened 0 none 14).state
operations_follow_edges_example = operations_follow_edges opened 0 none 14

succeed_closes_example : (succeed 0 half_opened ((20, 21) ∷ (22, 23) ∷ [])).state ≡ state_closed
unfolding default_is_successful
succeed_closes_example =
    succeed_closes 0 0 half_opened (20, 21) ((22, 23) ∷ [])
      (record {
        half_open = refl;
        admitted = refl;
        in_a_row = refl;
        small = omega arith;
        nil_succeeds = refl;
      })
      refl
