-- ===== src/Reliability/CircuitBreaker.antt =====
-- internal/reliability/circuit_breaker.go. A method that mutates `*CircuitBreaker` returns the new
-- record; `time.Now()` is an argument of each call; `error` is an `Option`. Increments of the
-- metrics and calls of OnStateChange are entries of `events`, newest first.
pub mod Requests
pub mod Fine
pub mod InFlight
pub mod Invariant
pub mod Transitions
mod Tests
use k8s_operator_cloudflare.Prelude.{
  ℕ, ◌+◌, ◌*◌, ◌%◌, ◌^◌, String, Bool, true, false, not, ◌&&◌, Option, none, some, List, [], ◌∷◌,
  ltb, leb, ◌==◌, if◌then◌else◌, ℤ, pos, is_zero, add_time, second, or_default,
}

pub data CircuitBreakerState : Type 0 where
  state_closed state_open state_half_open : CircuitBreakerState

abbrev pub to_string : CircuitBreakerState → String
to_string state_closed = "closed"
to_string state_open = "open"
to_string state_half_open = "half-open"

abbrev same_state : CircuitBreakerState → CircuitBreakerState → Bool
same_state state_closed state_closed = true
same_state state_open state_open = true
same_state state_half_open state_half_open = true
same_state _ _ = false

-- uint32 and uint64 arithmetic wraps.
abbrev pub u32 : ℕ → ℕ
u32 n = n % 2 ^ 32

abbrev pub u64 : ℕ → ℕ
u64 n = n % 2 ^ 64

pub record Counts : Type 0 where
  pub requests : ℕ
  pub total_successes : ℕ
  pub total_failures : ℕ
  pub consecutive_successes : ℕ
  pub consecutive_failures : ℕ

unfoldable pub reset_counts : Counts
reset_counts = record {
  requests = 0;
  total_successes = 0;
  total_failures = 0;
  consecutive_successes = 0;
  consecutive_failures = 0;
}

unfoldable pub on_request : Counts → Counts
on_request c = record c { requests = u32 (c.requests + 1) }

unfoldable pub count_success : Counts → Counts
count_success c = record c {
  total_successes = u32 (c.total_successes + 1);
  consecutive_successes = u32 (c.consecutive_successes + 1);
  consecutive_failures = 0;
}

unfoldable pub count_failure : Counts → Counts
count_failure c = record c {
  total_failures = u32 (c.total_failures + 1);
  consecutive_failures = u32 (c.consecutive_failures + 1);
  consecutive_successes = 0;
}

-- The quotient of two uint32 values, kept exact: `numerator / denominator`.
pub record Rate : Type 0 where
  pub numerator : ℕ
  pub denominator : ℕ

unfoldable pub success_rate : Counts → Rate
success_rate c =
    if c.requests == 0
    then record { numerator = 0; denominator = 1 }
    else record { numerator = c.total_successes; denominator = c.requests }

unfoldable pub failure_rate : Counts → Rate
failure_rate c =
    if c.requests == 0
    then record { numerator = 0; denominator = 1 }
    else record { numerator = c.total_failures; denominator = c.requests }

-- `r >= 0.6`. The quotient of two uint32 values that is not 3/5 is more than 2^-35 away from it, so
-- rounding to a float64 does not move it across the constant.
abbrev pub at_least_three_fifths : Rate → Bool
at_least_three_fifths r = leb (3 * r.denominator) (5 * r.numerator)

unfoldable pub default_ready_to_trip : Counts → Bool
unfolding failure_rate
default_ready_to_trip c = leb 5 c.requests && at_least_three_fifths (failure_rate c)

unfoldable pub default_is_successful : {E : Type 0} → Option E → Bool
default_is_successful none = true
default_is_successful (some e) = false

-- A change carries the states that OnStateChange is called with.
pub data Event : Type 0 where
  request_counted : String → Event
  success_counted failure_counted : Event
  state_changed : CircuitBreakerState → CircuitBreakerState → Event

-- What the caller gives; `none` is a nil callback.
pub record CircuitBreakerConfig (E : Type 0) : Type 0 where
  pub name : String
  pub max_requests : ℕ
  pub interval : ℤ
  pub timeout : ℤ
  pub ready_to_trip : Option (Counts → Bool)
  pub is_successful : Option (Option E → Bool)

-- The configuration of a breaker, after the defaults.
pub record Settings (E : Type 0) : Type 0 where
  pub name : String
  pub max_requests : ℕ
  pub interval : ℤ
  pub timeout : ℤ
  pub ready_to_trip : Counts → Bool
  pub is_successful : Option E → Bool

pub record CircuitBreaker (E : Type 0) : Type 0 where
  pub config : Settings E
  pub state : CircuitBreakerState
  pub generation : ℕ
  pub counts : Counts
  pub expiry : ℕ
  pub events : List Event

pub data Error : Type 0 where
  circuit_breaker_open : Error

module _ {E : Type 0} where
  pub set_defaults : CircuitBreakerConfig E → Settings E
  set_defaults c = record {
    name = c.name;
    max_requests = if c.max_requests == 0 then 1 else c.max_requests;
    interval = if is_zero c.interval then pos (60 * second) else c.interval;
    timeout = if is_zero c.timeout then pos (60 * second) else c.timeout;
    ready_to_trip = or_default c.ready_to_trip default_ready_to_trip;
    is_successful = or_default c.is_successful default_is_successful;
  }

  unfoldable pub new_circuit_breaker : CircuitBreakerConfig E → ℕ → CircuitBreaker E
  unfolding set_defaults reset_counts
  new_circuit_breaker c now =
      let s = set_defaults c in
      record {
        config = s;
        state = state_closed;
        generation = 0;
        counts = reset_counts;
        expiry = add_time now s.interval;
        events = [];
      }

  abbrev log : CircuitBreaker E → Event → CircuitBreaker E
  log cb e = record cb { events = e ∷ cb.events }

  -- The zero time, 0, means that the state does not expire.
  next_expiry : Settings E → CircuitBreakerState → ℕ → ℕ
  next_expiry s state_closed now = if is_zero s.interval then 0 else add_time now s.interval
  next_expiry s state_open now = add_time now s.timeout
  next_expiry s state_half_open now = 0

  unfoldable pub to_new_generation : CircuitBreaker E → ℕ → CircuitBreaker E
  unfolding next_expiry reset_counts
  to_new_generation cb now = record cb {
    generation = u64 (cb.generation + 1);
    counts = reset_counts;
    expiry = next_expiry cb.config cb.state now;
  }

  unfoldable pub set_state : CircuitBreaker E → CircuitBreakerState → ℕ → CircuitBreaker E
  unfolding to_new_generation
  set_state cb s now =
      if same_state cb.state s
      then cb
      else log (to_new_generation (record cb { state = s }) now) (state_changed cb.state s)

  -- The `switch` of `currentState`.
  expire : CircuitBreakerState → CircuitBreaker E → ℕ → CircuitBreaker E
  unfolding to_new_generation set_state
  expire state_closed cb now =
      if not (cb.expiry == 0) && ltb cb.expiry now then to_new_generation cb now else cb
  expire state_open cb now = if ltb cb.expiry now then set_state cb state_half_open now else cb
  expire state_half_open cb now = cb

  -- The state and the generation are read off the result.
  unfoldable pub current_state : CircuitBreaker E → ℕ → CircuitBreaker E
  unfolding expire
  current_state cb now = expire cb.state cb now

  admit : CircuitBreaker E → CircuitBreaker E × ℕ × Option Error
  unfolding on_request
  admit cb = (
    log (record cb { counts = on_request cb.counts }) (request_counted (to_string cb.state)),
    cb.generation,
    none,
  )

  abbrev refuse : CircuitBreaker E → String → CircuitBreaker E × ℕ × Option Error
  refuse cb label = (log cb (request_counted label), cb.generation, some circuit_breaker_open)

  gate : CircuitBreakerState → CircuitBreaker E → CircuitBreaker E × ℕ × Option Error
  unfolding admit
  gate state_open cb = refuse cb "open"
  gate state_half_open cb =
      if leb cb.config.max_requests cb.counts.requests
      then refuse cb "half-open-rejected"
      else admit cb
  gate state_closed cb = admit cb

  unfoldable pub before_request : CircuitBreaker E → ℕ → CircuitBreaker E × ℕ × Option Error
  unfolding current_state gate
  before_request cb now = let cb' = current_state cb now in gate cb'.state cb'

  on_success : CircuitBreakerState → CircuitBreaker E → ℕ → CircuitBreaker E
  unfolding count_success set_state
  on_success s cb now =
      let cb' = log (record cb { counts = count_success cb.counts }) success_counted in
      if same_state s state_half_open
        && leb cb'.config.max_requests cb'.counts.consecutive_successes
      then set_state cb' state_closed now
      else cb'

  -- The `switch` of `onFailure`.
  trip : CircuitBreakerState → CircuitBreaker E → ℕ → CircuitBreaker E
  unfolding set_state
  trip state_closed cb now =
      if cb.config.ready_to_trip cb.counts then set_state cb state_open now else cb
  trip state_half_open cb now = set_state cb state_open now
  trip state_open cb now = cb

  on_failure : CircuitBreakerState → CircuitBreaker E → ℕ → CircuitBreaker E
  unfolding count_failure trip
  on_failure s cb now =
      trip s (log (record cb { counts = count_failure cb.counts }) failure_counted) now

  unfoldable pub after_request : CircuitBreaker E → ℕ → Option E → ℕ → CircuitBreaker E
  unfolding current_state on_success on_failure
  after_request cb before err now =
      let cb' = current_state cb now in
      if cb'.generation == before
      then if cb'.config.is_successful err
        then on_success cb'.state cb' now
        else on_failure cb'.state cb' now
      else cb'

  -- `State` writes: it moves the breaker on as `currentState` does. It holds the read lock only, so that
  -- calls at the same time race; here a call is one step.
  unfoldable pub state_of : CircuitBreaker E → ℕ → CircuitBreaker E × CircuitBreakerState
  unfolding current_state
  state_of cb now = let cb' = current_state cb now in (cb', cb'.state)

  -- The two readings of the clock.
  unfoldable pub reset : CircuitBreaker E → ℕ → ℕ → CircuitBreaker E
  unfolding to_new_generation set_state
  reset cb now later = set_state (to_new_generation cb now) state_closed later
