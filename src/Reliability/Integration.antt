-- ===== src/Reliability/Integration.antt =====
-- internal/reliability/reliability_integration_example.go: the retries around the rate limiter and the
-- circuit breaker. The attempts of one call share the limiter and the breaker: attempt `i` meets the
-- state that the attempts before it have left.
pub mod Finishes
mod Tests
use k8s_operator_cloudflare.Prelude.{
  ℕ, zero, suc, ◌*◌, pos, Bool, true, false, ◌||◌, ◌&&◌, Option, none, some, List, [], ◌∷◌,
  if◌then◌else◌, leb, second,
}
use k8s_operator_cloudflare.Prelude.Float.{Float64}
use k8s_operator_cloudflare.Reliability.CircuitBreaker.{
  CircuitBreaker, Counts, Error, before_request, new_circuit_breaker, failure_rate,
  at_least_three_fifths,
}
use k8s_operator_cloudflare.Reliability.CircuitBreaker.Requests.{
  Outcome, ExecuteResult, rejected, finished, returned, panicked, execute,
}
use k8s_operator_cloudflare.Reliability.RateLimiter.{TokenBucketLimiter, new_rate_limiter}
use k8s_operator_cloudflare.Reliability.RateLimiter.Presets.{cloudflare_rate_limiter_config}
use k8s_operator_cloudflare.Reliability.RateLimiter.Wait
use k8s_operator_cloudflare.Reliability.RateLimiter.Wait.{
  Turn, WaitResult, granted, rate_limited, ctx_error, still_waiting, wait,
}
use k8s_operator_cloudflare.Reliability.Retry.{
  Retryer, World, RetryResult, retry, new_retryer, cloudflare_retry_config,
}
use k8s_operator_cloudflare.Reliability.Retry.Loop.{attempts}

-- The parts that hold state.
pub record Components {ℓ} (W : Type ℓ) (E : Type 0) : Type ℓ where
  pub circuit_breaker : CircuitBreaker E
  pub rate_limiter : TokenBucketLimiter W

-- One call of the function that Retry runs: what the wait meets, the clock when the breaker is asked
-- and when `fn` has ended, and how `fn` ends if it is called: it returns an error or nil, or it panics,
-- or, for `none`, it never ends.
pub record Attempt (E : Type 0) : Type 0 where
  pub turns : List (Turn E)
  pub asked_at : ℕ
  pub done_at : ℕ
  pub answer : Option (Outcome E)

-- How it ends: with an error or nil, after `fn` was called or not; or it does not return, since the wait
-- or `fn` does not end, or since the panic of `fn` passes through the breaker.
pub data Ended (E : Type 0) : Type 0 where
  ended : Bool → Option E → Ended E
  no_return : Ended E

abbrev called : {E : Type 0} → Ended E → Bool
called (ended c e) = c
called no_return = false

abbrev error_of : {E : Type 0} → Ended E → Option E
error_of (ended c e) = e
error_of no_return = none

abbrev is_blocked : {E : Type 0} → Ended E → Bool
is_blocked (ended c e) = false
is_blocked no_return = true

unfoldable pub ready_to_trip : Counts → Bool
ready_to_trip c = leb 5 c.requests && at_least_three_fifths (failure_rate c)

module _ {ℓ} {W : Type ℓ} ⦃f : Float64 W⦄ {E : Type 0} where
  -- `checker` and `cloudflare_checker` are defaultRetryableChecker and cloudflareRetryable.
  unfoldable pub new_reliability_components :
      (Option E → Bool) → (Option E → Bool) → ℕ → Retryer W E × Components W E
  unfolding ready_to_trip
  new_reliability_components checker cloudflare_checker now = (
    new_retryer checker (cloudflare_retry_config cloudflare_checker),
    record {
      circuit_breaker =
          new_circuit_breaker
            (record {
              name = "cloudflare-api";
              max_requests = 3;
              interval = pos (60 * second);
              timeout = pos (30 * second);
              ready_to_trip = some ready_to_trip;
              is_successful = none;
            })
            now;
      rate_limiter = new_rate_limiter cloudflare_rate_limiter_config now;
    },
  )

  -- ErrCircuitBreakerOpen, ErrRateLimited, and the error that a panic is counted with.
  module _ (open_error limited_error panic_error : E) where
    abbrev executed :
        TokenBucketLimiter W → CircuitBreaker E × ExecuteResult E → Components W E × Ended E
    executed tb (cb, rejected e) =
        (record { circuit_breaker = cb; rate_limiter = tb }, ended false (some open_error))
    executed tb (cb, finished (returned answer)) =
        (record { circuit_breaker = cb; rate_limiter = tb }, ended true answer)
    executed tb (cb, finished panicked) =
        (record { circuit_breaker = cb; rate_limiter = tb }, no_return)

    -- A breaker that has been asked, for a function that never ends.
    abbrev hung :
        TokenBucketLimiter W → CircuitBreaker E × ℕ × Option Error → Components W E × Ended E
    hung tb (cb, generation, some e) =
        (record { circuit_breaker = cb; rate_limiter = tb }, ended false (some open_error))
    hung tb (cb, generation, none) = (record { circuit_breaker = cb; rate_limiter = tb }, no_return)

    unfoldable asked :
        CircuitBreaker E
        → TokenBucketLimiter W
        → ℕ
        → ℕ
        → Option (Outcome E)
        → Components W E × Ended E
    asked cb tb now done none = hung tb (before_request cb now)
    asked cb tb now done (some out) =
        executed tb (execute panic_error cb (λ cb'. (cb', out)) now done)

    unfoldable waited :
        CircuitBreaker E
        → Attempt E
        → TokenBucketLimiter W × List Wait.Event × WaitResult E
        → Components W E × Ended E
    unfolding asked
    waited cb a (tb, log, granted) = asked cb tb a.asked_at a.done_at a.answer
    waited cb a (tb, log, rate_limited) =
        (record { circuit_breaker = cb; rate_limiter = tb }, ended false (some limited_error))
    waited cb a (tb, log, ctx_error e) =
        (record { circuit_breaker = cb; rate_limiter = tb }, ended false (some e))
    waited cb a (tb, log, still_waiting) =
        (record { circuit_breaker = cb; rate_limiter = tb }, no_return)

    -- The function that Retry is given.
    unfoldable pub attempt : Components W E → Attempt E → Components W E × Ended E
    unfolding waited
    attempt c a = waited c.circuit_breaker a (wait c.rate_limiter a.turns [])

    -- The state before attempt `i`, and how that attempt ends.
    unfoldable pub before : Components W E → (ℕ → Attempt E) → ℕ → Components W E
    unfolding attempt
    before c a zero = c
    before c a (suc i) = (attempt (before c a i) (a i)).0

    unfoldable pub ending : Components W E → (ℕ → Attempt E) → ℕ → Ended E
    unfolding attempt
    ending c a i = (attempt (before c a i) (a i)).1

    -- Of the first attempts: whether one does not return, and how often `fn` is called.
    unfoldable pub any_blocked : Components W E → (ℕ → Attempt E) → ℕ → Bool
    unfolding ending
    any_blocked c a zero = false
    any_blocked c a (suc n) = any_blocked c a n || is_blocked (ending c a n)

    unfoldable pub calls : Components W E → (ℕ → Attempt E) → ℕ → ℕ
    unfolding ending
    calls c a zero = 0
    calls c a (suc n) = let rest = calls c a n in if called (ending c a n) then suc rest else rest

    -- Retry asks for the attempts in their order, so that those that its log counts are those that
    -- are made. `none` is that one of them
    -- does not return; Retry is then in it for ever, or ends with its panic.
    abbrev result_of :
        Components W E
        → (ℕ → Attempt E)
        → ℕ
        → RetryResult E
        → Option (RetryResult E × Components W E)
    result_of c a n result = if any_blocked c a n then none else some (result, before c a n)

    unfoldable pub world_of : World W E → Components W E → (ℕ → Attempt E) → World W E
    unfolding ending
    world_of w c a = record w { call = λ i. error_of (ending c a i) }

    unfoldable pub execute_with_reliability :
        Retryer W E
        → World W E
        → Components W E
        → (ℕ → Attempt E)
        → Option (RetryResult E × Components W E)
    unfolding any_blocked before world_of
    execute_with_reliability r w c a =
        let (log, result) = retry r (world_of w c a) in result_of c a (attempts log) result
