-- ===== src/Reliability/Integration/Tests.antt =====
-- internal/reliability/reliability_integration_example.go: a call whose first attempt fails.
use k8s_operator_cloudflare.Prelude.{
  ℕ, zero, suc, ◌≤◌, ◌≡◌, refl, true, false, none, some, [], ◌∷◌, pos, if◌then◌else◌, ◌==◌, arith,
}
use k8s_operator_cloudflare.Prelude.Fixed.{Thousandths, fixed}
use k8s_operator_cloudflare.Reliability.CircuitBreaker.{
  new_circuit_breaker, before_request, after_request,
}
use k8s_operator_cloudflare.Reliability.CircuitBreaker.Requests.{returned, execute}
use k8s_operator_cloudflare.Reliability.RateLimiter.{
  allow, refill_tokens, seconds, new_rate_limiter,
}
use k8s_operator_cloudflare.Reliability.RateLimiter.Presets.{cloudflare_rate_limiter_config}
use k8s_operator_cloudflare.Reliability.RateLimiter.Wait.{round, wait}
use k8s_operator_cloudflare.Reliability.Retry
use k8s_operator_cloudflare.Reliability.Retry.{Retryer, World, RetryResult}
use k8s_operator_cloudflare.Reliability.Integration.{
  Components, Attempt, called, attempt, new_reliability_components, before, ending, calls,
  execute_with_reliability,
}
use k8s_operator_cloudflare.Reliability.Integration.Finishes.{
  WaitsEnd, Returns, execute_with_reliability-returns,
}

-- One retry.
abbrev retryer : Retryer Thousandths ℕ
retryer = record {
  max_retries = 1;
  initial_delay = pos 1;
  max_delay = pos 1;
  multiplier = pos 1000;
  jitter = false;
  retryable_checker = λ e. true;
}

abbrev components : Components Thousandths ℕ
unfolding new_reliability_components
components = (new_reliability_components (λ e. true) (λ e. true) 0).1

-- The function fails in the first attempt with the error 5.
abbrev attempt_at : ℕ → Attempt ℕ
attempt_at n = record {
  turns = record { allow_at = n; reserve_at = n; cancelled = none } ∷ [];
  asked_at = n;
  done_at = n;
  answer = some (returned (if n == 0 then some 5 else none));
}

abbrev world : World Thousandths ℕ
world = record { call = λ n. none; ctx_err = λ n. none; wait = λ n. none; random = λ n. pos 500 }

waits_end : WaitsEnd 1 2 3 components attempt_at 1
unfolding wait round allow refill_tokens seconds before attempt execute new_reliability_components
    new_rate_limiter cloudflare_rate_limiter_config new_circuit_breaker before_request after_request
waits_end zero b = λ e. cc
waits_end (suc zero) b = λ e. cc
waits_end (suc (suc n)) b = absurd (omega arith)

returns : Returns 1 2 3 components attempt_at 1
returns i b = (_, refl)

execute_with_reliability-returns_example :
    (result : RetryResult ℕ) × (n : ℕ) × (execute_with_reliability 1 2 3 retryer world components
        attempt_at
      ≡ some (result, before 1 2 3 components attempt_at (suc n)))
    × (n ≤ retryer.max_retries)
    × (calls 1 2 3 components attempt_at (suc n) ≤ suc n)
    × (result ≡ Retry.ok
        → (called (ending 1 2 3 components attempt_at n) ≡ true)
          × ((attempt_at n).answer ≡ some (returned none)))
execute_with_reliability-returns_example =
    execute_with_reliability-returns 1 2 3 components attempt_at retryer world waits_end returns
