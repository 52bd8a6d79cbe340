-- ===== src/Reliability/RateLimiter/Tests.antt =====
-- internal/reliability/rate_limiter.go: limiters on thousandths.
use k8s_operator_cloudflare.Prelude.{
  ℕ, ◌+◌, ◌*◌, ◌≤◌, ◌≡◌, refl, none, some, List, [], ◌∷◌, arith, pos, second, replicate,
}
use k8s_operator_cloudflare.Prelude.Fixed.{
  Thousandths, fixed, fixed-IsOrdered, fixed-Converts, fixed-Computes,
}
use k8s_operator_cloudflare.Reliability.RateLimiter.{
  RateLimiterConfig, sliding_window, adaptive, new_rate_limiter, refill_tokens, allow, reserve,
  calculate_adaptive_delay, seconds,
}
use k8s_operator_cloudflare.Reliability.RateLimiter.Wait.{
  Turn, granted, wait, round, after_reserve, slept, limited,
}
use k8s_operator_cloudflare.Reliability.RateLimiter.Tokens.{
  Op, allows, reserves, sets_rate, run, IsBounded, run-IsBounded,
}
use k8s_operator_cloudflare.Reliability.RateLimiter.Starved.{granted_calls, burst_le}

-- Two requests per second, in bursts of two.
abbrev config : RateLimiterConfig Thousandths
config = record {
  name = "test";
  type = sliding_window;
  requests_per_second = pos 2000;
  burst_size = pos 2;
  window_size = pos 0;
  backoff_strategy = adaptive;
}

abbrev ops : List (Op Thousandths)
ops = allows 5 ∷ reserves 6 ∷ sets_rate (pos 500) (pos 1) ∷ allows 9 ∷ []

abbrev turns : List (Turn ℕ)
turns =
    record { allow_at = 1; reserve_at = 2; cancelled = none }
    ∷ record { allow_at = second; reserve_at = second + 1; cancelled = none }
    ∷ record { allow_at = 2 * second; reserve_at = 2 * second; cancelled = some 9 }
    ∷ []

-- The third request waits for half a second, and gets the token of the next round.
waits_for_a_token :
    let tb = (allow (allow (new_rate_limiter config 0) 0).0 0).0 in
    ((wait tb turns []).1 ≡ limited (pos 500000000) ∷ slept (pos 500000000) ∷ [])
    × ((wait tb turns []).2 ≡ granted)
unfolding wait round after_reserve allow reserve refill_tokens new_rate_limiter seconds
    calculate_adaptive_delay
waits_for_a_token = (refl, refl)

run-IsBounded_example : IsBounded (run (new_rate_limiter config 0) ops)
run-IsBounded_example = run-IsBounded fixed-IsOrdered fixed-Converts fixed-Computes config 0 ops

burst_le_example : granted_calls (new_rate_limiter config 7) (replicate 5 7) ≤ 2
unfolding new_rate_limiter seconds
burst_le_example =
    burst_le fixed-IsOrdered fixed-Computes 5 2 7 (new_rate_limiter config 7) refl
      (record { number_max = refl; adds_nothing = λ x n. ground arith }) (omega arith) refl
