-- ===== src/Reliability/RateLimiter/Wait.antt =====
-- internal/reliability/rate_limiter.go: `Wait`. The loop has no bound of its own: it runs along what
-- its rounds meet, and `still_waiting` says that it had not returned by their end.
use k8s_operator_cloudflare.Prelude.{
  ℕ, Option, none, some, List, [], ◌∷◌, ℤ, is_zero, if◌then◌else◌,
}
use k8s_operator_cloudflare.Prelude.Float.{Float64}
use k8s_operator_cloudflare.Reliability.RateLimiter.{
  TokenBucketLimiter, BackoffStrategy, unset_strategy, block, reject, adaptive, other_strategy,
  allow, reserve, calculate_adaptive_delay,
}

-- One round: the clock at `Allow` and at `Reserve`, and the error of the context if it ends the wait.
pub record Turn (E : Type 0) : Type 0 where
  pub allow_at : ℕ
  pub reserve_at : ℕ
  pub cancelled : Option E

pub data WaitResult (E : Type 0) : Type 0 where
  granted : WaitResult E
  rate_limited : WaitResult E
  ctx_error : E → WaitResult E
  still_waiting : WaitResult E

-- The delay of a timer, or of a call of OnRateLimited.
pub data Event : Type 0 where
  slept limited : ℤ → Event

-- How one round ends.
pub data Round (E : Type 0) : Type 0 where
  leave : List Event → WaitResult E → Round E
  again : List Event → Round E

module _ {E : Type 0} where
  -- The timer of the given delay, then the callback with the base delay.
  sleep : Turn E → ℤ → ℤ → List Event → Round E
  sleep turn delay base log = elim turn.cancelled [
    | some c ↦ leave log (ctx_error c)
    | none ↦ again (limited base ∷ slept delay ∷ log)
  ]

module _ {ℓ} {W : Type ℓ} ⦃f : Float64 W⦄ {E : Type 0} where
  -- The `switch` on the strategy; a strategy that is not known neither waits nor rejects.
  back_off : BackoffStrategy → TokenBucketLimiter W → Turn E → ℤ → List Event → Round E
  unfolding sleep
  back_off reject tb turn delay log = leave log rate_limited
  back_off block tb turn delay log = sleep turn delay delay log
  back_off adaptive tb turn delay log = sleep turn (calculate_adaptive_delay tb delay) delay log
  back_off unset_strategy tb turn delay log = again (limited delay ∷ log)
  back_off other_strategy tb turn delay log = again (limited delay ∷ log)

  unfoldable pub after_reserve : TokenBucketLimiter W → ℤ → Turn E → List Event → Round E
  unfolding back_off
  after_reserve tb delay turn log =
      if is_zero delay then again log else back_off tb.config.backoff_strategy tb turn delay log

  unfoldable pub round : TokenBucketLimiter W → Turn E → List Event → TokenBucketLimiter W × Round E
  round tb turn log =
      let (tb', admitted) = allow tb turn.allow_at in
      if admitted
      then (tb', leave log granted)
      else let (tb'', delay) = reserve tb' turn.reserve_at in
        (tb'', after_reserve tb'' delay turn log)

  unfoldable pub wait :
      TokenBucketLimiter W
      → List (Turn E)
      → List Event
      → TokenBucketLimiter W × List Event × WaitResult E
  wait tb [] log = (tb, log, still_waiting)
  wait tb (turn ∷ turns) log =
      let (tb', r) = round tb turn log in
      elim r [ leave log' result ↦ (tb', log', result) | again log' ↦ wait tb' turns log' ]
