-- ===== src/Reliability/RateLimiter/Tokens.antt =====
-- internal/reliability/rate_limiter.go: the bucket never holds more than its maximum, and what that
-- bounds.
use k8s_operator_cloudflare.Prelude.{
  ℕ, ◌≡◌, refl, inl, inr, false, List, [], ◌∷◌, ℤ, pos, Bool-cases,
}
use k8s_operator_cloudflare.Prelude.Float.{Float64, ◌≼◌, IsNumber, IsOrdered, Converts, Computes}
use k8s_operator_cloudflare.Reliability.RateLimiter.{
  RateLimiterType, unset_type, token_bucket, sliding_window, fixed_window, other_type, by_type,
  set_defaults, new_token_bucket_limiter, RateLimiterConfig, TokenBucketLimiter, min_val,
  new_rate_limiter, refill_tokens, take_token, allow, reserve, set_rate, stats, reset,
  calculate_adaptive_delay,
}

pub data Op {ℓ} (W : Type ℓ) : Type ℓ where
  allows reserves reads resets : ℕ → Op W
  sets_rate : W → ℤ → Op W

module _ {ℓ} {W : Type ℓ} ⦃f : Float64 W⦄ where
  unfoldable pub step : TokenBucketLimiter W → Op W → TokenBucketLimiter W
  step tb (allows now) = (allow tb now).0
  step tb (reserves now) = (reserve tb now).0
  step tb (reads now) = (stats tb now).0
  step tb (resets now) = reset tb now
  step tb (sets_rate rate burst) = set_rate tb rate burst

  unfoldable pub run : TokenBucketLimiter W → List (Op W) → TokenBucketLimiter W
  run tb [] = tb
  run tb (o ∷ os) = run (step tb o) os

  pub record IsBounded (tb : TokenBucketLimiter W) : Type ℓ where
    pub capped : tb.tokens ≼ tb.max_tokens
    pub at_maximum : tb.max_tokens ≡ f.of_ℤ tb.config.burst_size
    pub at_rate : tb.refill_rate ≡ tb.config.requests_per_second
    pub none_waits : tb.waiting ≡ 0

  module _ (order : IsOrdered W) (conv : Converts W) (comp : Computes W) where
    open order use {le_of_lt, le_of_not_lt, le_trans, number_of_le}
    open conv use {number_of_ℤ}
    open comp use {sub_one_le, half_pos, succ_pos, zero_div}

    min_val_le : (a b : W) → IsNumber b → min_val a b ≼ b
    unfolding min_val
    min_val_le a b n = elim (Bool-cases (f.lt a b)) [
      | inl e ↦ rw e (le_of_lt a b e)
      | inr e ↦ rw e n
    ]

    refill-IsBounded :
        (tb : TokenBucketLimiter W) (now : ℕ) → IsBounded tb → IsBounded (refill_tokens tb now)
    unfolding refill_tokens
    refill-IsBounded tb now b = record {
      capped = min_val_le _ _ (number_of_le _ _ b.capped).1;
      at_maximum = b.at_maximum;
      at_rate = b.at_rate;
      none_waits = b.none_waits;
    }

    take_token-IsBounded : (tb : TokenBucketLimiter W) → IsBounded tb → IsBounded (take_token tb).0
    unfolding take_token
    take_token-IsBounded tb b = elim (Bool-cases (f.le (f.lit 1 0) tb.tokens)) [
      | inl e ↦ rw e (record {
        capped = le_trans _ _ _ (sub_one_le tb.tokens (number_of_le _ _ b.capped).0) b.capped;
        at_maximum = b.at_maximum;
        at_rate = b.at_rate;
        none_waits = b.none_waits;
      })
      | inr e ↦ rw e (record {
        capped = b.capped;
        at_maximum = b.at_maximum;
        at_rate = b.at_rate;
        none_waits = b.none_waits;
      })
    ]

    set_rate_capped :
        (tb : TokenBucketLimiter W) (rate : W) (burst : ℤ)
        → IsNumber tb.tokens
        → (set_rate tb rate burst).tokens ≼ f.of_ℤ burst
    unfolding set_rate
    set_rate_capped tb rate burst n = elim (Bool-cases (f.lt (f.of_ℤ burst) tb.tokens)) [
      | inl e ↦ rw e (number_of_ℤ burst)
      | inr e ↦ rw e (le_of_not_lt tb.tokens (f.of_ℤ burst) n (number_of_ℤ burst) e)
    ]

    step-IsBounded : (tb : TokenBucketLimiter W) (o : Op W) → IsBounded tb → IsBounded (step tb o)
    unfolding step allow reserve stats reset set_rate
    step-IsBounded tb (allows now) b =
        take_token-IsBounded (refill_tokens tb now) (refill-IsBounded tb now b)
    step-IsBounded tb (reserves now) b = refill-IsBounded tb now b
    step-IsBounded tb (reads now) b = refill-IsBounded tb now b
    step-IsBounded tb (resets now) b = record {
      capped = (number_of_le _ _ b.capped).1;
      at_maximum = b.at_maximum;
      at_rate = b.at_rate;
      none_waits = refl;
    }
    step-IsBounded tb (sets_rate rate burst) b = record {
      capped = set_rate_capped tb rate burst (number_of_le _ _ b.capped).0;
      at_maximum = refl;
      at_rate = refl;
      none_waits = b.none_waits;
    }

    run_from-IsBounded :
        (tb : TokenBucketLimiter W) (os : List (Op W)) → IsBounded tb → IsBounded (run tb os)
    unfolding run
    run_from-IsBounded tb [] b = b
    run_from-IsBounded tb (o ∷ os) b = run_from-IsBounded (step tb o) os (step-IsBounded tb o b)

    fresh-IsBounded :
        (c : RateLimiterConfig W) (now : ℕ) → IsBounded (new_token_bucket_limiter c now)
    unfolding new_token_bucket_limiter
    fresh-IsBounded c now = record {
      capped = number_of_ℤ c.burst_size;
      at_maximum = refl;
      at_rate = refl;
      none_waits = refl;
    }

    by_type-IsBounded :
        (t : RateLimiterType) (c : RateLimiterConfig W) (now : ℕ) → IsBounded (by_type t c now)
    unfolding by_type
    by_type-IsBounded token_bucket c now = fresh-IsBounded c now
    by_type-IsBounded unset_type c now = fresh-IsBounded (record c { type = token_bucket }) now
    by_type-IsBounded sliding_window c now = fresh-IsBounded (record c { type = token_bucket }) now
    by_type-IsBounded fixed_window c now = fresh-IsBounded (record c { type = token_bucket }) now
    by_type-IsBounded other_type c now = fresh-IsBounded (record c { type = token_bucket }) now

    new-IsBounded : (c : RateLimiterConfig W) (now : ℕ) → IsBounded (new_rate_limiter c now)
    unfolding new_rate_limiter
    new-IsBounded c now = by_type-IsBounded c.type (set_defaults c) now

    -- Over floats that compare, convert and compute as IEEE 754 says: whatever is called on a new limiter, of whatever type: the tokens stay within the maximum, which
    -- is the burst size, the rate of refill is the configured one, and nothing counts as waiting.
    pub run-IsBounded :
        (c : RateLimiterConfig W) (now : ℕ) (os : List (Op W))
        → IsBounded (run (new_rate_limiter c now) os)
    run-IsBounded c now os = run_from-IsBounded (new_rate_limiter c now) os (new-IsBounded c now)

    no_waiting_ratio :
        (m n : ℕ)
        → m ≡ 0
        → f.lt (f.lit 5 1) (f.div (f.of_ℤ (pos m)) (f.add (f.of_ℤ (pos n)) (f.lit 1 0))) ≡ false
    no_waiting_ratio m n e = rw (e, zero_div _ (succ_pos n)) half_pos

    no_waiting_delay :
        (tb : TokenBucketLimiter W) (base : ℤ)
        → tb.waiting ≡ 0
        → calculate_adaptive_delay tb base ≡ base
    unfolding calculate_adaptive_delay
    no_waiting_delay tb base e = rw (no_waiting_ratio tb.waiting _ e)

    -- Over floats that compare, convert and compute as IEEE 754 says, the adaptive strategy never shortens a delay: it divides by the number that waits, which no
    -- call raises.
    pub adaptive_never_shortens :
        (c : RateLimiterConfig W) (now : ℕ) (os : List (Op W)) (base : ℤ)
        → calculate_adaptive_delay (run (new_rate_limiter c now) os) base ≡ base
    adaptive_never_shortens c now os base =
        no_waiting_delay (run (new_rate_limiter c now) os) base (run-IsBounded c now os).none_waits
