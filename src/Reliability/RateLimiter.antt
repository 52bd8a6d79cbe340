-- ===== src/Reliability/RateLimiter.antt =====
-- internal/reliability/rate_limiter.go. A method returns the new limiter; `time.Now()` is an argument
-- of each call. The gauges and counters of Prometheus repeat the fields, and are left out.
pub mod Presets
pub mod Wait
pub mod Tokens
pub mod Starved
mod Tests
use k8s_operator_cloudflare.Prelude.{
  ℕ, suc, ◌+◌, ◌/◌, ◌%◌, ◌^◌, String, Bool, true, false, leb, ◌==◌, if◌then◌else◌, ℤ, pos, negsuc,
  neg_part, sub_ℕ, ltb_ℤ, leb_ℤ, is_zero, second,
}
use k8s_operator_cloudflare.Prelude.Float.{Float64}

-- `unset_type` is the empty string, and `other_type` any other text.
pub data RateLimiterType : Type 0 where
  unset_type token_bucket sliding_window fixed_window other_type : RateLimiterType

pub data BackoffStrategy : Type 0 where
  unset_strategy block reject adaptive other_strategy : BackoffStrategy

-- OnRateLimited is always logged, see `Wait`.
pub record RateLimiterConfig {ℓ} (W : Type ℓ) : Type ℓ where
  pub name : String
  pub type : RateLimiterType
  pub requests_per_second : W
  pub burst_size : ℤ
  pub window_size : ℤ
  pub backoff_strategy : BackoffStrategy

pub record RateLimiterStats {ℓ} (W : Type ℓ) : Type ℓ where
  pub requests_allowed : ℕ
  pub requests_rejected : ℕ
  pub requests_waiting : ℕ
  pub current_tokens : W
  pub requests_per_second : W
  pub burst_size : ℤ
  pub last_refill : ℕ

-- The counters are uint64.
pub record TokenBucketLimiter {ℓ} (W : Type ℓ) : Type ℓ where
  pub config : RateLimiterConfig W
  pub tokens : W
  pub last_refill : ℕ
  pub max_tokens : W
  pub refill_rate : W
  pub allowed : ℕ
  pub rejected : ℕ
  pub waiting : ℕ

abbrev u64 : ℕ → ℕ
u64 n = n % 2 ^ 64

abbrev default_strategy : BackoffStrategy → BackoffStrategy
default_strategy unset_strategy = block
default_strategy s = s

module _ {ℓ} {W : Type ℓ} ⦃f : Float64 W⦄ where
  unfoldable pub min_val : W → W → W
  min_val a b = if f.lt a b then a else b

  -- time.Duration.Seconds: the whole seconds and the rest are converted apart.
  unfoldable pub seconds : ℤ → W
  seconds (pos n) =
      f.add (f.of_ℤ (pos (n / second))) (f.div (f.of_ℤ (pos (n % second))) (f.lit second 0))
  seconds (negsuc n) =
      f.add (f.of_ℤ (sub_ℕ 0 (suc n / second)))
        (f.div (f.of_ℤ (sub_ℕ 0 (suc n % second))) (f.lit second 0))

  unfoldable pub new_token_bucket_limiter : RateLimiterConfig W → ℕ → TokenBucketLimiter W
  new_token_bucket_limiter c now = record {
    config = c;
    tokens = f.of_ℤ c.burst_size;
    last_refill = now;
    max_tokens = f.of_ℤ c.burst_size;
    refill_rate = c.requests_per_second;
    allowed = 0;
    rejected = 0;
    waiting = 0;
  }

  -- `int(config.RequestsPerSecond)` is the conversion to an integer.
  unfoldable pub set_defaults : RateLimiterConfig W → RateLimiterConfig W
  set_defaults c =
      let rate =
        if f.le c.requests_per_second (f.lit 0 0) then f.lit 100 1 else c.requests_per_second in
      record {
        name = c.name;
        type = c.type;
        requests_per_second = rate;
        burst_size = if leb_ℤ c.burst_size (pos 0) then f.to_duration rate else c.burst_size;
        window_size = if is_zero c.window_size then pos second else c.window_size;
        backoff_strategy = default_strategy c.backoff_strategy;
      }

  -- The algorithms that are not implemented fall back to the token bucket.
  by_type : RateLimiterType → RateLimiterConfig W → ℕ → TokenBucketLimiter W
  unfolding new_token_bucket_limiter
  by_type unset_type c now = new_token_bucket_limiter (record c { type = token_bucket }) now
  by_type token_bucket c now = new_token_bucket_limiter c now
  by_type sliding_window c now = new_token_bucket_limiter (record c { type = token_bucket }) now
  by_type fixed_window c now = new_token_bucket_limiter (record c { type = token_bucket }) now
  by_type other_type c now = new_token_bucket_limiter (record c { type = token_bucket }) now

  unfoldable pub new_rate_limiter : RateLimiterConfig W → ℕ → TokenBucketLimiter W
  unfolding set_defaults by_type
  new_rate_limiter c now = by_type c.type (set_defaults c) now

  unfoldable pub refill_tokens : TokenBucketLimiter W → ℕ → TokenBucketLimiter W
  unfolding min_val
  refill_tokens tb now = record tb {
    tokens =
        min_val (f.add tb.tokens (f.mul tb.refill_rate (seconds (sub_ℕ now tb.last_refill))))
          tb.max_tokens;
    last_refill = now;
  }

  -- After the refill.
  take_token : TokenBucketLimiter W → TokenBucketLimiter W × Bool
  take_token tb =
      if f.le (f.lit 1 0) tb.tokens
      then (
        record tb { tokens = f.sub tb.tokens (f.lit 1 0); allowed = u64 (tb.allowed + 1) },
        true,
      )
      else (record tb { rejected = u64 (tb.rejected + 1) }, false)

  unfoldable pub allow : TokenBucketLimiter W → ℕ → TokenBucketLimiter W × Bool
  unfolding take_token
  allow tb now = take_token (refill_tokens tb now)

  -- 0 where a token is there; no slot is reserved.
  delay_needed : TokenBucketLimiter W → ℤ
  delay_needed tb =
      if f.le (f.lit 1 0) tb.tokens
      then pos 0
      else f.to_duration
          (f.mul (f.div (f.sub (f.lit 1 0) tb.tokens) tb.refill_rate) (f.lit second 0))

  unfoldable pub reserve : TokenBucketLimiter W → ℕ → TokenBucketLimiter W × ℤ
  unfolding delay_needed
  reserve tb now = let tb' = refill_tokens tb now in (tb', delay_needed tb')

  unfoldable pub set_rate : TokenBucketLimiter W → W → ℤ → TokenBucketLimiter W
  set_rate tb rate burst = record tb {
    config = record config { requests_per_second = rate; burst_size = burst };
    refill_rate = rate;
    max_tokens = f.of_ℤ burst;
    tokens = if f.lt (f.of_ℤ burst) tb.tokens then f.of_ℤ burst else tb.tokens;
  }
    where
      open tb use {config}

  unfoldable pub stats : TokenBucketLimiter W → ℕ → TokenBucketLimiter W × RateLimiterStats W
  stats tb now =
      let tb' = refill_tokens tb now in
      (
        tb',
        record {
          requests_allowed = tb'.allowed;
          requests_rejected = tb'.rejected;
          requests_waiting = tb'.waiting;
          current_tokens = tb'.tokens;
          requests_per_second = tb'.refill_rate;
          burst_size = f.to_duration tb'.max_tokens;
          last_refill = tb'.last_refill;
        },
      )

  unfoldable pub reset : TokenBucketLimiter W → ℕ → TokenBucketLimiter W
  reset tb now = record tb {
    tokens = tb.max_tokens;
    last_refill = now;
    allowed = 0;
    rejected = 0;
    waiting = 0;
  }

  unfoldable pub calculate_adaptive_delay : TokenBucketLimiter W → ℤ → ℤ
  calculate_adaptive_delay tb base =
      let ratio =
        f.div (f.of_ℤ (pos tb.waiting))
          (f.add (f.of_ℤ (pos (u64 (tb.allowed + tb.rejected)))) (f.lit 1 0)) in
      if f.lt (f.lit 5 1) ratio then f.to_duration (f.mul (f.of_ℤ base) (f.lit 5 1)) else base
