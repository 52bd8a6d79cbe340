-- ===== src/Reliability/RateLimiter/Presets.antt =====
-- internal/reliability/rate_limiter.go: the predefined configurations.
use k8s_operator_cloudflare.Prelude.{pos}
use k8s_operator_cloudflare.Prelude.Float.{Float64}
use k8s_operator_cloudflare.Reliability.RateLimiter.{RateLimiterConfig, token_bucket, block, reject}

module _ {ℓ} {W : Type ℓ} ⦃f : Float64 W⦄ where
  unfoldable pub cloudflare_rate_limiter_config : RateLimiterConfig W
  cloudflare_rate_limiter_config = record {
    name = "cloudflare-api";
    type = token_bucket;
    requests_per_second = f.lit 4 0;
    burst_size = pos 10;
    window_size = pos 0;
    backoff_strategy = block;
  }

  unfoldable pub default_rate_limiter_config : RateLimiterConfig W
  default_rate_limiter_config = record {
    name = "default";
    type = token_bucket;
    requests_per_second = f.lit 10 0;
    burst_size = pos 10;
    window_size = pos 0;
    backoff_strategy = block;
  }

  unfoldable pub aggressive_rate_limiter_config : RateLimiterConfig W
  aggressive_rate_limiter_config = record {
    name = "aggressive";
    type = token_bucket;
    requests_per_second = f.lit 100 0;
    burst_size = pos 50;
    window_size = pos 0;
    backoff_strategy = reject;
  }

  unfoldable pub conservative_rate_limiter_config : RateLimiterConfig W
  conservative_rate_limiter_config = record {
    name = "conservative";
    type = token_bucket;
    requests_per_second = f.lit 1 0;
    burst_size = pos 5;
    window_size = pos 0;
    backoff_strategy = block;
  }
