-- ===== src/Config/Validation/Tests.antt =====
-- internal/config/validation.go: the default configuration, and one whose retry time wraps.
use k8s_operator_cloudflare.Prelude.{
  ◌*◌, ◌≡◌, refl, pos, String, true, false, Option, none, some, second, str_eq, if◌then◌else◌,
}
use k8s_operator_cloudflare.Config.Types.{CloudflareConfig, Config, get_environment_defaults}
use k8s_operator_cloudflare.Config.Validation.{
  Net, validate, validate_environment, cloudflare_is_valid, validate_duration,
  validate_positive_int, validate_optional, validate_retry_time, mul_int64,
}
use k8s_operator_cloudflare.Config.Validation.Defaults.{ReadsDefaults, defaults_valid}

abbrev split : String → Option (String × String)
split address =
    if str_eq address ":8080"
    then some ("", "8080")
    else if str_eq address ":8081"
    then some ("", "8081")
    else none

abbrev net : Net
net = record { split_host_port = split; is_ip = λ host. false; resolves = λ port. true }

reads : ReadsDefaults net
reads = record { metrics = refl; health = refl; metrics_port = refl; health_port = refl }

abbrev config : Config
config = get_environment_defaults "production"

production_known : validate_environment "production" ≡ none
unfolding validate_environment
production_known = refl

valid : validate net config ≡ none
valid = defaults_valid net "production" reads production_known

-- 2^55 retries, 30 seconds apart: the product is a multiple of 2^64 and wraps to 0.
abbrev wrapping : CloudflareConfig
wrapping = record {
  api_timeout = pos (1 * second);
  rate_limit_rps = pos 1;
  retry_attempts = pos 36028797018963968;
  retry_delay = pos (30 * second);
}

wraps : (cloudflare_is_valid wrapping ≡ none) × (validate_retry_time wrapping ≡ none)
unfolding cloudflare_is_valid validate_duration validate_positive_int validate_optional
    validate_retry_time mul_int64
wraps = (refl, refl)
