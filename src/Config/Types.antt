-- ===== src/Config/Types.antt =====
-- internal/config/types.go and constants.go. A method with a pointer receiver is called on a pointer
-- that is not nil; `none` is a nil pointer or a nil map elsewhere.
pub mod Merge
pub mod Layers
mod Tests
use k8s_operator_cloudflare.Prelude.{
  ℕ, ◌*◌, ℤ, pos, String, Bool, true, false, ◌||◌, Option, none, some, [], if◌then◌else◌, str_eq,
  is_zero, second, minute,
}
use k8s_operator_cloudflare.Prelude.Dict.{Dict, put_all}
use k8s_operator_cloudflare.Config.FeatureFlags.{FeatureFlags, no_flags, entries}

abbrev pub production_env : String
production_env = "production"

abbrev pub staging_env : String
staging_env = "staging"

abbrev pub development_env : String
development_env = "development"

abbrev pub test_env : String
test_env = "test"

abbrev pub debug_level : String
debug_level = "debug"

pub data ConfigSource : Type 0 where
  default env file config_map secret : ConfigSource

unfoldable pub to_string : ConfigSource → String
to_string default = "default"
to_string env = "env"
to_string file = "file"
to_string config_map = "configmap"
to_string secret = "secret"

pub record OperatorConfig : Type 0 where
  pub log_level : String
  pub reconcile_interval : ℤ
  pub metrics_bind_address : String
  pub health_probe_bind_address : String
  pub leader_election : Bool

pub record CloudflareConfig : Type 0 where
  pub api_timeout : ℤ
  pub rate_limit_rps : ℤ
  pub retry_attempts : ℤ
  pub retry_delay : ℤ

pub record PerformanceConfig : Type 0 where
  pub max_concurrent_reconciles : ℤ
  pub reconcile_timeout : ℤ
  pub requeue_interval : ℤ
  pub requeue_interval_on_error : ℤ
  pub resync_period : ℤ
  pub leader_election_lease_duration : ℤ
  pub leader_election_renew_deadline : ℤ
  pub leader_election_retry_period : ℤ

pub record Config : Type 0 where
  pub environment : String
  pub operator : OperatorConfig
  pub cloudflare : CloudflareConfig
  pub features : Option FeatureFlags
  pub performance : PerformanceConfig
  pub config_sources : Option (Dict ConfigSource)

unfoldable pub new_config : Config
new_config = record {
  environment = production_env;
  operator = record {
    log_level = "info";
    reconcile_interval = pos (5 * minute);
    metrics_bind_address = ":8080";
    health_probe_bind_address = ":8081";
    leader_election = true;
  };
  cloudflare = record {
    api_timeout = pos (30 * second);
    rate_limit_rps = pos 10;
    retry_attempts = pos 3;
    retry_delay = pos (1 * second);
  };
  features = some (record {
    enable_webhooks = true;
    enable_metrics = true;
    enable_tracing = false;
    experimental_features = false;
    custom_flags = some [];
  });
  performance = record {
    max_concurrent_reconciles = pos 5;
    reconcile_timeout = pos (5 * minute);
    requeue_interval = pos (5 * minute);
    requeue_interval_on_error = pos (1 * minute);
    resync_period = pos (10 * minute);
    leader_election_lease_duration = pos (15 * second);
    leader_election_renew_deadline = pos (10 * second);
    leader_election_retry_period = pos (2 * second);
  };
  config_sources = some [];
}

-- The cases of `GetEnvironmentDefaults` that write to `base`.
unfoldable pub staging_defaults : Config → Config
staging_defaults base = record base {
  operator = record base.operator {
    log_level = debug_level;
    reconcile_interval = pos (1 * minute);
  };
  cloudflare = record base.cloudflare { api_timeout = pos (15 * second); rate_limit_rps = pos 5 };
}

unfoldable experimental : Option FeatureFlags → Option FeatureFlags
experimental none = none
experimental (some f) = some (record f { experimental_features = true })

unfoldable pub development_defaults : Config → Config
unfolding experimental
development_defaults base = record base {
  operator = record base.operator {
    log_level = debug_level;
    reconcile_interval = pos (30 * second);
  };
  cloudflare = record base.cloudflare { api_timeout = pos (10 * second); rate_limit_rps = pos 2 };
  features = experimental base.features;
}

unfoldable pub get_environment_defaults : String → Config
get_environment_defaults name =
    let base = record new_config { environment = name } in
    if str_eq name production_env
    then base
    else if str_eq name staging_env
    then staging_defaults base
    else if str_eq name development_env
    then development_defaults base
    else base

unfoldable copy_flags : Option FeatureFlags → Option FeatureFlags
copy_flags none = none
copy_flags (some f) = some (record f { custom_flags = some (put_all (entries f.custom_flags) []) })

copy_sources : Option (Dict ConfigSource) → Dict ConfigSource
copy_sources none = []
copy_sources (some m) = put_all m []

unfoldable pub copy : Config → Config
unfolding copy_flags copy_sources
copy c = record c {
  features = copy_flags c.features;
  config_sources = some (copy_sources c.config_sources);
}

-- `if other.F != "" { result.F = other.F }`, and with 0.
unfoldable pub set_text : String → String → String
set_text new old = if str_eq new "" then old else new

unfoldable pub set_number : ℤ → ℤ → ℤ
set_number new old = if is_zero new then old else new

unfoldable pub merge_operator : OperatorConfig → OperatorConfig → OperatorConfig
merge_operator o c = record c {
  log_level = set_text o.log_level c.log_level;
  reconcile_interval = set_number o.reconcile_interval c.reconcile_interval;
  metrics_bind_address = set_text o.metrics_bind_address c.metrics_bind_address;
  health_probe_bind_address = set_text o.health_probe_bind_address c.health_probe_bind_address;
}

unfoldable pub merge_cloudflare : CloudflareConfig → CloudflareConfig → CloudflareConfig
merge_cloudflare o c = record {
  api_timeout = set_number o.api_timeout c.api_timeout;
  rate_limit_rps = set_number o.rate_limit_rps c.rate_limit_rps;
  retry_attempts = set_number o.retry_attempts c.retry_attempts;
  retry_delay = set_number o.retry_delay c.retry_delay;
}

-- The flags of `other` are written over the copied ones; `Copy` and the line before have made the
-- map of custom flags.
unfoldable write_flags : FeatureFlags → FeatureFlags → FeatureFlags
write_flags o f = record {
  enable_webhooks = if o.enable_webhooks then true else f.enable_webhooks;
  enable_metrics = if o.enable_metrics then true else f.enable_metrics;
  enable_tracing = if o.enable_tracing then true else f.enable_tracing;
  experimental_features = if o.experimental_features then true else f.experimental_features;
  custom_flags = some (put_all (entries o.custom_flags) (entries f.custom_flags));
}

unfoldable pub merge_flags : Option FeatureFlags → Option FeatureFlags → Option FeatureFlags
unfolding write_flags no_flags
merge_flags none result = result
merge_flags (some o) none = some (write_flags o no_flags)
merge_flags (some o) (some f) = some (write_flags o f)

unfoldable pub merge_performance : PerformanceConfig → PerformanceConfig → PerformanceConfig
merge_performance o c = record {
  max_concurrent_reconciles = set_number o.max_concurrent_reconciles c.max_concurrent_reconciles;
  reconcile_timeout = set_number o.reconcile_timeout c.reconcile_timeout;
  requeue_interval = set_number o.requeue_interval c.requeue_interval;
  requeue_interval_on_error = set_number o.requeue_interval_on_error c.requeue_interval_on_error;
  resync_period = set_number o.resync_period c.resync_period;
  leader_election_lease_duration =
      set_number o.leader_election_lease_duration c.leader_election_lease_duration;
  leader_election_renew_deadline =
      set_number o.leader_election_renew_deadline c.leader_election_renew_deadline;
  leader_election_retry_period =
      set_number o.leader_election_retry_period c.leader_election_retry_period;
}

unfoldable pub merge : Config → Option Config → Config
unfolding copy
merge c none = copy c
merge c (some o) =
    let result = copy c in
    record result {
      environment = set_text o.environment result.environment;
      operator = merge_operator o.operator result.operator;
      cloudflare = merge_cloudflare o.cloudflare result.cloudflare;
      features = merge_flags o.features result.features;
      performance = merge_performance o.performance result.performance;
    }
