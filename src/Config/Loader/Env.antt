-- ===== src/Config/Loader/Env.antt =====
-- internal/config/loader.go: LoadFromEnv. A variable that is not set, or that does not parse, leaves
-- its field at the zero value.
use k8s_operator_cloudflare.Prelude.{
  ℤ, pos, String, Bool, false, Option, none, some, [], if◌then◌else◌, str_eq, is_some, or_default,
}
use k8s_operator_cloudflare.Prelude.Dict.{Dict}
use k8s_operator_cloudflare.Config.FeatureFlags.{FeatureFlags}
use k8s_operator_cloudflare.Config.Types.{
  Config, OperatorConfig, CloudflareConfig, PerformanceConfig, ConfigSource, env,
}
use k8s_operator_cloudflare.Config.Loader.{World, mark, is_set}

module _ {E : Type 0} (w : World E) where
  -- `if s := os.Getenv(name); s != "" { if v, err := parse(s); err == nil { ... } }`.
  unfoldable pub parsed : {A : Type 0} → (String → Option A) → String → Option A
  parsed parse name = if str_eq (w.getenv name) "" then none else parse (w.getenv name)

  unfoldable pub duration_of : String → ℤ
  unfolding parsed
  duration_of name = or_default (parsed w.parse_duration name) (pos 0)

  unfoldable pub int_of : String → ℤ
  unfolding parsed
  int_of name = or_default (parsed w.atoi name) (pos 0)

  unfoldable pub bool_of : String → Bool
  unfolding parsed
  bool_of name = or_default (parsed w.parse_bool name) false

  unfoldable pub load_operator_config : OperatorConfig
  unfolding duration_of int_of bool_of
  load_operator_config = record {
    log_level = w.getenv "CONFIG_OPERATOR_LOG_LEVEL";
    reconcile_interval = duration_of "CONFIG_OPERATOR_RECONCILE_INTERVAL";
    metrics_bind_address = w.getenv "CONFIG_OPERATOR_METRICS_BIND_ADDRESS";
    health_probe_bind_address = w.getenv "CONFIG_OPERATOR_HEALTH_PROBE_BIND_ADDRESS";
    leader_election = bool_of "CONFIG_OPERATOR_LEADER_ELECTION";
  }

  operator_sources : Dict ConfigSource → Dict ConfigSource
  operator_sources m =
      mark (is_some (parsed w.parse_bool "CONFIG_OPERATOR_LEADER_ELECTION"))
        "operator.leaderElection" env
        (mark (is_set (w.getenv "CONFIG_OPERATOR_HEALTH_PROBE_BIND_ADDRESS"))
          "operator.healthProbeBindAddress" env
          (mark (is_set (w.getenv "CONFIG_OPERATOR_METRICS_BIND_ADDRESS"))
            "operator.metricsBindAddress" env
            (mark (is_some (parsed w.parse_duration "CONFIG_OPERATOR_RECONCILE_INTERVAL"))
              "operator.reconcileInterval" env
              (mark (is_set (w.getenv "CONFIG_OPERATOR_LOG_LEVEL")) "operator.logLevel" env m))))

  unfoldable pub load_cloudflare_config : CloudflareConfig
  unfolding duration_of int_of bool_of
  load_cloudflare_config = record {
    api_timeout = duration_of "CONFIG_CLOUDFLARE_API_TIMEOUT";
    rate_limit_rps = int_of "CONFIG_CLOUDFLARE_RATE_LIMIT_RPS";
    retry_attempts = int_of "CONFIG_CLOUDFLARE_RETRY_ATTEMPTS";
    retry_delay = duration_of "CONFIG_CLOUDFLARE_RETRY_DELAY";
  }

  cloudflare_sources : Dict ConfigSource → Dict ConfigSource
  cloudflare_sources m =
      mark (is_some (parsed w.parse_duration "CONFIG_CLOUDFLARE_RETRY_DELAY"))
        "cloudflare.retryDelay" env
        (mark (is_some (parsed w.atoi "CONFIG_CLOUDFLARE_RETRY_ATTEMPTS"))
          "cloudflare.retryAttempts" env
          (mark (is_some (parsed w.atoi "CONFIG_CLOUDFLARE_RATE_LIMIT_RPS"))
            "cloudflare.rateLimitRPS" env
            (mark (is_some (parsed w.parse_duration "CONFIG_CLOUDFLARE_API_TIMEOUT"))
              "cloudflare.apiTimeout" env m)))

  unfoldable pub load_feature_flags : FeatureFlags
  unfolding duration_of int_of bool_of
  load_feature_flags = record {
    enable_webhooks = bool_of "CONFIG_FEATURES_ENABLE_WEBHOOKS";
    enable_metrics = bool_of "CONFIG_FEATURES_ENABLE_METRICS";
    enable_tracing = bool_of "CONFIG_FEATURES_ENABLE_TRACING";
    experimental_features = bool_of "CONFIG_FEATURES_EXPERIMENTAL_FEATURES";
    custom_flags = some [];
  }

  features_sources : Dict ConfigSource → Dict ConfigSource
  features_sources m =
      mark (is_some (parsed w.parse_bool "CONFIG_FEATURES_EXPERIMENTAL_FEATURES"))
        "features.experimentalFeatures" env
        (mark (is_some (parsed w.parse_bool "CONFIG_FEATURES_ENABLE_TRACING"))
          "features.enableTracing" env
          (mark (is_some (parsed w.parse_bool "CONFIG_FEATURES_ENABLE_METRICS"))
            "features.enableMetrics" env
            (mark (is_some (parsed w.parse_bool "CONFIG_FEATURES_ENABLE_WEBHOOKS"))
              "features.enableWebhooks" env m)))

  unfoldable pub load_performance_config : PerformanceConfig
  unfolding duration_of int_of bool_of
  load_performance_config = record {
    max_concurrent_reconciles = int_of "CONFIG_PERFORMANCE_MAX_CONCURRENT_RECONCILES";
    resync_period = duration_of "CONFIG_PERFORMANCE_RESYNC_PERIOD";
    leader_election_lease_duration =
        duration_of "CONFIG_PERFORMANCE_LEADER_ELECTION_LEASE_DURATION";
    leader_election_renew_deadline =
        duration_of "CONFIG_PERFORMANCE_LEADER_ELECTION_RENEW_DEADLINE";
    leader_election_retry_period = duration_of "CONFIG_PERFORMANCE_LEADER_ELECTION_RETRY_PERIOD";
    reconcile_timeout = pos 0;
    requeue_interval = pos 0;
    requeue_interval_on_error = pos 0;
  }

  performance_sources : Dict ConfigSource → Dict ConfigSource
  performance_sources m =
      mark (is_some (parsed w.parse_duration "CONFIG_PERFORMANCE_LEADER_ELECTION_RETRY_PERIOD"))
        "performance.leaderElectionRetryPeriod" env
        (mark
          (is_some (parsed w.parse_duration "CONFIG_PERFORMANCE_LEADER_ELECTION_RENEW_DEADLINE"))
          "performance.leaderElectionRenewDeadline" env
          (mark
            (is_some (parsed w.parse_duration "CONFIG_PERFORMANCE_LEADER_ELECTION_LEASE_DURATION"))
            "performance.leaderElectionLeaseDuration" env
            (mark (is_some (parsed w.parse_duration "CONFIG_PERFORMANCE_RESYNC_PERIOD"))
              "performance.resyncPeriod" env
              (mark (is_some (parsed w.atoi "CONFIG_PERFORMANCE_MAX_CONCURRENT_RECONCILES"))
                "performance.maxConcurrentReconciles" env m))))

  unfoldable pub env_sources : Dict ConfigSource
  unfolding operator_sources cloudflare_sources features_sources performance_sources
  env_sources = performance_sources (
      features_sources (
        cloudflare_sources
          (operator_sources (mark (is_set (w.getenv "CONFIG_ENVIRONMENT")) "environment" env []))))

  -- `LoadFromEnv` never fails.
  unfoldable pub load_from_env : Config
  unfolding env_sources load_operator_config load_cloudflare_config load_feature_flags
      load_performance_config
  load_from_env = record {
    environment = w.getenv "CONFIG_ENVIRONMENT";
    operator = load_operator_config;
    cloudflare = load_cloudflare_config;
    features = some load_feature_flags;
    performance = load_performance_config;
    config_sources = some env_sources;
  }
