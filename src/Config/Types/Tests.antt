-- ===== src/Config/Types/Tests.antt =====
-- internal/config/types.go: the defaults with layers over them.
use k8s_operator_cloudflare.Prelude.{◌≡◌, refl, pos, true, false, some, [], ◌∷◌}
use k8s_operator_cloudflare.Config.FeatureFlags.{is_enabled, flag_value}
use k8s_operator_cloudflare.Config.Types.{
  Config, new_config, merge, merge_cloudflare, merge_flags, set_number,
}
use k8s_operator_cloudflare.Config.Types.Merge.{manager}

-- A layer that sets nothing but flags, and cannot disable the webhooks.
abbrev layer : Config
layer = record {
  environment = "";
  operator = record {
    log_level = "";
    reconcile_interval = pos 0;
    metrics_bind_address = "";
    health_probe_bind_address = "";
    leader_election = false;
  };
  cloudflare = record {
    api_timeout = pos 0;
    rate_limit_rps = pos 7;
    retry_attempts = pos 0;
    retry_delay = pos 0;
  };
  features = some (record {
    enable_webhooks = false;
    enable_metrics = false;
    enable_tracing = true;
    experimental_features = false;
    custom_flags = some (("EnableReconciliation", true) ∷ []);
  });
  performance = record {
    max_concurrent_reconciles = pos 0;
    reconcile_timeout = pos 0;
    requeue_interval = pos 0;
    requeue_interval_on_error = pos 0;
    resync_period = pos 0;
    leader_election_lease_duration = pos 0;
    leader_election_renew_deadline = pos 0;
    leader_election_retry_period = pos 0;
  };
  config_sources = some [];
}

set_and_not_set :
    let c = (merge new_config (some layer)).cloudflare in
    (c.rate_limit_rps ≡ pos 7) × (c.retry_attempts ≡ new_config.cloudflare.retry_attempts)
unfolding merge merge_cloudflare set_number new_config
set_and_not_set = (refl, refl)

not_disabled : is_enabled (manager (merge new_config (some layer))) "EnableMetrics" ≡ true
unfolding merge merge_flags new_config is_enabled flag_value
not_disabled = refl
