-- ===== src/Controller/Load.antt =====
-- internal/controller/cloudflarerecord_controller.go: the performance settings of a new reconciler.
use k8s_operator_cloudflare.Prelude.{
  ◌≡◌, refl, ap, inl, inr, Bool-cases, ℤ, pos, ◌<ℤ◌, String, Option, none, some, arith, str_eq,
}
use k8s_operator_cloudflare.Config.Types.{Config, PerformanceConfig, copy}
use k8s_operator_cloudflare.Config.Manager.{ConfigManager, is_configured, get_config}
use k8s_operator_cloudflare.Controller.{
  Reconciler, Environment, override, override_parsed, from_env, load_from_env, load_from_config,
  load, configuration, unloaded, load_performance_config,
}

abbrev pub IsPositive : Reconciler → Type 0
IsPositive r =
    (pos 0 <ℤ r.max_concurrent_reconciles)
    × ((pos 0 <ℤ r.reconcile_timeout)
        × ((pos 0 <ℤ r.requeue_interval) × (pos 0 <ℤ r.requeue_interval_on_error)))

override-pos : (new old : ℤ) → pos 0 <ℤ old → pos 0 <ℤ override new old
override-pos new old h = ground arith

override_parsed-pos : (new : Option ℤ) (old : ℤ) → pos 0 <ℤ old → pos 0 <ℤ override_parsed new old
override_parsed-pos none old h = h
override_parsed-pos (some new) old h = override-pos new old h

from_env-pos :
    (host : Environment) (name : String) (parse : String → Option ℤ) (old : ℤ)
    → pos 0 <ℤ old
    → pos 0 <ℤ from_env host name parse old
unfolding from_env
from_env-pos host name parse old h = elim (Bool-cases (str_eq (host.getenv name) "")) [
  | inl e ↦ rw e h
  | inr e ↦ rw e (override_parsed-pos (parse (host.getenv name)) old h)
]

load-IsPositive :
    (host : Environment) (c : Option Config) (r : Reconciler)
    → IsPositive r
    → IsPositive (load host c r)
unfolding load load_from_env load_from_config
load-IsPositive host none r (a, (b, (c, d))) = (
  from_env-pos host _ host.atoi _ a,
  (
    from_env-pos host _ host.parse_duration _ b,
    (from_env-pos host _ host.parse_duration _ c, from_env-pos host _ host.parse_duration _ d),
  ),
)
load-IsPositive host (some x) r (a, (b, (c, d))) = (
  override-pos x.performance.max_concurrent_reconciles _ a,
  (
    override-pos x.performance.reconcile_timeout _ b,
    (
      override-pos x.performance.requeue_interval _ c,
      override-pos x.performance.requeue_interval_on_error _ d,
    ),
  ),
)

-- Whatever the configuration and the environment variables say, the reconciler has a positive number
-- of concurrent reconciles, a positive timeout and positive requeue intervals.
pub load_performance_config-IsPositive :
    (host : Environment) (m : Option ConfigManager) → IsPositive (load_performance_config host m)
unfolding load_performance_config
load_performance_config-IsPositive host m =
    load-IsPositive host (configuration host m) _ (ground arith)

-- The settings that a reconciler takes from a configuration.
pub record Follows (p : PerformanceConfig) (r : Reconciler) : Type 0 where
  pub max_concurrent_reconciles : r.max_concurrent_reconciles ≡ p.max_concurrent_reconciles
  pub reconcile_timeout : r.reconcile_timeout ≡ p.reconcile_timeout
  pub requeue_interval : r.requeue_interval ≡ p.requeue_interval
  pub requeue_interval_on_error : r.requeue_interval_on_error ≡ p.requeue_interval_on_error

override-new : (new old : ℤ) → pos 0 <ℤ new → override new old ≡ new
override-new new old h = ground arith

pub load_performance_config-Follows :
    (host : Environment) (m : ConfigManager) (c : Config)
    → m.current_config ≡ some c
    → pos 0 <ℤ c.performance.max_concurrent_reconciles
    → pos 0 <ℤ c.performance.reconcile_timeout
    → pos 0 <ℤ c.performance.requeue_interval
    → pos 0 <ℤ c.performance.requeue_interval_on_error
    → Follows c.performance (load_performance_config host (some m))
unfolding load_performance_config load load_from_config is_configured get_config copy
load_performance_config-Follows host m c current n t q e = rw current (record {
  max_concurrent_reconciles = override-new _ _ n;
  reconcile_timeout = override-new _ _ t;
  requeue_interval = override-new _ _ q;
  requeue_interval_on_error = override-new _ _ e;
})

configuration-unconfigured :
    (host : Environment) (m : ConfigManager)
    → m.current_config ≡ none
    → configuration host (some m) ≡ none
unfolding is_configured
configuration-unconfigured host m empty = rw empty refl

-- Without a configuration the settings are those of a reconciler that has no manager.
pub load_performance_config-unconfigured :
    (host : Environment) (m : ConfigManager)
    → m.current_config ≡ none
    → load_performance_config host (some m)
      ≡ record (load_performance_config host none) { config_manager = some m }
unfolding load_performance_config load load_from_env is_configured
load_performance_config-unconfigured host m empty =
    ap (λ c. load host c (unloaded (some m))) (configuration-unconfigured host m empty)
