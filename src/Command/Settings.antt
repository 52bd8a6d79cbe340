-- ===== src/Command/Settings.antt =====
-- cmd/main.go with the loader, the validation and the controller: the settings of the reconciler after
-- the start.
use k8s_operator_cloudflare.Prelude.{
  ℕ, ◌*◌, ◌≡◌, refl, ap, ◌∙◌, pos, ◌<ℤ◌, none, some, List, second, minute, hour, arith,
}
use k8s_operator_cloudflare.Config.Types.{Config, get_environment_defaults}
use k8s_operator_cloudflare.Config.Validation.Bounds.{IsWithin, validated_performance}
use k8s_operator_cloudflare.Config.Loader.{World, LoadError, Result, ok, err}
use k8s_operator_cloudflare.Config.Manager.{ConfigManager, Notice, new_config_manager, load_config}
use k8s_operator_cloudflare.Config.Manager.Loads.{
  HasLoaded, load_config-HasLoaded, load_config-validate,
}
use k8s_operator_cloudflare.Controller.{Reconciler, Environment, load_performance_config}
use k8s_operator_cloudflare.Controller.Load.{
  Follows, load_performance_config-Follows, load_performance_config-unconfigured,
}
use k8s_operator_cloudflare.Command.{
  start_operator, load_options, or_text, default_namespace, production_environment,
}

-- The manager before the load.
abbrev pub new_manager : Environment → ConfigManager
new_manager host = new_config_manager (or_text (host.getenv "POD_NAMESPACE") default_namespace) none

pub record IsInBounds (r : Reconciler) : Type 0 where
  pub max_concurrent_reconciles : pos 0 <ℤ r.max_concurrent_reconciles
  pub reconcile_timeout : IsWithin (1 * second) (30 * minute) r.reconcile_timeout
  pub requeue_interval : IsWithin (1 * second) (24 * hour) r.requeue_interval
  pub requeue_interval_on_error : IsWithin (1 * second) (1 * hour) r.requeue_interval_on_error

module _ {E : Type 0} (host : Environment) (w : World E) (now : ℕ) where
  abbrev pub first_load : ConfigManager × Result E Config × List Notice
  first_load = load_config w (new_manager host) (load_options host.getenv) now

  now_current :
      (m m' : ConfigManager) (r : Result E Config) (ns : List Notice) (c : Config)
      → HasLoaded m m' r ns
      → r ≡ ok c
      → m'.current_config ≡ some c
  unfolding HasLoaded
  now_current m m' (ok c) ns d (h, _, _) e = h ∙ ap some (let e' : c ≡ d = cc in e')
  now_current m m' (err x) ns d h e = absurd (cc)

  left_alone :
      (m m' : ConfigManager) (r : Result E Config) (ns : List Notice) (e : LoadError E)
      → HasLoaded m m' r ns
      → r ≡ err e
      → m' ≡ m
  unfolding HasLoaded
  left_alone m m' (ok c) ns x h e = absurd (cc)
  left_alone m m' (err y) ns x (h, _) e = h

  -- If the load of the configuration at the start succeeds, the reconciler takes its settings from it,
  -- whatever the environment variables of the settings say, and they are within the bounds of the
  -- validation: at least one concurrent reconcile, a timeout from a second to half an hour, a requeue
  -- interval from a second to a day, and to an hour after an error.
  pub start_operator-IsInBounds :
      (c : Config)
      → first_load.1 ≡ ok c
      → Follows c.performance (start_operator host w now).reconciler
        × IsInBounds (start_operator host w now).reconciler
  unfolding start_operator load_options
  start_operator-IsInBounds c h =
      let valid = load_config-validate w (new_manager host) _ now c refl h in
      let (n, (t, (q, (e, _)))) = validated_performance w.net c valid in
      let current =
        now_current (new_manager host) _ _ _ c (load_config-HasLoaded w (new_manager host) _ now)
          h in
      let follows =
        load_performance_config-Follows host first_load.0 c current n (ground arith) (ground arith)
          (ground arith) in
      (
        follows,
        record {
          max_concurrent_reconciles = rw follows.max_concurrent_reconciles n;
          reconcile_timeout = rw follows.reconcile_timeout t;
          requeue_interval = rw follows.requeue_interval q;
          requeue_interval_on_error = rw follows.requeue_interval_on_error e;
        },
      )

  -- If that load fails, the defaults of the environment are computed, but the manager has no
  -- configuration and the reconciler has the settings that it has without any manager.
  pub start_operator-fallback :
      (e : LoadError E)
      → first_load.1 ≡ err e
      → ((start_operator host w now).operator_config
          ≡ get_environment_defaults
              (or_text (host.getenv "OPERATOR_ENVIRONMENT") production_environment))
        × ((start_operator host w now).config_manager.current_config ≡ none)
        × ((start_operator host w now).reconciler ≡ record (load_performance_config host none) {
          config_manager = some (start_operator host w now).config_manager;
        })
  unfolding start_operator new_config_manager
  start_operator-fallback e h =
      let same =
        left_alone (new_manager host) _ _ _ e (load_config-HasLoaded w (new_manager host) _ now)
          h in
      let empty : first_load.0.current_config ≡ none = ap (λ m. m.current_config) same in
      (rw h refl, empty, load_performance_config-unconfigured host first_load.0 empty)
