-- ===== src/Command/Tests.antt =====
-- cmd/main.go: starts with the world of the loader's tests.
use k8s_operator_cloudflare.Prelude.{
  ℕ, zero, ◌≡◌, refl, ap, ◌∙◌, String, false, none, some, [], if◌then◌else◌, str_eq,
}
use k8s_operator_cloudflare.Config.Types.{Config, get_environment_defaults}
use k8s_operator_cloudflare.Config.Loader.{
  LoadError, ok, err, wrap, failed_to_load, map_not_found, validate_load_options,
}
use k8s_operator_cloudflare.Config.Loader.Laws.{config_of}
use k8s_operator_cloudflare.Config.Loader.Cluster.{load_from_config_map}
use k8s_operator_cloudflare.Config.Loader.Priority.{
  load_with_priority, layers, defaults, add_layers, add_layer,
}
use k8s_operator_cloudflare.Config.Loader.Tests.{world, without_map, loaded_state, loads_valid}
use k8s_operator_cloudflare.Config.Loader.Watch.{watch_config, watched_options}
use k8s_operator_cloudflare.Config.Manager.{new_config_manager, default_options}
use k8s_operator_cloudflare.Config.Manager.Loads.{load_config-load_with_priority}
use k8s_operator_cloudflare.Controller.{Environment, load_performance_config}
use k8s_operator_cloudflare.Controller.Load.{Follows}
use k8s_operator_cloudflare.Command.{
  start_operator, load_options, config_map_name, production_environment, or_text,
}
use k8s_operator_cloudflare.Command.Settings.{
  new_manager, IsInBounds, first_load, start_operator-IsInBounds, start_operator-fallback,
}
use k8s_operator_cloudflare.Command.Watcher.{Loop, loop_over, done, Step, watch_options}
use k8s_operator_cloudflare.Command.Spin.{failed_watch_spins}

abbrev getenv : String → String
getenv name = if str_eq name "CONFIG_CONFIGMAP_NAME" then "settings" else ""

abbrev host : Environment
host = record { getenv = getenv; atoi = λ t. none; parse_duration = λ t. none }

first_load-ok : (first_load host world 5).1 ≡ ok loaded_state.0
unfolding load_options config_map_name new_config_manager default_options
first_load-ok =
    load_config-load_with_priority world (new_manager host) (load_options getenv) 5
    ∙ ap (λ r. config_of (wrap "configuration" r)) loads_valid

start_operator-IsInBounds_example :
    Follows loaded_state.0.performance (start_operator host world 5).reconciler
    × IsInBounds (start_operator host world 5).reconciler
start_operator-IsInBounds_example =
    start_operator-IsInBounds host world 5 loaded_state.0 first_load-ok

abbrev missing_map : LoadError ℕ
missing_map = failed_to_load "ConfigMap" (map_not_found "settings")

fails : load_with_priority without_map (watched_options (watch_options getenv)) ≡ err missing_map
unfolding load_with_priority validate_load_options layers add_layers add_layer defaults
    load_from_config_map watched_options watch_options config_map_name
fails = refl

first_load-err :
    (first_load host without_map 5).1 ≡ err (failed_to_load "configuration" missing_map)
unfolding load_options config_map_name new_config_manager default_options watched_options
    watch_options
first_load-err =
    load_config-load_with_priority without_map (new_manager host) (load_options getenv) 5
    ∙ ap (λ r. config_of (wrap "configuration" r)) fails

start_operator-fallback_example :
    ((start_operator host without_map 5).operator_config
      ≡ get_environment_defaults (or_text (getenv "OPERATOR_ENVIRONMENT") production_environment))
    × ((start_operator host without_map 5).config_manager.current_config ≡ none)
    × ((start_operator host without_map 5).reconciler ≡ record (load_performance_config host none) {
      config_manager = some (start_operator host without_map 5).config_manager;
    })
start_operator-fallback_example =
    start_operator-fallback host without_map 5 (failed_to_load "configuration" missing_map)
      first_load-err

abbrev level : Config → String
level c = c.operator.log_level

abbrev loop : Loop ℕ
loop = loop_over (new_manager host) (watch_config level (watch_options getenv) without_map false [])

failed_watch_spins_example :
    (loop.returned ≡ false) × (loop.manager ≡ new_manager host) × Step loop loop
failed_watch_spins_example =
    failed_watch_spins level getenv without_map world [] (new_manager host) missing_map zero loop
      fails done
