-- ===== src/Config/Loader/Tests.antt =====
-- internal/config/loader.go: a load from a ConfigMap under two environment variables.
use k8s_operator_cloudflare.Prelude.{
  ◌≡◌, refl, ℕ, pos, String, true, false, Option, none, some, [], ◌∷◌, if◌then◌else◌, str_eq, ◌*◌,
  second,
}
use k8s_operator_cloudflare.Prelude.Dict.{lookup, put_all}
use k8s_operator_cloudflare.Config.Types.{
  Config, new_config, merge, copy, merge_operator, merge_cloudflare, merge_flags, merge_performance,
  set_text, set_number, default,
}
use k8s_operator_cloudflare.Config.Validation.{
  Net, validate, validate_environment, operator_is_valid, cloudflare_is_valid, performance_is_valid,
  validate_duration, validate_optional, validate_positive_int, validate_log_level,
  validate_leader_election, validate_retry_time, validate_environment_specific,
  reconciles_no_faster, validate_cross_fields, mul_int64, validate_addresses, validate_bind_address,
}
use k8s_operator_cloudflare.Config.Loader.{
  World, LoadOptions, WatchOptions, validate_watch_options, ok, err, found, missing, text,
  failed_to_load, map_not_found, validate_load_options, mark_fields_from_source, sources_of,
}
use k8s_operator_cloudflare.Config.Loader.Env.{load_from_env, parsed}
use k8s_operator_cloudflare.Config.Loader.Cluster.{
  load_from_config_map, first_structured, from_config_map_keys, key_parsed,
}
use k8s_operator_cloudflare.Config.Loader.Priority.{
  State, layers, defaults, add_layers, add_layer, finish, put_keys, load_with_priority,
}
use k8s_operator_cloudflare.Config.Loader.Laws.{config_of}
use k8s_operator_cloudflare.Config.Loader.Outcomes.{load_with_priority-validate}
use k8s_operator_cloudflare.Config.Loader.Watch.{Sent, opened, watch_config, watched_options}
use k8s_operator_cloudflare.Config.Loader.Changes.{
  configs_of, failures_of, loaded_configs, failed_loads, ticks, latest, changes,
  watch_config-changes,
}
use k8s_operator_cloudflare.Config.Loader.Sources.{
  IsLoaded, read_sources, load_with_priority-IsLoaded,
}

abbrev split : String → Option (String × String)
split address =
    if str_eq address ":8080"
    then some ("", "8080")
    else if str_eq address ":8081"
    then some ("", "8081")
    else none

abbrev pub net : Net
net = record { split_host_port = split; is_ip = λ host. false; resolves = λ port. true }

-- Two variables are set; the one number that is read is 7. The ConfigMap "settings" has two keys.
abbrev variable : String → String
variable name =
    if str_eq name "CONFIG_OPERATOR_LOG_LEVEL"
    then "debug"
    else if str_eq name "CONFIG_CLOUDFLARE_RATE_LIMIT_RPS"
    then "7"
    else ""

abbrev pub world : World ℕ
world = record {
  clean = λ p. p;
  read_file = λ p. text "";
  lower_extension = λ p. ".json";
  json = λ t c. (c, some 1);
  yaml = λ t c. (c, some 2);
  getenv = variable;
  parse_duration = λ t. none;
  atoi = λ t. if str_eq t "7" then some (pos 7) else none;
  parse_bool = λ t. none;
  config_map = some (λ name.
      if str_eq name "settings"
      then found (("log-level", "warn") ∷ ("environment", "staging") ∷ [])
      else missing);
  secret = none;
  net = net;
}

abbrev pub options : LoadOptions
options = record {
  file_path = "";
  config_map_name = "settings";
  secret_name = "";
  load_from_env = true;
  validate_config = false;
}

-- What the load gives, and that it gives it.
abbrev pub loaded_state : State
loaded_state =
    let c = mark_fields_from_source new_config default in
    let m = from_config_map_keys world (("log-level", "warn") ∷ ("environment", "staging") ∷ []) in
    let e = load_from_env world in
    (
      merge (merge c (some m)) (some e),
      put_all (sources_of e) (put_all (sources_of m) (put_keys default (sources_of c) [])),
    )

pub loads : load_with_priority world options ≡ ok loaded_state
unfolding load_with_priority validate_load_options layers add_layers add_layer defaults finish
    load_from_config_map first_structured
loads = refl

from_env : (loaded_state.0.operator.log_level ≡ "debug") × (loaded_state.0.environment ≡ "staging")
unfolding merge merge_operator set_text copy load_from_env from_config_map_keys new_config
    mark_fields_from_source lookup
from_env = (refl, refl)

-- A source that is missing gives the error of its layer.
not_there :
    load_with_priority world (record options { config_map_name = "other" })
    ≡ err (failed_to_load "ConfigMap" (map_not_found "other"))
unfolding load_with_priority validate_load_options layers add_layers add_layer defaults finish
    load_from_config_map
not_there = refl

abbrev pub validating : LoadOptions
validating = record options { validate_config = true }

valid : validate net loaded_state.0 ≡ none
unfolding merge merge_operator merge_cloudflare merge_flags merge_performance set_text set_number
    copy load_from_env from_config_map_keys new_config mark_fields_from_source lookup key_parsed
    parsed validate validate_cross_fields validate_bind_address validate_addresses operator_is_valid
    cloudflare_is_valid performance_is_valid validate_duration validate_optional
    validate_positive_int validate_log_level validate_leader_election validate_retry_time
    validate_environment_specific reconciles_no_faster mul_int64 validate_environment
valid = refl

pub loads_valid : load_with_priority world validating ≡ ok loaded_state
unfolding load_with_priority validate_load_options layers add_layers add_layer defaults finish
    load_from_config_map first_structured
loads_valid = rw valid refl

load_with_priority-validate_example : validate net loaded_state.0 ≡ none
load_with_priority-validate_example =
    load_with_priority-validate world validating loaded_state refl loads_valid

load_with_priority-IsLoaded_example :
    IsLoaded world options
      (validate_load_options options)
      (read_sources world options)
      (config_of (load_with_priority world options))
load_with_priority-IsLoaded_example = load_with_priority-IsLoaded world options

-- A watcher whose second and third loads say the same, with one that fails between them.
abbrev watched : WatchOptions
watched = record { config_map_name = "settings"; secret_name = ""; interval = pos (30 * second) }

abbrev pub without_map : World ℕ
without_map = record world { config_map = some (λ name. missing) }

abbrev level : Config → String
level c = c.operator.log_level

watch_config-changes_example :
    (s : Sent ℕ) × (watch_config level watched world false
        (ticks (world ∷ without_map ∷ world ∷ []))
      ≡ opened s)
    × (configs_of s.messages
        ≡ loaded_state.0
          ∷ changes level loaded_state.0
              (loaded_configs (watched_options watched) (world ∷ without_map ∷ world ∷ [])))
    × (level (latest loaded_state.0 (configs_of s.messages))
        ≡ level (
            latest loaded_state.0
              (loaded_configs (watched_options watched) (world ∷ without_map ∷ world ∷ []))))
    × (failures_of s.messages
        ≡ failed_loads (watched_options watched) (world ∷ without_map ∷ world ∷ []))
    × (s.closed ≡ false)
unfolding watched_options validate_watch_options
watch_config-changes_example =
    watch_config-changes level watched world (world ∷ without_map ∷ world ∷ []) loaded_state refl
      loads_valid
