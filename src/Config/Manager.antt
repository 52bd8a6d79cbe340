-- ===== src/Config/Manager.antt =====
-- internal/config/manager.go. A method that writes returns the new manager; the mutex makes each
-- section that it guards atomic. A callback is known by a number, and the calls that are started are
-- returned as notices, in the order in which they are started.
pub mod Loads
pub mod Reload
pub mod Runs
pub mod Ticks
mod Tests
use k8s_operator_cloudflare.Prelude.{
  ℕ, ◌*◌, ℤ, pos, String, Bool, true, false, ◌&&◌, Option, none, some, List, [], ◌∷◌, ◌++◌,
  if◌then◌else◌, str_eq, is_some, is_zero, ltb_ℤ, second, minute,
}
use k8s_operator_cloudflare.Prelude.Dict.{Dict, put_all, or_else}
use k8s_operator_cloudflare.Config.FeatureFlags.{FeatureFlagManager, clone}
use k8s_operator_cloudflare.Config.Types.{Config, ConfigSource, copy, production_env}
use k8s_operator_cloudflare.Config.Validation.{
  Net, ConfigError, validate, validate_environment, wrapped, too_short,
}
use k8s_operator_cloudflare.Config.Loader.{
  World, LoadOptions, LoadError, Result, ok, err, wrap, is_set,
}
use k8s_operator_cloudflare.Config.Loader.Priority.{State, load_with_priority}

pub record ManagerOptions : Type 0 where
  pub environment : String
  pub auto_reload : Bool
  pub reload_interval : ℤ
  pub validate_on_load : Bool

-- `reload_running` says that a reload loop has been started and not cancelled.
pub record ConfigManager : Type 0 where
  pub namespace : String
  pub options : ManagerOptions
  pub current_config : Option Config
  pub current_sources : Option (Dict ConfigSource)
  pub loaded_at : ℕ
  pub load_options : Option LoadOptions
  pub callbacks : List ℕ
  pub reload_running : Bool
  pub feature_flag_manager : Option FeatureFlagManager

-- The call of one callback with the old and the new configuration.
pub record Notice : Type 0 where
  pub callback : ℕ
  pub old_config : Config
  pub new_config : Option Config

unfoldable pub default_options : ManagerOptions
default_options = record {
  environment = production_env;
  auto_reload = false;
  reload_interval = pos (5 * minute);
  validate_on_load = true;
}

abbrev given : Option ManagerOptions → ManagerOptions
unfolding default_options
given none = default_options
given (some o) = o

unfoldable pub new_config_manager : String → Option ManagerOptions → ConfigManager
unfolding given
new_config_manager namespace options =
    let o = given options in
    record {
      namespace = namespace;
      options =
          if is_zero o.reload_interval then record o { reload_interval = pos (5 * minute) } else o;
      current_config = none;
      current_sources = none;
      loaded_at = 0;
      load_options = none;
      callbacks = [];
      reload_running = false;
      feature_flag_manager = none;
    }

copied : Option Config → Option Config
copied none = none
copied (some c) = some (copy c)

-- `notifyCallbacks` copies both configurations once. A notice is a call that is started, in a
-- goroutine of its own: the list has the order of the starts, and the calls may run in any order.
unfoldable pub notify_callbacks : List ℕ → Config → Option Config → List Notice
unfolding copied
notify_callbacks [] old new = []
notify_callbacks (f ∷ fs) old new =
    record { callback = f; old_config = copy old; new_config = copied new }
    ∷ notify_callbacks fs old new

abbrev notices : ConfigManager → Option Config → List Notice
unfolding notify_callbacks
notices m new = elim m.current_config [
  | none ↦ []
  | some old ↦ notify_callbacks m.callbacks old new
]

-- `config.Environment = m.options.Environment`, under its two tests.
unfoldable pub override_environment : ManagerOptions → Config → Config
override_environment o c =
    if str_eq c.environment "" && is_set o.environment
    then record c { environment = o.environment }
    else c

unfoldable pub store_config :
    ConfigManager → LoadOptions → Config × Dict ConfigSource → ℕ → ConfigManager
store_config m options (c, sources) now = record m {
  current_config = some c;
  current_sources = some sources;
  loaded_at = now;
  load_options = some options;
  feature_flag_manager = some (record { flags = c.features });
}

-- The manager's own choice of validation, if the options have none.
abbrev with_validation : ManagerOptions → LoadOptions → LoadOptions
with_validation o options =
    if options.validate_config
    then options
    else record options { validate_config = o.validate_on_load }

module _ {E : Type 0} where
  unfoldable loaded :
      ConfigManager
      → LoadOptions
      → ℕ
      → Result E State
      → ConfigManager × Result E Config × List Notice
  unfolding notices override_environment store_config
  loaded m options now (err e) = (m, err e, [])
  loaded m options now (ok (c, sources)) =
      let c' = override_environment m.options c in
      (store_config m options (c', sources) now, ok c', notices m (some c'))

  unfoldable pub load_config :
      World E → ConfigManager → LoadOptions → ℕ → ConfigManager × Result E Config × List Notice
  unfolding loaded
  load_config w m options now =
      let o = with_validation m.options options in
      loaded m o now (wrap "configuration" (load_with_priority w o))

  -- `none` is the error that nothing was loaded before. The world is that of the reload: it has the
  -- order in which Go ranges over a map this time, which may be another than that of the load.
  unfoldable pub reload_config :
      World E → ConfigManager → ℕ → Option (ConfigManager × Result E Config × List Notice)
  unfolding load_config
  reload_config w m now = elim m.load_options [
    | none ↦ none
    | some options ↦ some (load_config w m options now)
  ]

unfoldable pub get_config : ConfigManager → Option Config
unfolding copied
get_config m = copied m.current_config

cloned : Option FeatureFlagManager → Option FeatureFlagManager
cloned none = none
cloned (some f) = some (clone f)

unfoldable pub get_feature_flag_manager : ConfigManager → Option FeatureFlagManager
unfolding cloned
get_feature_flag_manager m = cloned m.feature_flag_manager

unfoldable pub is_configured : ConfigManager → Bool
is_configured m = is_some m.current_config

unfoldable pub get_config_sources : ConfigManager → Dict ConfigSource
get_config_sources m = elim m.current_sources [ none ↦ [] | some s ↦ put_all s [] ]

unfoldable pub register_config_change_callback : ConfigManager → ℕ → ConfigManager
register_config_change_callback m f = record m { callbacks = m.callbacks ++ (f ∷ []) }

-- The manager, and whether a loop was started; `false` is the error. A loop that runs is cancelled.
unfoldable pub start_auto_reload : ConfigManager → ConfigManager × Bool
start_auto_reload m =
    if m.options.auto_reload then (record m { reload_running = true }, true) else (m, false)

unfoldable pub stop_auto_reload : ConfigManager → ConfigManager
stop_auto_reload m = record m { reload_running = false }

-- `none` is a nil error; an absent configuration is `no_config`.
pub data CheckError : Type 0 where
  no_config : CheckError
  not_valid : ConfigError → CheckError

abbrev checked : Option ConfigError → Option CheckError
checked none = none
checked (some e) = some (not_valid e)

unfoldable pub validate_configuration : Net → ConfigManager → Option CheckError
validate_configuration net m = elim m.current_config [
  | none ↦ some no_config
  | some c ↦ checked (validate net c)
]

abbrev new_flags : Option Config → Option FeatureFlagManager → Option FeatureFlagManager
new_flags none old = old
new_flags (some c) old = elim c.features [ none ↦ old | some f ↦ some (record { flags = some f }) ]

unfoldable pub update_config : ConfigManager → Option Config → ℕ → ConfigManager × List Notice
unfolding notices
update_config m new now = (
  record m {
    current_config = new;
    loaded_at = now;
    feature_flag_manager = new_flags new m.feature_flag_manager;
  },
  notices m new,
)

unfoldable pub validate_options : ManagerOptions → Option ConfigError
validate_options o =
    or_else
      (if is_set o.environment
        then elim (validate_environment o.environment) [
          | none ↦ none
          | some e ↦ some (wrapped "invalid environment in options" e)
        ]
        else none)
      (if o.auto_reload && ltb_ℤ o.reload_interval (pos (1 * second))
        then some (too_short "reload interval" (1 * second) o.reload_interval)
        else none)

unfoldable pub close : ConfigManager → ConfigManager
unfolding stop_auto_reload
close m = record (stop_auto_reload m) {
  callbacks = [];
  current_config = none;
  current_sources = none;
  feature_flag_manager = none;
  load_options = none;
}
