-- ===== src/Command.antt =====
-- cmd/main.go and cmd/constants.go: the start of the operator. `getenv` is os.Getenv; the flags are what `flag.Parse` leaves.
-- The lines that `setupLog` writes are left out.
pub mod Serve
pub mod Watcher
pub mod Spin
pub mod Logs
pub mod Traces
pub mod Settings
pub mod Exits
mod Tests
use k8s_operator_cloudflare.Prelude.{
  ℕ, String, Bool, true, false, not, ◌||◌, Option, none, some, List, [], ◌∷◌, if◌then◌else◌, str_eq,
}
use k8s_operator_cloudflare.Prelude.Float.{Float64}
use k8s_operator_cloudflare.Prelude.Fallible.{Fallible, ok, err, override_text}
use k8s_operator_cloudflare.Config.Types.{Config, get_environment_defaults}
use k8s_operator_cloudflare.Config.Loader
use k8s_operator_cloudflare.Config.Loader.{World, LoadOptions, Result}
use k8s_operator_cloudflare.Config.Manager.{ConfigManager, Notice, new_config_manager, load_config}
use k8s_operator_cloudflare.Controller.{Reconciler, Environment, load_performance_config}
use k8s_operator_cloudflare.Logging
use k8s_operator_cloudflare.Logging.{LoggingConfig}
use k8s_operator_cloudflare.Logging.Logger.{Zap, LoggerError, setup_global_logger, logr_from_config}
use k8s_operator_cloudflare.Tracing
use k8s_operator_cloudflare.Tracing.{TracingConfig}
use k8s_operator_cloudflare.Tracing.Provider.{
  Sdk, Globals, Provider, ProviderError, setup_global_tracer, enabled_by,
}

pub record Flags : Type 0 where
  pub metrics_bind_address : String
  pub health_probe_bind_address : String
  pub leader_elect : Bool
  pub metrics_secure : Bool
  pub webhook_cert_path : String
  pub webhook_cert_name : String
  pub webhook_cert_key : String
  pub metrics_cert_path : String
  pub metrics_cert_name : String
  pub metrics_cert_key : String
  pub enable_http2 : Bool
  pub leader_elect_lease_duration : ℕ
  pub leader_elect_renew_deadline : ℕ
  pub leader_elect_retry_period : ℕ
  pub leader_elect_resource_name : String
  pub leader_elect_resource_namespace : String
  pub log_level : String
  pub log_format : String
  pub enable_tracing : Bool

abbrev or_text : String → String → String
or_text value default = if str_eq value "" then default else value

-- "Determine environment".
unfoldable pub environment_of : (String → String) → String
environment_of getenv = or_text (getenv "OPERATOR_ENVIRONMENT") "development"

-- "Setup structured logging", up to the overrides by environment variables.
unfoldable pub logging_config : (String → String) → (String → String) → Flags → LoggingConfig
unfolding environment_of
logging_config to_lower getenv flags =
    let config = Logging.new_environment_config to_lower (environment_of getenv) in
    record config {
      level = override_text (getenv "LOG_LEVEL") (override_text flags.log_level config.level);
      format = override_text (getenv "LOG_FORMAT") (override_text flags.log_format config.format);
    }

-- The logger of controller-runtime: the default of the command, or a structured logger.
pub data ControllerLogger (R : Type 0) : Type 0 where
  default_logger : ControllerLogger R
  structured : R → ControllerLogger R

module _ {L P Z E R : Type 0} (zap : Zap L P Z E) (convert : Z → R) where
  abbrev or_default_logger : Fallible (LoggerError E) R → ControllerLogger R
  or_default_logger (ok r) = structured r
  or_default_logger (err e) = default_logger

  abbrev controller_logger :
      Option Z × Option (LoggerError E) → Fallible (LoggerError E) R → Option Z × ControllerLogger R
  controller_logger (global, some e) logr = (global, default_logger)
  controller_logger (global, none) logr = (global, or_default_logger logr)

  -- "Setup global logger": the global logger, and the one that `ctrl.SetLogger` is called with.
  unfoldable pub setup_logging :
      (String → String) → (String → String) → Flags → Option Z → Option Z × ControllerLogger R
  unfolding logging_config
  setup_logging to_lower getenv flags global =
      controller_logger (setup_global_logger zap (logging_config to_lower getenv flags) global)
        (logr_from_config zap convert to_lower getenv (environment_of getenv))

-- "Setup distributed tracing".
unfoldable pub tracing_config :
    {W : Type 0} ⦃f : Float64 W⦄ → (String → String) → (String → String) → Flags → TracingConfig W
unfolding environment_of
tracing_config to_lower getenv flags =
    let config = Tracing.new_environment_config to_lower (environment_of getenv) in
    record config {
      enabled =
          enabled_by (getenv "TRACING_ENABLED")
            (if flags.enable_tracing then true else config.enabled);
    }

abbrev tracing_provider : {E A : Type 0} → Fallible E A → Option A
tracing_provider (ok p) = some p
tracing_provider (err e) = none

module _ {E W R X : Type 0} ⦃f : Float64 W⦄ (sdk : Sdk E R X) where
  -- `tracingProvider` is `none` for nil.
  unfoldable pub setup_tracing :
      (String → String)
      → (String → String)
      → Flags
      → Globals W R X
      → Globals W R X × Option (Provider W R X)
  unfolding tracing_config
  setup_tracing to_lower getenv flags globals =
      let config : TracingConfig W = tracing_config to_lower getenv flags in
      let (globals', made) = setup_global_tracer sdk config globals in
      if config.enabled then (globals', tracing_provider made) else (globals, none)

abbrev pub default_namespace : String
default_namespace = "default"

abbrev pub default_config_map_name : String
default_config_map_name = "cloudflare-dns-operator-config"

abbrev pub production_environment : String
production_environment = "production"

unfoldable pub config_map_name : (String → String) → String
config_map_name getenv = or_text (getenv "CONFIG_CONFIGMAP_NAME") default_config_map_name

unfoldable pub load_options : (String → String) → LoadOptions
unfolding config_map_name
load_options getenv = record {
  file_path = "";
  config_map_name = config_map_name getenv;
  secret_name = getenv "CONFIG_SECRET_NAME";
  load_from_env = true;
  validate_config = true;
}

-- `operatorConfig`, which nothing reads after the log line.
abbrev operator_config : {E : Type 0} → (String → String) → Result E Config → Config
operator_config getenv (Loader.ok c) = c
operator_config getenv (Loader.err e) =
    get_environment_defaults (or_text (getenv "OPERATOR_ENVIRONMENT") production_environment)

-- What "Initialize configuration manager" to "Create controller" leave.
pub record Operator : Type 0 where
  pub config_manager : ConfigManager
  pub operator_config : Config
  pub reconciler : Reconciler
  pub notices : List Notice

unfoldable pub start_operator : {E : Type 0} → Environment → World E → ℕ → Operator
unfolding load_options
start_operator host w now =
    let m = new_config_manager (or_text (host.getenv "POD_NAMESPACE") default_namespace) none in
    let (m', loaded, called) = load_config w m (load_options host.getenv) now in
    record {
      config_manager = m';
      operator_config = operator_config host.getenv loaded;
      reconciler = load_performance_config host (some m');
      notices = called;
    }
