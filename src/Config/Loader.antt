-- ===== src/Config/Loader.antt =====
-- internal/config/loader.go: the options, the files and the marking of fields with their source. The
-- loads return a `Result`, since a nil configuration comes with an error. What the operating system,
-- the decoders and the Kubernetes API answer during one load is a `World`.
pub mod Env
pub mod Cluster
pub mod Priority
pub mod Sources
pub mod Laws
pub mod Outcomes
pub mod Precedence
pub mod Watch
pub mod Changes
pub mod Tests
use k8s_operator_cloudflare.Prelude.{
  ℕ, ◌*◌, ℤ, pos, String, Bool, true, false, not, ◌&&◌, ◌||◌, Option, none, some, List, [], ◌∷◌,
  if◌then◌else◌, str_eq, is_zero, ltb_ℤ, second,
}
use k8s_operator_cloudflare.Prelude.Dict.{Dict, insert, or_else}
use k8s_operator_cloudflare.Config.FeatureFlags.{FeatureFlags}
use k8s_operator_cloudflare.Config.Types.{
  Config, OperatorConfig, CloudflareConfig, PerformanceConfig, ConfigSource,
}
use k8s_operator_cloudflare.Config.Validation.{Net, ConfigError, require}

pub data LoadError (E : Type 0) : Type 0 where
  path_empty path_traversal file_empty no_client no_source nothing_to_watch : LoadError E
  unreadable get_failed json_error yaml_error : E → LoadError E
  neither_json_nor_yaml : E → E → LoadError E
  map_not_found : String → LoadError E
  interval_too_short : ℤ → LoadError E
  invalid : ConfigError → LoadError E
  failed_to_load : String → LoadError E → LoadError E

pub data Result (E A : Type 0) : Type 0 where
  ok : A → Result E A
  err : LoadError E → Result E A

infixl 5 ◌>>=◌
abbrev pub ◌>>=◌ : {E A B : Type 0} → Result E A → (A → Result E B) → Result E B
ok a >>= f = f a
err e >>= f = err e

-- `fmt.Errorf("failed to load from ...: %w", err)`.
abbrev pub wrap : {E A : Type 0} → String → Result E A → Result E A
wrap source (ok a) = ok a
wrap source (err e) = err (failed_to_load source e)

-- The answer to a Get of a ConfigMap or a Secret: its data, in the order in which this run ranges over
-- the map.
pub data Answer (E : Type 0) : Type 0 where
  found : Dict String → Answer E
  missing : Answer E
  refused : E → Answer E

-- What `os.ReadFile` gives.
pub data Content (E : Type 0) : Type 0 where
  text : String → Content E
  read_error : E → Content E

-- `json` and `yaml` decode into a configuration and give it as they leave it, with the error. The
-- parsers give `none` for an error. `client` is `none` where the loader has no client.
pub record World (E : Type 0) : Type 0 where
  pub clean : String → String
  pub read_file : String → Content E
  pub lower_extension : String → String
  pub json : String → Config → Config × Option E
  pub yaml : String → Config → Config × Option E
  pub getenv : String → String
  pub parse_duration : String → Option ℤ
  pub atoi : String → Option ℤ
  pub parse_bool : String → Option Bool
  pub config_map : Option (String → Answer E)
  pub secret : Option (String → Answer E)
  pub net : Net

pub record LoadOptions : Type 0 where
  pub file_path : String
  pub config_map_name : String
  pub secret_name : String
  pub load_from_env : Bool
  pub validate_config : Bool

pub record WatchOptions : Type 0 where
  pub config_map_name : String
  pub secret_name : String
  pub interval : ℤ

-- `&Config{}`, with the sources given.
abbrev pub empty_config : Option (Dict ConfigSource) → Config
empty_config sources = record {
  environment = "";
  operator = record {
    log_level = "";
    reconcile_interval = pos 0;
    metrics_bind_address = "";
    health_probe_bind_address = "";
    leader_election = false;
  };
  cloudflare = record {
    api_timeout = pos 0;
    rate_limit_rps = pos 0;
    retry_attempts = pos 0;
    retry_delay = pos 0;
  };
  features = none;
  performance = record {
    max_concurrent_reconciles = pos 0;
    reconcile_timeout = pos 0;
    requeue_interval = pos 0;
    requeue_interval_on_error = pos 0;
    resync_period = pos 0;
    leader_election_lease_duration = pos 0;
    leader_election_renew_deadline = pos 0;
    leader_election_retry_period = pos 0;
  };
  config_sources = sources;
}

unfoldable pub sources_of : Config → Dict ConfigSource
sources_of c = elim c.config_sources [ none ↦ [] | some m ↦ m ]

-- `if test { config.ConfigSources[key] = source }`.
abbrev pub mark : Bool → String → ConfigSource → Dict ConfigSource → Dict ConfigSource
mark test key source m = if test then insert key source m else m

abbrev pub is_set : String → Bool
is_set s = not (str_eq s "")

abbrev pub is_nonzero : ℤ → Bool
is_nonzero n = not (is_zero n)

mark_operator : OperatorConfig → ConfigSource → Dict ConfigSource → Dict ConfigSource
mark_operator o source m =
    mark (is_set o.health_probe_bind_address) "operator.healthProbeBindAddress" source (
      mark (is_set o.metrics_bind_address) "operator.metricsBindAddress" source (
        mark (is_nonzero o.reconcile_interval) "operator.reconcileInterval" source
          (mark (is_set o.log_level) "operator.logLevel" source m)))

mark_cloudflare : CloudflareConfig → ConfigSource → Dict ConfigSource → Dict ConfigSource
mark_cloudflare c source m =
    mark (is_nonzero c.rate_limit_rps) "cloudflare.rateLimitRPS" source
      (mark (is_nonzero c.api_timeout) "cloudflare.apiTimeout" source m)

mark_performance : PerformanceConfig → ConfigSource → Dict ConfigSource → Dict ConfigSource
mark_performance p source m =
    mark (is_nonzero p.leader_election_lease_duration) "performance.leaderElectionLeaseDuration"
      source
      (mark (is_nonzero p.resync_period) "performance.resyncPeriod" source (
        mark (is_nonzero p.max_concurrent_reconciles) "performance.maxConcurrentReconciles" source
          m))

unfoldable pub marked_sources : Config → ConfigSource → Dict ConfigSource
unfolding mark_operator mark_cloudflare mark_performance
marked_sources c source = mark_performance c.performance source (
    mark_cloudflare c.cloudflare source (
      mark_operator c.operator source
        (mark (is_set c.environment) "environment" source (sources_of c))))

unfoldable pub mark_fields_from_source : Config → ConfigSource → Config
mark_fields_from_source c source = record c { config_sources = some (marked_sources c source) }

unfoldable pub validate_load_options : {E : Type 0} → LoadOptions → Option (LoadError E)
validate_load_options o =
    if (str_eq o.file_path "" && str_eq o.config_map_name "")
      && (str_eq o.secret_name "" && not o.load_from_env)
    then some no_source
    else none

unfoldable pub validate_watch_options : {E : Type 0} → WatchOptions → Option (LoadError E)
validate_watch_options o =
    if str_eq o.config_map_name "" && str_eq o.secret_name ""
    then some nothing_to_watch
    else if ltb_ℤ o.interval (pos (1 * second))
    then some (interval_too_short o.interval)
    else none

module _ {E : Type 0} (w : World E) where
  abbrev contents : Content E → Result E String
  contents (text t) = ok t
  contents (read_error e) = err (unreadable e)

  abbrev decoded : (E → LoadError E) → Config × Option E → Result E Config
  decoded e (c, none) = ok c
  decoded e (c, some x) = err (e x)

  -- The YAML decoder goes on from what the JSON decoder left.
  abbrev decode_either : String → Config × Option E → Result E Config
  decode_either t (c, none) = ok c
  decode_either t (c, some e) = decoded (neither_json_nor_yaml e) (w.yaml t c)

  decode : String → String → Result E Config
  decode extension t =
      if str_eq extension ".json"
      then decoded json_error (w.json t (empty_config none))
      else if str_eq extension ".yaml" || str_eq extension ".yml"
      then decoded yaml_error (w.yaml t (empty_config none))
      else decode_either t (w.json t (empty_config none))

  unfoldable pub load_from_file : String → Result E Config
  unfolding decode
  load_from_file path =
      if str_eq path ""
      then err path_empty
      else if not (str_eq (w.clean path) path)
      then err path_traversal
      else contents (w.read_file (w.clean path)) >>= λ data_read.
          if str_eq data_read "" then err file_empty else decode (w.lower_extension path) data_read
