-- ===== src/Config/Loader/Cluster.antt =====
-- internal/config/loader.go: LoadFromConfigMap and LoadFromSecret. Both range over the data for a
-- structured file, in an order that Go does not fix, and read single keys where there is none.
use k8s_operator_cloudflare.Prelude.{
  pos, String, ◌||◌, Option, none, some, [], ◌∷◌, if◌then◌else◌, str_eq, is_some, or_default,
}
use k8s_operator_cloudflare.Prelude.Dict.{Dict, lookup, or_else}
use k8s_operator_cloudflare.Config.Types.{Config, ConfigSource, config_map, secret, merge}
use k8s_operator_cloudflare.Config.Loader.{
  World, Answer, found, missing, refused, Result, ok, err, no_client, map_not_found, get_failed,
  empty_config, mark, mark_fields_from_source,
}

module _ {E : Type 0} (w : World E) where
  abbrev well_decoded : Config × Option E → Option Config
  well_decoded (c, none) = some c
  well_decoded (c, some e) = none

  structured : String → String → Option Config
  structured key value =
      if str_eq key "config.json"
      then well_decoded (w.json value (empty_config none))
      else if str_eq key "config.yaml" || str_eq key "config.yml"
      then well_decoded (w.yaml value (empty_config none))
      else none

  -- The first entry that is a structured file and decodes.
  unfoldable pub first_structured : Dict String → Option Config
  unfolding structured
  first_structured [] = none
  first_structured ((key, value) ∷ rest) = or_else (structured key value) (first_structured rest)

  abbrev bind : {A : Type 0} → Option String → (String → Option A) → Option A
  bind none f = none
  bind (some s) f = f s

  -- `if s, exists := data[key]; exists { if v, err := parse(s); err == nil { ... } }`.
  unfoldable pub key_parsed : {A : Type 0} → (String → Option A) → String → Dict String → Option A
  unfolding lookup
  key_parsed parse key entries = bind (lookup key entries) parse

  unfoldable pub from_config_map_keys : Dict String → Config
  unfolding key_parsed
  from_config_map_keys entries =
      let c = empty_config none in
      let interval = key_parsed w.parse_duration "reconcile-interval" entries in
      let timeout = key_parsed w.parse_duration "api-timeout" entries in
      let rps = key_parsed w.atoi "rate-limit-rps" entries in
      record c {
        environment = or_default (lookup "environment" entries) "";
        operator = record c.operator {
          log_level = or_default (lookup "log-level" entries) "";
          reconcile_interval = or_default interval (pos 0);
        };
        cloudflare = record c.cloudflare {
          api_timeout = or_default timeout (pos 0);
          rate_limit_rps = or_default rps (pos 0);
        };
        config_sources = some (
            mark (is_some rps) "cloudflare.rateLimitRPS" config_map (
              mark (is_some timeout) "cloudflare.apiTimeout" config_map (
                mark (is_some interval) "operator.reconcileInterval" config_map (
                  mark (is_some (lookup "log-level" entries)) "operator.logLevel" config_map
                    (mark (is_some (lookup "environment" entries)) "environment" config_map [])))));
      }

  unfoldable pub from_secret_keys : Dict String → Config
  unfolding key_parsed
  from_secret_keys entries =
      let c = empty_config none in
      let timeout = key_parsed w.parse_duration "api-timeout" entries in
      let rps = key_parsed w.atoi "rate-limit-rps" entries in
      record c {
        environment = or_default (lookup "environment" entries) "";
        cloudflare = record c.cloudflare {
          api_timeout = or_default timeout (pos 0);
          rate_limit_rps = or_default rps (pos 0);
        };
        config_sources = some (
            mark (is_some rps) "cloudflare.rateLimitRPS" secret (
              mark (is_some timeout) "cloudflare.apiTimeout" secret
                (mark (is_some (lookup "environment" entries)) "environment" secret [])));
      }

  -- A structured file is merged into an empty configuration, and its fields are marked.
  abbrev or_keys : ConfigSource → Option Config → Config → Config
  or_keys source none keys = keys
  or_keys source (some file) keys =
      mark_fields_from_source (merge (empty_config (some [])) (some file)) source

  from_config_map : String → Answer E → Result E Config
  unfolding from_config_map_keys first_structured
  from_config_map name (found entries) =
      ok (or_keys config_map (first_structured entries) (from_config_map_keys entries))
  from_config_map name missing = err (map_not_found name)
  from_config_map name (refused e) = err (get_failed e)

  unfoldable pub load_from_config_map : String → Result E Config
  unfolding from_config_map
  load_from_config_map name = elim w.config_map [
    | none ↦ err no_client
    | some get ↦ from_config_map name (get name)
  ]

  from_secret : String → Answer E → Result E Config
  unfolding from_secret_keys first_structured
  from_secret name (found entries) =
      ok (or_keys secret (first_structured entries) (from_secret_keys entries))
  from_secret name missing = err (map_not_found name)
  from_secret name (refused e) = err (get_failed e)

  unfoldable pub load_from_secret : String → Result E Config
  unfolding from_secret
  load_from_secret name = elim w.secret [
    | none ↦ err no_client
    | some get ↦ from_secret name (get name)
  ]
