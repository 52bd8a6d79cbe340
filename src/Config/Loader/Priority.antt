-- ===== src/Config/Loader/Priority.antt =====
-- internal/config/loader.go: LoadWithPriority. Its four blocks, one for each source, are a `Layer`
-- each: if the options ask for it, it is loaded, merged over what was loaded before, and its fields
-- are noted in the map of sources.
use k8s_operator_cloudflare.Prelude.{Bool, Option, none, some, List, [], ◌∷◌, ◌++◌, if◌then◌else◌}
use k8s_operator_cloudflare.Prelude.Dict.{Dict, insert, put_all}
use k8s_operator_cloudflare.Config.Types.{Config, ConfigSource, default, file, merge, new_config}
use k8s_operator_cloudflare.Config.Validation.{ConfigError, validate}
use k8s_operator_cloudflare.Config.Loader.{
  World, LoadOptions, Result, ok, err, ◌>>=◌, wrap, invalid, is_set, sources_of,
  mark_fields_from_source, validate_load_options, load_from_file,
}
use k8s_operator_cloudflare.Config.Loader.Env.{load_from_env}
use k8s_operator_cloudflare.Config.Loader.Cluster.{load_from_config_map, load_from_secret}

-- `for key := range from { sources[key] = source }`.
unfoldable pub put_keys : ConfigSource → Dict ConfigSource → Dict ConfigSource → Dict ConfigSource
put_keys source [] m = m
put_keys source ((key, _) ∷ from) m = insert key source (put_keys source from m)

pub record Layer (E : Type 0) : Type 0 where
  pub enabled : Bool
  pub loaded : Result E Config
  pub note : Config → Dict ConfigSource → Dict ConfigSource

abbrev pub State : Type 0
State = Config × Dict ConfigSource

abbrev pub take_layer : (Config → Dict ConfigSource → Dict ConfigSource) → State → Config → State
take_layer note (config, sources) c = (merge config (some c), note c sources)

module _ {E : Type 0} where
  unfoldable pub add_layer : Layer E → State → Result E State
  add_layer l s = if l.enabled then (l.loaded >>= λ c. ok (take_layer l.note s c)) else ok s

  unfoldable pub add_layers : List (Layer E) → State → Result E State
  add_layers [] s = ok s
  add_layers (l ∷ ls) s = add_layer l s >>= add_layers ls

  abbrev pub validated : Option ConfigError → State → Result E State
  validated none s = ok s
  validated (some e) s = err (invalid e)

  module _ (w : World E) where
    unfoldable pub lower_layers : LoadOptions → List (Layer E)
    lower_layers o =
        record {
          enabled = is_set o.file_path;
          loaded = wrap "file" (load_from_file w o.file_path);
          note = λ c. put_keys file (sources_of (mark_fields_from_source c file));
        }
        ∷ record {
          enabled = is_set o.secret_name;
          loaded = wrap "Secret" (load_from_secret w o.secret_name);
          note = λ c. put_all (sources_of c);
        }
        ∷ record {
          enabled = is_set o.config_map_name;
          loaded = wrap "ConfigMap" (load_from_config_map w o.config_map_name);
          note = λ c. put_all (sources_of c);
        }
        ∷ []

    -- In the order in which they are read, so the last has the highest priority.
    unfoldable pub layers : LoadOptions → List (Layer E)
    unfolding lower_layers
    layers o =
        lower_layers o
        ++ (record {
          enabled = o.load_from_env;
          loaded = ok (load_from_env w);
          note = λ c. put_all (sources_of c);
        }
            ∷ [])

    unfoldable pub defaults : State
    defaults =
        let c = mark_fields_from_source new_config default in
        (c, put_keys default (sources_of c) [])

    unfoldable pub finish : LoadOptions → State → Result E State
    finish o (c, sources) =
        if o.validate_config then validated (validate w.net c) (c, sources) else ok (c, sources)

    unfoldable pub load_with_priority : LoadOptions → Result E State
    unfolding finish
    load_with_priority o = elim (validate_load_options {E = E} o) [
      | some e ↦ err e
      | none ↦ add_layers (layers o) defaults >>= finish o
    ]
