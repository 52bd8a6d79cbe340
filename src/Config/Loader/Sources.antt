-- ===== src/Config/Loader/Sources.antt =====
-- internal/config/loader.go: LoadWithPriority against its description, source by source and field by
-- field.
use k8s_operator_cloudflare.Prelude.{
  ◌≡◌, refl, sym, subst, ap, ◌∙◌, Bool, true, false, Option, none, some, List, [], ◌∷◌, ◌++◌,
  if◌then◌else◌,
}
use k8s_operator_cloudflare.Config.Types.{Config, new_config}
use k8s_operator_cloudflare.Config.Types.Merge.{merge_all}
use k8s_operator_cloudflare.Config.Types.Layers.{IsLayered, merge_all-IsLayered}
use k8s_operator_cloudflare.Config.Validation.{ConfigError, validate}
use k8s_operator_cloudflare.Config.Loader.{
  World, LoadOptions, LoadError, Result, ok, err, ◌>>=◌, wrap, invalid, is_set,
  validate_load_options, load_from_file, mark_fields_from_source,
}
use k8s_operator_cloudflare.Config.Loader.Env.{load_from_env}
use k8s_operator_cloudflare.Config.Loader.Cluster.{load_from_config_map, load_from_secret}
use k8s_operator_cloudflare.Config.Loader.Laws.{config_of, load_all, add_layers-load_all}
use k8s_operator_cloudflare.Config.Loader.Priority.{
  Layer, State, add_layers, layers, lower_layers, defaults, finish, validated, load_with_priority,
}

module _ {E : Type 0} where
  -- A source that is asked for, and one that is not.
  unfoldable pub source : Bool → Result E Config → Result E (List Config)
  source true r = r >>= λ c. ok (c ∷ [])
  source false r = ok []

  -- Loaded in their order; the first that fails gives the error.
  unfoldable pub read_all : List (Result E (List Config)) → Result E (List Config)
  read_all [] = ok []
  read_all (r ∷ rs) = r >>= λ cs. read_all rs >>= λ ds. ok (cs ++ ds)

  nothing_before : (r : Result E (List Config)) → r ≡ (r >>= λ ds. ok ds)
  nothing_before (ok ds) = refl
  nothing_before (err e) = refl

  loaded_source :
      (b : Bool) (r : Result E Config) (rest : Result E (List Config))
      → (if b then (r >>= λ c. rest >>= λ cs. ok (c ∷ cs)) else rest)
        ≡ (source b r >>= λ cs. rest >>= λ ds. ok (cs ++ ds))
  unfolding source
  loaded_source true (ok c) rest = refl
  loaded_source true (err e) rest = refl
  loaded_source false r rest = nothing_before rest

  sources_of_layers : List (Layer E) → List (Result E (List Config))
  sources_of_layers [] = []
  sources_of_layers (l ∷ ls) = source l.enabled l.loaded ∷ sources_of_layers ls

  load_all-read_all : (ls : List (Layer E)) → load_all ls ≡ read_all (sources_of_layers ls)
  unfolding load_all read_all sources_of_layers
  load_all-read_all [] = refl
  load_all-read_all (l ∷ ls) =
      rw (sym (load_all-read_all ls)) (loaded_source l.enabled l.loaded (load_all ls))

  module _ (w : World E) where
    -- What the options ask for, from the lowest priority to the highest.
    unfoldable pub read_sources : LoadOptions → Result E (List Config)
    unfolding read_all
    read_sources o = read_all (
        source (is_set o.file_path) (wrap "file" (load_from_file w o.file_path))
        ∷ source (is_set o.secret_name) (wrap "Secret" (load_from_secret w o.secret_name))
        ∷ source (is_set o.config_map_name)
            (wrap "ConfigMap" (load_from_config_map w o.config_map_name))
        ∷ source o.load_from_env (ok (load_from_env w))
        ∷ [])

    -- What comes of a configuration that is validated if the options ask for it.
    unfoldable pub accepted : LoadOptions → Config → Result E Config
    accepted o p = elim (if o.validate_config then validate w.net p else none) [
      | none ↦ ok p
      | some e ↦ err (invalid e)
    ]

    -- What a load gives, from what its sources give.
    unfoldable pub IsDescribed : LoadOptions → Result E (List Config) → Result E Config → Type 0
    IsDescribed o (err e) result = result ≡ err e
    IsDescribed o (ok cs) result =
        (p : Config) × IsLayered new_config cs p × (result ≡ accepted o p)

    -- The same for options that are checked first.
    unfoldable pub IsLoaded :
        LoadOptions → Option (LoadError E) → Result E (List Config) → Result E Config → Type 0
    unfolding IsDescribed
    IsLoaded o (some e) sources result = result ≡ err e
    IsLoaded o none sources result = IsDescribed o sources result

    over_defaults : (cs : List Config) → IsLayered new_config cs (merge_all (defaults w).0 cs)
    unfolding defaults mark_fields_from_source
    over_defaults cs =
        let l = merge_all-IsLayered cs (defaults w).0 in
        record {
          environment = l.environment;
          operator = l.operator;
          cloudflare = l.cloudflare;
          performance = l.performance;
          flags = l.flags;
        }

    finish-accepted :
        (b : Bool) (v : Option ConfigError) (s : State)
        → config_of (if b then validated {E = E} v s else ok s)
          ≡ elim (if b then v else none) [ none ↦ ok s.0 | some e ↦ err (invalid e) ]
    finish-accepted true none s = refl
    finish-accepted true (some e) s = refl
    finish-accepted false v s = refl

    described :
        (o : LoadOptions) (sources : Result E (List Config)) (r : Result E State)
        → config_of r ≡ (sources >>= λ cs. ok (merge_all (defaults w).0 cs))
        → IsDescribed o sources (config_of (r >>= finish w o))
    unfolding IsDescribed finish accepted
    described o (err e) (err x) h = h
    described o (err e) (ok s) h = absurd (cc)
    described o (ok cs) (err x) h = absurd (cc)
    described o (ok cs) (ok (p, noted)) h =
        let e : merge_all (defaults w).0 cs ≡ p = cc in
        (
          p,
          subst (IsLayered new_config cs) e (over_defaults cs),
          finish-accepted o.validate_config (validate w.net p) (p, noted),
        )

    load_all-sources : (o : LoadOptions) → load_all (layers w o) ≡ read_sources o
    unfolding layers lower_layers sources_of_layers read_sources
    load_all-sources o = load_all-read_all (layers w o)

    -- What LoadWithPriority gives: the error of its options, if they have one; the error of the first
    -- source that is asked for and does not load, in the order file, Secret, ConfigMap; else the
    -- configuration in which every field has the value of the last of these sources and the
    -- environment variables that sets it, or the default value if none does, and every custom flag
    -- likewise, while a standard flag is on if the defaults or any source turn it on, and leader
    -- election is as by default; or, where that is to be validated, the error of its validation.
    pub load_with_priority-IsLoaded :
        (o : LoadOptions)
        → IsLoaded o (validate_load_options o) (read_sources o) (config_of (load_with_priority w o))
    unfolding load_with_priority IsLoaded
    load_with_priority-IsLoaded o =
        elim (validate_load_options {E = E} o)
          as (λ v. IsLoaded o v (read_sources o) (
            config_of (elim v [
              | some e ↦ err e
              | none ↦ add_layers (layers w o) (defaults w) >>= finish w o
            ]))) [
              | some e ↦ refl
              | none ↦ described o (read_sources o) (add_layers (layers w o) (defaults w)) (
                  add_layers-load_all (layers w o) (defaults w)
                  ∙ ap (λ r. r >>= λ cs. ok (merge_all (defaults w).0 cs)) (load_all-sources o))
            ]
