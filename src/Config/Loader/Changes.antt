-- ===== src/Config/Loader/Changes.antt =====
-- internal/config/loader.go: what a watcher sends.
use k8s_operator_cloudflare.Prelude.{
  ◌≡◌, refl, ap, ◌∙◌, ◌⊎◌, inl, inr, String, true, false, none, List, [], ◌∷◌, if◌then◌else◌,
  str_eq, eq_iff, Bool-cases,
}
use k8s_operator_cloudflare.Config.Types.{Config}
use k8s_operator_cloudflare.Config.Loader.{
  World, LoadOptions, LoadError, WatchOptions, Result, ok, err, validate_watch_options,
}
use k8s_operator_cloudflare.Config.Loader.Priority.{State, load_with_priority}
use k8s_operator_cloudflare.Config.Loader.Watch.{
  Turn, tick, Message, new_config, load_failed, Sent, opened, also, compare_load, watch_loop,
  first_message, watch_config, watched_options,
}

module _ {E : Type 0} where
  abbrev pub configs_of : List (Message E) → List Config
  configs_of [] = []
  configs_of (new_config c ∷ ms) = c ∷ configs_of ms
  configs_of (load_failed e ∷ ms) = configs_of ms

  abbrev pub failures_of : List (Message E) → List (LoadError E)
  failures_of [] = []
  failures_of (new_config c ∷ ms) = failures_of ms
  failures_of (load_failed e ∷ ms) = e ∷ failures_of ms

  -- The loads of a sequence of worlds: what succeeds and what fails.
  abbrev with_loaded : Result E State → List Config → List Config
  with_loaded (ok p) cs = p.0 ∷ cs
  with_loaded (err e) cs = cs

  unfoldable pub loaded_configs : LoadOptions → List (World E) → List Config
  loaded_configs o [] = []
  loaded_configs o (w ∷ ws) = with_loaded (load_with_priority w o) (loaded_configs o ws)

  abbrev with_failure : Result E State → List (LoadError E) → List (LoadError E)
  with_failure (ok p) es = es
  with_failure (err e) es = e ∷ es

  unfoldable pub failed_loads : LoadOptions → List (World E) → List (LoadError E)
  failed_loads o [] = []
  failed_loads o (w ∷ ws) = with_failure (load_with_priority w o) (failed_loads o ws)

  -- Every tick, with no end of the context.
  abbrev pub ticks : List (World E) → List (Turn E)
  ticks [] = []
  ticks (w ∷ ws) = tick w false ∷ ticks ws

  pub Result-cases :
      (r : Result E State) → ((p : State) × (r ≡ ok p)) ⊎ ((e : LoadError E) × (r ≡ err e))
  Result-cases (ok p) = inl (p, refl)
  Result-cases (err e) = inr (e, refl)

abbrev pub latest : Config → List Config → Config
latest c [] = c
latest c (d ∷ ds) = latest d ds

-- The configurations that differ in JSON from the one before, starting from the given one.
module _ (to_json : Config → String) where
  unfoldable pub changes : Config → List Config → List Config
  changes last [] = []
  changes last (c ∷ cs) =
      let same = changes last cs in
      let other = c ∷ changes c cs in if str_eq (to_json last) (to_json c) then same else other

  changes_of_same_json :
      (c d : Config) (cs : List Config) → to_json c ≡ to_json d → changes c cs ≡ changes d cs
  unfolding changes
  changes_of_same_json c d [] h = refl
  changes_of_same_json c d (x ∷ xs) h = rw (h, changes_of_same_json c d xs h) refl

  latest_of_same_json :
      (c d : Config) (cs : List Config)
      → to_json c ≡ to_json d
      → to_json (latest c cs) ≡ to_json (latest d cs)
  latest_of_same_json c d [] h = h
  latest_of_same_json c d (x ∷ xs) h = refl

  -- What was sent last reads the same as what was loaded last.
  latest-changes :
      (c : Config) (cs : List Config) → to_json (latest c (changes c cs)) ≡ to_json (latest c cs)
  unfolding changes
  latest-changes c [] = refl
  latest-changes c (x ∷ xs) = elim (Bool-cases (str_eq (to_json c) (to_json x))) [
    | inr n ↦ rw n (latest-changes x xs)
    | inl e ↦
        let same = (eq_iff (to_json c) (to_json x)).0 e in
        rw e (
          ap (λ ds. to_json (latest c ds)) (changes_of_same_json c x xs same)
          ∙ latest_of_same_json c x (changes x xs) same
          ∙ latest-changes x xs)
  ]

  module _ {E : Type 0} (o : LoadOptions) where
    abbrev Follows : Config → List (World E) → Sent E → Type 0
    Follows last ws s =
        (configs_of s.messages ≡ changes last (loaded_configs o ws))
        × (failures_of s.messages ≡ failed_loads o ws)
        × (s.closed ≡ false)

    watch_loop-Follows :
        (last : Config) (ws : List (World E))
        → Follows last ws (watch_loop to_json o (ticks ws) last)
    unfolding watch_loop changes loaded_configs failed_loads compare_load
    watch_loop-Follows last [] = (refl, refl, refl)
    watch_loop-Follows last (w ∷ ws) = elim (Result-cases (load_with_priority w o)) [
      | inr (e, failed) ↦
          let (configs, failures, open_still) = watch_loop-Follows last ws in
          rw failed (configs, ap (λ es. e ∷ es) failures, open_still)
      | inl ((c, sources), made) ↦ elim (Bool-cases (str_eq (to_json last) (to_json c))) [
        | inl same ↦ rw (made, same) (watch_loop-Follows last ws)
        | inr other ↦
            let (configs, failures, open_still) = watch_loop-Follows c ws in
            rw (made, other) (ap (λ cs. c ∷ cs) configs, failures, open_still)
      ]
    ]

module _ {E : Type 0} (to_json : Config → String) where
  -- Where the options are valid and the first load succeeds, the watcher sends that configuration
  -- and then, at as many ticks as there are, each loaded configuration whose JSON differs from the
  -- one sent before; so the last one that it sent reads the same as the last one that it loaded. It
  -- sends the error of each load that fails, in order, and keeps its channels open.
  pub watch_config-changes :
      (options : WatchOptions) (first : World E) (ws : List (World E)) (p : State)
      → validate_watch_options {E = E} options ≡ none
      → load_with_priority first (watched_options options) ≡ ok p
      → (s : Sent E) × (watch_config to_json options first false (ticks ws) ≡ opened s)
        × (configs_of s.messages
            ≡ p.0 ∷ changes to_json p.0 (loaded_configs (watched_options options) ws))
        × (to_json (latest p.0 (configs_of s.messages))
            ≡ to_json (latest p.0 (loaded_configs (watched_options options) ws)))
        × (failures_of s.messages ≡ failed_loads (watched_options options) ws)
        × (s.closed ≡ false)
  unfolding watch_config first_message
  watch_config-changes options first ws p valid made =
      let (configs, failures, still) =
        watch_loop-Follows to_json (watched_options options) p.0 ws in
      (
        also (new_config p.0) (watch_loop to_json (watched_options options) (ticks ws) p.0),
        rw (valid, made) refl,
        ap (λ cs. p.0 ∷ cs) configs,
        ap (λ cs. to_json (latest p.0 cs)) configs ∙ latest-changes to_json p.0 _,
        failures,
        still,
      )

  -- A first load that fails is the last: its error is sent, and the channels are closed.
  pub watch_config-closed :
      (options : WatchOptions) (first : World E) (turns : List (Turn E)) (e : LoadError E)
      → validate_watch_options {E = E} options ≡ none
      → load_with_priority first (watched_options options) ≡ err e
      → watch_config to_json options first false turns
        ≡ opened (record { messages = load_failed e ∷ []; closed = true })
  unfolding watch_config first_message
  watch_config-closed options first turns e valid failed = rw (valid, failed) refl
