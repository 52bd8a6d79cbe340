-- ===== src/Config/Manager/Loads.antt =====
-- internal/config/manager.go: what one load does to the manager.
use k8s_operator_cloudflare.Prelude.{
  ℕ, ◌≡◌, ◌≢◌, refl, ap, ◌∙◌, inl, inr, subst, sym, String, true, Option, none, some, List, [], ◌∷◌,
  if◌then◌else◌, str_eq, eq_iff, is_some, arith, Bool-cases,
}
use k8s_operator_cloudflare.Config.Types.{Config}
use k8s_operator_cloudflare.Config.Loader.{World, LoadOptions, Result, ok, err, wrap}
use k8s_operator_cloudflare.Config.Loader.Laws.{config_of}
use k8s_operator_cloudflare.Config.Loader.Priority.{State, load_with_priority}
use k8s_operator_cloudflare.Config.Validation.{validate}
use k8s_operator_cloudflare.Config.Loader.Outcomes.{
  load_with_priority-environment, load_with_priority-validate,
}
use k8s_operator_cloudflare.Config.Manager.{
  ManagerOptions, ConfigManager, Notice, notify_callbacks, override_environment, store_config,
  with_validation, loaded, load_config, reload_config,
}

abbrev callbacks_of : List Notice → List ℕ
callbacks_of [] = []
callbacks_of (n ∷ ns) = n.callback ∷ callbacks_of ns

callbacks_of-notify_callbacks :
    (fs : List ℕ) (old : Config) (new : Option Config)
    → callbacks_of (notify_callbacks fs old new) ≡ fs
unfolding notify_callbacks
callbacks_of-notify_callbacks [] old new = refl
callbacks_of-notify_callbacks (f ∷ fs) old new =
    ap (λ gs. f ∷ gs) (callbacks_of-notify_callbacks fs old new)

-- The environment of the manager's options is not used: what it would be used for does not occur.
pub override_environment-idle :
    (o : ManagerOptions) (c : Config) → c.environment ≢ "" → override_environment o c ≡ c
unfolding override_environment
override_environment-idle o c h = elim (Bool-cases (str_eq c.environment "")) [
  | inl e ↦ absurd (h ((eq_iff c.environment "").0 e))
  | inr n ↦ rw n refl
]

callbacks_of-notices :
    (m : ConfigManager) (old : Option Config) (c : Config)
    → callbacks_of (elim old [ none ↦ [] | some o ↦ notify_callbacks m.callbacks o (some c) ])
      ≡ (if is_some old then m.callbacks else [])
callbacks_of-notices m none c = refl
callbacks_of-notices m (some o) c = callbacks_of-notify_callbacks m.callbacks o (some c)

pub with_validation_again :
    (o : ManagerOptions) (options : LoadOptions)
    → with_validation o (with_validation o options) ≡ with_validation o options
with_validation_again o options = ground arith

with_validation-asked :
    (o : ManagerOptions) (options : LoadOptions)
    → options.validate_config ≡ true
    → (with_validation o options).validate_config ≡ true
with_validation-asked o options v = ground arith

module _ {E : Type 0} where
  pub wrap-ok :
      {A : Type 0} (text : String) (r : Result E A) (a : A) → wrap text r ≡ ok a → r ≡ ok a
  wrap-ok text (ok b) a h = h
  wrap-ok text (err e) a h = absurd (cc)

  -- What a load has done to the manager, by its result.
  unfoldable pub HasLoaded : ConfigManager → ConfigManager → Result E Config → List Notice → Type 0
  HasLoaded before after (err e) ns = (after ≡ before) × (ns ≡ [])
  HasLoaded before after (ok c) ns =
      (after.current_config ≡ some c)
      × (after.callbacks ≡ before.callbacks)
      × (callbacks_of ns ≡ (if is_some before.current_config then before.callbacks else []))

  loaded-HasLoaded :
      (m : ConfigManager) (o : LoadOptions) (now : ℕ) (r : Result E State)
      → let (after, result, ns) = loaded m o now r in HasLoaded m after result ns
  unfolding loaded HasLoaded store_config
  loaded-HasLoaded m o now (err e) = (refl, refl)
  loaded-HasLoaded m o now (ok (c, sources)) =
      (refl, refl, callbacks_of-notices m m.current_config (override_environment m.options c))

  -- A load that fails leaves the manager as it was and starts no callback. One that succeeds makes the
  -- configuration the current one, and starts one call of each registered callback, in the order of
  -- the registration, if there was a configuration before, and none if there was not. Each call is a
  -- goroutine of its own, so nothing is said of the order in which they run.
  pub load_config-HasLoaded :
      (w : World E) (m : ConfigManager) (o : LoadOptions) (now : ℕ)
      → let (after, result, ns) = load_config w m o now in HasLoaded m after result ns
  unfolding load_config
  load_config-HasLoaded w m o now = loaded-HasLoaded m _ now _

  loaded-result :
      (m : ConfigManager) (o : LoadOptions) (now : ℕ) (r : Result E State)
      → ((p : State) → r ≡ ok p → p.0.environment ≢ "")
      → (loaded m o now r).1 ≡ config_of r
  unfolding loaded
  loaded-result m o now (err e) h = refl
  loaded-result m o now (ok (c, sources)) h =
      ap ok (override_environment-idle m.options c (h (c, sources) refl))

  wrapped-environment :
      (w : World E) (o : LoadOptions) (p : State)
      → wrap "configuration" (load_with_priority w o) ≡ ok p
      → p.0.environment ≢ ""
  wrapped-environment w o p h =
      load_with_priority-environment w o p (wrap-ok "configuration" (load_with_priority w o) p h)

  -- The result of a load is that of `LoadWithPriority`: the environment of the manager's options never
  -- takes the place of an empty one.
  pub load_config-load_with_priority :
      (w : World E) (m : ConfigManager) (o : LoadOptions) (now : ℕ)
      → (load_config w m o now).1
        ≡ config_of (wrap "configuration" (load_with_priority w (with_validation m.options o)))
  unfolding load_config
  load_config-load_with_priority w m o now =
      loaded-result m _ now _ (wrapped-environment w (with_validation m.options o))

  config_of-ok :
      (r : Result E State) (c : Config) → config_of r ≡ ok c → (p : State) × (r ≡ ok p) × (p.0 ≡ c)
  config_of-ok (ok p) c h = (p, refl, cc)
  config_of-ok (err e) c h = absurd (cc)

  -- What a load gives that was asked to validate is valid.
  pub load_config-validate :
      (w : World E) (m : ConfigManager) (o : LoadOptions) (now : ℕ) (c : Config)
      → o.validate_config ≡ true
      → (load_config w m o now).1 ≡ ok c
      → validate w.net c ≡ none
  load_config-validate w m o now c v h =
      let o' = with_validation m.options o in
      let (p, made, e) =
        config_of-ok (wrap "configuration" (load_with_priority w o')) c
          (sym (load_config-load_with_priority w m o now) ∙ h) in
      subst (λ (x : Config). validate w.net x ≡ none) e
        (load_with_priority-validate w o' p (with_validation-asked m.options o v)
          (wrap-ok "configuration" (load_with_priority w o') p made))

  -- A load of the same sources into the manager that a load has left.
  IsRepeated : ConfigManager → LoadOptions → ℕ → ℕ → Result E State → Config → Type 0
  IsRepeated m o now later r c =
      let m' = (loaded m o now r).0 in
      (m'.load_options ≡ some o) × (m'.options ≡ m.options) × ((loaded m' o later r).1 ≡ ok c)

  loaded_again :
      (m : ConfigManager) (o : LoadOptions) (now later : ℕ) (r : Result E State) (c : Config)
      → (loaded m o now r).1 ≡ ok c
      → IsRepeated m o now later r c
  unfolding IsRepeated loaded store_config
  loaded_again m o now later (err e) c h = absurd (cc)
  loaded_again m o now later (ok p) c h = (refl, refl, h)

  reloaded :
      (w : World E) (m' : ConfigManager) (o o' : LoadOptions) (later : ℕ) (c : Config)
      → m'.load_options ≡ some o
      → with_validation m'.options o ≡ o'
      → (loaded m' o' later (wrap "configuration" (load_with_priority w o'))).1 ≡ ok c
      → (r : ConfigManager × Result E Config × List Notice) × (reload_config w m' later ≡ some r)
        × (r.1 ≡ ok c)
  unfolding reload_config load_config
  reloaded w m' o o' later c e v h = (load_config w m' o later, rw e refl, rw v h)

  -- A reload after a load that succeeded, in a world where LoadWithPriority gives for the same options
  -- what it gave then, succeeds with the same configuration, whenever it is. That the sources hold the
  -- same data is not enough: a map with two structured keys is read in either order.
  pub reload_config-load_config :
      (w w' : World E) (m : ConfigManager) (o : LoadOptions) (c : Config) (now later : ℕ)
      → load_with_priority w' (with_validation m.options o)
        ≡ load_with_priority w (with_validation m.options o)
      → (load_config w m o now).1 ≡ ok c
      → (r : ConfigManager × Result E Config × List Notice) × (reload_config w'
            (load_config w m o now).0
            later
          ≡ some r)
        × (r.1 ≡ ok c)
  unfolding load_config IsRepeated
  reload_config-load_config w w' m o c now later same h =
      let o' = with_validation m.options o in
      let (stored, options, again) =
        loaded_again m o' now later (wrap "configuration" (load_with_priority w o')) c h in
      reloaded w' _ o' o' later c stored
        (ap (λ x. with_validation x o') options ∙ with_validation_again m.options o)
        (subst
          (λ (r : Result E State).
            (loaded (loaded m o' now (wrap "configuration" (load_with_priority w o'))).0 o' later
              (wrap "configuration" r)).1
            ≡ ok c)
          (sym same) again)
