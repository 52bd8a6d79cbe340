-- ===== src/Config/Manager/Runs.antt =====
-- internal/config/manager.go: the manager over any sequence of calls.
use k8s_operator_cloudflare.Prelude.{
  ℕ, ◌≡◌, ◌≢◌, refl, sym, String, Bool, true, false, Option, none, some, List, [], ◌∷◌,
  if◌then◌else◌, is_some, arith, All,
}
use k8s_operator_cloudflare.Config.FeatureFlags.{FeatureFlagManager}
use k8s_operator_cloudflare.Config.Types.{Config}
use k8s_operator_cloudflare.Config.Validation.{Net, validate}
use k8s_operator_cloudflare.Config.Loader.{World, LoadOptions, Result, ok, err, wrap}
use k8s_operator_cloudflare.Config.Loader.Priority.{State, load_with_priority}
use k8s_operator_cloudflare.Config.Loader.Outcomes.{
  load_with_priority-validate, load_with_priority-environment, load_with_priority-leader_election,
}
use k8s_operator_cloudflare.Config.Manager.Loads.{override_environment-idle, wrap-ok}
use k8s_operator_cloudflare.Config.Manager.{
  ManagerOptions, ConfigManager, Notice, new_config_manager, store_config, with_validation, loaded,
  load_config, reload_config, register_config_change_callback, start_auto_reload, stop_auto_reload,
  close,
}

-- The exported methods that change the manager. `updateConfig` is none of them: only tests call it, and
-- it stores what it is given.
pub data Op (E : Type 0) : Type 0 where
  loads : World E → LoadOptions → ℕ → Op E
  reloads : World E → ℕ → Op E
  registers : ℕ → Op E
  starts stops closes : Op E

module _ {E : Type 0} where
  abbrev pub manager_of :
      ConfigManager → Option (ConfigManager × Result E Config × List Notice) → ConfigManager
  manager_of m none = m
  manager_of m (some r) = r.0

  unfoldable pub step : ConfigManager → Op E → ConfigManager
  step m (loads w o now) = (load_config w m o now).0
  step m (reloads w now) = manager_of m (reload_config w m now)
  step m (registers f) = register_config_change_callback m f
  step m starts = (start_auto_reload m).0
  step m stops = stop_auto_reload m
  step m closes = close m

  unfoldable pub run : ConfigManager → List (Op E) → ConfigManager
  run m [] = m
  run m (o ∷ ops) = run (step m o) ops

  -- The loads use the functions of `net`.
  abbrev pub IsUnder : Net → Op E → Type 0
  IsUnder net (loads w o now) = w.net ≡ net
  IsUnder net (reloads w now) = w.net ≡ net
  IsUnder net (registers f) = Unit
  IsUnder net starts = Unit
  IsUnder net stops = Unit
  IsUnder net closes = Unit

-- A configuration that the manager may hold.
pub record IsSound (net : Net) (c : Config) : Type 0 where
  pub valid : validate net c ≡ none
  pub named : c.environment ≢ ""
  pub elects : c.operator.leader_election ≡ true

-- The manager holds no configuration, and nothing that comes with one; or a sound one, with its flags
-- and the options that a reload takes.
unfoldable pub Holds : Net → Option Config → Option FeatureFlagManager → Option LoadOptions → Type 0
Holds net none flags options = (flags ≡ none) × (options ≡ none)
Holds net (some c) flags options =
    IsSound net c × (flags ≡ some (record { flags = c.features })) × (is_some options ≡ true)

pub record IsConsistent (net : Net) (m : ConfigManager) : Type 0 where
  pub validates : m.options.validate_on_load ≡ true
  pub holds : Holds net m.current_config m.feature_flag_manager m.load_options

with_validation-validates :
    (o : ManagerOptions) (options : LoadOptions)
    → o.validate_on_load ≡ true
    → (with_validation o options).validate_config ≡ true
with_validation-validates o options h = ground arith

close-IsConsistent :
    (net : Net) (m : ConfigManager) → IsConsistent net m → IsConsistent net (close m)
unfolding close Holds
close-IsConsistent net m h = record { validates = h.validates; holds = (refl, refl) }

start-IsConsistent :
    (net : Net) (m : ConfigManager) → IsConsistent net m → IsConsistent net (start_auto_reload m).0
unfolding start_auto_reload
start-IsConsistent net m h =
    elim m.options.auto_reload
      as (λ b.
        let r : ConfigManager × Bool =
          if b then (record m { reload_running = true }, true) else (m, false) in
        IsConsistent net r.0) [
          | true ↦ record { validates = h.validates; holds = h.holds }
          | false ↦ h
        ]

module _ {E : Type 0} (net : Net) where
  loaded-IsConsistent :
      (m : ConfigManager) (o : LoadOptions) (now : ℕ) (r : Result E State)
      → ((p : State) → r ≡ ok p → IsSound net p.0)
      → IsConsistent net m
      → IsConsistent net (loaded m o now r).0
  unfolding loaded store_config Holds
  loaded-IsConsistent m o now (err e) s h = h
  loaded-IsConsistent m o now (ok (c, sources)) s h =
      let sound = s (c, sources) refl in
      rw (override_environment-idle m.options c sound.named)
        (record { validates = h.validates; holds = (sound, refl, refl) })

  load_config-IsConsistent :
      (w : World E) (m : ConfigManager) (o : LoadOptions) (now : ℕ)
      → w.net ≡ net
      → IsConsistent net m
      → IsConsistent net (load_config w m o now).0
  unfolding load_config
  load_config-IsConsistent w m o now e h =
      loaded-IsConsistent m o' now (wrap "configuration" (load_with_priority w o')) sound h
    where
      o' : LoadOptions
      o' = with_validation m.options o

      sound : (p : State) → wrap "configuration" (load_with_priority w o') ≡ ok p → IsSound net p.0
      sound p q =
          let l = wrap-ok "configuration" (load_with_priority w o') p q in
          record {
            valid = rw (sym e) (
                load_with_priority-validate w o' p
                  (with_validation-validates m.options o h.validates) l);
            named = load_with_priority-environment w o' p l;
            elects = load_with_priority-leader_election w o' p l;
          }

  reload_config-IsConsistent :
      (w : World E) (m : ConfigManager) (options : Option LoadOptions) (now : ℕ)
      → w.net ≡ net
      → IsConsistent net m
      → IsConsistent net
          (manager_of m (elim options [ none ↦ none | some o ↦ some (load_config w m o now) ]))
  reload_config-IsConsistent w m none now e h = h
  reload_config-IsConsistent w m (some o) now e h = load_config-IsConsistent w m o now e h

  step-IsConsistent :
      (m : ConfigManager) (op : Op E)
      → IsUnder net op
      → IsConsistent net m
      → IsConsistent net (step m op)
  unfolding step reload_config register_config_change_callback stop_auto_reload
  step-IsConsistent m (loads w o now) u h = load_config-IsConsistent w m o now u h
  step-IsConsistent m (reloads w now) u h = reload_config-IsConsistent w m m.load_options now u h
  step-IsConsistent m (registers f) u h = record { validates = h.validates; holds = h.holds }
  step-IsConsistent m starts u h = start-IsConsistent net m h
  step-IsConsistent m stops u h = record { validates = h.validates; holds = h.holds }
  step-IsConsistent m closes u h = close-IsConsistent net m h

  run_from-IsConsistent :
      (m : ConfigManager) (ops : List (Op E))
      → All (IsUnder net) ops
      → IsConsistent net m
      → IsConsistent net (run m ops)
  unfolding run
  run_from-IsConsistent m [] u h = h
  run_from-IsConsistent m (op ∷ ops) (u, us) h =
      run_from-IsConsistent (step m op) ops us (step-IsConsistent m op u h)

  -- Whatever of LoadConfig, ReloadConfig, RegisterConfigChangeCallback, StartAutoReload, StopAutoReload
  -- and Close is called on a new manager of the default options, with loads whatever their sources say:
  -- if the manager holds a configuration, that passes `Validate`, names an environment and has leader
  -- election, its flag manager has the flags of that configuration, and it can be reloaded; if it
  -- holds none, it has no flag manager and cannot be reloaded.
  pub run-IsConsistent :
      (namespace : String) (ops : List (Op E))
      → All (IsUnder net) ops
      → IsConsistent net (run (new_config_manager namespace none) ops)
  unfolding new_config_manager Holds
  run-IsConsistent namespace ops u =
      run_from-IsConsistent (new_config_manager namespace none) ops u
        (record { validates = refl; holds = (refl, refl) })
