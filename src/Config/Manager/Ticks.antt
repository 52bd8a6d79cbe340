-- ===== src/Config/Manager/Ticks.antt =====
-- internal/config/manager.go: what the automatic reload does to the manager.
use k8s_operator_cloudflare.Prelude.{
  ℕ, pos, ◌≡◌, refl, ap, ◌∙◌, inl, inr, true, false, none, some, List, [], ◌∷◌, ◌++◌, ltb_ℤ,
}
use k8s_operator_cloudflare.Config.Types.{Config}
use k8s_operator_cloudflare.Config.Loader.{World, LoadOptions, LoadError, ok, err, wrap}
use k8s_operator_cloudflare.Config.Loader.Changes.{loaded_configs, latest, Result-cases}
use k8s_operator_cloudflare.Config.Loader.Outcomes.{load_with_priority-environment}
use k8s_operator_cloudflare.Config.Loader.Priority.{State, load_with_priority}
use k8s_operator_cloudflare.Config.Manager.{
  ConfigManager, Notice, notify_callbacks, store_config, with_validation, loaded, load_config,
  reload_config,
}
use k8s_operator_cloudflare.Config.Manager.Loads.{override_environment-idle, with_validation_again}
use k8s_operator_cloudflare.Config.Manager.Reload.{
  ReloadTurn, ticks_at, Looped, reload_loop, auto_reload_loop,
}

-- What the callbacks are told of a sequence of configurations, each after the one before.
unfoldable pub announced : List ℕ → Config → List Config → List Notice
announced fs c [] = []
announced fs c (d ∷ ds) = notify_callbacks fs c (some d) ++ announced fs d ds

-- A manager that has loaded, and whose next reload takes the options `o`.
record IsReady (o : LoadOptions) (fs : List ℕ) (c : Config) (m : ConfigManager) : Type 0 where
  stored : LoadOptions
  remembers : m.load_options ≡ some stored
  takes : with_validation m.options stored ≡ o
  again : with_validation m.options o ≡ o
  holds : m.current_config ≡ some c
  calls : m.callbacks ≡ fs

-- The loop has told of every load that succeeded, and the manager holds the last of them.
abbrev Follows : List ℕ → Config → List Config → Looped → Type 0
Follows fs c cs l =
    (l.manager.current_config ≡ some (latest c cs))
    × (l.notices ≡ announced fs c cs)
    × (l.manager.callbacks ≡ fs)
    × (l.returned ≡ false)

store_config-IsReady :
    (o : LoadOptions) (fs : List ℕ) (c : Config) (m : ConfigManager) (now : ℕ) (p : State)
    → IsReady o fs c m
    → IsReady o fs p.0 (store_config m o p now)
unfolding store_config
store_config-IsReady o fs c m now p h = record {
  stored = o;
  remembers = refl;
  takes = h.again;
  again = h.again;
  holds = refl;
  calls = h.calls;
}

module _ {E : Type 0} where
  abbrev pub turns_of : List (World E × ℕ) → List (ReloadTurn E)
  turns_of [] = []
  turns_of ((w, now) ∷ ts) = ticks_at w now ∷ turns_of ts

  abbrev pub worlds_of : List (World E × ℕ) → List (World E)
  worlds_of [] = []
  worlds_of ((w, now) ∷ ts) = w ∷ worlds_of ts

  module _ (o : LoadOptions) (fs : List ℕ) where
    reload_config-IsReady :
        (w : World E) (c : Config) (m : ConfigManager) (now : ℕ)
        → IsReady o fs c m
        → reload_config w m now
          ≡ some (loaded m o now (wrap "configuration" (load_with_priority w o)))
    unfolding reload_config load_config
    reload_config-IsReady w c m now h = rw (h.remembers, h.takes) refl

    reload_config-err :
        (w : World E) (c : Config) (m : ConfigManager) (now : ℕ) (e : LoadError E)
        → IsReady o fs c m
        → load_with_priority w o ≡ err e
        → reload_config w m now
          ≡ some (m, (loaded m o now (wrap "configuration" (load_with_priority w o))).1, [])
    unfolding loaded
    reload_config-err w c m now e h failed = reload_config-IsReady w c m now h ∙ rw failed refl

    reload_config-ok :
        (w : World E) (c : Config) (m : ConfigManager) (now : ℕ) (p : State)
        → IsReady o fs c m
        → load_with_priority w o ≡ ok p
        → reload_config w m now
          ≡ some (store_config m o p now, ok p.0, notify_callbacks fs c (some p.0))
    unfolding loaded
    reload_config-ok w c m now p h made =
        reload_config-IsReady w c m now h
        ∙ rw
            (
              made,
              override_environment-idle m.options p.0 (load_with_priority-environment w o p made),
              h.holds,
              h.calls,
            )
            refl

    reload_loop-Follows :
        (ts : List (World E × ℕ)) (c : Config) (m : ConfigManager)
        → IsReady o fs c m
        → Follows fs c (loaded_configs o (worlds_of ts)) (reload_loop (turns_of ts) m)
    unfolding reload_loop loaded_configs announced
    reload_loop-Follows [] c m h = (h.holds, refl, h.calls, refl)
    reload_loop-Follows ((w, now) ∷ ts) c m h = elim (Result-cases (load_with_priority w o)) [
      | inr (e, failed) ↦
          rw (failed, reload_config-err w c m now e h failed) (reload_loop-Follows ts c m h)
      | inl (p, made) ↦
          let (holds, told, calls, still) =
            reload_loop-Follows ts p.0 (store_config m o p now)
              (store_config-IsReady o fs c m now p h) in
          rw (made, reload_config-ok w c m now p h made)
            (holds, ap (λ ns. notify_callbacks fs c (some p.0) ++ ns) told, calls, still)
    ]

  -- A manager that has loaded with some options, and whose interval is positive, is reloaded at every
  -- tick: after any number of them it holds the last configuration that a load gave, the one before
  -- them if every load has failed, and a call of each callback was started at each load that succeeded, with
  -- the configuration before and the new one. A load that fails stops nothing: the loop goes on.
  pub auto_reload_loop-latest :
      (m : ConfigManager) (o : LoadOptions) (c : Config) (ts : List (World E × ℕ))
      → ltb_ℤ (pos 0) m.options.reload_interval ≡ true
      → m.load_options ≡ some o
      → m.current_config ≡ some c
      → (l : Looped) × (auto_reload_loop m (turns_of ts) ≡ some l)
        × (l.manager.current_config
            ≡ some (latest c (loaded_configs (with_validation m.options o) (worlds_of ts))))
        × (l.notices
            ≡ announced m.callbacks c (loaded_configs (with_validation m.options o) (worlds_of ts)))
        × (l.manager.callbacks ≡ m.callbacks)
        × (l.returned ≡ false)
  unfolding auto_reload_loop
  auto_reload_loop-latest m o c ts positive remembers holds =
      let (held, told, calls, still) =
        reload_loop-Follows (with_validation m.options o) m.callbacks ts c m (record {
          stored = o;
          remembers = remembers;
          takes = refl;
          again = with_validation_again m.options o;
          holds = holds;
          calls = refl;
        }) in
      (reload_loop (turns_of ts) m, rw positive refl, held, told, calls, still)

  reload_config-unloaded :
      (w : World E) (m : ConfigManager) (now : ℕ)
      → m.load_options ≡ none
      → reload_config w m now ≡ none
  unfolding reload_config
  reload_config-unloaded w m now h = rw h refl

  -- A manager that has nothing to reload, new or closed, is left as it is by every tick.
  pub reload_loop-unloaded :
      (ts : List (World E × ℕ)) (m : ConfigManager)
      → m.load_options ≡ none
      → reload_loop (turns_of ts) m ≡ record { manager = m; notices = []; returned = false }
  unfolding reload_loop
  reload_loop-unloaded [] m h = refl
  reload_loop-unloaded ((w, now) ∷ ts) m h =
      rw (reload_config-unloaded w m now h) (reload_loop-unloaded ts m h)
