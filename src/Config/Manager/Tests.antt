-- ===== src/Config/Manager/Tests.antt =====
-- internal/config/manager.go: a manager that loads, reloads and closes.
use k8s_operator_cloudflare.Prelude.{ℕ, ◌≡◌, refl, ap, false, none, some, List, [], ◌∷◌, ◌∙◌}
use k8s_operator_cloudflare.Config.Types.{Config}
use k8s_operator_cloudflare.Config.Loader.{World, Result, ok, wrap}
use k8s_operator_cloudflare.Config.Loader.Changes.{latest, loaded_configs}
use k8s_operator_cloudflare.Config.Loader.Laws.{config_of}
use k8s_operator_cloudflare.Config.Loader.Tests.{world, net, options, loaded_state, loads_valid}
use k8s_operator_cloudflare.Config.Manager.{
  ConfigManager, Notice, default_options, new_config_manager, load_config, reload_config,
  store_config, with_validation,
}
use k8s_operator_cloudflare.Config.Manager.Loads.{
  HasLoaded, load_config-HasLoaded, load_config-load_with_priority, reload_config-load_config,
}
use k8s_operator_cloudflare.Config.Manager.Reload.{Looped, auto_reload_loop}
use k8s_operator_cloudflare.Config.Manager.Ticks.{
  turns_of, worlds_of, announced, auto_reload_loop-latest,
}
use k8s_operator_cloudflare.Config.Manager.Runs.{
  Op, loads, reloads, registers, starts, closes, run, IsConsistent, run-IsConsistent,
}

abbrev manager : ConfigManager
manager = new_config_manager "operators" none

loaded_ok : (load_config world manager options 5).1 ≡ ok loaded_state.0
unfolding new_config_manager default_options
loaded_ok =
    load_config-load_with_priority world manager options 5
    ∙ ap (λ r. config_of (wrap "configuration" r)) loads_valid

abbrev ops : List (Op ℕ)
ops =
    loads world options 5
    ∷ registers 1
    ∷ reloads world 9
    ∷ starts
    ∷ closes
    ∷ loads world options 11
    ∷ []

run-IsConsistent_example : IsConsistent net (run manager ops)
run-IsConsistent_example =
    run-IsConsistent net "operators" ops (refl, (tt, (refl, (tt, (tt, (refl, tt))))))

load_config-HasLoaded_example :
    let (after, result, ns) = load_config world manager options 5 in
    HasLoaded manager after result ns
load_config-HasLoaded_example = load_config-HasLoaded world manager options 5

reload_config-load_config_example :
    (r : ConfigManager × Result ℕ Config × List Notice) × (reload_config world
        (load_config world manager options 5).0
        9
      ≡ some r)
    × (r.1 ≡ ok loaded_state.0)
reload_config-load_config_example =
    reload_config-load_config world world manager options loaded_state.0 5 9 refl loaded_ok

-- The manager after a load, with a callback.
abbrev loaded_manager : ConfigManager
unfolding store_config
loaded_manager = record (store_config manager options loaded_state 5) { callbacks = 1 ∷ [] }

abbrev two_ticks : List (World ℕ × ℕ)
two_ticks = (world, 300) ∷ (world, 600) ∷ []

auto_reload_loop-latest_example :
    let cs =
      loaded_configs (with_validation loaded_manager.options options) (worlds_of two_ticks) in
    (l : Looped) × (auto_reload_loop loaded_manager (turns_of two_ticks) ≡ some l)
    × (l.manager.current_config ≡ some (latest loaded_state.0 cs))
    × (l.notices ≡ announced (1 ∷ []) loaded_state.0 cs)
    × (l.manager.callbacks ≡ 1 ∷ [])
    × (l.returned ≡ false)
unfolding new_config_manager default_options loaded_manager
auto_reload_loop-latest_example =
    auto_reload_loop-latest loaded_manager options loaded_state.0 two_ticks refl refl refl
