-- ===== src/Config/Manager/Reload.antt =====
-- internal/config/manager.go: `autoReloadLoop`, the goroutine that StartAutoReload starts. A turn is
-- what its `select` meets: a tick, with the world of the reload and its time, or the end of the
-- context. No other call changes the manager meanwhile.
use k8s_operator_cloudflare.Prelude.{
  ℕ, pos, Bool, true, false, Option, none, some, List, [], ◌∷◌, ◌++◌, if◌then◌else◌, ltb_ℤ,
}
use k8s_operator_cloudflare.Config.Types.{Config}
use k8s_operator_cloudflare.Config.Loader.{World, Result}
use k8s_operator_cloudflare.Config.Manager.{ConfigManager, Notice, reload_config}

pub data ReloadTurn (E : Type 0) : Type 0 where
  ticks_at : World E → ℕ → ReloadTurn E
  done : ReloadTurn E

-- The manager that the loop leaves, the callbacks that it has started, and whether it has returned.
pub record Looped : Type 0 where
  pub manager : ConfigManager
  pub notices : List Notice
  pub returned : Bool

abbrev pub after_notices : List Notice → Looped → Looped
after_notices ns l = record l { notices = ns ++ l.notices }

module _ {E : Type 0} where
  -- An error of ReloadConfig is dropped; `rest` is the loop from the next turn on.
  abbrev pub after_reload :
      (ConfigManager → Looped)
      → ConfigManager
      → Option (ConfigManager × Result E Config × List Notice)
      → Looped
  after_reload rest m none = rest m
  after_reload rest m (some (m', r, ns)) = after_notices ns (rest m')

  unfoldable pub reload_loop : List (ReloadTurn E) → ConfigManager → Looped
  reload_loop [] m = record { manager = m; notices = []; returned = false }
  reload_loop (done ∷ turns) m = record { manager = m; notices = []; returned = true }
  reload_loop (ticks_at w now ∷ turns) m =
      after_reload (reload_loop turns) m (reload_config w m now)

  -- `none` is the panic of `time.NewTicker`, which wants a positive interval.
  unfoldable pub auto_reload_loop : ConfigManager → List (ReloadTurn E) → Option Looped
  unfolding reload_loop
  auto_reload_loop m turns =
      if ltb_ℤ (pos 0) m.options.reload_interval then some (reload_loop turns m) else none
