-- ===== src/Command/Watcher.antt =====
-- cmd/main.go: the goroutine of the hot reload. A port is the receiving end of a channel; the messages
-- that WatchConfig sends stand in it from the start. `cancelled` says that `watchCtx` is done, which
-- nothing but the end of the goroutine brings about.
use k8s_operator_cloudflare.Prelude.{
  ℕ, zero, suc, ◌*◌, pos, String, Bool, true, false, Option, none, some, List, [], ◌∷◌, ◌≡◌, second,
}
use k8s_operator_cloudflare.Config.Types.{Config}
use k8s_operator_cloudflare.Config.Loader.{World, LoadError, WatchOptions}
use k8s_operator_cloudflare.Config.Loader.Watch.{Watching, refused, opened}
use k8s_operator_cloudflare.Config.Loader.Changes.{configs_of, failures_of}
use k8s_operator_cloudflare.Config.Manager.{ConfigManager, reload_config}
use k8s_operator_cloudflare.Config.Manager.Runs.{manager_of}
use k8s_operator_cloudflare.Command.{config_map_name}

unfoldable pub watch_options : (String → String) → WatchOptions
watch_options getenv = record {
  config_map_name = config_map_name getenv;
  secret_name = getenv "CONFIG_SECRET_NAME";
  interval = pos (30 * second);
}

pub data Port (A : Type 0) : Type 0 where
  nil_channel : Port A
  channel : List A → Bool → Port A

-- A receive: a value that was sent, or the zero value of a closed channel. A nil channel, and an open
-- one that is empty, block.
pub data Receives {A : Type 0} : Port A → Option A → Port A → Type 0 where
  value :
      {x : A} {xs : List A} {closed : Bool}
      → Receives (channel (x ∷ xs) closed) (some x) (channel xs closed)
  zero_value : Receives (channel [] true) none (channel [] true)

pub record Loop (E : Type 0) : Type 0 where
  pub configs : Port Config
  pub errors : Port (LoadError E)
  pub cancelled : Bool
  pub returned : Bool
  pub manager : ConfigManager

module _ {E : Type 0} where
  unfoldable pub loop_over : ConfigManager → Watching E → Loop E
  loop_over m (refused e) = record {
    configs = nil_channel;
    errors = channel (e ∷ []) true;
    cancelled = false;
    returned = false;
    manager = m;
  }
  loop_over m (opened s) = record {
    configs = channel (configs_of s.messages) s.closed;
    errors = channel (failures_of s.messages) s.closed;
    cancelled = false;
    returned = false;
    manager = m;
  }

  -- `if newConfig != nil`: the manager reloads, in the world of that load.
  unfoldable pub handle_config : World E → ℕ → Option Config → ConfigManager → ConfigManager
  handle_config w now none m = m
  handle_config w now (some c) m = manager_of m (reload_config w m now)

  -- One round of the loop: a case of its `select` that is ready.
  pub data Step : Loop E → Loop E → Type 0 where
    on_config :
        {s t : Loop E} (w : World E) (now : ℕ) (r : Option Config) (left : Port Config)
        → s.returned ≡ false
        → Receives s.configs r left
        → t ≡ record s { configs = left; manager = handle_config w now r s.manager }
        → Step s t
    on_error :
        {s t : Loop E} (r : Option (LoadError E)) (left : Port (LoadError E))
        → s.returned ≡ false
        → Receives s.errors r left
        → t ≡ record s { errors = left }
        → Step s t
    on_done :
        {s t : Loop E}
        → s.returned ≡ false
        → s.cancelled ≡ true
        → t ≡ record s { returned = true }
        → Step s t

  pub data Rounds : Loop E → ℕ → Loop E → Type 0 where
    done : {s : Loop E} → Rounds s zero s
    next : {s t u : Loop E} {n : ℕ} → Step s t → Rounds t n u → Rounds s (suc n) u
