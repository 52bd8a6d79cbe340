-- ===== src/Command/Spin.antt =====
-- cmd/main.go with the loader: the hot reload after a first load that fails.
use k8s_operator_cloudflare.Prelude.{
  ℕ, String, true, false, Option, none, List, [], ◌∷◌, ◌≡◌, ◌⊎◌, inl, inr, refl, ap, sym, subst,
  Bool-cases, str_eq,
}
use k8s_operator_cloudflare.Config.Types.{Config}
use k8s_operator_cloudflare.Config.Loader.{World, LoadError, err, validate_watch_options}
use k8s_operator_cloudflare.Config.Loader.Priority.{load_with_priority}
use k8s_operator_cloudflare.Config.Loader.Watch.{
  Turn, Watching, opened, load_failed, watch_config, watched_options,
}
use k8s_operator_cloudflare.Config.Loader.Changes.{watch_config-closed}
use k8s_operator_cloudflare.Config.Manager.{ConfigManager}
use k8s_operator_cloudflare.Command.{config_map_name}
use k8s_operator_cloudflare.Command.Watcher.{
  Port, channel, Receives, value, zero_value, Loop, loop_over, handle_config, Step, on_config,
  on_error, on_done, Rounds, done, next, watch_options,
}

Receives-closed :
    {A : Type 0} {p : Port A} {r : Option A} {left : Port A}
    → Receives p r left
    → p ≡ channel [] true
    → (r ≡ none) × (left ≡ channel [] true)
Receives-closed value h = absurd (cc)
Receives-closed zero_value h = (refl, refl)

Receives-last :
    {A : Type 0} {p : Port A} {r : Option A} {left : Port A} (x : A)
    → Receives p r left
    → (p ≡ channel (x ∷ []) true) ⊎ (p ≡ channel [] true)
    → left ≡ channel [] true
Receives-last x value (inl h) = cc
Receives-last x value (inr h) = absurd (cc)
Receives-last x zero_value h = refl

module _ {E : Type 0} (e : LoadError E) (m : ConfigManager) where
  -- Both channels are closed, and at most the error is left to receive.
  record IsStuck (s : Loop E) : Type 0 where
    configs : s.configs ≡ channel [] true
    errors : (s.errors ≡ channel (e ∷ []) true) ⊎ (s.errors ≡ channel [] true)
    cancelled : s.cancelled ≡ false
    returned : s.returned ≡ false
    manager : s.manager ≡ m

  Step-IsStuck : {s t : Loop E} → Step s t → IsStuck s → IsStuck t
  unfolding handle_config
  Step-IsStuck (on_config w now r left running received moved) stuck =
      let (nothing, same) = Receives-closed received stuck.configs in
      subst IsStuck (sym moved) (record {
        configs = same;
        errors = stuck.errors;
        cancelled = stuck.cancelled;
        returned = stuck.returned;
        manager = rw nothing stuck.manager;
      })
  Step-IsStuck (on_error r left running received moved) stuck =
      let empty = Receives-last e received stuck.errors in
      subst IsStuck (sym moved) (record {
        configs = stuck.configs;
        errors = inr empty;
        cancelled = stuck.cancelled;
        returned = stuck.returned;
        manager = stuck.manager;
      })
  Step-IsStuck (on_done running over moved) stuck = cc (stuck.cancelled)

  Rounds-IsStuck : {s t : Loop E} {n : ℕ} → Rounds s n t → IsStuck s → IsStuck t
  Rounds-IsStuck done stuck = stuck
  Rounds-IsStuck (next first rest) stuck = Rounds-IsStuck rest (Step-IsStuck first stuck)

  -- The receive of nil from the closed channel of configurations is always ready.
  spins : (w : World E) (s : Loop E) → IsStuck s → Step s s
  unfolding handle_config
  spins w s stuck =
      on_config w 0 none (channel [] true) stuck.returned
        (subst (λ p. Receives p none (channel [] true)) (sym stuck.configs) zero_value)
        (ap (λ p. record s { configs = p }) stuck.configs)

-- The options of the watcher pass its validation, since the name of the ConfigMap is never empty.
watch_options-valid :
    {E : Type 0} (getenv : String → String)
    → validate_watch_options {E = E} (watch_options getenv) ≡ none
unfolding validate_watch_options watch_options config_map_name
watch_options-valid getenv = elim (Bool-cases (str_eq (getenv "CONFIG_CONFIGMAP_NAME") "")) [
  | inl e ↦ rw e refl
  | inr n ↦ rw n (rw n refl)
]

loop_over-IsStuck :
    {E : Type 0} (e : LoadError E) (m : ConfigManager) (watching : Watching E)
    → watching ≡ opened (record { messages = load_failed e ∷ []; closed = true })
    → IsStuck e m (loop_over m watching)
unfolding loop_over
loop_over-IsStuck e m watching h = rw h (record {
  configs = refl;
  errors = inl refl;
  cancelled = refl;
  returned = refl;
  manager = refl;
})

-- If the first load of the watcher fails, the goroutine of the hot reload neither ends nor waits: after
-- any number of rounds it has not returned, the configuration manager is as it was, and the next
-- round, which changes nothing, is ready.
pub failed_watch_spins :
    {E : Type 0} (to_json : Config → String) (getenv : String → String) (first w : World E)
    (turns : List (Turn E)) (m : ConfigManager) (e : LoadError E) (n : ℕ) (s : Loop E)
    → load_with_priority first (watched_options (watch_options getenv)) ≡ err e
    → Rounds (loop_over m (watch_config to_json (watch_options getenv) first false turns)) n s
    → (s.returned ≡ false) × (s.manager ≡ m) × Step s s
failed_watch_spins to_json getenv first w turns m e n s failed rounds =
    let closed =
      watch_config-closed to_json (watch_options getenv) first turns e (watch_options-valid getenv)
        failed in
    let stuck = Rounds-IsStuck e m rounds (loop_over-IsStuck e m _ closed) in
    (stuck.returned, stuck.manager, spins e m w s stuck)
