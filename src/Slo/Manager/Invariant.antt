-- ===== src/Slo/Manager/Invariant.antt =====
-- internal/slo/slo.go: what holds of the stored budgets, whatever is calculated in whatever order.
use mathlib.Core.Option.{some-injective, none-ne-some}
use k8s_operator_cloudflare.Prelude.{
  ℕ, ℤ, pos, ◌*◌, ◌≤ℤ◌, ◌≡◌, ◌⊎◌, Option, none, false, eq_iff, refl, sym, ◌∙◌, subst, String, some,
  List, [], ◌∷◌, inl, inr, arith, str_eq, Bool-cases, second, or_default,
}
use k8s_operator_cloudflare.Prelude.Float.{Float64, ◌≼◌}
use k8s_operator_cloudflare.Prelude.Dict.{lookup, insert, lookup-insert}
use k8s_operator_cloudflare.Slo.Config.{SloConfig, TimeWindow, ErrorBudgetPolicy}
use k8s_operator_cloudflare.Slo.ErrorBudget.{history_key}
use k8s_operator_cloudflare.Slo.Calculator.{calculate, ratio}
use k8s_operator_cloudflare.Slo.Manager.{
  ErrorBudgetState, Manager, Readings, new_manager, triggered, check_error_budget_policies,
  updated_state, update_single_error_budget, update_error_budgets, calculate_for_window, interval,
  new_state,
}

-- Every ticker has a period of at least 30 seconds, whatever the duration of its window, so that
-- none is made with a period that is not positive.
pub interval_ge : (w : TimeWindow) → pos (30 * second) ≤ℤ interval w
unfolding interval
interval_ge w = ground arith

abbrev pub IsObjective : String → Type 0
IsObjective name = (name ≡ "availability") ⊎ ((name ≡ "success_rate") ⊎ (name ≡ "latency_p95"))

module _ {ℓ} {W : Type ℓ} ⦃f : Float64 W⦄ where
  -- From the policies, in their order, exactly those whose threshold is not above the consumption
  -- give their actions.
  pub data Acts (consumed : W) : List (ErrorBudgetPolicy W) → List String → Type ℓ where
    no_policy : Acts consumed [] []
    reached :
        (p : ErrorBudgetPolicy W) (ps : List (ErrorBudgetPolicy W)) (actions : List String)
        → p.threshold ≼ consumed
        → Acts consumed ps actions
        → Acts consumed (p ∷ ps) (p.action ∷ actions)
    not_reached :
        (p : ErrorBudgetPolicy W) (ps : List (ErrorBudgetPolicy W)) (actions : List String)
        → f.le p.threshold consumed ≡ false
        → Acts consumed ps actions
        → Acts consumed (p ∷ ps) actions

  triggered-Acts :
      (ps : List (ErrorBudgetPolicy W)) (consumed : W) → Acts consumed ps (triggered ps consumed)
  unfolding triggered
  triggered-Acts [] consumed = no_policy
  triggered-Acts (p ∷ ps) consumed = elim (Bool-cases (f.le p.threshold consumed)) [
    | inl e ↦ rw e (reached p ps (triggered ps consumed) e (triggered-Acts ps consumed))
    | inr n ↦ rw n (not_reached p ps (triggered ps consumed) n (triggered-Acts ps consumed))
  ]

  -- The budget is of one of the three objectives and is stored under that and a window, the
  -- consumption goes with what remains, and the actions with the consumption.
  abbrev pub IsUpToDate : SloConfig W → String → ErrorBudgetState W → Type ℓ
  IsUpToDate c key s =
      IsObjective s.slo_name
      × ((window : String) × (key ≡ history_key s.slo_name window))
      × (s.consumed_percent ≡ f.sub (f.lit 1 0) s.current_remaining)
      × Acts s.consumed_percent c.error_budget.policies s.policy_triggered

  abbrev pub AllUpToDate : SloConfig W → Manager W → Type ℓ
  AllUpToDate c m =
      (m.config ≡ c)
      × ((key : String) (s : ErrorBudgetState W)
          → lookup key m.error_budgets ≡ some s
          → IsUpToDate c key s)

  -- The name that a budget keeps is of an objective, and goes with its key.
  abbrev IsNamed : String → ErrorBudgetState W → Type 0
  IsNamed key s =
      IsObjective s.slo_name × ((window : String) × (key ≡ history_key s.slo_name window))

  updated_state-IsUpToDate :
      (c : SloConfig W) (key : String) (s : ErrorBudgetState W) (actual target : W) (now : ℕ)
      → IsNamed key s
      → IsUpToDate c key (updated_state c s actual target now)
  unfolding updated_state check_error_budget_policies
  updated_state-IsUpToDate c key s actual target now (objective, stored) =
      (objective, stored, refl, triggered-Acts c.error_budget.policies _)

  old-IsNamed :
      (c : SloConfig W) (m : Manager W) (name window : String) (old : Option (ErrorBudgetState W))
      → IsObjective name
      → ((s : ErrorBudgetState W) → old ≡ some s → IsUpToDate c (history_key name window) s)
      → IsNamed (history_key name window) (or_default old (new_state name))
  old-IsNamed c m name window none objective held = (objective, (window, refl))
  old-IsNamed c m name window (some s) objective held =
      let (named, stored, _, _) = held s refl in (named, stored)

  insert-AllUpToDate :
      (c : SloConfig W) (m : Manager W) (name key : String) (new s : ErrorBudgetState W)
      → ((key' : String) (s' : ErrorBudgetState W)
          → lookup key' m.error_budgets ≡ some s'
          → IsUpToDate c key' s')
      → IsUpToDate c name new
      → lookup key (insert name new m.error_budgets) ≡ some s
      → IsUpToDate c key s
  insert-AllUpToDate c m name key new s held fresh e = elim (Bool-cases (str_eq name key)) [
    | inl k ↦
        subst (λ key'. IsUpToDate c key' s) ((eq_iff name key).0 k)
          (subst (λ s'. IsUpToDate c name s')
            (some-injective new s
              (sym (lookup-insert name key new m.error_budgets ∙ rw k refl) ∙ e))
            fresh)
    | inr k ↦ held key s (sym (lookup-insert name key new m.error_budgets ∙ rw k refl) ∙ e)
  ]

  update-AllUpToDate :
      (c : SloConfig W) (m : Manager W) (name : String) (actual target : W) (window : String)
      (now : ℕ)
      → IsObjective name
      → AllUpToDate c m
      → AllUpToDate c (update_single_error_budget m name actual target window now)
  unfolding update_single_error_budget
  update-AllUpToDate c m name actual target window now objective (same, held) =
      let key = history_key name window in
      let old = or_default (lookup key m.error_budgets) (new_state name) in
      (
        same,
        λ other s e.
            insert-AllUpToDate c m key other _ s held
              (subst (λ c'. IsUpToDate c key (updated_state c' old actual target now)) (sym same)
                (updated_state-IsUpToDate c key old actual target now
                  (old-IsNamed c m name window (lookup key m.error_budgets) objective (held key))))
              e,
      )

  -- The calculations for windows, in this order.
  unfoldable pub run : (ℤ → W) → Manager W → List (TimeWindow × Readings) → Manager W
  run seconds m [] = m
  run seconds m ((window, at) ∷ rest) =
      run seconds (calculate_for_window seconds m window at).0 rest

  calculate_for_window-AllUpToDate :
      (seconds : ℤ → W) (c : SloConfig W) (m : Manager W) (window : TimeWindow) (at : Readings)
      → AllUpToDate c m
      → AllUpToDate c (calculate_for_window seconds m window at).0
  unfolding calculate_for_window update_error_budgets
  calculate_for_window-AllUpToDate seconds c m window at (same, held) =
      let values = (calculate seconds m.config window at.calculated).0 in
      let stored = record m { last_calculation = insert window.name values m.last_calculation } in
      let targets = m.config.targets in
      let first =
        update_single_error_budget stored "availability" values.availability
          (ratio targets.availability) values.window at.availability in
      let second_one =
        update_single_error_budget first "success_rate" values.success_rate
          (ratio targets.success_rate) values.window at.success_rate in
      update-AllUpToDate c second_one "latency_p95" _ _ values.window at.latency (inr (inr refl)) (
        update-AllUpToDate c first "success_rate" _ _ values.window at.success_rate (inr (inl refl))
          (update-AllUpToDate c stored "availability" _ _ values.window at.availability (inl refl)
            (same, held)))

  run_keeps :
      (seconds : ℤ → W) (c : SloConfig W) (steps : List (TimeWindow × Readings)) (m : Manager W)
      → AllUpToDate c m
      → AllUpToDate c (run seconds m steps)
  unfolding run
  run_keeps seconds c [] m h = h
  run_keeps seconds c ((window, at) ∷ rest) m h =
      run_keeps seconds c rest (calculate_for_window seconds m window at).0
        (calculate_for_window-AllUpToDate seconds c m window at h)

  -- However often and in whatever order the calculations run for windows, the configuration stays;
  -- each stored budget is of one of the three objectives and stands under its name and a window, its
  -- consumption is one less the remaining budget, and its actions are, in the order of the policies,
  -- those of the policies whose threshold is at most the consumption, and no others.
  pub run-IsUpToDate :
      (seconds : ℤ → W) (c : SloConfig W) (steps : List (TimeWindow × Readings))
      → AllUpToDate c (run seconds (new_manager c) steps)
  unfolding new_manager lookup
  run-IsUpToDate seconds c steps =
      run_keeps seconds c steps (new_manager c) (refl, λ key s e. absurd (none-ne-some s e))
