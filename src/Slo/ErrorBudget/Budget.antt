-- ===== src/Slo/ErrorBudget/Budget.antt =====
-- internal/slo/error_budget.go: what a calculation's percentages are.
use k8s_operator_cloudflare.Prelude.{
  ℕ, pos, ◌≡◌, refl, sym, ap, ◌∙◌, String, true, List, [], ◌∷◌, inl, inr, All, Bool-cases, subst,
}
use k8s_operator_cloudflare.Prelude.Float.{Float64, ◌≼◌, IsNumber, IsOrdered, Converts, Computes}
use k8s_operator_cloudflare.Slo.Config.{ErrorBudgetPolicy}
use k8s_operator_cloudflare.Slo.ErrorBudget.{
  ErrorBudgetManager, clamp, consumed_of, share, calculate_error_budget,
}
use k8s_operator_cloudflare.Slo.ErrorBudget.Alerts.{
  check_alert_thresholds, get_recommended_action, no_policy, pick, exceeds,
}

module _ {ℓ} {W : Type ℓ} ⦃f : Float64 W⦄ where
  abbrev pub IsWithin : W → W → W → Type 0
  IsWithin least most x = (least ≼ x) × (x ≼ most)

  abbrev pub IsPositive : W → Type 0
  IsPositive x = f.lt (f.lit 0 0) x ≡ true

module _ {ℓ} {W : Type ℓ} ⦃f : Float64 W⦄ (order : IsOrdered W) where
  open order use {le_of_lt, le_of_not_lt, le_trans, number_of_le, not_lt_of_le, not_le_of_lt}

  pub clamp-IsWithin :
      (value least most : W)
      → least ≼ most
      → IsNumber (clamp value least most)
      → IsWithin least most (clamp value least most)
  unfolding clamp
  clamp-IsWithin value least most h number = elim (Bool-cases (f.lt value least)) [
    | inl e ↦ rw e ((number_of_le least most h).0, h)
    | inr e ↦ elim (Bool-cases (f.lt most value)) [
      | inl k ↦ rw (e, k) (h, (number_of_le least most h).1)
      | inr k ↦
          let value_number : IsNumber value =
            subst {A = W} (λ x. IsNumber x) (rw (e, k) refl) number in
          rw (e, k)
            (
              le_of_not_lt least value (number_of_le least most h).0 value_number e,
              le_of_not_lt value most value_number (number_of_le least most h).1 k,
            )
    ]
  ]

  module _ (conv : Converts W) (comp : Computes W) where
    pub one_positive : f.lt (f.lit 0 0) (f.lit 1 0) ≡ true
    one_positive = ap (λ x. f.lt x (f.lit 1 0)) (sym conv.of_zero) ∙ comp.one_pos

    zero-IsNumber : IsNumber (f.lit 0 0)
    zero-IsNumber = subst {A = W} (λ x. IsNumber x) conv.of_zero (conv.number_of_ℤ (pos 0))

    -- The remaining and the consumed share of a budget are between 0 and 1, unless they are NaN,
    -- whatever the figures are: also for a target of 100% or more, and far below the target.
    pub calculate_error_budget-IsWithin :
        (name : String) (actual target : W) (now : ℕ)
        → let calc = calculate_error_budget name actual target now in
          IsNumber calc.remaining_percent
          → IsNumber calc.consumed_percent
          → IsWithin (f.lit 0 0) (f.lit 1 0) calc.remaining_percent
            × IsWithin (f.lit 0 0) (f.lit 1 0) calc.consumed_percent
    unfolding calculate_error_budget
    calculate_error_budget-IsWithin name actual target now number number' =
        let least = le_of_lt _ _ one_positive in
        (clamp-IsWithin _ _ _ least number, clamp-IsWithin _ _ _ least number')

    share_of_nothing : (total : W) → share total (f.lit 0 0) (f.lit 0 0) ≡ f.lit 0 0
    share_of_nothing total = elim (Bool-cases (f.lt (f.lit 0 0) total)) [
      | inl e ↦ rw e (
          ap (λ x. f.div x total) (sym conv.of_zero)
          ∙ comp.zero_div total (ap (λ x. f.lt x total) conv.of_zero ∙ e)
          ∙ conv.of_zero)
      | inr e ↦ rw e refl
    ]

    clamp_zero : clamp (f.lit 0 0) (f.lit 0 0) (f.lit 1 0) ≡ f.lit 0 0
    unfolding clamp
    clamp_zero =
        rw (not_lt_of_le _ _ zero-IsNumber, not_lt_of_le _ _ (le_of_lt _ _ one_positive)) refl

    nothing_consumed :
        (name : String) (actual target : W) (now : ℕ)
        → target ≼ actual
        → (calculate_error_budget name actual target now).consumed_percent ≡ f.lit 0 0
    unfolding calculate_error_budget consumed_of
    nothing_consumed name actual target now h =
        rw (h, share_of_nothing (f.sub (f.lit 1 0) target)) clamp_zero

    pick_nothing :
        (ps : List (ErrorBudgetPolicy W))
        → All (λ p. IsPositive p.threshold) ps
        → pick (f.lit 0 0) no_policy ps ≡ no_policy
    unfolding pick exceeds
    pick_nothing [] _ = refl
    pick_nothing (p ∷ ps) (h, hs) = rw (not_le_of_lt _ _ h) (pick_nothing ps hs)

    -- An objective that is met costs nothing: where the thresholds of the alerts and of the policies
    -- are positive, a target that the figure reaches gives no alert, and normal operation is
    -- recommended.
    pub calculate_error_budget-met :
        (m : ErrorBudgetManager W) (name : String) (actual target : W) (now : ℕ)
        → target ≼ actual
        → IsPositive m.config.alert_thresholds.warning
        → IsPositive m.config.alert_thresholds.critical
        → All (λ p. IsPositive p.threshold) m.config.policies
        → let calc = calculate_error_budget name actual target now in
          (calc.consumed_percent ≡ f.lit 0 0)
          × (check_alert_thresholds m calc ≡ [])
          × (get_recommended_action m calc.consumed_percent ≡ "continue_normal_operations")
    unfolding check_alert_thresholds get_recommended_action
    calculate_error_budget-met m name actual target now h warning critical policies =
        let nothing = nothing_consumed name actual target now h in
        (
          nothing,
          rw (nothing, not_le_of_lt _ _ warning, not_le_of_lt _ _ critical) refl,
          rw (nothing, pick_nothing m.config.policies policies) refl,
        )
