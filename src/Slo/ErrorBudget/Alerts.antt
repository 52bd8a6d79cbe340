-- ===== src/Slo/ErrorBudget/Alerts.antt =====
-- internal/slo/error_budget.go: the thresholds of an alert and the policies. A text with a percentage
-- is that percentage.
use k8s_operator_cloudflare.Prelude.{
  negsuc, String, Bool, ◌&&◌, List, [], ◌∷◌, ◌++◌, if◌then◌else◌, str_eq,
}
use k8s_operator_cloudflare.Prelude.Float.{Float64}
use k8s_operator_cloudflare.Slo.Config.{ErrorBudgetPolicy}
use k8s_operator_cloudflare.Slo.ErrorBudget.{
  AlertThreshold, ErrorBudgetManager, ErrorBudgetCalculation,
}

-- The action and the threshold of the highest policy met so far.
pub record Pick {ℓ} (W : Type ℓ) : Type ℓ where
  pub applicable_action : String
  pub highest_threshold : W

abbrev pub or_normal : String → String
or_normal action = if str_eq action "" then "continue_normal_operations" else action

module _ {ℓ} {W : Type ℓ} ⦃f : Float64 W⦄ where
  alert_at : String → W → W → List (AlertThreshold W)
  alert_at name threshold consumed =
      if f.le threshold consumed
      then record {
        name = name;
        threshold = threshold;
        severity = name;
        message = f.mul consumed (f.lit 100 0);
      }
        ∷ []
      else []

  unfoldable pub check_alert_thresholds :
      ErrorBudgetManager W → ErrorBudgetCalculation W → List (AlertThreshold W)
  unfolding alert_at
  check_alert_thresholds m calc =
      alert_at "warning" m.config.alert_thresholds.warning calc.consumed_percent
      ++ alert_at "critical" m.config.alert_thresholds.critical calc.consumed_percent

  unfoldable pub exceeds : W → W → ErrorBudgetPolicy W → Bool
  exceeds consumed highest p = f.le p.threshold consumed && f.lt highest p.threshold

  unfoldable pub pick : W → Pick W → List (ErrorBudgetPolicy W) → Pick W
  unfolding exceeds
  pick consumed best [] = best
  pick consumed best (p ∷ ps) =
      pick consumed
        (if exceeds consumed best.highest_threshold p
          then record { applicable_action = p.action; highest_threshold = p.threshold }
          else best)
        ps

  abbrev pub no_policy : Pick W
  no_policy = record { applicable_action = ""; highest_threshold = f.of_ℤ (negsuc 0) }

  unfoldable pub get_recommended_action : ErrorBudgetManager W → W → String
  unfolding pick
  get_recommended_action m consumed =
      or_normal (pick consumed no_policy m.config.policies).applicable_action
