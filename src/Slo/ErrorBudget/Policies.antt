-- ===== src/Slo/ErrorBudget/Policies.antt =====
-- internal/slo/error_budget.go: which policy is recommended.
use mathlib.Core.List.{Memᴰ}
use k8s_operator_cloudflare.Prelude.{◌≡◌, false, List, All}
use k8s_operator_cloudflare.Prelude.Float.{Float64, ◌≼◌}
use k8s_operator_cloudflare.Slo.Config.{ErrorBudgetPolicy}
use k8s_operator_cloudflare.Slo.ErrorBudget.Alerts.{Pick, exceeds}

module _ {ℓ} {W : Type ℓ} ⦃f : Float64 W⦄ where
  -- No policy that the consumption reaches is above the threshold.
  abbrev pub IsHighest : W → W → List (ErrorBudgetPolicy W) → Type 0
  IsHighest consumed highest ps = All (λ p. exceeds consumed highest p ≡ false) ps

  abbrev pub picked : ErrorBudgetPolicy W → Pick W
  picked p = record { applicable_action = p.action; highest_threshold = p.threshold }

  abbrev pub IsChosen : W → ErrorBudgetPolicy W → List (ErrorBudgetPolicy W) → Type ℓ
  IsChosen consumed p ps = Memᴰ p ps × (p.threshold ≼ consumed) × IsHighest consumed p.threshold ps
