-- ===== src/Slo/Config.antt =====
-- internal/slo/config.go. A target, a threshold and a burn rate are values of the interface of floats.
use k8s_operator_cloudflare.Prelude.{
  ◌*◌, ℤ, pos, String, Bool, true, false, List, [], ◌∷◌, second, minute, hour,
}
use k8s_operator_cloudflare.Prelude.Float.{Float64}

pub record SloTargets {ℓ} (W : Type ℓ) : Type ℓ where
  pub availability : W
  pub success_rate : W
  pub latency_p95 : ℤ
  pub latency_p99 : ℤ
  pub throughput_min : W

pub record ErrorBudgetThresholds {ℓ} (W : Type ℓ) : Type ℓ where
  pub warning : W
  pub critical : W

pub record ErrorBudgetPolicy {ℓ} (W : Type ℓ) : Type ℓ where
  pub threshold : W
  pub action : String
  pub description : String

pub record ErrorBudgetConfig {ℓ} (W : Type ℓ) : Type ℓ where
  pub window_days : ℤ
  pub alert_thresholds : ErrorBudgetThresholds W
  pub policies : List (ErrorBudgetPolicy W)

pub record TimeWindow : Type 0 where
  pub name : String
  pub duration : ℤ
  pub is_short_term : Bool

pub record BurnRateAlert {ℓ} (W : Type ℓ) : Type ℓ where
  pub enabled : Bool
  pub short_window : ℤ
  pub long_window : ℤ
  pub burn_rate_threshold : W
  pub severity : String

pub record AlertingConfig {ℓ} (W : Type ℓ) : Type ℓ where
  pub page_alerts : BurnRateAlert W
  pub ticket_alerts : BurnRateAlert W

pub record SloConfig {ℓ} (W : Type ℓ) : Type ℓ where
  pub enabled : Bool
  pub targets : SloTargets W
  pub error_budget : ErrorBudgetConfig W
  pub windows : List TimeWindow
  pub alerting_rules : AlertingConfig W

module _ {ℓ} {W : Type ℓ} ⦃f : Float64 W⦄ where
  unfoldable pub default_error_budget : ErrorBudgetConfig W
  default_error_budget = record {
    window_days = pos 30;
    alert_thresholds = record { warning = f.lit 5 1; critical = f.lit 9 1 };
    policies =
        record {
          threshold = f.lit 5 1;
          action = "notify";
          description = "Notify team when 50% of error budget is consumed";
        }
        ∷ record {
          threshold = f.lit 9 1;
          action = "freeze_deployments";
          description = "Freeze non-critical deployments when 90% of error budget is consumed";
        }
        ∷ [];
  }

  unfoldable pub default_config : SloConfig W
  unfolding default_error_budget
  default_config = record {
    enabled = true;
    targets = record {
      availability = f.lit 999 1;
      success_rate = f.lit 995 1;
      latency_p95 = pos (30 * second);
      latency_p99 = pos (60 * second);
      throughput_min = f.lit 100 1;
    };
    error_budget = default_error_budget;
    windows =
        record { name = "5m"; duration = pos (5 * minute); is_short_term = true }
        ∷ record { name = "30m"; duration = pos (30 * minute); is_short_term = true }
        ∷ record { name = "1h"; duration = pos (1 * hour); is_short_term = false }
        ∷ record { name = "6h"; duration = pos (6 * hour); is_short_term = false }
        ∷ record { name = "1d"; duration = pos (24 * hour); is_short_term = false }
        ∷ record { name = "30d"; duration = pos (30 * 24 * hour); is_short_term = false }
        ∷ [];
    alerting_rules = record {
      page_alerts = record {
        enabled = true;
        short_window = pos (5 * minute);
        long_window = pos (1 * hour);
        burn_rate_threshold = f.lit 144 1;
        severity = "critical";
      };
      ticket_alerts = record {
        enabled = true;
        short_window = pos (30 * minute);
        long_window = pos (6 * hour);
        burn_rate_threshold = f.lit 60 1;
        severity = "warning";
      };
    };
  }
