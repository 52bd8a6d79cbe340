-- ===== src/Slo/ErrorBudget/Tests.antt =====
-- Runs of the error budgets, on whole thousandths.
use k8s_operator_cloudflare.Prelude.{◌*◌, pos, ◌≡◌, refl, List, [], ◌∷◌, recent, hour, ◌++◌}
use k8s_operator_cloudflare.Prelude.Fixed.{
  Thousandths, fixed, fixed-IsOrdered, fixed-Converts, fixed-Computes,
}
use k8s_operator_cloudflare.Prelude.Dict.{lookup, insert}
use k8s_operator_cloudflare.Config.Validation.{mul_int64}
use k8s_operator_cloudflare.Slo.Config.{default_error_budget}
use k8s_operator_cloudflare.Slo.ErrorBudget.{
  ErrorBudgetSnapshot, ErrorBudgetManager, new_error_budget_manager, calculate_error_budget,
  snapshots_of, history_key, record_snapshot, computed, failed, calculate_burn_rate,
  insufficient_data, predict_exhaustion,
}
use k8s_operator_cloudflare.Slo.ErrorBudget.History.{record_all, with_key, record_snapshot-recent}
use k8s_operator_cloudflare.Slo.ErrorBudget.Alerts.{get_recommended_action, check_alert_thresholds}
use k8s_operator_cloudflare.Slo.ErrorBudget.Budget.{
  IsWithin, calculate_error_budget-IsWithin, calculate_error_budget-met,
}

abbrev manager : ErrorBudgetManager Thousandths
unfolding default_error_budget new_error_budget_manager
manager = new_error_budget_manager default_error_budget

abbrev first_hour : ErrorBudgetSnapshot Thousandths
first_hour = record {
  timestamp = 1 * hour;
  remaining = pos 900;
  consumed_percent = pos 100;
  burn_rate = pos 0;
  slo_name = "availability";
  window = "1h";
}

abbrev second_hour : ErrorBudgetSnapshot Thousandths
second_hour = record first_hour {
  timestamp = 2 * hour;
  remaining = pos 400;
  consumed_percent = pos 600;
  burn_rate = pos 500;
}

abbrev other_objective : ErrorBudgetSnapshot Thousandths
other_objective = record first_hour { slo_name = "success_rate" }

abbrev recorded : List (ErrorBudgetSnapshot Thousandths)
recorded = first_hour ∷ other_objective ∷ second_hour ∷ []

with_key_test : with_key (history_key "availability" "1h") recorded ≡ first_hour ∷ second_hour ∷ []
unfolding with_key history_key
with_key_test = refl

burn_rate_test :
    calculate_burn_rate
      (record_all manager recorded)
      "availability"
      "1h"
      (pos (3 * hour))
      (3 * hour)
    ≡ computed (pos 500)
unfolding calculate_burn_rate snapshots_of record_all record_snapshot history_key lookup insert
    manager
burn_rate_test = refl

burn_rate_empty_test :
    calculate_burn_rate manager "availability" "1h" (pos (3 * hour)) (3 * hour)
    ≡ failed insufficient_data
unfolding calculate_burn_rate snapshots_of lookup manager
burn_rate_empty_test = refl

predict_test :
    predict_exhaustion (record_all manager recorded) "availability" "1h" (2 * hour) (5 * hour)
    ≡ computed (5 * hour)
unfolding predict_exhaustion calculate_burn_rate snapshots_of record_all record_snapshot history_key
    lookup insert manager mul_int64
predict_test = refl

action_test : get_recommended_action manager (pos 950) ≡ "freeze_deployments"
unfolding get_recommended_action manager
action_test = refl

record_snapshot-recent_example :
    snapshots_of
      (record_all (new_error_budget_manager default_error_budget) recorded)
      "availability"
      "1h"
    ≡ recent 1000 (with_key (history_key "availability" "1h") recorded)
record_snapshot-recent_example =
    record_snapshot-recent default_error_budget recorded "availability" "1h"

calculate_error_budget-IsWithin_example :
    let calc = calculate_error_budget "availability" (pos 500) (pos 900) 0 in
    IsWithin (pos 0) (pos 1000) calc.remaining_percent
    × IsWithin (pos 0) (pos 1000) calc.consumed_percent
unfolding calculate_error_budget
calculate_error_budget-IsWithin_example =
    calculate_error_budget-IsWithin fixed-IsOrdered fixed-Converts fixed-Computes "availability"
      (pos 500) (pos 900) 0 refl refl

calculate_error_budget-met_example :
    let calc = calculate_error_budget "availability" (pos 999) (pos 990) 0 in
    (calc.consumed_percent ≡ pos 0)
    × (check_alert_thresholds manager calc ≡ [])
    × (get_recommended_action manager calc.consumed_percent ≡ "continue_normal_operations")
unfolding manager
calculate_error_budget-met_example =
    calculate_error_budget-met fixed-IsOrdered fixed-Converts fixed-Computes manager "availability"
      (pos 999) (pos 990) 0 refl refl refl (refl, (refl, tt))

abbrev third_hour : ErrorBudgetSnapshot Thousandths
third_hour = record second_hour { timestamp = 3 * hour; consumed_percent = pos 800 }

three_hours :
    snapshots_of (record_all manager (recorded ++ (third_hour ∷ []))) "availability" "1h"
    ≡ (first_hour ∷ []) ++ (second_hour ∷ third_hour ∷ [])
unfolding snapshots_of record_all record_snapshot history_key lookup insert manager
three_hours = refl
