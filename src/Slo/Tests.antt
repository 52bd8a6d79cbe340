-- ===== src/Slo/Tests.antt =====
-- Runs of the calculator and of the manager, on whole thousandths.
use native.Mathlib.Nat.{mul-div_cancel_left}
use k8s_operator_cloudflare.Prelude.{
  ℕ, zero, suc, ◌*◌, ◌<◌, ℤ, pos, negsuc, ◌≡◌, refl, ap, true, [], ◌∷◌, arith, minute, ltb_ℤ,
}
use k8s_operator_cloudflare.Prelude.Fixed.{
  Thousandths, fixed, fixed-IsOrdered, fixed-Converts, fixed-Computes,
}
use k8s_operator_cloudflare.Slo.Config.{SloConfig, TimeWindow, default_config}
use k8s_operator_cloudflare.Slo.ErrorBudget.{calculate_error_budget}
use k8s_operator_cloudflare.Slo.Calculator.{
  calculate_single_error_budget, calculate_multi_window_burn_rate,
}
use k8s_operator_cloudflare.Slo.Manager.{
  Readings, below_threshold, new_manager, find_window, calculate_for_window,
}
use k8s_operator_cloudflare.Slo.Manager.Agreement.{
  Divides, calculate_single_error_budget-calculate_error_budget,
}
use k8s_operator_cloudflare.Slo.Manager.Invariant.{AllUpToDate, run, run-IsUpToDate}

positive : (n : ℕ) → zero < suc n
positive n = omega arith

fixed_div_self : (x : ℤ) → ltb_ℤ (pos 0) x ≡ true → fixed.div x x ≡ pos 1000
fixed_div_self (pos zero) h = cc
fixed_div_self (pos (suc n)) h = ap pos (mul-div_cancel_left 1000 (positive n))
fixed_div_self (negsuc n) h = ground arith

fixed-Divides : Divides Thousandths
fixed-Divides = record {
  sub_zero = λ x. ground arith;
  div_self = λ x h _. fixed_div_self x h;
  sub_from_one = λ x h. ground arith;
}

abbrev config : SloConfig Thousandths
unfolding default_config
config = default_config

abbrev five_minutes : TimeWindow
five_minutes = record { name = "5m"; duration = pos (5 * minute); is_short_term = true }

abbrev readings : Readings
readings = record {
  calculated = 1;
  availability = 2;
  success_rate = 3;
  latency = 4;
  alerts = λ n. 5;
}

outcomes_test :
    (calculate_for_window (λ d. pos 0) (new_manager config) five_minutes readings).1
    ≡ below_threshold ∷ below_threshold ∷ []
unfolding calculate_for_window new_manager config find_window calculate_multi_window_burn_rate
outcomes_test = refl

run-IsUpToDate_example :
    AllUpToDate config (run (λ d. pos 0) (new_manager config) ((five_minutes, readings) ∷ []))
run-IsUpToDate_example = run-IsUpToDate (λ d. pos 0) config ((five_minutes, readings) ∷ [])

calculate_single_error_budget-calculate_error_budget_example :
    calculate_single_error_budget (pos 985) (pos 980)
    ≡ (calculate_error_budget "availability" (pos 985) (pos 980) 7).remaining_percent
calculate_single_error_budget-calculate_error_budget_example =
    calculate_single_error_budget-calculate_error_budget fixed-IsOrdered fixed-Converts
      fixed-Computes fixed-Divides "availability" (pos 985) (pos 980) 7 refl refl refl
