-- ===== src/Slo/ErrorBudget/Statistics.antt =====
-- internal/slo/error_budget.go: the statistics of a history, and the report.
use k8s_operator_cloudflare.Prelude.{
  ℕ, ◌+◌, ℤ, pos, ltb_ℤ, String, Bool, true, false, Option, none, some, List, [], ◌∷◌,
  if◌then◌else◌, length, hour, ◌==◌, last_of,
}
use k8s_operator_cloudflare.Prelude.Float.{Float64}
use k8s_operator_cloudflare.Config.Validation.{mul_int64}
use k8s_operator_cloudflare.Slo.ErrorBudget.{
  ErrorBudgetManager, ErrorBudgetSnapshot, Burn, computed, failed, sub_time, snapshots_of,
  calculate_burn_rate, predict_exhaustion,
}
use k8s_operator_cloudflare.Slo.ErrorBudget.Alerts.{get_recommended_action}

pub record ErrorBudgetStatistics {ℓ} (W : Type ℓ) : Type ℓ where
  pub min_remaining : W
  pub max_remaining : W
  pub avg_remaining : W
  pub min_burn_rate : W
  pub max_burn_rate : W
  pub avg_burn_rate : W
  pub total_violations : ℕ
  pub longest_violation : ℤ

pub record ErrorBudgetReport {ℓ} (W : Type ℓ) : Type ℓ where
  pub slo_name : String
  pub window : String
  pub generated : ℕ
  pub current_remaining : W
  pub current_consumed : W
  pub burn_rate : W
  pub predicted_exhaustion : Option ℕ
  pub recommended_action : String
  pub statistics : ErrorBudgetStatistics W

-- The local variables of the loop; `violation_start` is where a violation in progress began.
pub record Totals {ℓ} (W : Type ℓ) : Type ℓ where
  pub stats : ErrorBudgetStatistics W
  pub total_remaining : W
  pub total_burn_rate : W
  pub burn_rate_count : ℕ
  pub violation_start : Option ℕ

abbrev found_time : Burn ℕ → Option ℕ
found_time (computed time) = some time
found_time (failed e) = none

-- The readings of the clock, in the order of their use.
pub record Clock : Type 0 where
  pub generated : ℕ
  pub burn_now : ℕ
  pub predict_now : ℕ
  pub predict_later : ℕ
  pub statistics_now : ℕ

module _ {ℓ} {W : Type ℓ} ⦃f : Float64 W⦄ where
  -- `if x < old { old = x }` and `if x > old { old = x }`.
  unfoldable pub lower : W → W → W
  lower x old = if f.lt x old then x else old

  unfoldable pub higher : W → W → W
  higher x old = if f.lt old x then x else old

  unfoldable pub add_remaining : ErrorBudgetSnapshot W → Totals W → Totals W
  unfolding lower higher
  add_remaining s t = record t {
    stats = record t.stats {
      min_remaining = lower s.remaining t.stats.min_remaining;
      max_remaining = higher s.remaining t.stats.max_remaining;
    };
    total_remaining = f.add t.total_remaining s.remaining;
  }

  unfoldable pub add_burn_rate : ErrorBudgetSnapshot W → Totals W → Totals W
  unfolding lower higher
  add_burn_rate s t =
      if f.lt (f.lit 0 0) s.burn_rate
      then record t {
        stats = record t.stats {
          min_burn_rate = lower s.burn_rate t.stats.min_burn_rate;
          max_burn_rate = higher s.burn_rate t.stats.max_burn_rate;
        };
        total_burn_rate = f.add t.total_burn_rate s.burn_rate;
        burn_rate_count = t.burn_rate_count + 1;
      }
      else t

  abbrev pub longer : ℤ → ErrorBudgetStatistics W → ErrorBudgetStatistics W
  longer d stats =
      if ltb_ℤ stats.longest_violation d then record stats { longest_violation = d } else stats

  -- Whether the snapshot is in violation, and where a violation in progress began.
  abbrev pub track : Bool → Option ℕ → ℕ → Totals W → Totals W
  track true none now t = record t {
    stats = record t.stats { total_violations = t.stats.total_violations + 1 };
    violation_start = some now;
  }
  track true (some start) now t = t
  track false none now t = t
  track false (some start) now t = record t {
    stats = longer (sub_time now start) t.stats;
    violation_start = none;
  }

  unfoldable pub add_snapshot : ErrorBudgetManager W → ErrorBudgetSnapshot W → Totals W → Totals W
  unfolding add_remaining add_burn_rate
  add_snapshot m s t =
      let t' = add_burn_rate s (add_remaining s t) in
      track (f.le m.config.alert_thresholds.warning s.consumed_percent) t'.violation_start
        s.timestamp t'

  unfoldable pub add_snapshots :
      ErrorBudgetManager W → List (ErrorBudgetSnapshot W) → Totals W → Totals W
  unfolding add_snapshot
  add_snapshots m [] t = t
  add_snapshots m (s ∷ ss) t = add_snapshots m ss (add_snapshot m s t)

  abbrev empty_statistics : ErrorBudgetStatistics W
  empty_statistics = record {
    min_remaining = f.lit 0 0;
    max_remaining = f.lit 0 0;
    avg_remaining = f.lit 0 0;
    min_burn_rate = f.lit 0 0;
    max_burn_rate = f.lit 0 0;
    avg_burn_rate = f.lit 0 0;
    total_violations = 0;
    longest_violation = pos 0;
  }

  abbrev pub start_totals : Totals W
  start_totals = record {
    stats = record empty_statistics {
      min_remaining = f.lit 1 0;
      min_burn_rate = f.lit 1000000000 0;
    };
    total_remaining = f.lit 0 0;
    total_burn_rate = f.lit 0 0;
    burn_rate_count = 0;
    violation_start = none;
  }

  abbrev pub with_averages : ℕ → Totals W → ErrorBudgetStatistics W
  with_averages n t = record t.stats {
    avg_remaining = f.div t.total_remaining (f.of_ℤ (pos n));
    avg_burn_rate =
        if t.burn_rate_count == 0
        then t.stats.avg_burn_rate
        else f.div t.total_burn_rate (f.of_ℤ (pos t.burn_rate_count));
  }

  abbrev pub close_violation : Option ℕ → ℕ → ErrorBudgetStatistics W → ErrorBudgetStatistics W
  close_violation none now stats = stats
  close_violation (some start) now stats = longer (sub_time now start) stats

  unfoldable pub calculate_statistics :
      ErrorBudgetManager W → List (ErrorBudgetSnapshot W) → ℕ → ErrorBudgetStatistics W
  unfolding add_snapshots
  calculate_statistics m [] now = empty_statistics
  calculate_statistics m (s ∷ ss) now =
      let t = add_snapshots m (s ∷ ss) start_totals in
      close_violation t.violation_start now (with_averages (length (s ∷ ss)) t)

  abbrev rate_or_zero : Burn W → W
  rate_or_zero (computed rate) = rate
  rate_or_zero (failed e) = f.lit 0 0

  abbrev report_on :
      ErrorBudgetManager W
      → String
      → String
      → List (ErrorBudgetSnapshot W)
      → Clock
      → Option (ErrorBudgetReport W)
  report_on m name window [] clock = none
  report_on m name window (s ∷ ss) clock =
      let latest = last_of s ss in
      let period = mul_int64 (mul_int64 m.config.window_days (pos 24)) (pos hour) in
      some record {
        slo_name = name;
        window = window;
        generated = clock.generated;
        current_remaining = latest.remaining;
        current_consumed = latest.consumed_percent;
        burn_rate = rate_or_zero (calculate_burn_rate m name window period clock.burn_now);
        predicted_exhaustion =
            found_time (predict_exhaustion m name window clock.predict_now clock.predict_later);
        recommended_action = get_recommended_action m latest.consumed_percent;
        statistics = calculate_statistics m (s ∷ ss) clock.statistics_now;
      }

  unfoldable pub generate_report :
      ErrorBudgetManager W → String → String → Clock → Option (ErrorBudgetReport W)
  generate_report m name window clock = report_on m name window (snapshots_of m name window) clock
