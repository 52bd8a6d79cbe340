-- ===== src/Slo/Calculator.antt =====
-- internal/slo/calculator.go. The calculations of the indicators are placeholders that return a
-- constant and a nil error. What is written to a gauge or a histogram is a sample, in order.
use k8s_operator_cloudflare.Prelude.{
  ℕ, ◌*◌, ℤ, pos, ltb_ℤ, String, List, [], ◌∷◌, ◌++◌, if◌then◌else◌, second,
}
use k8s_operator_cloudflare.Prelude.Float.{Float64}
use k8s_operator_cloudflare.Slo.Config.{SloConfig, SloTargets, TimeWindow}

pub record SliValues {ℓ} (W : Type ℓ) : Type ℓ where
  pub availability : W
  pub success_rate : W
  pub latency_p95 : ℤ
  pub latency_p99 : ℤ
  pub throughput : W
  pub timestamp : ℕ
  pub window : String

pub record Sample {ℓ} (W : Type ℓ) : Type ℓ where
  pub metric : String
  pub labels : List String
  pub value : W

calculate_latency_percentiles : ℤ × ℤ
calculate_latency_percentiles = (pos (25 * second), pos (45 * second))

module _ {ℓ} {W : Type ℓ} ⦃f : Float64 W⦄ where
  unfoldable pub calculate_single_error_budget : W → W → W
  calculate_single_error_budget actual target =
      let total = f.sub (f.lit 1 0) target in
      let remaining = f.div (f.sub total (f.sub target actual)) total in
      if f.le (f.lit 1 0) target
      then f.lit 1 0
      else if f.le target actual
      then f.lit 1 0
      else if f.le total (f.lit 0 0)
      then f.lit 1 0
      else if f.lt remaining (f.lit 0 0)
      then f.lit 0 0
      else if f.lt (f.lit 1 0) remaining
      then f.lit 1 0
      else remaining

  -- A target in percent, as a ratio.
  abbrev pub ratio : W → W
  ratio percent = f.div percent (f.lit 100 0)

  unfoldable pub latency_conformance : SloTargets W → SliValues W → W
  latency_conformance targets values =
      if ltb_ℤ targets.latency_p95 values.latency_p95 then f.lit 95 2 else f.lit 1 0

  budget_sample : String → String → W → Sample W
  budget_sample name window value = record {
    metric = "sli_error_budget_remaining_ratio";
    labels = name ∷ window ∷ [];
    value = value;
  }

  unfoldable pub calculate_error_budgets : SloConfig W → SliValues W → List (Sample W)
  unfolding budget_sample calculate_single_error_budget latency_conformance
  calculate_error_budgets c values =
      budget_sample "availability" values.window
        (calculate_single_error_budget values.availability (ratio c.targets.availability))
      ∷ budget_sample "success_rate" values.window
          (calculate_single_error_budget values.success_rate (ratio c.targets.success_rate))
      ∷ budget_sample "latency_p95" values.window
          (calculate_single_error_budget (latency_conformance c.targets values) (f.lit 95 2))
      ∷ []

  calculate_availability : W
  calculate_availability = f.lit 999 3

  calculate_success_rate : W
  calculate_success_rate = f.lit 995 3

  calculate_throughput : W
  calculate_throughput = f.lit 150 1

  -- `seconds` is `Duration.Seconds`; the clock reads `now`.
  unfoldable pub calculate : (ℤ → W) → SloConfig W → TimeWindow → ℕ → SliValues W × List (Sample W)
  unfolding calculate_availability calculate_success_rate calculate_latency_percentiles
      calculate_throughput
  calculate seconds c window now =
      let (p95, p99) = calculate_latency_percentiles in
      let values : SliValues W = record {
        availability = calculate_availability;
        success_rate = calculate_success_rate;
        latency_p95 = p95;
        latency_p99 = p99;
        throughput = calculate_throughput;
        timestamp = now;
        window = window.name;
      } in
      let scope = window.name ∷ "cloudflarerecord" ∷ "all" ∷ [] in
      (
        values,
        record {
          metric = "sli_availability_ratio";
          labels = window.name ∷ [];
          value = values.availability;
        }
            ∷ record {
              metric = "sli_success_rate_ratio";
              labels = scope;
              value = values.success_rate;
            }
            ∷ record {
              metric = "sli_latency_seconds";
              labels = scope ++ ("reconcile" ∷ []);
              value = seconds p95;
            }
            ∷ record {
              metric = "sli_throughput_operations_per_minute";
              labels = scope;
              value = values.throughput;
            }
            ∷ calculate_error_budgets c values,
      )

  -- Two readings of the clock.
  unfoldable pub calculate_multi_window_burn_rate :
      (ℤ → W) → SloConfig W → TimeWindow → TimeWindow → ℕ → ℕ → W × List (Sample W)
  unfolding calculate
  calculate_multi_window_burn_rate seconds c short_window long_window now later =
      let (short_values, samples) = calculate seconds c short_window now in
      let (long_values, samples') = calculate seconds c long_window later in
      let budget = f.sub (f.lit 1 0) (ratio c.targets.success_rate) in
      let short_rate = f.div (f.sub (f.lit 1 0) short_values.success_rate) budget in
      let long_rate = f.div (f.sub (f.lit 1 0) long_values.success_rate) budget in
      (f.div (f.add short_rate long_rate) (f.lit 2 0), samples ++ samples')
