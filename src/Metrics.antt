-- ===== src/Metrics.antt =====
-- internal/metrics/performance.go: each method that writes, as the write that it sends to a collector,
-- and the methods that read. The collectors are known by their names; what Prometheus keeps of the
-- writes is a parameter.
pub mod Counters
use k8s_operator_cloudflare.Prelude.{
  ℤ, String, Bool, true, false, ◌&&◌, Option, none, some, List, [], ◌∷◌, str_eq, or_default,
}
use k8s_operator_cloudflare.Prelude.Float.{Float64}

-- `WithLabelValues(labels)` of a collector, then Set, Inc or Observe.
pub data Write {ℓ} (W : Type ℓ) : Type ℓ where
  sets : String → List String → W → Write W
  increments : String → List String → Write W
  observes : String → List String → W → Write W

-- `gauge` and `counter` are GetMetricWithLabelValues, then Write: `none` is an error, or a metric of
-- another kind. `seconds` is Duration.Seconds.
pub record Registry {ℓ} (W R : Type ℓ) : Type ℓ where
  pub write : R → Write W → R
  pub gauge : R → String → List String → Option W
  pub counter : R → String → List String → Option W
  pub seconds : ℤ → W

module _ {ℓ} {W : Type ℓ} where
  unfoldable pub update_queue_depth : String → String → W → Write W
  update_queue_depth controller namespace depth =
      sets "cloudflare_operator_queue_depth" (controller ∷ namespace ∷ []) depth

  unfoldable pub inc_reconcile_rate : String → String → String → Write W
  inc_reconcile_rate controller result namespace =
      increments "cloudflare_operator_reconcile_rate_total" (controller ∷ result ∷ namespace ∷ [])

  unfoldable pub inc_error_rate : String → String → String → Write W
  inc_error_rate controller error_type namespace =
      increments "cloudflare_operator_error_rate_total" (controller ∷ error_type ∷ namespace ∷ [])

module _ {ℓ} {W R : Type ℓ} where
  unfoldable pub observe_api_response_time : Registry W R → String → String → String → ℤ → Write W
  observe_api_response_time reg operation status_code namespace duration =
      observes "cloudflare_operator_api_response_time_seconds"
        (operation ∷ status_code ∷ namespace ∷ []) (reg.seconds duration)

  unfoldable pub observe_reconcile_duration : Registry W R → String → String → String → ℤ → Write W
  observe_reconcile_duration reg controller result namespace duration =
      observes "cloudflare_operator_reconcile_duration_seconds"
        (controller ∷ result ∷ namespace ∷ []) (reg.seconds duration)

  module _ ⦃f : Float64 W⦄ (reg : Registry W R) where
    unfoldable pub get_queue_depth_metric : R → String → String → W
    get_queue_depth_metric s controller namespace =
        or_default (reg.gauge s "cloudflare_operator_queue_depth" (controller ∷ namespace ∷ []))
          (f.lit 0 0)

    unfoldable pub get_reconcile_rate_metric : R → String → String → W
    get_reconcile_rate_metric s controller namespace =
        or_default
          (reg.counter s "cloudflare_operator_reconcile_rate_total"
            (controller ∷ "success" ∷ namespace ∷ []))
          (f.lit 0 0)

    unfoldable pub get_error_rate_metric : R → String → String → W
    get_error_rate_metric s controller namespace =
        elim (reg.counter s "cloudflare_operator_error_rate_total"
          (controller ∷ "reconcile_error" ∷ namespace ∷ [])) [
            | none ↦ f.lit 0 0
            | some v ↦ f.add (f.lit 0 0) v
          ]
