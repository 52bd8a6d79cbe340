-- ===== src/Controller/Metrics.antt =====
-- internal/controller/cloudflarerecord_controller.go: the writes of Reconcile to the collectors of
-- internal/metrics/performance.go, by the label of the outcome. The writes to the other collectors are
-- left out. `api_time` and `duration` are the times that it measures.
use k8s_operator_cloudflare.Prelude.{
  ℕ, ℤ, String, ◌||◌, Option, none, some, List, [], ◌∷◌, ◌++◌, if◌then◌else◌, str_eq,
}
use k8s_operator_cloudflare.Prelude.Float.{Float64}
use k8s_operator_cloudflare.Metrics.{
  Write, Registry, update_queue_depth, inc_reconcile_rate, inc_error_rate,
  observe_api_response_time, observe_reconcile_duration,
}
use k8s_operator_cloudflare.Controller.{Api, Reconciler, Outcome, reconcile}

-- One call of Reconcile: what it meets, the namespace of its request and its times.
pub record Attempt (E : Type 0) : Type 0 where
  pub api : Api E
  pub reconciler : Reconciler
  pub now : ℕ
  pub namespace : String
  pub api_time : ℤ
  pub duration : ℤ

unfoldable pub outcome_of : {E : Type 0} → Attempt E → Outcome E
unfolding reconcile
outcome_of a = reconcile a.api a.reconciler a.now

module _ {W R : Type 0} (reg : Registry W R) where
  -- The simulated call of the API comes before the write of the status.
  abbrev response_time : String → String → ℤ → List (Write W)
  unfolding observe_api_response_time
  response_time label namespace time =
      if str_eq label "success" || str_eq label "status_error"
      then observe_api_response_time reg "record_update" "200" namespace time ∷ []
      else []

  abbrev errors : String → String → List (Write W)
  unfolding inc_error_rate
  errors label namespace =
      if str_eq label "error"
      then inc_error_rate "cloudflarerecord" "get_error" namespace ∷ []
      else if str_eq label "delete_error"
          || (str_eq label "finalizer_error" || str_eq label "status_error")
      then inc_error_rate "cloudflarerecord" label namespace ∷ []
      else []

  unfoldable pub writes_of_label : Option String → String → ℤ → ℤ → List (Write W)
  unfolding response_time errors observe_reconcile_duration inc_reconcile_rate
  writes_of_label none namespace api_time duration = []
  writes_of_label (some label) namespace api_time duration =
      response_time label namespace api_time
      ++ (observe_reconcile_duration reg "cloudflarerecord" label namespace duration
          ∷ inc_reconcile_rate "cloudflarerecord" label namespace
          ∷ errors label namespace)

  -- The depth of the queue is set at the start, and by the deferred call at the end.
  unfoldable pub writes_at : ⦃f : Float64 W⦄ → Option String → String → ℤ → ℤ → List (Write W)
  unfolding writes_of_label update_queue_depth
  writes_at ⦃f⦄ label namespace api_time duration =
      update_queue_depth "cloudflarerecord" namespace (f.lit 1 0)
      ∷ (writes_of_label label namespace api_time duration
          ++ (update_queue_depth "cloudflarerecord" namespace (f.lit 0 0) ∷ []))

  unfoldable pub metric_writes : {E : Type 0} → ⦃f : Float64 W⦄ → Attempt E → List (Write W)
  unfolding writes_at outcome_of
  metric_writes a = writes_at (outcome_of a).label a.namespace a.api_time a.duration
