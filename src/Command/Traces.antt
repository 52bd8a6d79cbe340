-- ===== src/Command/Traces.antt =====
-- cmd/main.go: the tracer of the process.
use k8s_operator_cloudflare.Prelude.{
  ◌≡◌, refl, inl, inr, String, true, some, Bool-cases, if◌then◌else◌, is_some, str_eq,
}
use k8s_operator_cloudflare.Prelude.Float.{Float64}
use k8s_operator_cloudflare.Tracing.{TracingConfig, new_environment_config}
use k8s_operator_cloudflare.Tracing.Provider.{
  Sdk, Globals, Provider, new_provider, setup_global_tracer,
}
use k8s_operator_cloudflare.Tracing.Laws.{
  RatiosInUnit, validate-IsAccepted, new_environment_config-IsUsable,
}
use k8s_operator_cloudflare.Tracing.Outcomes.{Answers, Succeeds, new_provider-Succeeds}
use k8s_operator_cloudflare.Command.{Flags, environment_of, tracing_config, setup_tracing}

module _ {E W R X : Type 0} ⦃f : Float64 W⦄ (sdk : Sdk E R X) where
  tracing_config-made :
      Answers sdk
      → RatiosInUnit W
      → (to_lower getenv : String → String) (flags : Flags)
      → Succeeds (new_provider {W = W} sdk (tracing_config to_lower getenv flags))
  unfolding tracing_config
  tracing_config-made answers ratios to_lower getenv flags =
      let c : TracingConfig W = new_environment_config to_lower (environment_of getenv) in
      let (u, other) =
        new_environment_config-IsUsable {W = W} ratios to_lower (environment_of getenv) in
      let c' : TracingConfig W = tracing_config to_lower getenv flags in
      (new_provider-Succeeds sdk c' answers).1 (
        (validate-IsAccepted c').1
            (inr (record { named = u.named; exports = u.exports; samples = u.samples })),
        inr other,
      )

  -- If the SDK answers every call, the process has a tracer exactly if TRACING_ENABLED is "true", or
  -- is not set and --enable-tracing is given or the environment is one that traces by itself; then it
  -- is the global one.
  pub setup_tracing-enabled :
      Answers sdk
      → RatiosInUnit W
      → (to_lower getenv : String → String) (flags : Flags) (globals : Globals W R X)
      → let (globals', made) = setup_tracing sdk to_lower getenv flags globals in
        (is_some made ≡ (
          if str_eq (getenv "TRACING_ENABLED") ""
          then if flags.enable_tracing
            then true
            else (new_environment_config {W = W} to_lower (environment_of getenv)).enabled
          else str_eq (getenv "TRACING_ENABLED") "true"))
        × ((p : Provider W R X) → made ≡ some p → globals'.tracer_provider ≡ some p.provider)
  unfolding setup_tracing setup_global_tracer tracing_config
  setup_tracing-enabled answers ratios to_lower getenv flags globals =
      let (p, made) = tracing_config-made answers ratios to_lower getenv flags in
      let c : TracingConfig W = tracing_config to_lower getenv flags in
      elim (Bool-cases c.enabled) [
        | inl on ↦ rw (made, on) (refl, λ (q : Provider W R X) e. cc)
        | inr off ↦ rw (made, off) (refl, λ (q : Provider W R X) e. cc)
      ]
