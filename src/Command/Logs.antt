-- ===== src/Command/Logs.antt =====
-- cmd/main.go: which logger controller-runtime is given.
use k8s_operator_cloudflare.Prelude.{◌≡◌, refl, sym, ◌∙◌, String, Option, none, some}
use k8s_operator_cloudflare.Prelude.Fallible.{Fallible}
use k8s_operator_cloudflare.Logging.Logger.{Zap, LoggerError, setup_global_logger}
use k8s_operator_cloudflare.Command.{
  Flags, controller_logger, or_default_logger, logging_config, setup_logging,
}

module _ {L P Z E R : Type 0} (zap : Zap L P Z E) (convert : Z → R) where
  controller_logger-set :
      (r : Option Z × Option (LoggerError E)) (logr : Fallible (LoggerError E) R)
      → r.1 ≡ none
      → (controller_logger zap convert r logr).1 ≡ or_default_logger zap convert logr
  controller_logger-set (global, none) logr h = refl
  controller_logger-set (global, some e) logr h = absurd (cc)

  -- Once the global logger has been set up, the logger that controller-runtime is given is the one of
  -- LogrFromConfig for the environment, so that it is the same whatever --log-level and --log-format
  -- say: two starts that differ only in their flags give the same one.
  pub setup_logging-ignores_flags :
      (to_lower getenv : String → String) (given other : Flags) (global : Option Z)
      → (setup_global_logger zap (logging_config to_lower getenv given) global).1 ≡ none
      → (setup_global_logger zap (logging_config to_lower getenv other) global).1 ≡ none
      → (setup_logging zap convert to_lower getenv given global).1
        ≡ (setup_logging zap convert to_lower getenv other global).1
  unfolding setup_logging
  setup_logging-ignores_flags to_lower getenv given other global g o =
      controller_logger-set _ _ g ∙ sym (controller_logger-set _ _ o)
