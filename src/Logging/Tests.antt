-- ===== src/Logging/Tests.antt =====
-- internal/logging: a logger with numbers for levels, loggers and errors.
use k8s_operator_cloudflare.Prelude.{
  ℕ, ◌≡◌, ◌⊎◌, refl, pos, false, none, some, [], ◌∷◌, if◌then◌else◌, str_eq, ◌==◌,
}
use k8s_operator_cloudflare.Prelude.Fallible.{ok, err, map_error}
use k8s_operator_cloudflare.Logging.{LoggingError, Levels, new_default_config}
use k8s_operator_cloudflare.Logging.Logger.{
  Zap, ZapConfig, zap_config, new_logger, invalid_config, build_failed,
}
use k8s_operator_cloudflare.Logging.Laws.{IsUsable, IsBuiltFrom, new_logger-IsBuiltFrom}

abbrev levels : Levels ℕ
levels = record {
  unmarshal = λ t. if str_eq t "debug" then some 0 else if str_eq t "info" then some 1 else none;
  invalid = 9;
  is_invalid = λ l. l == 9;
}

-- A preset of zap, which samples.
abbrev preset : ZapConfig ℕ ℕ
preset = record {
  level = 1;
  encoding = "json";
  encoder_config = record {
    time_key = "ts";
    level_key = "level";
    name_key = "logger";
    caller_key = "caller";
    message_key = "msg";
    stacktrace_key = "stacktrace";
    iso8601_time = false;
    capital_color_level = false;
  };
  output_paths = "stderr" ∷ [];
  error_output_paths = "stderr" ∷ [];
  sampling = some (pos 100, pos 100);
  preset = 0;
}

abbrev zap : Zap ℕ ℕ ℕ ℕ
zap = record {
  levels = levels;
  development_config = record preset { sampling = none };
  production_config = preset;
  build = λ q. ok q.level;
}

-- The default configuration does not ask for sampling, and is built with the preset's.
default_samples : (zap_config zap new_default_config).sampling ≡ some (pos 100, pos 100)
unfolding zap_config new_default_config
default_samples = refl

new_logger-IsBuiltFrom_example :
    (¬ IsUsable zap.levels new_default_config
      × ((e : LoggingError) × (new_logger zap new_default_config ≡ err (invalid_config e))))
    ⊎ (IsUsable zap.levels new_default_config
        × ((q : ZapConfig ℕ ℕ) × IsBuiltFrom zap new_default_config q
            × (new_logger zap new_default_config ≡ map_error build_failed (zap.build q))))
new_logger-IsBuiltFrom_example = new_logger-IsBuiltFrom zap new_default_config
