-- ===== src/Logging/Logger.antt =====
-- internal/logging/logger.go. What zap gives is `Zap`: its two preset configurations and `Build`. The
-- fields of a logger are the texts that `With` and `WithValues` are called with.
use k8s_operator_cloudflare.Prelude.{
  ℕ, ℤ, String, Bool, true, not, Option, none, some, List, [], ◌∷◌, ◌++◌, if◌then◌else◌, str_eq,
}
use k8s_operator_cloudflare.Prelude.Fallible.{Fallible, ok, err, map_ok, map_error, override_text}
use k8s_operator_cloudflare.Logging.{
  LoggingConfig, LoggingError, Levels, validate, get_level, is_json, new_environment_config,
}

pub record EncoderConfig : Type 0 where
  pub time_key : String
  pub level_key : String
  pub name_key : String
  pub caller_key : String
  pub message_key : String
  pub stacktrace_key : String
  pub iso8601_time : Bool
  pub capital_color_level : Bool

-- The fields of `zap.Config` that the code sets, and `P` for what the preset holds beside them.
-- `sampling` is `Initial` and `Thereafter`, with `none` for nil.
pub record ZapConfig (L P : Type 0) : Type 0 where
  pub level : L
  pub encoding : String
  pub encoder_config : EncoderConfig
  pub output_paths : List String
  pub error_output_paths : List String
  pub sampling : Option (ℤ × ℤ)
  pub preset : P

pub record Zap (L P Z E : Type 0) : Type 0 where
  pub levels : Levels L
  pub development_config : ZapConfig L P
  pub production_config : ZapConfig L P
  pub build : ZapConfig L P → Fallible E Z

pub data LoggerError (E : Type 0) : Type 0 where
  invalid_config : LoggingError → LoggerError E
  build_failed : E → LoggerError E

-- "Set encoding format".
unfoldable pub encoding_of : {L P : Type 0} → LoggingConfig → ZapConfig L P → ZapConfig L P
unfolding is_json
encoding_of c z =
    if is_json c
    then record z {
      encoding = "json";
      encoder_config = record z.encoder_config {
        time_key = "timestamp";
        level_key = "level";
        name_key = "logger";
        caller_key = "caller";
        message_key = "message";
        stacktrace_key = "stacktrace";
      };
    }
    else record z {
      encoding = "console";
      encoder_config = record z.encoder_config { iso8601_time = true; capital_color_level = true };
    }

module _ {L P Z E : Type 0} (zap : Zap L P Z E) where
  -- The configuration that `Build` is called with.
  unfoldable pub zap_config : LoggingConfig → ZapConfig L P
  unfolding encoding_of
  zap_config c =
      let start = if c.development then zap.development_config else zap.production_config in
      let leveled : ZapConfig L P = record start { level = get_level zap.levels c } in
      let encoded = encoding_of c leveled in
      record encoded {
        output_paths = c.outputs;
        error_output_paths = c.outputs;
        sampling =
            if c.sampling.enabled
            then some (c.sampling.initial, c.sampling.thereafter)
            else encoded.sampling;
      }

  abbrev pub after_validation : LoggingConfig × Option LoggingError → Fallible (LoggerError E) Z
  after_validation (c, some e) = err (invalid_config e)
  after_validation (c, none) = map_error build_failed (zap.build (zap_config c))

  unfoldable pub new_logger : LoggingConfig → Fallible (LoggerError E) Z
  unfolding zap_config
  new_logger c = after_validation (validate zap.levels c)

  abbrev replaced : Option Z → Fallible (LoggerError E) Z → Option Z × Option (LoggerError E)
  replaced old (ok z) = (some z, none)
  replaced old (err e) = (old, some e)

  -- The global logger after `zap.ReplaceGlobals`, and the error.
  unfoldable pub setup_global_logger : LoggingConfig → Option Z → Option Z × Option (LoggerError E)
  setup_global_logger c old = replaced old (new_logger c)

-- The overrides of `LoggerFromConfig`, from `os.Getenv`.
unfoldable pub from_environment : (String → String) → LoggingConfig → LoggingConfig
from_environment getenv c = record c {
  level = override_text (getenv "LOG_LEVEL") c.level;
  format = override_text (getenv "LOG_FORMAT") c.format;
  development = if str_eq (getenv "LOG_DEVELOPMENT") "true" then true else c.development;
}

unfoldable pub logger_from_config :
    {L P Z E : Type 0}
    → Zap L P Z E
    → (String → String)
    → (String → String)
    → String
    → Fallible (LoggerError E) Z
unfolding from_environment
logger_from_config zap to_lower getenv environment =
    new_logger zap (from_environment getenv (new_environment_config to_lower environment))

-- `zapr.NewLogger` is the parameter `convert`.
unfoldable pub logr_from_config :
    {L P Z E R : Type 0}
    → Zap L P Z E
    → (Z → R)
    → (String → String)
    → (String → String)
    → String
    → Fallible (LoggerError E) R
unfolding logger_from_config
logr_from_config zap convert to_lower getenv environment =
    map_ok convert (logger_from_config zap to_lower getenv environment)

-- What `trace.SpanFromContext(ctx).SpanContext()` answers.
pub record SpanContext : Type 0 where
  pub is_valid : Bool
  pub trace_id : String
  pub span_id : String

unfoldable pub get_trace_id : SpanContext → String
get_trace_id s = if not s.is_valid then "" else s.trace_id

unfoldable pub get_span_id : SpanContext → String
get_span_id s = if not s.is_valid then "" else s.span_id

-- `zap.String` and `zap.Time`.
pub data Field : Type 0 where
  string_field : String → String → Field
  time_field : String → ℕ → Field

-- `if value != "" { fields = append(fields, zap.String(name, value)) }`.
abbrev pub field : String → String → List Field
field name value = if not (str_eq value "") then string_field name value ∷ [] else []

unfoldable pub trace_fields : SpanContext → List Field
unfolding get_trace_id get_span_id
trace_fields s = field "trace.id" (get_trace_id s) ++ field "span.id" (get_span_id s)

-- `if value != "" { values = append(values, name, value) }`.
abbrev pub values_of : String → String → List String
values_of name value = if not (str_eq value "") then name ∷ value ∷ [] else []

unfoldable pub trace_values : SpanContext → List String
unfolding get_trace_id get_span_id
trace_values s = values_of "trace.id" (get_trace_id s) ++ values_of "span.id" (get_span_id s)

-- `if len(fields) > 0 { logger = logger.With(fields...) }`, and likewise `WithValues`.
abbrev pub with_any {ℓ} : {A : Type ℓ} {G : Type 0} → (List A → G → G) → List A → G → G
with_any extend [] logger = logger
with_any extend (x ∷ xs) logger = extend (x ∷ xs) logger

unfoldable pub with_trace_context : {Z : Type 0} → (List Field → Z → Z) → SpanContext → Z → Z
unfolding trace_fields
with_trace_context extend s logger = with_any extend (trace_fields s) logger

unfoldable pub with_trace_context_logr : {R : Type 0} → (List String → R → R) → SpanContext → R → R
unfolding trace_values
with_trace_context_logr extend s logger = with_any extend (trace_values s) logger
