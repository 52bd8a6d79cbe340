-- ===== src/Logging.antt =====
-- internal/logging/config.go: the configuration of the logs. A pointer receiver that is changed is the
-- record that is returned; a nil error is `none`. `strings.ToLower` is the parameter `to_lower`, and
-- what zapcore reads of a level is `Levels`. String, which formats the fields, is left out.
pub mod Logger
pub mod Middleware
pub mod Laws
pub mod Fields
mod Tests
use k8s_operator_cloudflare.Prelude.{
  ℤ, pos, String, Bool, true, false, not, ◌||◌, ◌&&◌, Option, none, some, List, [], ◌∷◌,
  if◌then◌else◌, str_eq, ltb_ℤ,
}

pub record LogSampling : Type 0 where
  pub enabled : Bool
  pub initial : ℤ
  pub thereafter : ℤ

pub record LoggingConfig : Type 0 where
  pub level : String
  pub format : String
  pub development : Bool
  pub sampling : LogSampling
  pub outputs : List String

pub data LoggingError : Type 0 where
  invalid_level invalid_format : String → LoggingError
  negative_initial negative_thereafter : ℤ → LoggingError
  invalid_sampling : LoggingError → LoggingError

-- `Level.UnmarshalText`, with `none` for an error; `is_invalid l` is `l == zapcore.InvalidLevel`, the
-- level of a text that cannot be read.
pub record Levels (L : Type 0) : Type 0 where
  pub unmarshal : String → Option L
  pub invalid : L
  pub is_invalid : L → Bool

unfoldable pub new_default_config : LoggingConfig
new_default_config = record {
  level = "info";
  format = "json";
  development = false;
  sampling = record { enabled = false; initial = pos 100; thereafter = pos 100 };
  outputs = "stdout" ∷ [];
}

unfoldable pub new_environment_config : (String → String) → String → LoggingConfig
unfolding new_default_config
new_environment_config to_lower environment =
    let config = new_default_config in
    let name = to_lower environment in
    if str_eq name "development" || str_eq name "dev"
    then record config { level = "debug"; format = "console"; development = true }
    else if str_eq name "production" || str_eq name "prod"
    then record config {
      level = "info";
      format = "json";
      development = false;
      sampling = record config.sampling { enabled = true };
    }
    else record config { level = "info"; format = "json"; development = false }

unfoldable pub is_json : LoggingConfig → Bool
is_json c = str_eq c.format "json"

unfoldable pub sampling_validate : LogSampling → Option LoggingError
sampling_validate s =
    if not s.enabled
    then none
    else if ltb_ℤ s.initial (pos 0)
    then some (negative_initial s.initial)
    else if ltb_ℤ s.thereafter (pos 0)
    then some (negative_thereafter s.thereafter)
    else none

abbrev or_stdout : List String → List String
or_stdout [] = "stdout" ∷ []
or_stdout (x ∷ xs) = x ∷ xs

abbrev after_sampling : LoggingConfig → Option LoggingError → LoggingConfig × Option LoggingError
after_sampling c (some e) = (c, some (invalid_sampling e))
after_sampling c none = (record c { outputs = or_stdout c.outputs }, none)

module _ {L : Type 0} (levels : Levels L) where
  abbrev or_invalid : Option L → L
  or_invalid none = levels.invalid
  or_invalid (some l) = l

  unfoldable pub get_level : LoggingConfig → L
  get_level c = or_invalid (levels.unmarshal c.level)

  unfoldable pub validate : LoggingConfig → LoggingConfig × Option LoggingError
  unfolding get_level
  validate c =
      if levels.is_invalid (get_level c)
      then (c, some (invalid_level c.level))
      else if not (str_eq c.format "json") && not (str_eq c.format "console")
      then (c, some (invalid_format c.format))
      else after_sampling c (sampling_validate c.sampling)
