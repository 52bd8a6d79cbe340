-- ===== src/Config/FeatureFlags.antt =====
-- internal/config/feature_flags.go. A method that writes returns the new manager; the mutex makes
-- each method atomic. `none` is a nil pointer or a nil map.
pub mod Enabled
pub mod Laws
mod Tests
use k8s_operator_cloudflare.Prelude.{
  String, Bool, true, false, ◌||◌, ◌&&◌, Option, none, some, List, [], ◌∷◌, if◌then◌else◌, str_eq,
  is_some,
}
use k8s_operator_cloudflare.Prelude.Dict.{Dict, lookup, insert, delete, put_all}

pub record FeatureFlags : Type 0 where
  pub enable_webhooks : Bool
  pub enable_metrics : Bool
  pub enable_tracing : Bool
  pub experimental_features : Bool
  pub custom_flags : Option (Dict Bool)

pub record FeatureFlagManager : Type 0 where
  pub flags : Option FeatureFlags

-- The errors of SetStandardFlag, by the name that they quote.
pub data FlagError : Type 0 where
  does_not_exist not_a_boolean : String → FlagError

unfoldable pub no_flags : FeatureFlags
no_flags = record {
  enable_webhooks = false;
  enable_metrics = false;
  enable_tracing = false;
  experimental_features = false;
  custom_flags = some [];
}

-- Ranging over a nil map, or reading it, finds nothing.
abbrev pub entries : Option (Dict Bool) → Dict Bool
entries none = []
entries (some m) = m

abbrev pub value_or_false : Option Bool → Bool
value_or_false none = false
value_or_false (some b) = b

-- The `switch` of `IsEnabled`, then the custom flags.
unfoldable pub flag_value : FeatureFlags → String → Bool
flag_value f name =
    if str_eq name "EnableWebhooks"
    then f.enable_webhooks
    else if str_eq name "EnableMetrics"
    then f.enable_metrics
    else if str_eq name "EnableTracing"
    then f.enable_tracing
    else if str_eq name "ExperimentalFeatures"
    then f.experimental_features
    else value_or_false (lookup name (entries f.custom_flags))

unfoldable pub is_enabled_in : Option FeatureFlags → String → Bool
is_enabled_in none name = false
is_enabled_in (some f) name = flag_value f name

unfoldable pub is_enabled : FeatureFlagManager → String → Bool
unfolding is_enabled_in
is_enabled m name = is_enabled_in m.flags name

abbrev write : FeatureFlags → FeatureFlagManager
write f = record { flags = some f }

set_flag_in : Option FeatureFlags → String → Bool → FeatureFlagManager
set_flag_in none name b = record { flags = none }
set_flag_in (some f) name b =
    write (record f { custom_flags = some (insert name b (entries f.custom_flags)) })

unfoldable pub set_flag : FeatureFlagManager → String → Bool → FeatureFlagManager
unfolding set_flag_in
set_flag m name b = set_flag_in m.flags name b

unfoldable pub standard_flags : FeatureFlags → Dict Bool
standard_flags f =
    ("EnableWebhooks", f.enable_webhooks)
    ∷ ("EnableMetrics", f.enable_metrics)
    ∷ ("EnableTracing", f.enable_tracing)
    ∷ ("ExperimentalFeatures", f.experimental_features)
    ∷ []

get_standard_flags_in : Option FeatureFlags → Dict Bool
unfolding no_flags
get_standard_flags_in none = standard_flags no_flags
get_standard_flags_in (some f) = standard_flags f

unfoldable pub get_standard_flags : FeatureFlagManager → Dict Bool
unfolding get_standard_flags_in
get_standard_flags m = get_standard_flags_in m.flags

-- The standard flags are written first, so a custom flag of the same name covers one.
get_all_flags_in : Option FeatureFlags → Dict Bool
unfolding no_flags
get_all_flags_in none = standard_flags no_flags
get_all_flags_in (some f) = put_all (entries f.custom_flags) (standard_flags f)

unfoldable pub get_all_flags : FeatureFlagManager → Dict Bool
unfolding get_all_flags_in
get_all_flags m = get_all_flags_in m.flags

get_custom_flags_in : Option FeatureFlags → Dict Bool
get_custom_flags_in none = []
get_custom_flags_in (some f) = put_all (entries f.custom_flags) []

unfoldable pub get_custom_flags : FeatureFlagManager → Dict Bool
unfolding get_custom_flags_in
get_custom_flags m = get_custom_flags_in m.flags

-- The names that are set, in the order of the map.
unfoldable pub set_names : Dict Bool → List String
set_names [] = []
set_names ((name, b) ∷ m) = let rest = set_names m in if b then name ∷ rest else rest

-- `sort_strings` is `sort.Strings`.
unfoldable pub get_enabled_flags : (List String → List String) → FeatureFlagManager → List String
get_enabled_flags sort_strings m = sort_strings (set_names (get_all_flags m))

unfoldable pub is_any_enabled : FeatureFlagManager → List String → Bool
is_any_enabled m [] = false
is_any_enabled m (name ∷ names) =
    let rest = is_any_enabled m names in if is_enabled m name then true else rest

unfoldable pub is_all_enabled : FeatureFlagManager → List String → Bool
is_all_enabled m [] = true
is_all_enabled m (name ∷ names) =
    let rest = is_all_enabled m names in if is_enabled m name then rest else false

unfoldable pub clone_flags : Option FeatureFlags → FeatureFlags
unfolding no_flags
clone_flags none = no_flags
clone_flags (some f) = record f { custom_flags = some (put_all (entries f.custom_flags) []) }

unfoldable pub clone : FeatureFlagManager → FeatureFlagManager
clone m = write (clone_flags m.flags)

-- The `switch` of `WithEnvironmentOverrides`.
overrides : String → FeatureFlags → FeatureFlags
overrides environment f =
    if str_eq environment "production"
    then record f { enable_tracing = false; experimental_features = false }
    else if str_eq environment "staging"
    then record f { enable_tracing = true; experimental_features = false }
    else if str_eq environment "development"
    then record f { enable_metrics = true; enable_tracing = true; experimental_features = true }
    else if str_eq environment "test"
    then record f { enable_tracing = false; experimental_features = false }
    else f

unfoldable pub with_environment_overrides : FeatureFlagManager → String → FeatureFlagManager
unfolding overrides
with_environment_overrides m environment = write (overrides environment (clone_flags m.flags))

unfoldable pub is_standard : String → Bool
is_standard name =
    str_eq "EnableWebhooks" name
    || (str_eq "EnableMetrics" name
        || (str_eq "EnableTracing" name || str_eq "ExperimentalFeatures" name))

has_flag_in : Option FeatureFlags → String → Bool
unfolding is_standard
has_flag_in none name = false
has_flag_in (some f) name =
    if is_standard name then true else is_some (lookup name (entries f.custom_flags))

unfoldable pub has_flag : FeatureFlagManager → String → Bool
unfolding has_flag_in
has_flag m name = has_flag_in m.flags name

-- `FieldByName` finds the five fields by their names in Go.
set_field : FeatureFlags → String → Bool → FeatureFlagManager × Option FlagError
set_field f name b =
    if str_eq name "EnableWebhooks"
    then (write (record f { enable_webhooks = b }), none)
    else if str_eq name "EnableMetrics"
    then (write (record f { enable_metrics = b }), none)
    else if str_eq name "EnableTracing"
    then (write (record f { enable_tracing = b }), none)
    else if str_eq name "ExperimentalFeatures"
    then (write (record f { experimental_features = b }), none)
    else if str_eq name "CustomFlags"
    then (write f, some (not_a_boolean name))
    else (write f, some (does_not_exist name))

set_standard_flag_in : Option FeatureFlags → String → Bool → FeatureFlagManager × Option FlagError
unfolding set_field no_flags
set_standard_flag_in none name b = set_field no_flags name b
set_standard_flag_in (some f) name b = set_field f name b

unfoldable pub set_standard_flag :
    FeatureFlagManager → String → Bool → FeatureFlagManager × Option FlagError
unfolding set_standard_flag_in
set_standard_flag m name b = set_standard_flag_in m.flags name b

remove_in : Option FeatureFlags → String → FeatureFlagManager
remove_in none name = record { flags = none }
remove_in (some f) name = elim f.custom_flags [
  | none ↦ write f
  | some m ↦ write (record f { custom_flags = some (delete name m) })
]

unfoldable pub remove_custom_flag : FeatureFlagManager → String → FeatureFlagManager
unfolding remove_in
remove_custom_flag m name = remove_in m.flags name

clear_in : Option FeatureFlags → FeatureFlagManager
clear_in none = record { flags = none }
clear_in (some f) = write (record f { custom_flags = some [] })

unfoldable pub clear_custom_flags : FeatureFlagManager → FeatureFlagManager
unfolding clear_in
clear_custom_flags m = clear_in m.flags
