-- ===== src/Config/FeatureFlags/Laws.antt =====
-- internal/config/feature_flags.go: how the readings of the flags follow the writes.
use text.Mathlib.TextPositions.{eq_refl}
use k8s_operator_cloudflare.Prelude.{
  or_default, ◌&&◌, ◌≡◌, ◌↔◌, refl, sym, inl, inr, String, Bool, true, false, ◌||◌, Option, none,
  some, [], arith, if◌then◌else◌, str_eq, eq_iff, Bool-cases,
}
use k8s_operator_cloudflare.Prelude.Dict.{
  Dict, lookup, insert, put_all, lookup-insert, lookup-delete, lookup-put_all, str_eq_comm,
}
use k8s_operator_cloudflare.Config.FeatureFlags.{
  FeatureFlags, FeatureFlagManager, entries, value_or_false, flag_value, is_enabled, set_flag,
  no_flags, get_all_flags_in, remove_in, set_standard_flag_in, standard_flags, get_all_flags, clone,
  clone_flags, overrides, with_environment_overrides, is_standard, set_standard_flag, set_field,
  remove_custom_flag, is_enabled_in,
}

-- A flag is read from its field if it is a standard one, and from the custom flags if not.
pub flag_value_custom :
    (f : FeatureFlags) (name : String)
    → is_standard name ≡ false
    → flag_value f name ≡ value_or_false (lookup name (entries f.custom_flags))
unfolding flag_value is_standard
flag_value_custom f name h = ground (
  arith,
  str_eq_comm name "EnableWebhooks",
  str_eq_comm name "EnableMetrics",
  str_eq_comm name "EnableTracing",
  str_eq_comm name "ExperimentalFeatures",
)

pub flag_value_standard :
    (f : FeatureFlags) (m : Option (Dict Bool)) (name : String)
    → is_standard name ≡ true
    → flag_value (record f { custom_flags = m }) name ≡ flag_value f name
unfolding flag_value is_standard
flag_value_standard f m name h = ground (
  arith,
  str_eq_comm name "EnableWebhooks",
  str_eq_comm name "EnableMetrics",
  str_eq_comm name "EnableTracing",
  str_eq_comm name "ExperimentalFeatures",
)

-- What `SetFlag` changes: the reading of that name alone, and nothing if the name is a standard one.
pub is_enabled-set_flag :
    (m : FeatureFlagManager) (f : FeatureFlags) (name other : String) (b : Bool)
    → m.flags ≡ some f
    → is_enabled (set_flag m name b) other ≡ (
        if is_standard other
        then is_enabled m other
        else if str_eq name other
        then b
        else is_enabled m other)
unfolding is_enabled set_flag
is_enabled-set_flag m f name other b e =
    rw (e, is_enabled_in)
      (elim (Bool-cases (is_standard other)) [
        | inl s ↦ rw s (flag_value_standard f _ other s)
        | inr c ↦ ground (
          arith,
          flag_value_custom f other c,
          flag_value_custom
              (record f { custom_flags = some (insert name b (entries f.custom_flags)) }) other c,
          lookup-insert name other b (entries f.custom_flags),
        )
      ])

removed :
    (f : Option FeatureFlags) (name other : String)
    → is_enabled_in (remove_in f name).flags other ≡ (
        if is_standard other
        then is_enabled_in f other
        else if str_eq name other
        then false
        else is_enabled_in f other)
unfolding is_enabled_in remove_in flag_value is_standard lookup
removed none name other = ground arith
removed (some f) name other = ground (
  arith,
  lookup-delete name other (entries f.custom_flags),
  str_eq_comm other "EnableWebhooks",
  str_eq_comm other "EnableMetrics",
  str_eq_comm other "EnableTracing",
  str_eq_comm other "ExperimentalFeatures",
)

value_or_false-or_else :
    (f : FeatureFlags) (name : String)
    → value_or_false (lookup name (put_all (entries f.custom_flags) (standard_flags f))) ≡ (
        if is_standard name
        then or_default (lookup name (entries f.custom_flags)) (flag_value f name)
        else flag_value f name)
unfolding flag_value is_standard lookup standard_flags
value_or_false-or_else f name = ground (
  arith,
  lookup-put_all name (entries f.custom_flags) (standard_flags f),
  str_eq_comm name "EnableWebhooks",
  str_eq_comm name "EnableMetrics",
  str_eq_comm name "EnableTracing",
  str_eq_comm name "ExperimentalFeatures",
)

cloned :
    (f : Option FeatureFlags) (name : String)
    → flag_value (clone_flags f) name ≡ is_enabled_in f name
unfolding is_enabled_in flag_value clone_flags lookup no_flags
cloned none name = ground arith
cloned (some f) name = ground (arith, lookup-put_all name (entries f.custom_flags) [])

apart : (name a b : String) → str_eq a b ≡ false → str_eq name a ≡ true → str_eq name b ≡ false
apart name a b h e = rw ((eq_iff name a).0 e) h

-- A name is at most one of the standard ones.
abbrev AtMostOne : String → Type 0
AtMostOne name =
    (str_eq name "EnableMetrics" ≡ true → str_eq name "EnableWebhooks" ≡ false)
    × ((str_eq name "EnableTracing" ≡ true → str_eq name "EnableWebhooks" ≡ false)
        × ((str_eq name "EnableTracing" ≡ true → str_eq name "EnableMetrics" ≡ false)
            × ((str_eq name "ExperimentalFeatures" ≡ true → str_eq name "EnableWebhooks" ≡ false)
                × ((str_eq name "ExperimentalFeatures" ≡ true → str_eq name "EnableMetrics" ≡ false)
                    × (str_eq name "ExperimentalFeatures" ≡ true
                        → str_eq name "EnableTracing" ≡ false)))))

at_most_one : (name : String) → AtMostOne name
at_most_one name = (
  apart name _ _ refl,
  (
    apart name _ _ refl,
    (apart name _ _ refl, (apart name _ _ refl, (apart name _ _ refl, apart name _ _ refl))),
  ),
)

not_both :
    (name other a : String)
    → str_eq name other ≡ false
    → str_eq name a ≡ true
    → str_eq other a ≡ false
not_both name other a h e = rw (sym ((eq_iff name a).0 e), str_eq_comm other name) h

abbrev IsWritten : FeatureFlags → String → Bool → String → Type 0
IsWritten f name b other =
    (((set_field f name b).1 ≡ none) ↔ (is_standard name ≡ true))
    × (is_enabled_in (set_field f name b).0.flags other
        ≡ (if is_standard name && str_eq name other then b else flag_value f other))

set_field-at :
    (f : FeatureFlags) (name : String) (b : Bool) (other : String)
    → str_eq name other ≡ true
    → IsWritten f name b other
unfolding is_enabled_in set_field flag_value is_standard
set_field-at f name b other e = rw (sym ((eq_iff name other).0 e)) (
    ground (
      arith,
      at_most_one name,
      eq_refl name,
      str_eq_comm name "EnableWebhooks",
      str_eq_comm name "EnableMetrics",
      str_eq_comm name "EnableTracing",
      str_eq_comm name "ExperimentalFeatures",
    ))

set_field-elsewhere :
    (f : FeatureFlags) (name : String) (b : Bool) (other : String)
    → str_eq name other ≡ false
    → IsWritten f name b other
unfolding is_enabled_in set_field flag_value is_standard
set_field-elsewhere f name b other h = ground (
  arith,
  not_both name other "EnableWebhooks",
  not_both name other "EnableMetrics",
  not_both name other "EnableTracing",
  not_both name other "ExperimentalFeatures",
  str_eq_comm name "EnableWebhooks",
  str_eq_comm name "EnableMetrics",
  str_eq_comm name "EnableTracing",
  str_eq_comm name "ExperimentalFeatures",
)

set_field-IsWritten :
    (f : FeatureFlags) (name : String) (b : Bool) (other : String) → IsWritten f name b other
set_field-IsWritten f name b other = elim (Bool-cases (str_eq name other)) [
  | inl e ↦ set_field-at f name b other e
  | inr h ↦ set_field-elsewhere f name b other h
]

reads_false : (name : String) → flag_value no_flags name ≡ false
unfolding flag_value no_flags lookup
reads_false name = ground arith

set_field-old :
    (f : FeatureFlags) (name other : String) (b old : Bool)
    → flag_value f other ≡ old
    → (((set_field f name b).1 ≡ none) ↔ (is_standard name ≡ true))
      × (is_enabled_in (set_field f name b).0.flags other
          ≡ (if is_standard name && str_eq name other then b else old))
set_field-old f name other b old e = rw (sym e) (set_field-IsWritten f name b other)

written :
    (f : Option FeatureFlags) (name other : String) (b : Bool)
    → (((set_standard_flag_in f name b).1 ≡ none) ↔ (is_standard name ≡ true))
      × (is_enabled_in (set_standard_flag_in f name b).0.flags other
          ≡ (if is_standard name && str_eq name other then b else is_enabled_in f other))
unfolding set_standard_flag_in is_enabled_in
written none name other b = set_field-old no_flags name other b false (reads_false other)
written (some f) name other b = set_field-old f name other b (flag_value f other) refl

-- What `RemoveCustomFlag` changes: a name that is no standard one reads as not set, and nothing else
-- changes.
pub is_enabled-remove_custom_flag :
    (m : FeatureFlagManager) (name other : String)
    → is_enabled (remove_custom_flag m name) other ≡ (
        if is_standard other
        then is_enabled m other
        else if str_eq name other
        then false
        else is_enabled m other)
unfolding is_enabled remove_custom_flag
is_enabled-remove_custom_flag m name other = removed m.flags name other

-- For a manager with flags: the map of `GetAllFlags` reads as `IsEnabled` on a name that is no
-- standard one. On a standard name it reads as the custom flag of that name, if there is one, and as
-- `IsEnabled` if not.
pub get_all_flags-is_enabled :
    (m : FeatureFlagManager) (f : FeatureFlags) (name : String)
    → m.flags ≡ some f
    → value_or_false (lookup name (get_all_flags m)) ≡ (
        if is_standard name
        then or_default (lookup name (entries f.custom_flags)) (is_enabled m name)
        else is_enabled m name)
unfolding is_enabled get_all_flags
get_all_flags-is_enabled m f name e =
    rw (e, is_enabled_in, get_all_flags_in) (value_or_false-or_else f name)

-- `Clone` keeps the reading of every flag, also for a manager without flags.
pub is_enabled-clone :
    (m : FeatureFlagManager) (name : String) → is_enabled (clone m) name ≡ is_enabled m name
unfolding is_enabled clone is_enabled_in
is_enabled-clone m name = cloned m.flags name

-- In production, the manager of `WithEnvironmentOverrides` reads tracing and the experimental
-- features as disabled, and every other flag as before.
pub production_overrides :
    (m : FeatureFlagManager) (name : String)
    → is_enabled (with_environment_overrides m "production") name ≡ (
        if str_eq name "EnableTracing" || str_eq name "ExperimentalFeatures"
        then false
        else is_enabled m name)
unfolding is_enabled with_environment_overrides flag_value overrides
production_overrides m name = ground (arith, cloned m.flags name, at_most_one name)

-- `SetStandardFlag` succeeds exactly on the four standard names. It then changes the reading of that
-- name alone, and a call that fails changes no reading.
pub set_standard_flag_effect :
    (m : FeatureFlagManager) (name other : String) (b : Bool)
    → (((set_standard_flag m name b).1 ≡ none) ↔ (is_standard name ≡ true))
      × (is_enabled (set_standard_flag m name b).0 other
          ≡ (if is_standard name && str_eq name other then b else is_enabled m other))
unfolding is_enabled set_standard_flag
set_standard_flag_effect m name other b = written m.flags name other b
