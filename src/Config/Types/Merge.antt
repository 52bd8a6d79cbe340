-- ===== src/Config/Types/Merge.antt =====
-- internal/config/types.go: layers of configuration merged one after the other.
use k8s_operator_cloudflare.Prelude.{
  Bool-cases, inl, inr, List, ◌∷◌, ◌≡◌, refl, ap, ◌∙◌, String, Bool, true, false, ◌||◌, Option,
  none, some, [], arith, if◌then◌else◌,
}
use k8s_operator_cloudflare.Prelude.Dict.{lookup, or_else, lookup-put_all, str_eq_comm}
use k8s_operator_cloudflare.Config.FeatureFlags.{
  FeatureFlags, FeatureFlagManager, entries, value_or_false, flag_value, is_enabled, is_standard,
  no_flags, is_enabled_in,
}
use k8s_operator_cloudflare.Config.FeatureFlags.Laws.{flag_value_custom}
use k8s_operator_cloudflare.Config.Types.{
  Config, merge_operator, copy_flags, merge_flags, merge, copy, write_flags,
}

-- Layers merged from the first to the last.
unfoldable pub merge_all : Config → List Config → Config
merge_all c [] = c
merge_all c (o ∷ layers) = merge_all (merge c (some o)) layers

copy_flags-is_enabled :
    (f : Option FeatureFlags) (name : String)
    → is_enabled_in (copy_flags f) name ≡ is_enabled_in f name
unfolding is_enabled_in copy_flags flag_value lookup
copy_flags-is_enabled none name = refl
copy_flags-is_enabled (some f) name =
    ground (arith, lookup-put_all name (entries f.custom_flags) [])

-- The custom flag of a name, if it is set.
unfoldable pub custom_flag : Option FeatureFlags → String → Option Bool
custom_flag none name = none
custom_flag (some f) name = lookup name (entries f.custom_flags)

copy_flags-custom_flag :
    (f : Option FeatureFlags) (name : String) → custom_flag (copy_flags f) name ≡ custom_flag f name
unfolding custom_flag copy_flags lookup
copy_flags-custom_flag none name = refl
copy_flags-custom_flag (some f) name =
    ground (arith, lookup-put_all name (entries f.custom_flags) [])

merge_flags-custom_flag :
    (o f : Option FeatureFlags) (name : String)
    → custom_flag (merge_flags o f) name ≡ or_else (custom_flag o name) (custom_flag f name)
unfolding custom_flag merge_flags write_flags no_flags lookup
merge_flags-custom_flag none f name = ground arith
merge_flags-custom_flag (some o) none name =
    ground (arith, lookup-put_all name (entries o.custom_flags) [])
merge_flags-custom_flag (some o) (some f) name =
    lookup-put_all name (entries o.custom_flags) (entries f.custom_flags)

-- How two layers read: a standard flag is set if either sets it, a custom flag is the later layer's.
abbrev layered : Option FeatureFlags → Option FeatureFlags → String → Bool
layered o f name =
    if is_standard name
    then is_enabled_in o name || is_enabled_in f name
    else value_or_false (or_else (custom_flag o name) (custom_flag f name))

pub is_enabled_in-custom_flag :
    (f : Option FeatureFlags) (name : String)
    → is_standard name ≡ false
    → is_enabled_in f name ≡ value_or_false (custom_flag f name)
unfolding is_enabled_in custom_flag
is_enabled_in-custom_flag none name h = refl
is_enabled_in-custom_flag (some f) name h = flag_value_custom f name h

write_flags-standard :
    (o f : FeatureFlags) (name : String)
    → is_standard name ≡ true
    → flag_value (write_flags o f) name ≡ flag_value o name || flag_value f name
unfolding write_flags flag_value is_standard
write_flags-standard o f name h = ground (
  arith,
  str_eq_comm name "EnableWebhooks",
  str_eq_comm name "EnableMetrics",
  str_eq_comm name "EnableTracing",
  str_eq_comm name "ExperimentalFeatures",
)

reads_nothing : (name : String) → flag_value no_flags name ≡ false
unfolding flag_value no_flags lookup
reads_nothing name = ground arith

merge_flags-standard :
    (o f : Option FeatureFlags) (name : String)
    → is_standard name ≡ true
    → is_enabled_in (merge_flags o f) name ≡ is_enabled_in o name || is_enabled_in f name
unfolding merge_flags is_enabled_in
merge_flags-standard none f name h = refl
merge_flags-standard (some o) none name h =
    ground (arith, write_flags-standard o no_flags name h, reads_nothing name)
merge_flags-standard (some o) (some f) name h = write_flags-standard o f name h

merge_flags-layered :
    (o f : Option FeatureFlags) (name : String)
    → is_enabled_in (merge_flags o f) name ≡ layered o f name
merge_flags-layered o f name = elim (Bool-cases (is_standard name)) [
  | inl h ↦ rw h (merge_flags-standard o f name h)
  | inr h ↦ rw (h, is_enabled_in-custom_flag _ name h, merge_flags-custom_flag) refl
]

abbrev pub manager : Config → FeatureFlagManager
manager c = record { flags = c.features }

pub merge-custom_flag :
    (c o : Config) (name : String)
    → custom_flag (merge c (some o)).features name
      ≡ or_else (custom_flag o.features name) (custom_flag c.features name)
unfolding merge copy
merge-custom_flag c o name =
    merge_flags-custom_flag o.features (copy_flags c.features) name
    ∙ ap (or_else (custom_flag o.features name)) (copy_flags-custom_flag c.features name)

-- A merged configuration enables a standard flag if either layer enables it, so a layer cannot
-- disable one. A custom flag is the later layer's where that one sets it, else the earlier one's.
pub merge-is_enabled :
    (c o : Config) (name : String)
    → is_enabled (manager (merge c (some o))) name ≡ (
        if is_standard name
        then is_enabled (manager o) name || is_enabled (manager c) name
        else value_or_false (or_else (custom_flag o.features name) (custom_flag c.features name)))
unfolding is_enabled merge copy
merge-is_enabled c o name = ground (
  arith,
  merge_flags-layered o.features (copy_flags c.features) name,
  copy_flags-is_enabled c.features name,
  copy_flags-custom_flag c.features name,
)

-- No layer changes the choice of leader election: the merged configuration has the one of the first.
pub merge_all_leader_election :
    (c : Config) (layers : List Config)
    → (merge_all c layers).operator.leader_election ≡ c.operator.leader_election
unfolding merge_all merge merge_operator copy
merge_all_leader_election c [] = refl
merge_all_leader_election c (o ∷ layers) = merge_all_leader_election (merge c (some o)) layers
