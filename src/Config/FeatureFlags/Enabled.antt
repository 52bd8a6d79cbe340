-- ===== src/Config/FeatureFlags/Enabled.antt =====
-- internal/config/feature_flags.go: the names that `GetEnabledFlags` gives.
use text.Mathlib.TextPositions.{eq_refl}
use k8s_operator_cloudflare.Prelude.{
  ◌≡◌, refl, ap, ◌∙◌, sym, inl, inr, String, Bool, true, false, none, some, List, [], ◌∷◌,
  if◌then◌else◌, str_eq, eq_iff, or_default, Bool-cases, arith,
}
use k8s_operator_cloudflare.Prelude.Dict.{Dict, lookup, insert, put_all, lookup-insert, str_eq_comm}
use k8s_operator_cloudflare.Config.FeatureFlags.{
  FeatureFlags, FeatureFlagManager, entries, value_or_false, is_enabled, is_standard, set_names,
  standard_flags, get_all_flags, get_all_flags_in, get_enabled_flags,
}
use k8s_operator_cloudflare.Config.FeatureFlags.Laws.{get_all_flags-is_enabled}

unfoldable pub listed : String → List String → Bool
listed name [] = false
listed name (n ∷ ns) = let rest = listed name ns in if str_eq n name then true else rest

-- No key is met twice.
unfoldable IsUnique : Dict Bool → Type 0
IsUnique [] = Unit
IsUnique ((k, b) ∷ d) = (lookup k d ≡ none) × IsUnique d

insert-IsUnique : (k : String) (b : Bool) (d : Dict Bool) → IsUnique d → IsUnique (insert k b d)
unfolding IsUnique insert lookup
insert-IsUnique k b [] u = (refl, tt)
insert-IsUnique k b ((j, c) ∷ d) (fresh, u) = elim (Bool-cases (str_eq j k)) [
  | inl e ↦
      rw ((eq_iff j k).0 e, eq_refl k) (ap (λ x. lookup x d) (sym ((eq_iff j k).0 e)) ∙ fresh, u)
  | inr n ↦ rw n (rw (lookup-insert k j b d, str_eq_comm k j, n) fresh, insert-IsUnique k b d u)
]

put_all-IsUnique : (from d : Dict Bool) → IsUnique d → IsUnique (put_all from d)
unfolding put_all
put_all-IsUnique [] d u = u
put_all-IsUnique ((k, b) ∷ from) d u =
    insert-IsUnique k b (put_all from d) (put_all-IsUnique from d u)

listed-unset :
    (name : String) (d : Dict Bool) → lookup name d ≡ none → listed name (set_names d) ≡ false
unfolding lookup listed set_names
listed-unset name [] h = refl
listed-unset name ((k, true) ∷ d) h = ground (arith, listed-unset name d)
listed-unset name ((k, false) ∷ d) h = ground (arith, listed-unset name d)

-- In a map, a name is listed where it reads as true.
listed-set_names :
    (name : String) (d : Dict Bool)
    → IsUnique d
    → listed name (set_names d) ≡ value_or_false (lookup name d)
unfolding IsUnique lookup listed set_names
listed-set_names name [] u = refl
listed-set_names name ((k, true) ∷ d) (fresh, u) = ground (arith, listed-set_names name d u)
listed-set_names name ((k, false) ∷ d) (fresh, u) =
    ground (arith, listed-set_names name d u, listed-unset k d fresh, eq_iff k name)

standard_flags-IsUnique : (f : FeatureFlags) → IsUnique (standard_flags f)
unfolding IsUnique standard_flags lookup
standard_flags-IsUnique f = (refl, (refl, (refl, (refl, tt))))

-- For a manager with flags, where sorting keeps the strings: the names of `GetEnabledFlags` are those
-- that `IsEnabled` accepts, but a standard name that a custom flag has too is listed by the value of
-- the custom flag.
pub get_enabled_flags-is_enabled :
    (sort_strings : List String → List String) (m : FeatureFlagManager) (f : FeatureFlags)
    (name : String)
    → ((n : String) (ns : List String) → listed n (sort_strings ns) ≡ listed n ns)
    → m.flags ≡ some f
    → listed name (get_enabled_flags sort_strings m) ≡ (
        if is_standard name
        then or_default (lookup name (entries f.custom_flags)) (is_enabled m name)
        else is_enabled m name)
unfolding get_enabled_flags get_all_flags
get_enabled_flags-is_enabled sort_strings m f name keeps e =
    keeps name (set_names (get_all_flags m))
    ∙ listed-set_names name (get_all_flags m) (
        rw (e, get_all_flags_in)
          (put_all-IsUnique (entries f.custom_flags) (standard_flags f)
            (standard_flags-IsUnique f)))
    ∙ get_all_flags-is_enabled m f name e
