-- ===== src/Config/FeatureFlags/Tests.antt =====
-- internal/config/feature_flags.go: flags with a custom one that has a standard name.
use k8s_operator_cloudflare.Prelude.{◌≡◌, refl, true, false, some, [], ◌∷◌}
use k8s_operator_cloudflare.Prelude.Dict.{lookup, put_all, insert}
use k8s_operator_cloudflare.Config.FeatureFlags.{
  FeatureFlags, FeatureFlagManager, value_or_false, standard_flags, get_all_flags,
  set_standard_flag, not_a_boolean, is_standard, get_enabled_flags,
}
use k8s_operator_cloudflare.Config.FeatureFlags.Enabled.{listed, get_enabled_flags-is_enabled}

abbrev flags : FeatureFlags
flags = record {
  enable_webhooks = true;
  enable_metrics = false;
  enable_tracing = true;
  experimental_features = false;
  custom_flags = some (("beta", true) ∷ ("EnableMetrics", true) ∷ []);
}

abbrev manager : FeatureFlagManager
manager = record { flags = some flags }

covered : value_or_false (lookup "EnableMetrics" (get_all_flags manager)) ≡ true
unfolding get_all_flags lookup put_all insert standard_flags
covered = refl

not_settable : (set_standard_flag manager "CustomFlags" true).1 ≡ some (not_a_boolean "CustomFlags")
unfolding set_standard_flag
not_settable = refl

-- `EnableMetrics` is listed, since a custom flag covers the standard one.
get_enabled_flags-is_enabled_example :
    listed "EnableMetrics" (get_enabled_flags (λ ns. ns) manager) ≡ true
unfolding is_standard lookup
get_enabled_flags-is_enabled_example =
    get_enabled_flags-is_enabled (λ ns. ns) manager flags "EnableMetrics" (λ n ns. refl) refl
