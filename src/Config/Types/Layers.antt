-- ===== src/Config/Types/Layers.antt =====
-- internal/config/types.go: what sources that are merged one after the other make of each field.
use k8s_operator_cloudflare.Prelude.{
  ◌≡◌, refl, ap, ◌∙◌, ℤ, String, Bool, true, ◌||◌, Option, List, [], ◌∷◌, some, if◌then◌else◌,
  is_zero, str_eq, Bool-cases, inl, inr,
}
use k8s_operator_cloudflare.Prelude.Dict.{or_else}
use k8s_operator_cloudflare.Config.FeatureFlags.{is_enabled, is_standard, value_or_false}
use k8s_operator_cloudflare.Config.Types.{
  Config, merge, merge_operator, merge_cloudflare, merge_performance, set_text, set_number,
}
use k8s_operator_cloudflare.Config.Types.Merge.{
  merge_all, manager, custom_flag, merge-is_enabled, merge-custom_flag, is_enabled_in-custom_flag,
}

-- The value of the last source that sets the field, or the first value if none does.
unfoldable pub last_text : (Config → String) → List Config → String → String
last_text field [] value = value
last_text field (c ∷ cs) value = last_text field cs (if str_eq (field c) "" then value else field c)

unfoldable pub last_number : (Config → ℤ) → List Config → ℤ → ℤ
last_number field [] value = value
last_number field (c ∷ cs) value =
    last_number field cs (if is_zero (field c) then value else field c)

unfoldable pub last_custom_flag : String → List Config → Option Bool → Option Bool
last_custom_flag name [] value = value
last_custom_flag name (c ∷ cs) value =
    last_custom_flag name cs (or_else (custom_flag c.features name) value)

unfoldable pub any_enabled : String → List Config → Bool → Bool
any_enabled name [] value = value
any_enabled name (c ∷ cs) value = any_enabled name cs (is_enabled (manager c) name || value)

-- `p` is what the sources `cs`, from the lowest priority to the highest, make of the values `d`. A
-- standard flag is on if any of them turns it on; leader election is no source's to change.
pub record IsLayered (d : Config) (cs : List Config) (p : Config) : Type 0 where
  pub environment : p.environment ≡ last_text (λ c. c.environment) cs d.environment
  pub operator : p.operator ≡ record {
    log_level = last_text (λ c. c.operator.log_level) cs d.operator.log_level;
    reconcile_interval =
        last_number (λ c. c.operator.reconcile_interval) cs d.operator.reconcile_interval;
    metrics_bind_address =
        last_text (λ c. c.operator.metrics_bind_address) cs d.operator.metrics_bind_address;
    health_probe_bind_address =
        last_text
          (λ c. c.operator.health_probe_bind_address)
          cs
          d.operator.health_probe_bind_address;
    leader_election = d.operator.leader_election;
  }
  pub cloudflare : p.cloudflare ≡ record {
    api_timeout = last_number (λ c. c.cloudflare.api_timeout) cs d.cloudflare.api_timeout;
    rate_limit_rps = last_number (λ c. c.cloudflare.rate_limit_rps) cs d.cloudflare.rate_limit_rps;
    retry_attempts = last_number (λ c. c.cloudflare.retry_attempts) cs d.cloudflare.retry_attempts;
    retry_delay = last_number (λ c. c.cloudflare.retry_delay) cs d.cloudflare.retry_delay;
  }
  pub performance : p.performance ≡ record {
    max_concurrent_reconciles =
        last_number
          (λ c. c.performance.max_concurrent_reconciles)
          cs
          d.performance.max_concurrent_reconciles;
    reconcile_timeout =
        last_number (λ c. c.performance.reconcile_timeout) cs d.performance.reconcile_timeout;
    requeue_interval =
        last_number (λ c. c.performance.requeue_interval) cs d.performance.requeue_interval;
    requeue_interval_on_error =
        last_number
          (λ c. c.performance.requeue_interval_on_error)
          cs
          d.performance.requeue_interval_on_error;
    resync_period = last_number (λ c. c.performance.resync_period) cs d.performance.resync_period;
    leader_election_lease_duration =
        last_number
          (λ c. c.performance.leader_election_lease_duration)
          cs
          d.performance.leader_election_lease_duration;
    leader_election_renew_deadline =
        last_number
          (λ c. c.performance.leader_election_renew_deadline)
          cs
          d.performance.leader_election_renew_deadline;
    leader_election_retry_period =
        last_number
          (λ c. c.performance.leader_election_retry_period)
          cs
          d.performance.leader_election_retry_period;
  }
  pub flags :
      (name : String)
      → is_enabled (manager p) name ≡ (
          if is_standard name
          then any_enabled name cs (is_enabled (manager d) name)
          else value_or_false (last_custom_flag name cs (custom_flag d.features name)))

merge_all-standard :
    (cs : List Config) (d : Config) (name : String)
    → is_standard name ≡ true
    → is_enabled (manager (merge_all d cs)) name ≡ any_enabled name cs (is_enabled (manager d) name)
unfolding merge_all any_enabled
merge_all-standard [] d name h = refl
merge_all-standard (c ∷ cs) d name h =
    merge_all-standard cs (merge d (some c)) name h
    ∙ ap (any_enabled name cs) (merge-is_enabled d c name ∙ rw h refl)

merge_all-custom_flag :
    (cs : List Config) (d : Config) (name : String)
    → custom_flag (merge_all d cs).features name
      ≡ last_custom_flag name cs (custom_flag d.features name)
unfolding merge_all last_custom_flag
merge_all-custom_flag [] d name = refl
merge_all-custom_flag (c ∷ cs) d name =
    merge_all-custom_flag cs (merge d (some c)) name
    ∙ ap (last_custom_flag name cs) (merge-custom_flag d c name)

merge_all-flags :
    (cs : List Config) (d : Config) (name : String)
    → is_enabled (manager (merge_all d cs)) name ≡ (
        if is_standard name
        then any_enabled name cs (is_enabled (manager d) name)
        else value_or_false (last_custom_flag name cs (custom_flag d.features name)))
unfolding is_enabled
merge_all-flags cs d name = elim (Bool-cases (is_standard name)) [
  | inl h ↦ rw h (merge_all-standard cs d name h)
  | inr h ↦ rw h (
      is_enabled_in-custom_flag (merge_all d cs).features name h
      ∙ ap value_or_false (merge_all-custom_flag cs d name))
]

pub merge_all-IsLayered : (cs : List Config) (d : Config) → IsLayered d cs (merge_all d cs)
unfolding merge_all last_text last_number merge set_text merge_operator set_number merge_cloudflare
    merge_performance
merge_all-IsLayered [] d = record {
  environment = refl;
  operator = refl;
  cloudflare = refl;
  performance = refl;
  flags = merge_all-flags [] d;
}
merge_all-IsLayered (c ∷ cs) d =
    let rest = merge_all-IsLayered cs (merge d (some c)) in
    record {
      environment = rest.environment;
      operator = rest.operator;
      cloudflare = rest.cloudflare;
      performance = rest.performance;
      flags = merge_all-flags (c ∷ cs) d;
    }
