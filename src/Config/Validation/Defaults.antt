-- ===== src/Config/Validation/Defaults.antt =====
-- internal/config/types.go: the defaults of each environment against the validation.
use k8s_operator_cloudflare.Prelude.{
  ◌≡◌, refl, String, true, none, some, ◌⊎◌, inl, inr, arith, eq_iff,
}
use k8s_operator_cloudflare.Config.Types.{
  get_environment_defaults, new_config, staging_defaults, development_defaults,
}
use k8s_operator_cloudflare.Config.Validation.{
  Net, validate_environment, operator_is_valid, cloudflare_is_valid, performance_is_valid,
  validate_duration, validate_optional, validate_positive_int, validate_log_level,
  validate_leader_election, validate_retry_time, validate_environment_specific,
  reconciles_no_faster, validate_cross_fields, validate, mul_int64, validate_addresses,
  validate_bind_address,
}

-- What Go's package net answers on the two default addresses.
pub record ReadsDefaults (net : Net) : Type 0 where
  pub metrics : net.split_host_port ":8080" ≡ some ("", "8080")
  pub health : net.split_host_port ":8081" ≡ some ("", "8081")
  pub metrics_port : net.resolves "8080" ≡ true
  pub health_port : net.resolves "8081" ≡ true

environment-cases :
    (name : String)
    → validate_environment name ≡ none
    → (name ≡ "production") ⊎ ((name ≡ "staging") ⊎ ((name ≡ "development") ⊎ (name ≡ "test")))
unfolding validate_environment
environment-cases name h = ground (
  arith,
  eq_iff "production" name,
  eq_iff "staging" name,
  eq_iff "development" name,
  eq_iff "test" name,
)

-- If Go's package net reads ":8080" and ":8081" as those ports of every host, the defaults of each
-- environment that the validation knows pass `Validate`.
pub defaults_valid :
    (net : Net) (name : String)
    → ReadsDefaults net
    → validate_environment name ≡ none
    → validate net (get_environment_defaults name) ≡ none
unfolding validate validate_cross_fields validate_bind_address validate_addresses operator_is_valid
    cloudflare_is_valid performance_is_valid validate_duration validate_optional
    validate_positive_int validate_log_level validate_leader_election validate_retry_time
    validate_environment_specific reconciles_no_faster mul_int64 validate_environment
    get_environment_defaults new_config staging_defaults development_defaults
defaults_valid net name r h = elim (environment-cases name h) [
  | inl e ↦ rw (e, r.metrics, r.health, r.metrics_port, r.health_port) refl
  | inr (inl e) ↦ rw (e, r.metrics, r.health, r.metrics_port, r.health_port) refl
  | inr (inr (inl e)) ↦ rw (e, r.metrics, r.health, r.metrics_port, r.health_port) refl
  | inr (inr (inr e)) ↦ rw (e, r.metrics, r.health, r.metrics_port, r.health_port) refl
]
