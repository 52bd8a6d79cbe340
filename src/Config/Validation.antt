-- ===== src/Config/Validation.antt =====
-- internal/config/validation.go, and the methods `IsValid` of types.go. `none` is a nil error; the
-- checks run in the source's order and the first error is the result. The functions of Go's package
-- net that the source calls are fields of `Net`.
pub mod Bounds
pub mod Defaults
mod Tests
use k8s_operator_cloudflare.Prelude.{
  ℕ, ◌+◌, ◌-◌, ◌*◌, ◌^◌, ◌%◌, ℤ, pos, negsuc, pos_part, neg_part, String, Bool, true, false, not,
  ◌||◌, ◌&&◌, Option, none, some, List, [], ◌∷◌, if◌then◌else◌, str_eq, codes, ltb, ◌==◌, ltb_ℤ,
  leb_ℤ, is_some, millisecond, second, minute, hour,
}
use k8s_operator_cloudflare.Prelude.Dict.{or_else}
use k8s_operator_cloudflare.Config.FeatureFlags.{FeatureFlags}
use k8s_operator_cloudflare.Config.Types.{
  Config, OperatorConfig, CloudflareConfig, PerformanceConfig, production_env, staging_env,
  development_env, test_env,
}

pub data ConfigError : Type 0 where
  wrapped : String → ConfigError → ConfigError
  environment_empty log_level_empty bind_address_empty only_colon : ConfigError
  invalid_environment invalid_log_level invalid_format invalid_host invalid_port :
      String → ConfigError
  not_positive negative : String → ℤ → ConfigError
  too_short too_long : String → ℕ → ℤ → ConfigError
  reconcile_interval_too_short rate_limit_too_high : ℤ → ConfigError
  experimental_in_production : ConfigError
  renew_not_less_than_lease retry_not_less_than_renew : ℤ → ℤ → ConfigError
  same_bind_address same_port : String → ConfigError
  retry_time_too_long : ℤ → ℤ → ConfigError

-- `net.SplitHostPort`, `net.ParseIP(host) != nil` and `net.LookupPort("tcp", port)` without an error.
pub record Net : Type 0 where
  pub split_host_port : String → Option (String × String)
  pub is_ip : String → Bool
  pub resolves : String → Bool

-- `if err := ...; err != nil { return fmt.Errorf("...: %w", err) }`.
abbrev wrap : String → Option ConfigError → Option ConfigError
wrap text none = none
wrap text (some e) = some (wrapped text e)

abbrev pub require : Bool → ConfigError → Option ConfigError
require test e = if test then none else some e

-- `strings.Contains(host, " ") || strings.Contains(host, "\t")`.
unfoldable has_blank : List ℕ → Bool
has_blank [] = false
has_blank (c ∷ cs) = let rest = has_blank cs in if c == 32 || c == 9 then true else rest

abbrev is_positive : ℤ → Bool
is_positive d = ltb_ℤ (pos 0) d

unfoldable one_of : List String → String → Bool
one_of [] name = false
one_of (x ∷ xs) name = let rest = one_of xs name in if str_eq x name then true else rest

unfoldable pub validate_environment : String → Option ConfigError
unfolding one_of
validate_environment name = or_else (require (not (str_eq name "")) environment_empty) (
    require (one_of (production_env ∷ staging_env ∷ development_env ∷ test_env ∷ []) name)
      (invalid_environment name))

unfoldable pub validate_log_level : String → Option ConfigError
unfolding one_of
validate_log_level level = or_else (require (not (str_eq level "")) log_level_empty) (
    require (one_of ("trace" ∷ "debug" ∷ "info" ∷ "warn" ∷ "error" ∷ "fatal" ∷ "panic" ∷ []) level)
      (invalid_log_level level))

unfoldable pub validate_duration : ℤ → ℕ → ℕ → String → Option ConfigError
validate_duration d least most field = or_else (require (is_positive d) (not_positive field d)) (
    or_else (require (leb_ℤ (pos least) d) (too_short field least d))
      (require (not (ltb 0 most && ltb_ℤ (pos most) d)) (too_long field most d)))

unfoldable pub validate_positive_int : ℤ → String → Option ConfigError
validate_positive_int n field = require (is_positive n) (not_positive field n)

-- The duration is checked only if it is positive.
unfoldable pub validate_optional : ℤ → ℕ → ℕ → String → Option ConfigError
unfolding validate_duration
validate_optional d least most field =
    if is_positive d then validate_duration d least most field else none

unfoldable pub operator_is_valid : OperatorConfig → Option ConfigError
operator_is_valid c =
    or_else (validate_log_level c.log_level)
      (validate_duration c.reconcile_interval (1 * second) (1 * hour) "reconcile interval")

unfoldable pub cloudflare_is_valid : CloudflareConfig → Option ConfigError
cloudflare_is_valid c =
    or_else (validate_duration c.api_timeout (1 * second) (5 * minute) "API timeout") (
      or_else (validate_positive_int c.rate_limit_rps "rate limit RPS") (
        or_else
          (require (leb_ℤ (pos 0) c.retry_attempts) (negative "retry attempts" c.retry_attempts))
          (validate_optional c.retry_delay (100 * millisecond) (30 * second) "retry delay")))

unfoldable pub performance_is_valid : PerformanceConfig → Option ConfigError
performance_is_valid c =
    or_else (validate_positive_int c.max_concurrent_reconciles "max concurrent reconciles") (
      or_else (validate_duration c.reconcile_timeout (1 * second) (30 * minute) "reconcile timeout")
        (or_else (validate_duration c.requeue_interval (1 * second) (24 * hour) "requeue interval")
          (or_else
            (validate_duration c.requeue_interval_on_error (1 * second) (1 * hour)
              "requeue interval on error")
            (or_else (validate_duration c.resync_period (1 * minute) (24 * hour) "resync period") (
              or_else
                (validate_duration c.leader_election_lease_duration (1 * second) (5 * minute)
                  "leader election lease duration")
                (or_else
                  (validate_optional c.leader_election_renew_deadline (1 * second) (1 * minute)
                    "leader election renew deadline")
                  (validate_optional c.leader_election_retry_period (100 * millisecond)
                    (30 * second) "leader election retry period")))))))

-- `validateEnvironmentSpecific`, by the case of its `switch`.
unfoldable pub reconciles_no_faster : ℕ → Config → Option ConfigError
reconciles_no_faster least c =
    require (leb_ℤ (pos least) c.operator.reconcile_interval)
      (reconcile_interval_too_short c.operator.reconcile_interval)

abbrev is_experimental : Option FeatureFlags → Bool
is_experimental none = false
is_experimental (some f) = f.experimental_features

unfoldable pub validate_environment_specific : Config → Option ConfigError
validate_environment_specific c =
    if str_eq c.environment production_env
    then or_else (reconciles_no_faster (30 * second) c) (
        or_else
          (require (leb_ℤ c.cloudflare.rate_limit_rps (pos 50))
            (rate_limit_too_high c.cloudflare.rate_limit_rps))
          (require (not (is_experimental c.features)) experimental_in_production))
    else if str_eq c.environment staging_env
    then reconciles_no_faster (10 * second) c
    else if str_eq c.environment development_env
    then reconciles_no_faster (5 * second) c
    else none

-- The product of two int64, which wraps.
abbrev magnitude : ℤ → ℕ
magnitude d = pos_part d + neg_part d

abbrev is_negative : ℤ → Bool
is_negative d = ltb_ℤ d (pos 0)

abbrev pub of_word : ℕ → ℤ
of_word w = if ltb w (2 ^ 63) then pos w else negsuc (2 ^ 64 - w - 1)

abbrev xor : Bool → Bool → Bool
xor a b = if a then not b else b

unfoldable pub mul_int64 : ℤ → ℤ → ℤ
mul_int64 a b =
    let word = (magnitude a * magnitude b) % 2 ^ 64 in
    of_word (if xor (is_negative a) (is_negative b) then (2 ^ 64 - word) % 2 ^ 64 else word)

unfoldable pub validate_leader_election : PerformanceConfig → Option ConfigError
validate_leader_election p =
    or_else
      (require
        (not (
          is_positive p.leader_election_renew_deadline
          && (is_positive p.leader_election_lease_duration
              && leb_ℤ p.leader_election_lease_duration p.leader_election_renew_deadline)))
        (renew_not_less_than_lease p.leader_election_renew_deadline
          p.leader_election_lease_duration))
      (require
        (not (
          is_positive p.leader_election_retry_period
          && (is_positive p.leader_election_renew_deadline
              && leb_ℤ p.leader_election_renew_deadline p.leader_election_retry_period)))
        (retry_not_less_than_renew p.leader_election_retry_period p.leader_election_renew_deadline))

unfoldable pub validate_retry_time : CloudflareConfig → Option ConfigError
validate_retry_time c =
    if is_positive c.retry_delay && is_positive c.api_timeout
    then require (not (leb_ℤ c.api_timeout (mul_int64 c.retry_attempts c.retry_delay)))
        (retry_time_too_long (mul_int64 c.retry_attempts c.retry_delay) c.api_timeout)
    else none

module _ (net : Net) where
  -- An address that starts with a colon is tested against ":" and ":0".
  unfoldable pub validate_bind_address : String → Option ConfigError
  unfolding has_blank
  validate_bind_address address =
      if str_eq address ""
      then some bind_address_empty
      else if str_eq address ":"
      then some only_colon
      else if str_eq address ":0"
      then none
      else elim (net.split_host_port address) [
        | none ↦ some (invalid_format address)
        | some (host, port) ↦
            or_else
              (require (str_eq host "" || (net.is_ip host || not (has_blank (codes host))))
                (invalid_host host))
              (require (str_eq port "0" || net.resolves port) (invalid_port port))
      ]

  shared_port : String × String → String × String → Option ConfigError
  shared_port (metrics_host, metrics_port) (health_host, health_port) =
      require
        (not (
          (str_eq metrics_port health_port && not (str_eq metrics_port "0"))
          && (str_eq metrics_host health_host
              || (str_eq metrics_host ""
                  || (str_eq health_host ""
                      || (str_eq metrics_host "0.0.0.0" || str_eq health_host "0.0.0.0"))))))
        (same_port metrics_port)

  abbrev both : Option (String × String) → Option (String × String) → Option ConfigError
  both none b = none
  both (some a) none = none
  both (some a) (some b) = shared_port a b

  unfoldable pub validate_addresses : OperatorConfig → Option ConfigError
  unfolding shared_port
  validate_addresses c =
      if str_eq c.metrics_bind_address "" || str_eq c.health_probe_bind_address ""
      then none
      else or_else
          (require
            (not (str_eq c.metrics_bind_address c.health_probe_bind_address)
              || str_eq c.metrics_bind_address ":0")
            (same_bind_address c.metrics_bind_address))
          (both (net.split_host_port c.metrics_bind_address)
            (net.split_host_port c.health_probe_bind_address))

  unfoldable pub validate_cross_fields : Config → Option ConfigError
  validate_cross_fields c =
      or_else (validate_leader_election c.performance)
        (or_else (validate_addresses c.operator) (validate_retry_time c.cloudflare))

  -- A bind address is validated unless it is empty.
  optional_address : String → Option ConfigError
  optional_address address = if str_eq address "" then none else validate_bind_address address

  -- The validation of the feature flags never fails.
  unfoldable pub validate : Config → Option ConfigError
  unfolding optional_address
  validate c = or_else (wrap "environment" (validate_environment c.environment)) (
      or_else (wrap "operator" (operator_is_valid c.operator)) (
        or_else (wrap "metrics bind address" (optional_address c.operator.metrics_bind_address)) (
          or_else
            (wrap "health probe bind address"
              (optional_address c.operator.health_probe_bind_address))
            (or_else (wrap "cloudflare" (cloudflare_is_valid c.cloudflare)) (
              or_else (wrap "performance" (performance_is_valid c.performance)) (
                or_else (wrap "environment-specific" (validate_environment_specific c))
                  (wrap "cross-field" (validate_cross_fields c))))))))
