-- ===== src/Config/Validation/Bounds.antt =====
-- internal/config/validation.go and types.go: what a configuration that passes `Validate` satisfies.
use k8s_operator_cloudflare.Prelude.{
  ℕ, ◌+◌, ◌*◌, ◌^◌, ◌%◌, ◌<◌, ◌≡◌, ltb, refl, subst, ℤ, pos, ◌≤ℤ◌, ◌<ℤ◌, String, false, Option,
  none, some, arith, second, minute, hour,
}
use k8s_operator_cloudflare.Prelude.Dict.{or_else}
use k8s_operator_cloudflare.Config.Types.{
  Config, CloudflareConfig, PerformanceConfig, production_env,
}
use k8s_operator_cloudflare.Config.Validation.{
  ConfigError, Net, wrap, is_experimental, validate_environment, operator_is_valid,
  cloudflare_is_valid, performance_is_valid, validate_duration, validate_optional,
  validate_positive_int, validate_leader_election, validate_retry_time,
  validate_environment_specific, reconciles_no_faster, validate_cross_fields, validate, mul_int64,
  validate_addresses, of_word, optional_address,
}

or_else-none : {A : Type 0} (a b : Option A) → or_else a b ≡ none → (a ≡ none) × (b ≡ none)
or_else-none none b h = (refl, h)
or_else-none (some x) b h = ground arith

wrap-none : (text : String) (e : Option ConfigError) → wrap text e ≡ none → e ≡ none
wrap-none text none h = refl
wrap-none text (some e) h = ground arith

abbrev pub IsWithin : ℕ → ℕ → ℤ → Type 0
IsWithin least most d = (pos least ≤ℤ d) × (d ≤ℤ pos most)

validate_duration-IsWithin :
    (d : ℤ) (least most : ℕ) (field : String)
    → 0 < most
    → validate_duration d least most field ≡ none
    → IsWithin least most d
unfolding validate_duration
validate_duration-IsWithin d least most field p h = ground arith

validate_optional-IsWithin :
    (d : ℤ) (least most : ℕ) (field : String)
    → 0 < most
    → validate_optional d least most field ≡ none
    → pos 0 <ℤ d
    → IsWithin least most d
unfolding validate_optional
validate_optional-IsWithin d least most field p h q =
    ground (arith, validate_duration-IsWithin d least most field p)

validate_positive_int-pos :
    (n : ℤ) (field : String) → validate_positive_int n field ≡ none → pos 0 <ℤ n
unfolding validate_positive_int
validate_positive_int-pos n field h = ground arith

-- The checks that have passed, one by one.
abbrev Passes : Net → Config → Type 0
Passes net c =
    (validate_environment c.environment ≡ none)
    × ((operator_is_valid c.operator ≡ none)
        × ((cloudflare_is_valid c.cloudflare ≡ none)
            × ((performance_is_valid c.performance ≡ none)
                × ((validate_environment_specific c ≡ none)
                    × ((validate_leader_election c.performance ≡ none)
                        × ((validate_addresses net c.operator ≡ none)
                            × (validate_retry_time c.cloudflare ≡ none)))))))

pub passes : (net : Net) (c : Config) → validate net c ≡ none → Passes net c
unfolding validate validate_cross_fields
passes net c h =
    let (e, h1) = or_else-none _ _ h in
    let (o, h2) = or_else-none _ _ h1 in
    let (a, h3) =
      or_else-none
        (wrap "metrics bind address" (optional_address net c.operator.metrics_bind_address)) _ h2 in
    let (b, h4) =
      or_else-none
        (wrap "health probe bind address"
          (optional_address net c.operator.health_probe_bind_address))
        _ h3 in
    let (cf, h5) = or_else-none _ _ h4 in
    let (p, h6) = or_else-none _ _ h5 in
    let (s, x) = or_else-none _ _ h6 in
    let (l, h7) = or_else-none _ _ (wrap-none "cross-field" _ x) in
    let (d, r) = or_else-none _ _ h7 in
    (
      wrap-none "environment" _ e,
      (
        wrap-none "operator" _ o,
        (
          wrap-none "cloudflare" _ cf,
          (wrap-none "performance" _ p, (wrap-none "environment-specific" _ s, (l, (d, r)))),
        ),
      ),
    )

-- A configuration that passes `Validate` has a reconcile interval from a second to an hour, an API
-- timeout from a second to five minutes, a positive rate limit and no negative number of retries.
pub validated_operator_and_cloudflare :
    (net : Net) (c : Config)
    → validate net c ≡ none
    → (IsWithin (1 * second) (1 * hour) c.operator.reconcile_interval)
      × ((IsWithin (1 * second) (5 * minute) c.cloudflare.api_timeout)
          × ((pos 0 <ℤ c.cloudflare.rate_limit_rps) × (pos 0 ≤ℤ c.cloudflare.retry_attempts)))
unfolding operator_is_valid cloudflare_is_valid
validated_operator_and_cloudflare net c h =
    let (_, (o, (cf, _))) = passes net c h in
    let (_, interval) = or_else-none _ _ o in
    let (timeout, cf1) = or_else-none _ _ cf in
    let (rps, cf2) = or_else-none _ _ cf1 in
    (
      validate_duration-IsWithin _ _ _ "reconcile interval" (ground arith) interval,
      (
        validate_duration-IsWithin _ _ _ "API timeout" (ground arith) timeout,
        (validate_positive_int-pos _ "rate limit RPS" rps, ground arith),
      ),
    )

-- A configuration that passes `Validate` has at least one concurrent reconcile, a reconcile timeout
-- from a second to half an hour, a requeue interval from a second to a day (an hour after an error),
-- a resync period from a minute to a day and a lease from a second to five minutes.
pub validated_performance :
    (net : Net) (c : Config)
    → validate net c ≡ none
    → (pos 0 <ℤ c.performance.max_concurrent_reconciles)
      × ((IsWithin (1 * second) (30 * minute) c.performance.reconcile_timeout)
          × ((IsWithin (1 * second) (24 * hour) c.performance.requeue_interval)
              × ((IsWithin (1 * second) (1 * hour) c.performance.requeue_interval_on_error)
                  × ((IsWithin (1 * minute) (24 * hour) c.performance.resync_period)
                      × (IsWithin
                          (1 * second)
                          (5 * minute)
                          c.performance.leader_election_lease_duration)))))
unfolding performance_is_valid
validated_performance net c h =
    let (_, (_, (_, (p, _)))) = passes net c h in
    let (n, p1) = or_else-none _ _ p in
    let (t, p2) = or_else-none _ _ p1 in
    let (q, p3) = or_else-none _ _ p2 in
    let (e, p4) = or_else-none _ _ p3 in
    let (r, p5) = or_else-none _ _ p4 in
    let (l, p6) = or_else-none _ _ p5 in
    (
      validate_positive_int-pos _ "max concurrent reconciles" n,
      (
        validate_duration-IsWithin _ _ _ "reconcile timeout" (ground arith) t,
        (
          validate_duration-IsWithin _ _ _ "requeue interval" (ground arith) q,
          (
            validate_duration-IsWithin _ _ _ "requeue interval on error" (ground arith) e,
            (
              validate_duration-IsWithin _ _ _ "resync period" (ground arith) r,
              validate_duration-IsWithin _ _ _ "leader election lease duration" (ground arith) l,
            ),
          ),
        ),
      ),
    )

specific : String → Config → Option ConfigError
specific name c = validate_environment_specific (record c { environment = name })

-- A configuration for production that passes `Validate` reconciles no more often than every thirty
-- seconds, sends at most fifty requests per second and has no experimental features.
pub validated_production :
    (net : Net) (c : Config)
    → validate net c ≡ none
    → c.environment ≡ production_env
    → (pos (30 * second) ≤ℤ c.operator.reconcile_interval)
      × ((c.cloudflare.rate_limit_rps ≤ℤ pos 50) × (is_experimental c.features ≡ false))
unfolding validate_environment_specific reconciles_no_faster specific
validated_production net c h e =
    let (_, (_, (_, (_, (s, _))))) = passes net c h in
    let s' : specific production_env c ≡ none = subst (λ x. specific x c ≡ none) e s in ground arith

abbrev IsOrdered : PerformanceConfig → Type 0
IsOrdered p =
    (pos 0 <ℤ p.leader_election_renew_deadline
      → p.leader_election_renew_deadline <ℤ p.leader_election_lease_duration)
    × (pos 0 <ℤ p.leader_election_retry_period
        → pos 0 <ℤ p.leader_election_renew_deadline
        → p.leader_election_retry_period <ℤ p.leader_election_renew_deadline)

validate_leader_election-IsOrdered :
    (p : PerformanceConfig)
    → validate_leader_election p ≡ none
    → pos 0 <ℤ p.leader_election_lease_duration
    → IsOrdered p
unfolding validate_leader_election
validate_leader_election-IsOrdered p l h = ground arith

leader_election-IsOrdered :
    (net : Net) (c : Config) → validate net c ≡ none → IsOrdered c.performance
leader_election-IsOrdered net c h =
    let (_, (_, (_, (_, (_, (l, _)))))) = passes net c h in
    let (_, (_, (_, (_, (_, lease))))) = validated_performance net c h in
    validate_leader_election-IsOrdered c.performance l (ground arith)

-- In a configuration that passes `Validate`, a positive retry period is below a positive renew
-- deadline, and both are below the lease duration.
pub validated_leader_election :
    (net : Net) (c : Config)
    → validate net c ≡ none
    → pos 0 <ℤ c.performance.leader_election_renew_deadline
    → pos 0 <ℤ c.performance.leader_election_retry_period
    → (c.performance.leader_election_retry_period <ℤ c.performance.leader_election_renew_deadline)
      × ((c.performance.leader_election_renew_deadline
            <ℤ c.performance.leader_election_lease_duration)
          × (c.performance.leader_election_retry_period
              <ℤ c.performance.leader_election_lease_duration))
validated_leader_election net c h d p =
    let (lease, deadline) = leader_election-IsOrdered net c h in
    (deadline p d, (lease d, ground arith))

add_zero : (n : ℕ) → n + 0 ≡ n
add_zero n = omega arith

ltb_zero : (n : ℕ) → ltb n 0 ≡ false
ltb_zero n = ground arith

of_word-below : (n : ℕ) → n < 2 ^ 63 → of_word (n % 2 ^ 64) ≡ pos n
of_word-below n h = ground arith

mul_int64-below : (a b : ℕ) → a * b < 2 ^ 63 → mul_int64 (pos a) (pos b) ≡ pos (a * b)
unfolding mul_int64
mul_int64-below a b h =
    rw (add_zero a, add_zero b, ltb_zero a, ltb_zero b) (of_word-below (a * b) h)

retry_time_below :
    (cf : CloudflareConfig) (attempts delay : ℕ)
    → validate_retry_time cf ≡ none
    → cf.retry_attempts ≡ pos attempts
    → cf.retry_delay ≡ pos delay
    → 0 < delay
    → attempts * delay < 2 ^ 63
    → pos 0 <ℤ cf.api_timeout
    → pos (attempts * delay) <ℤ cf.api_timeout
unfolding validate_retry_time
retry_time_below cf attempts delay r ea ed p q t =
    let e : mul_int64 cf.retry_attempts cf.retry_delay ≡ pos (attempts * delay) =
      rw (ea, ed) (mul_int64-below attempts delay q) in
    ground arith

-- In a configuration that passes `Validate`, with a positive retry delay and a total retry time (the
-- retries times the delay) below 2^63 nanoseconds, the total retry time is below the API timeout.
pub validated_retry_time :
    (net : Net) (c : Config) (attempts delay : ℕ)
    → validate net c ≡ none
    → c.cloudflare.retry_attempts ≡ pos attempts
    → c.cloudflare.retry_delay ≡ pos delay
    → 0 < delay
    → attempts * delay < 2 ^ 63
    → pos (attempts * delay) <ℤ c.cloudflare.api_timeout
validated_retry_time net c attempts delay h ea ed p q =
    let (_, (_, (_, (_, (_, (_, (_, r))))))) = passes net c h in
    let (_, (timeout, _)) = validated_operator_and_cloudflare net c h in
    retry_time_below c.cloudflare attempts delay r ea ed p q (ground arith)
