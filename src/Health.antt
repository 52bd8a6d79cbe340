-- ===== src/Health.antt =====
-- internal/health/checker.go. A client is the answer that it gives, or `none` where the field is nil.
pub mod Shutdown
pub mod Probes
mod Tests
use k8s_operator_cloudflare.Prelude.{
  String, Bool, true, false, Option, none, some, List, [], ◌∷◌, if◌then◌else◌, str_eq,
}

-- What a call of another system gives. `crashed` is the panic of a call on a nil pointer.
pub data Reply (E : Type 0) (A : Type 0) : Type 0 where
  replied : A → Reply E A
  refused : E → Reply E A
  crashed : Reply E A

-- The version of the server, the kinds of the resources of `dns.cloudflare.io/v1` and the status of
-- the token. The manager is only tested for nil.
pub record Checker (E : Type 0) : Type 0 where
  pub k8s_client : Option (Reply E String)
  pub discovery_client : Option (Reply E (List String))
  pub has_manager : Bool
  pub cloudflare_api : Option (Reply E String)

pub data HealthError (E : Type 0) : Type 0 where
  manager_not_initialized kubernetes_client_not_initialized : HealthError E
  discovery_client_not_initialized crd_not_found : HealthError E
  server_version_failed api_resources_failed : E → HealthError E
  kubernetes_api_check_failed kubernetes_api_not_ready crd_not_ready : HealthError E → HealthError E
  cloudflare_api_not_ready leader_election_not_ready : HealthError E → HealthError E

pub data Check (E : Type 0) : Type 0 where
  passed panicked : Check E
  failed : HealthError E → Check E

module _ {E : Type 0} where
  -- The pointer that a constructor returns, stored in a field of an interface type: a nil pointer
  -- makes the field not nil.
  abbrev stored : {A : Type 0} → Option (Reply E A) → Option (Reply E A)
  stored none = some crashed
  stored (some reply) = some reply

  -- The errors of the two constructors are dropped.
  unfoldable pub new_checker :
      Option (Reply E String) → Option (Reply E (List String)) → Option (Reply E String) → Checker E
  new_checker k8s discovery api = record {
    k8s_client = stored k8s;
    discovery_client = stored discovery;
    has_manager = true;
    cloudflare_api = stored api;
  }

  unfoldable pub check_kubernetes_api : Option (Reply E String) → Check E
  check_kubernetes_api none = failed kubernetes_client_not_initialized
  check_kubernetes_api (some (replied version)) = passed
  check_kubernetes_api (some (refused e)) = failed (server_version_failed e)
  check_kubernetes_api (some crashed) = panicked

  find_kind : List String → Check E
  find_kind [] = failed crd_not_found
  find_kind (kind ∷ kinds) =
      let rest = find_kind kinds in if str_eq kind "CloudflareRecord" then passed else rest

  unfoldable pub check_crd_availability : Option (Reply E (List String)) → Check E
  unfolding find_kind
  check_crd_availability none = failed discovery_client_not_initialized
  check_crd_availability (some (replied kinds)) = find_kind kinds
  check_crd_availability (some (refused e)) = failed (api_resources_failed e)
  check_crd_availability (some crashed) = panicked

  -- The deferred `recover` turns a panic into the zero value of the result, which is nil.
  unfoldable pub check_cloudflare_api : Option (Reply E String) → Check E
  check_cloudflare_api none = passed
  check_cloudflare_api (some (replied status)) = if str_eq status "active" then passed else passed
  check_cloudflare_api (some (refused e)) = passed
  check_cloudflare_api (some crashed) = passed

  unfoldable pub check_leader_election_status : Bool → Check E
  check_leader_election_status has_manager =
      if has_manager then passed else failed manager_not_initialized

  -- `if err := check(ctx); err != nil { return fmt.Errorf(..., err) }`, and then the rest.
  unfoldable pub and_then : (HealthError E → HealthError E) → Check E → Check E → Check E
  and_then wrap passed rest = rest
  and_then wrap panicked rest = panicked
  and_then wrap (failed e) rest = failed (wrap e)

  unfoldable pub liveness_check : Checker E → Check E
  unfolding and_then check_kubernetes_api
  liveness_check c =
      if c.has_manager
      then and_then kubernetes_api_check_failed (check_kubernetes_api c.k8s_client) passed
      else failed manager_not_initialized

  -- The check of the API, if one is configured.
  configured_api : Option (Reply E String) → Check E
  unfolding check_cloudflare_api
  configured_api none = passed
  configured_api (some reply) = check_cloudflare_api (some reply)

  unfoldable pub readiness_check : Checker E → Check E
  unfolding and_then check_kubernetes_api check_crd_availability configured_api
      check_leader_election_status
  readiness_check c = and_then kubernetes_api_not_ready (check_kubernetes_api c.k8s_client) (
      and_then crd_not_ready (check_crd_availability c.discovery_client) (
        and_then cloudflare_api_not_ready (configured_api c.cloudflare_api)
          (and_then leader_election_not_ready (check_leader_election_status c.has_manager) passed)))
