-- ===== src/Health/Probes.antt =====
-- internal/health/checker.go: when the probes pass.
use k8s_operator_cloudflare.Prelude.{
  ◌≡◌, ◌↔◌, refl, sym, ap, ◌∙◌, String, Bool, true, false, Option, none, some, List, [], ◌∷◌, arith,
  inl, inr, if◌then◌else◌, str_eq, Bool-cases, eq_iff,
}
use mathlib.Core.List.{Memᴰ}
use mathlib.Core.List.Memᴰ
use k8s_operator_cloudflare.Health.{
  Reply, replied, refused, crashed, Checker, HealthError, Check, passed, panicked, failed, and_then,
  check_kubernetes_api, find_kind, check_crd_availability, check_cloudflare_api, configured_api,
  check_leader_election_status, liveness_check, readiness_check,
}

module _ {E : Type 0} where
  -- The Kubernetes API answers.
  abbrev pub IsReachable : Checker E → Type 0
  IsReachable c = (version : String) × (c.k8s_client ≡ some (replied version))

  -- The kind of the operator is among the resources that are served.
  abbrev pub HasCrd : Checker E → Type 0
  HasCrd c =
      (kinds : List String) × (c.discovery_client ≡ some (replied kinds))
      × Memᴰ "CloudflareRecord" kinds

  and_then-passed :
      (wrap : HealthError E → HealthError E) (first rest : Check E)
      → and_then wrap first rest ≡ passed
      → (first ≡ passed) × (rest ≡ passed)
  unfolding and_then
  and_then-passed wrap passed rest h = (refl, h)
  and_then-passed wrap panicked rest h = absurd (cc)
  and_then-passed wrap (failed e) rest h = absurd (cc)

  kubernetes_inv :
      (client : Option (Reply E String))
      → check_kubernetes_api client ≡ passed
      → (version : String) × (client ≡ some (replied version))
  unfolding check_kubernetes_api
  kubernetes_inv none h = absurd (cc)
  kubernetes_inv (some (replied version)) h = (version, refl)
  kubernetes_inv (some (refused e)) h = absurd (cc)
  kubernetes_inv (some crashed) h = absurd (cc)

  find_kind-Mem :
      (kinds : List String) → find_kind {E = E} kinds ≡ passed → Memᴰ "CloudflareRecord" kinds
  unfolding find_kind
  find_kind-Mem [] h = absurd (cc)
  find_kind-Mem (kind ∷ kinds) h = elim (Bool-cases (str_eq kind "CloudflareRecord")) [
    | inl e ↦ Memᴰ.head (sym ((eq_iff kind "CloudflareRecord").0 e))
    | inr e ↦
        Memᴰ.tail
          (find_kind-Mem kinds (ap (λ b. if b then passed else find_kind kinds) (sym e) ∙ h))
  ]

  Mem-find_kind :
      (kinds : List String) → Memᴰ "CloudflareRecord" kinds → find_kind {E = E} kinds ≡ passed
  unfolding find_kind
  Mem-find_kind [] h = absurd (Memᴰ.not-nil h)
  Mem-find_kind (kind ∷ kinds) (Memᴰ.head e) = rw ((eq_iff kind "CloudflareRecord").1 (sym e)) refl
  Mem-find_kind (kind ∷ kinds) (Memᴰ.tail h) =
      ap (λ rest. if str_eq kind "CloudflareRecord" then passed else rest) (Mem-find_kind kinds h)
      ∙ ground arith

  crd_inv :
      (client : Option (Reply E (List String)))
      → check_crd_availability client ≡ passed
      → (kinds : List String) × (client ≡ some (replied kinds)) × Memᴰ "CloudflareRecord" kinds
  unfolding check_crd_availability
  crd_inv none h = absurd (cc)
  crd_inv (some (replied kinds)) h = (kinds, refl, find_kind-Mem kinds h)
  crd_inv (some (refused e)) h = absurd (cc)
  crd_inv (some crashed) h = absurd (cc)

  leader_inv :
      (has_manager : Bool)
      → check_leader_election_status {E = E} has_manager ≡ passed
      → has_manager ≡ true
  unfolding check_leader_election_status
  leader_inv true h = refl
  leader_inv false h = absurd (cc)

  configured_api-passed : (api : Option (Reply E String)) → configured_api api ≡ passed
  unfolding configured_api check_cloudflare_api
  configured_api-passed none = refl
  configured_api-passed (some (replied status)) = ground arith
  configured_api-passed (some (refused e)) = refl
  configured_api-passed (some crashed) = refl

  -- The readiness probe passes exactly when the Kubernetes API answers, the CloudflareRecord kind is
  -- among the served resources and there is a manager, whatever the Cloudflare API answers: a refused
  -- or an inactive token does not fail it, nor does a panic of its client.
  pub readiness_check_iff :
      (c : Checker E)
      → (readiness_check c ≡ passed) ↔ (IsReachable c × HasCrd c × (c.has_manager ≡ true))
  unfolding readiness_check
  readiness_check_iff c = (ready, back)
    where
      ready : readiness_check c ≡ passed → IsReachable c × HasCrd c × (c.has_manager ≡ true)
      ready h =
          let (reachable, h1) = and_then-passed _ (check_kubernetes_api c.k8s_client) _ h in
          let (crd, h2) = and_then-passed _ (check_crd_availability c.discovery_client) _ h1 in
          let (_, h3) = and_then-passed _ (configured_api c.cloudflare_api) _ h2 in
          let (leader, _) = and_then-passed _ (check_leader_election_status c.has_manager) _ h3 in
          (
            kubernetes_inv c.k8s_client reachable,
            crd_inv c.discovery_client crd,
            leader_inv c.has_manager leader,
          )

      back : IsReachable c × HasCrd c × (c.has_manager ≡ true) → readiness_check c ≡ passed
      back ((version, e), (kinds, e', member), e'') =
          rw (e, e', e'', Mem-find_kind kinds member, configured_api-passed c.cloudflare_api) refl

  -- A checker that is ready is alive.
  pub readiness_check-liveness_check :
      (c : Checker E) → readiness_check c ≡ passed → liveness_check c ≡ passed
  unfolding liveness_check check_kubernetes_api and_then
  readiness_check-liveness_check c h =
      let ((version, e), crd, e') = (readiness_check_iff c).0 h in rw (e, e') refl
