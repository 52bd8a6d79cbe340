-- ===== src/Controller/Rates.antt =====
-- internal/controller/cloudflarerecord_controller.go with internal/metrics/performance.go: what the rates
-- that are read show of the reconciles.
use k8s_operator_cloudflare.Prelude.{
  ℕ, zero, suc, ℤ, ◌≡◌, refl, sym, subst, ap, ◌∙◌, inl, inr, String, Bool, true, false, ◌&&◌,
  Option, none, some, List, [], ◌∷◌, if◌then◌else◌, str_eq, eq_iff, or_default, Bool-cases, arith,
}
use k8s_operator_cloudflare.Prelude.Float.{Float64}
use k8s_operator_cloudflare.Metrics.{Registry, get_reconcile_rate_metric, get_error_rate_metric}
use k8s_operator_cloudflare.Metrics.Counters.{
  Counts, same_labels, incremented, incremented_by, write_all, counter-write_all,
}
use k8s_operator_cloudflare.Controller.Metrics.{
  Attempt, outcome_of, writes_of_label, writes_at, metric_writes,
}

module _ {W : Type 0} ⦃f : Float64 W⦄ where
  -- A figure to which 1 is added so often.
  unfoldable pub counted_up : ℕ → W → W
  counted_up zero v = v
  counted_up (suc n) v = counted_up n (f.add v (f.lit 1 0))

  counted_up-if :
      (b : Bool) (n : ℕ) (v : W)
      → counted_up n (if b then f.add v (f.lit 1 0) else v) ≡ counted_up (if b then suc n else n) v
  unfolding counted_up
  counted_up-if true n v = refl
  counted_up-if false n v = refl

  or_default-if :
      (b : Bool) (x z : W) (old : Option W)
      → or_default (if b then some x else old) z ≡ (if b then x else or_default old z)
  or_default-if true x z old = refl
  or_default-if false x z old = refl

abbrev is_success : Option String → Bool
is_success none = false
is_success (some label) = str_eq label "success"

module _ {E : Type 0} where
  -- The reconciles of a namespace that end with the label "success".
  unfoldable pub successes : String → List (Attempt E) → ℕ
  successes namespace [] = zero
  successes namespace (a ∷ later) =
      let rest = successes namespace later in
      if is_success (outcome_of a).label && str_eq a.namespace namespace then suc rest else rest

module _ {W R : Type 0} ⦃f : Float64 W⦄ (reg : Registry W R) where
  IsReadAt : String → String → ℤ → ℤ → Option W → Option String → Type 0
  IsReadAt namespace at t d old label =
      (incremented_by "cloudflare_operator_error_rate_total"
          ("cloudflarerecord" ∷ "reconcile_error" ∷ namespace ∷ []) (writes_at reg label at t d) old
        ≡ old)
      × (incremented_by "cloudflare_operator_reconcile_rate_total"
            ("cloudflarerecord" ∷ "success" ∷ namespace ∷ []) (writes_at reg label at t d) old
          ≡ (if is_success label && str_eq at namespace
              then some (f.add (or_default old (f.lit 0 0)) (f.lit 1 0))
              else old))

  -- The five labels that the writes look at, and any other.
  writes_at-literal :
      (namespace at : String) (t d : ℤ) (old : Option W) (label literal : String)
      → str_eq label literal ≡ true
      → IsReadAt namespace at t d old (some literal)
      → IsReadAt namespace at t d old (some label)
  writes_at-literal namespace at t d old label literal e =
      subst (λ l. IsReadAt namespace at t d old (some l)) (sym ((eq_iff label literal).0 e))

  writes_at-other :
      (namespace at : String) (t d : ℤ) (old : Option W) (label : String)
      → str_eq label "success" ≡ false
      → str_eq label "error" ≡ false
      → str_eq label "delete_error" ≡ false
      → str_eq label "finalizer_error" ≡ false
      → str_eq label "status_error" ≡ false
      → IsReadAt namespace at t d old (some label)
  unfolding IsReadAt writes_at writes_of_label incremented_by incremented same_labels
  writes_at-other namespace at t d old label a b c x y = rw (a, b, c, x, y) (refl, rw a refl)

  writes_at-success :
      (namespace at : String) (t d : ℤ) (old : Option W)
      → IsReadAt namespace at t d old (some "success")
  unfolding IsReadAt writes_at writes_of_label incremented_by incremented same_labels
  writes_at-success namespace at t d old = (refl, ground arith)

  writes_at-IsReadAt :
      (namespace at : String) (t d : ℤ) (old : Option W) (label : Option String)
      → IsReadAt namespace at t d old label
  unfolding IsReadAt writes_at writes_of_label incremented_by incremented same_labels
  writes_at-IsReadAt n at t d old none = (refl, refl)
  writes_at-IsReadAt n at t d old (some l) = elim (Bool-cases (str_eq l "success")) [
    | inl e ↦ writes_at-literal n at t d old l "success" e (writes_at-success n at t d old)
    | inr a ↦ elim (Bool-cases (str_eq l "error")) [
      | inl e ↦ writes_at-literal n at t d old l "error" e (refl, refl)
      | inr b ↦ elim (Bool-cases (str_eq l "delete_error")) [
        | inl e ↦ writes_at-literal n at t d old l "delete_error" e (refl, refl)
        | inr c ↦ elim (Bool-cases (str_eq l "finalizer_error")) [
          | inl e ↦ writes_at-literal n at t d old l "finalizer_error" e (refl, refl)
          | inr x ↦ elim (Bool-cases (str_eq l "status_error")) [
            | inl e ↦ writes_at-literal n at t d old l "status_error" e (refl, refl)
            | inr y ↦ writes_at-other n at t d old l a b c x y
          ]
        ]
      ]
    ]
  ]

  module _ {E : Type 0} where
    -- The reconciles one after the other, each with its writes.
    unfoldable pub after_reconciles : R → List (Attempt E) → R
    after_reconciles s [] = s
    after_reconciles s (a ∷ later) = after_reconciles (write_all reg s (metric_writes reg a)) later

    one_reconcile-error_rate :
        Counts reg
        → (s : R) (a : Attempt E) (namespace : String)
        → get_error_rate_metric reg
            (write_all reg s (metric_writes reg a))
            "cloudflarerecord"
            namespace
          ≡ get_error_rate_metric reg s "cloudflarerecord" namespace
    unfolding get_error_rate_metric metric_writes IsReadAt
    one_reconcile-error_rate counts s a namespace =
        ap (λ (v : Option W). elim v [ none ↦ f.lit 0 0 | some x ↦ f.add (f.lit 0 0) x ])
          (counter-write_all reg counts (metric_writes reg a) s _ _
            ∙ (writes_at-IsReadAt namespace a.namespace a.api_time a.duration _
                (outcome_of a).label).0)

    one_reconcile-reconcile_rate :
        Counts reg
        → (s : R) (a : Attempt E) (namespace : String)
        → get_reconcile_rate_metric reg
            (write_all reg s (metric_writes reg a))
            "cloudflarerecord"
            namespace
          ≡ (if is_success (outcome_of a).label && str_eq a.namespace namespace
              then f.add (get_reconcile_rate_metric reg s "cloudflarerecord" namespace) (f.lit 1 0)
              else get_reconcile_rate_metric reg s "cloudflarerecord" namespace)
    unfolding get_reconcile_rate_metric metric_writes IsReadAt
    one_reconcile-reconcile_rate counts s a namespace =
        ap (λ (v : Option W). or_default v (f.lit 0 0))
          (counter-write_all reg counts (metric_writes reg a) s _ _
            ∙ (writes_at-IsReadAt namespace a.namespace a.api_time a.duration _
                (outcome_of a).label).1)
        ∙ or_default-if (is_success (outcome_of a).label && str_eq a.namespace namespace) _ _ _

    -- Where a counter keeps what it is sent, and whatever the reconciles meet: the error rate of the
    -- controller reads as before them, since no reconcile counts an error of the type that it reads;
    -- the reconcile rate of a namespace goes up by 1 for each reconcile of that namespace that ends
    -- with "success", and for no other.
    pub reconciles_read :
        Counts reg
        → (s : R) (attempts : List (Attempt E)) (namespace : String)
        → let after = after_reconciles s attempts in
          (get_error_rate_metric reg after "cloudflarerecord" namespace
            ≡ get_error_rate_metric reg s "cloudflarerecord" namespace)
          × (get_reconcile_rate_metric reg after "cloudflarerecord" namespace
              ≡ counted_up
                  (successes namespace attempts)
                  (get_reconcile_rate_metric reg s "cloudflarerecord" namespace))
    unfolding after_reconciles counted_up successes
    reconciles_read counts s [] namespace = (refl, refl)
    reconciles_read counts s (a ∷ later) namespace =
        let s' = write_all reg s (metric_writes reg a) in
        let (errors, rate) = reconciles_read counts s' later namespace in
        (
          errors ∙ one_reconcile-error_rate counts s a namespace,
          rate
              ∙ ap (counted_up (successes namespace later))
                  (one_reconcile-reconcile_rate counts s a namespace)
              ∙ counted_up-if (is_success (outcome_of a).label && str_eq a.namespace namespace) _ _,
        )
