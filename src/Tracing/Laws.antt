-- ===== src/Tracing/Laws.antt =====
-- internal/tracing/config.go: what Validate accepts.
use k8s_operator_cloudflare.Prelude.{
  pos, ◌≡◌, refl, ap, ◌≢◌, ◌↔◌, ◌⊎◌, ◌||◌, inl, inr, ◌∙◌, String, true, false, none, if◌then◌else◌,
  str_eq, eq_iff, leb_ℤ, arith, Bool-cases,
}
use k8s_operator_cloudflare.Prelude.Float.{Float64}
use k8s_operator_cloudflare.Prelude.Fallible.{one_of}
use k8s_operator_cloudflare.Tracing.{
  TracingConfig, ExporterConfig, SamplingConfig, exporter_validate, sampling_validate, validate,
  new_environment_config, new_default_config, positive_timeout, needs_endpoint, known_compression,
}

-- Predicates on the name of a type of exporter.
abbrev pub NeedsEndpoint : String → Type 0
NeedsEndpoint name = (name ≡ "otlp") ⊎ (name ≡ "jaeger")

abbrev pub IsExporterType : String → Type 0
IsExporterType name = (name ≡ "otlp") ⊎ ((name ≡ "jaeger") ⊎ ((name ≡ "console") ⊎ (name ≡ "none")))

pub record IsUsableExporter (e : ExporterConfig) : Type 0 where
  pub known : IsExporterType e.type
  pub reachable : NeedsEndpoint e.type → e.endpoint ≢ ""
  pub compressed : (e.compression ≡ "") ⊎ ((e.compression ≡ "gzip") ⊎ (e.compression ≡ "none"))

exporter_validate-IsUsableExporter :
    {W : Type 0} (e : ExporterConfig)
    → ((exporter_validate {W = W} e).1 ≡ none) ↔ IsUsableExporter e
unfolding exporter_validate one_of needs_endpoint known_compression
exporter_validate-IsUsableExporter e = ground (
  arith,
  eq_iff "otlp" e.type,
  eq_iff "jaeger" e.type,
  eq_iff e.type "otlp",
  eq_iff e.type "jaeger",
  eq_iff "console" e.type,
  eq_iff "none" e.type,
  eq_iff e.endpoint "",
  eq_iff e.compression "",
  eq_iff e.compression "gzip",
  eq_iff e.compression "none",
)

-- What a validation that finds nothing leaves: only the timeout may have changed.
exporter_validate-positive_timeout :
    {W : Type 0} (e : ExporterConfig)
    → (exporter_validate {W = W} e).1 ≡ none
    → (exporter_validate {W = W} e).0 ≡ positive_timeout e
unfolding exporter_validate
exporter_validate-positive_timeout e h = ground arith

abbrev pub IsSamplingType : String → Type 0
IsSamplingType name =
    (name ≡ "always") ⊎ ((name ≡ "never") ⊎ ((name ≡ "trace_id_ratio") ⊎ (name ≡ "parent_based")))

abbrev pub InUnit : {W : Type 0} ⦃f : Float64 W⦄ → W → Type 0
InUnit ⦃f⦄ x = (f.lt x (f.lit 0 0) ≡ false) × (f.lt (f.lit 1 0) x ≡ false)

-- The ratios of the source as a float64.
pub record RatiosInUnit (W : Type 0) ⦃f : Float64 W⦄ : Type 0 where
  pub half : InUnit (f.lit 5 1)
  pub tenth : InUnit (f.lit 1 1)

positive_timeout-positive_timeout :
    (e : ExporterConfig) → positive_timeout (positive_timeout e) ≡ positive_timeout e
unfolding positive_timeout
positive_timeout-positive_timeout e = ground arith

positive_timeout-IsUsableExporter :
    (e : ExporterConfig) → IsUsableExporter e → IsUsableExporter (positive_timeout e)
unfolding positive_timeout
positive_timeout-IsUsableExporter e h = elim (Bool-cases (leb_ℤ e.timeout (pos 0))) [
  | inl late ↦
      rw late (record { known = h.known; reachable = h.reachable; compressed = h.compressed })
  | inr early ↦ rw early h
]

exporter_validate-again :
    {W : Type 0} (e : ExporterConfig)
    → (exporter_validate {W = W} e).1 ≡ none
    → exporter_validate {W = W} (positive_timeout e) ≡ (positive_timeout e, none)
exporter_validate-again {W} e h =
    let usable : IsUsableExporter (positive_timeout e) =
      positive_timeout-IsUsableExporter e ((exporter_validate-IsUsableExporter {W = W} e).0 h) in
    let clean = (exporter_validate-IsUsableExporter {W = W} (positive_timeout e)).1 usable in
    λ i. (
      (exporter_validate-positive_timeout {W = W} (positive_timeout e) clean
            ∙ positive_timeout-positive_timeout e)
          i,
      clean i,
    )

module _ {W : Type 0} ⦃f : Float64 W⦄ where
  pub record IsUsableSampling (s : SamplingConfig W) : Type 0 where
    pub known : IsSamplingType s.type
    pub in_unit : s.type ≡ "trace_id_ratio" → InUnit s.ratio

  sampling_validate-IsUsableSampling :
      (s : SamplingConfig W) → (sampling_validate s ≡ none) ↔ IsUsableSampling s
  unfolding sampling_validate one_of
  sampling_validate-IsUsableSampling s = ground (
    arith,
    eq_iff "always" s.type,
    eq_iff "never" s.type,
    eq_iff "trace_id_ratio" s.type,
    eq_iff s.type "trace_id_ratio",
    eq_iff "parent_based" s.type,
  )

  -- What Validate accepts of a configuration that is enabled.
  pub record IsUsable (c : TracingConfig W) : Type 0 where
    pub named : c.service_name ≢ ""
    pub exports : IsUsableExporter c.exporter
    pub samples : IsUsableSampling c.sampling

  abbrev pub IsAccepted : TracingConfig W → Type 0
  IsAccepted c = (c.enabled ≡ false) ⊎ IsUsable c

  -- Validate of a configuration gives no error exactly if tracing is disabled, or the service has a
  -- name, the exporter is known, has an endpoint where it needs one and a known compression, and the
  -- sampling is known, with a ratio between 0 and 1 if it is by ratio.
  pub validate-IsAccepted : (c : TracingConfig W) → ((validate c).1 ≡ none) ↔ IsAccepted c
  unfolding validate
  validate-IsAccepted c = ground (
    arith,
    eq_iff c.service_name "",
    exporter_validate-IsUsableExporter {W = W} c.exporter,
    sampling_validate-IsUsableSampling c.sampling,
  )

  -- The configuration that an accepted one becomes.
  pub validate-changes :
      (c : TracingConfig W)
      → (validate c).1 ≡ none
      → (validate c).0
        ≡ (if c.enabled then record c { exporter = positive_timeout c.exporter } else c)
  unfolding validate
  validate-changes c h = ground (arith, exporter_validate-positive_timeout {W = W} c.exporter)

  abbrev switched_on : TracingConfig W → TracingConfig W
  switched_on c = record c { enabled = true }

  switched_on-validate :
      RatiosInUnit W
      → (to_lower : String → String) (environment : String)
      → let c : TracingConfig W = new_environment_config to_lower environment in
        (validate (switched_on c) ≡ (switched_on c, none))
        × (str_eq c.exporter.type "jaeger" ≡ false)
  unfolding validate new_environment_config new_default_config exporter_validate sampling_validate
      one_of needs_endpoint known_compression positive_timeout
  switched_on-validate ratios to_lower environment =
      let name = to_lower environment in
      elim (Bool-cases (str_eq name "development" || str_eq name "dev")) [
        | inl e ↦ rw e (refl, refl)
        | inr e ↦ elim (Bool-cases (str_eq name "staging")) [
          | inl e' ↦ rw (e, e', ratios.half.0, ratios.half.1) (refl, refl)
          | inr e' ↦ elim (Bool-cases (str_eq name "production" || str_eq name "prod")) [
            | inl e'' ↦ rw (e, e', e'', ratios.tenth.0, ratios.tenth.1) (refl, refl)
            | inr e'' ↦ rw (e, e', e'') (refl, refl)
          ]
        ]
      ]

  -- The configuration of every environment is one that Validate accepts, enabled or not.
  pub new_environment_config-IsUsable :
      RatiosInUnit W
      → (to_lower : String → String) (environment : String)
      → IsUsable (new_environment_config to_lower environment)
        × ((new_environment_config {W = W} to_lower environment).exporter.type ≢ "jaeger")
  new_environment_config-IsUsable ratios to_lower environment =
      let c : TracingConfig W = new_environment_config to_lower environment in
      let (accepted, other) = switched_on-validate ratios to_lower environment in
      (
        elim ((validate-IsAccepted (switched_on c)).0 (ap (λ r. r.1) accepted)) [
          | inl off ↦ cc
          | inr u ↦ record { named = u.named; exports = u.exports; samples = u.samples }
        ],
        λ h. cc ((eq_iff c.exporter.type "jaeger").1 h),
      )

  -- A second validation finds nothing and changes nothing.
  pub validate-validate :
      (c : TracingConfig W)
      → (validate c).1 ≡ none
      → validate (validate c).0 ≡ ((validate c).0, none)
  unfolding validate
  validate-validate c h =
      rw (validate-changes c h) (ground (arith, exporter_validate-again {W = W} c.exporter))

  -- What an accepted configuration becomes.
  pub validate-kept :
      (c : TracingConfig W)
      → (validate c).1 ≡ none
      → ((validate c).0.exporter.type ≡ c.exporter.type) × ((validate c).0.enabled ≡ c.enabled)
  unfolding positive_timeout
  validate-kept c h = rw (validate-changes c h) (ground arith)

  pub validate-IsUsable :
      (c : TracingConfig W) → (validate c).1 ≡ none → c.enabled ≡ true → IsUsable (validate c).0
  validate-IsUsable c h on =
      elim ((validate-IsAccepted (validate c).0).0 (ap (λ r. r.1) (validate-validate c h))) [
        | inl off ↦ cc ((validate-kept c h).1)
        | inr u ↦ u
      ]
