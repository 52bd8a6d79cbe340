-- ===== src/Tracing/Outcomes.antt =====
-- internal/tracing/tracer.go: how the creation of a provider ends.
use k8s_operator_cloudflare.Prelude.{
  ◌≡◌, refl, ◌≢◌, ◌↔◌, ◌⊎◌, inl, inr, sym, ◌∙◌, subst, String, true, false, Option, none, some,
  List, eq_iff, arith, Bool-cases, Option-cases,
}
use k8s_operator_cloudflare.Prelude.Float.{Float64}
use k8s_operator_cloudflare.Prelude.Fallible.{
  Fallible, ok, err, Fallible-cases, override_text-ne, override_text_unset,
}
use k8s_operator_cloudflare.Tracing.{
  TracingConfig, TracingError, ExporterConfig, SamplingConfig, validate, new_environment_config,
}
use k8s_operator_cloudflare.Tracing.Provider.{
  Sdk, Attribute, OtlpOption, Provider, ProviderError, no_op, batching, create_sampler,
  after_validation, create_resource, create_exporter, new_provider, assemble, resource_options,
  otlp_options, unsupported_exporter, tracer_from_config, from_environment,
}
use k8s_operator_cloudflare.Tracing.Laws.{
  IsUsable, NeedsEndpoint, RatiosInUnit, validate-IsAccepted, validate-kept, validate-IsUsable,
  new_environment_config-IsUsable, IsExporterType, IsSamplingType,
}

abbrev pub Succeeds : {E A : Type 0} → Fallible E A → Type 0
Succeeds {A = A} r = (a : A) × (r ≡ ok a)

-- Every call of the SDK that may fail succeeds.
pub record Answers {E R X : Type 0} (sdk : Sdk E R X) : Type 0 where
  pub resource : (options : List (List Attribute)) → Succeeds (sdk.new_resource options)
  pub otlp : (options : List OtlpOption) → Succeeds (sdk.new_otlp options)
  pub stdout : Succeeds sdk.new_stdout

create_sampler-Succeeds :
    {E W : Type 0} (s : SamplingConfig W)
    → IsSamplingType s.type
    → Succeeds (create_sampler {E = E} s)
unfolding create_sampler
create_sampler-Succeeds s (inl e) = rw e (_, refl)
create_sampler-Succeeds s (inr (inl e)) = rw e (_, refl)
create_sampler-Succeeds s (inr (inr (inl e))) = rw e (_, refl)
create_sampler-Succeeds s (inr (inr (inr e))) = rw e (_, refl)

create_sampler-known :
    {E W : Type 0} (s : SamplingConfig W) {e : ProviderError E W}
    → create_sampler s ≡ err e
    → ¬ IsSamplingType s.type
unfolding create_sampler
create_sampler-known s h = ground (
  arith,
  eq_iff s.type "always",
  eq_iff s.type "never",
  eq_iff s.type "trace_id_ratio",
  eq_iff s.type "parent_based",
)

module _ {E W R X : Type 0} ⦃f : Float64 W⦄ (sdk : Sdk E R X) where
  create_exporter-jaeger :
      (e : ExporterConfig)
      → e.type ≡ "jaeger"
      → create_exporter {W = W} sdk e ≡ err (unsupported_exporter "jaeger")
  unfolding create_exporter
  create_exporter-jaeger e h = rw h refl

  create_exporter-Succeeds :
      Answers sdk
      → (e : ExporterConfig) → IsExporterType e.type
      → e.type ≢ "jaeger"
      → Succeeds (create_exporter {W = W} sdk e)
  unfolding create_exporter
  create_exporter-Succeeds answers e (inl h) other =
      let (x, made) = answers.otlp (otlp_options e) in rw (h, made) (_, refl)
  create_exporter-Succeeds answers e (inr (inl h)) other = absurd (other h)
  create_exporter-Succeeds answers e (inr (inr (inl h))) other =
      let (x, made) = answers.stdout in rw (h, made) (_, refl)
  create_exporter-Succeeds answers e (inr (inr (inr h))) other = rw h (_, refl)

  assemble-jaeger : (c : TracingConfig W) → c.exporter.type ≡ "jaeger" → ¬ Succeeds (assemble sdk c)
  unfolding assemble
  assemble-jaeger c h (p, e) = elim (Fallible-cases (create_resource {W = W} sdk c)) [
    | inl (r, made) ↦ cc (rw (made, create_exporter-jaeger c.exporter h) at e)
    | inr (problem, failed) ↦ cc (rw failed at e)
  ]

  create_resource-Succeeds :
      Answers sdk → (c : TracingConfig W) → Succeeds (create_resource {W = W} sdk c)
  unfolding create_resource
  create_resource-Succeeds answers c =
      let (r, made) = answers.resource (resource_options c) in rw made (r, refl)

  assemble-Succeeds :
      Answers sdk
      → (c : TracingConfig W) → IsUsable c
      → c.exporter.type ≢ "jaeger"
      → (p : Provider W R X) × (assemble sdk c ≡ ok p) × (p.config ≡ c)
  unfolding assemble
  assemble-Succeeds answers c u other =
      let (r, has_resource) = create_resource-Succeeds answers c in
      let (x, has_exporter) = create_exporter-Succeeds answers c.exporter u.exports.known other in
      let (s, has_sampler) = create_sampler-Succeeds {E = E} c.sampling u.samples.known in
      (
        record { provider = batching x r s; config = c },
        rw (has_resource, has_exporter, has_sampler) refl,
        refl,
      )

  after_validation-disabled :
      (r : TracingConfig W × Option (TracingError W))
      → r.1 ≡ none
      → r.0.enabled ≡ false
      → after_validation sdk r ≡ ok (record { provider = no_op; config = r.0 })
  after_validation-disabled (c, none) h off = ground arith
  after_validation-disabled (c, some e) h off = cc

  after_validation-assemble :
      (r : TracingConfig W × Option (TracingError W))
      → r.1 ≡ none
      → r.0.enabled ≡ true
      → after_validation sdk r ≡ assemble sdk r.0
  after_validation-assemble (c, none) h on = ground arith
  after_validation-assemble (c, some e) h on = cc

  module _ (c : TracingConfig W) where
    new_provider-rejected : (validate c).1 ≢ none → ¬ Succeeds (new_provider sdk c)
    unfolding new_provider
    new_provider-rejected some_error made = elim (Option-cases (validate c).1) [
      | inl clean ↦ some_error clean
      | inr (problem, found) ↦ cc (rw found at made.1)
    ]

    module _ (clean : (validate c).1 ≡ none) where
      new_provider-disabled :
          c.enabled ≡ false
          → new_provider sdk c ≡ ok (record { provider = no_op; config = (validate c).0 })
      unfolding new_provider
      new_provider-disabled off =
          after_validation-disabled (validate c) clean ((validate-kept c clean).1 ∙ off)

      new_provider-assemble : c.enabled ≡ true → new_provider sdk c ≡ assemble sdk (validate c).0
      unfolding new_provider
      new_provider-assemble on =
          after_validation-assemble (validate c) clean ((validate-kept c clean).1 ∙ on)

      new_provider-jaeger :
          c.enabled ≡ true → c.exporter.type ≡ "jaeger" → ¬ Succeeds (new_provider sdk c)
      new_provider-jaeger on h made =
          assemble-jaeger (validate c).0 ((validate-kept c clean).0 ∙ h)
            (subst Succeeds (new_provider-assemble on) made)

      new_provider-made :
          Answers sdk
          → (c.enabled ≡ false) ⊎ (c.exporter.type ≢ "jaeger")
          → Succeeds (new_provider sdk c)
      new_provider-made answers claim = elim (Bool-cases c.enabled) [
        | inr off ↦ (_, new_provider-disabled off)
        | inl on ↦
            let other : (validate c).0.exporter.type ≢ "jaeger" =
              λ h. elim claim [ inl off ↦ cc | inr ne ↦ ne (sym (validate-kept c clean).0 ∙ h) ] in
            let (p, made, _) =
              assemble-Succeeds answers (validate c).0 (validate-IsUsable c clean on) other in
            (p, new_provider-assemble on ∙ made)
      ]

    -- If the SDK answers every call, a provider is created exactly if Validate accepts the
    -- configuration and tracing is disabled or the exporter is not "jaeger", which Validate accepts
    -- too.
    pub new_provider-Succeeds :
        Answers sdk
        → Succeeds (new_provider sdk c)
          ↔ (((validate c).1 ≡ none) × ((c.enabled ≡ false) ⊎ (c.exporter.type ≢ "jaeger")))
    new_provider-Succeeds answers = elim (Option-cases (validate c).1) [
      | inr (problem, found) ↦
          (λ made. absurd (new_provider-rejected (λ clean. cc) made), λ claim. cc (claim.0))
      | inl clean ↦ (
        λ made. (
          clean,
          elim (Bool-cases c.enabled) [
            | inr off ↦ inl off
            | inl on ↦ inr (λ h. new_provider-jaeger clean on h made)
          ],
        ),
        λ claim. new_provider-made clean answers claim.1,
      )
    ]

  from_environment-IsUsable :
      (getenv : String → String) (c : TracingConfig W)
      → getenv "TRACING_EXPORTER_TYPE" ≡ ""
      → getenv "TRACING_SAMPLING_TYPE" ≡ ""
      → IsUsable c
      → IsUsable (from_environment getenv c)
  unfolding from_environment
  from_environment-IsUsable getenv c exporter_unset sampling_unset u =
      let exporter_kept = override_text_unset _ c.exporter.type exporter_unset in
      let sampling_kept = override_text_unset _ c.sampling.type sampling_unset in
      record {
        named = override_text-ne (getenv "TRACING_SERVICE_NAME") c.service_name u.named;
        exports = record {
          known = subst IsExporterType (sym exporter_kept) u.exports.known;
          reachable = λ needs.
              override_text-ne (getenv "TRACING_EXPORTER_ENDPOINT") c.exporter.endpoint
                (u.exports.reachable (subst NeedsEndpoint exporter_kept needs));
          compressed = u.exports.compressed;
        };
        samples = record {
          known = subst IsSamplingType (sym sampling_kept) u.samples.known;
          in_unit = λ h. u.samples.in_unit (sym sampling_kept ∙ h);
        };
      }

  -- Whatever the environment is called, and whatever the other TRACING variables hold,
  -- TracerFromConfig gives a provider if TRACING_EXPORTER_TYPE and TRACING_SAMPLING_TYPE are not set
  -- and the SDK answers every call; 0.5 and 0.1 lie between 0 and 1.
  pub tracer_from_config-Succeeds :
      Answers sdk
      → RatiosInUnit W
      → (to_lower getenv : String → String) (environment : String)
      → getenv "TRACING_EXPORTER_TYPE" ≡ ""
      → getenv "TRACING_SAMPLING_TYPE" ≡ ""
      → Succeeds (tracer_from_config {W = W} sdk to_lower getenv environment)
  unfolding tracer_from_config
  tracer_from_config-Succeeds answers ratios to_lower getenv environment exporter_unset
        sampling_unset =
      let c : TracingConfig W = new_environment_config to_lower environment in
      let (usable, other) = new_environment_config-IsUsable {W = W} ratios to_lower environment in
      let c' : TracingConfig W = from_environment getenv c in
      (new_provider-Succeeds c' answers).1 (
        (validate-IsAccepted c').1
            (inr (from_environment-IsUsable getenv c exporter_unset sampling_unset usable)),
        inr (λ h. other (sym (override_text_unset _ c.exporter.type exporter_unset) ∙ h)),
      )
