-- ===== src/Tracing/Provider.antt =====
-- internal/tracing/tracer.go: the provider. What the OpenTelemetry SDK gives for the options that the
-- code passes is `Sdk`; a call that cannot fail is kept as its arguments. The accessors that only
-- forward to the SDK (Tracer, StartSpan, SpanFromContext, ContextWithSpan, the attributes) are left out.
use k8s_operator_cloudflare.Prelude.{
  ℤ, String, Bool, true, false, not, Option, none, some, List, [], ◌∷◌, ◌++◌, if◌then◌else◌, str_eq,
}
use k8s_operator_cloudflare.Prelude.Dict.{Dict}
use k8s_operator_cloudflare.Prelude.Float.{Float64}
use k8s_operator_cloudflare.Prelude.Fallible.{Fallible, ok, err, ◌>>=◌, map_error, override_text}
use k8s_operator_cloudflare.Tracing.{
  TracingConfig, ExporterConfig, SamplingConfig, TracingError, validate, new_environment_config,
  get_service_name, get_service_version,
}

-- The options of `otlptracehttp.New`, in the order in which they are appended.
pub data OtlpOption : Type 0 where
  with_endpoint : String → OtlpOption
  with_timeout : ℤ → OtlpOption
  with_insecure : OtlpOption
  with_headers : Dict String → OtlpOption
  with_gzip : OtlpOption

pub data Attribute : Type 0 where
  service_name service_version deployment_environment : String → Attribute
  custom : String → String → Attribute

-- `E` is the type of the SDK's errors, `R` of its resources and `X` of its exporters. A resource is
-- asked for by one list of attributes for each `resource.WithAttributes`.
pub record Sdk (E R X : Type 0) : Type 0 where
  pub new_resource : List (List Attribute) → Fallible E R
  pub new_otlp : List OtlpOption → Fallible E X
  pub new_stdout : Fallible E X

pub data Exporter (X : Type 0) : Type 0 where
  sdk_exporter : X → Exporter X
  noop_exporter : Exporter X

pub data Sampler (W : Type 0) : Type 0 where
  always_sample never_sample : Sampler W
  trace_id_ratio_based : W → Sampler W
  parent_based : Sampler W → Sampler W

-- The arguments of `trace.NewTracerProvider`.
pub data Pipeline (W R X : Type 0) : Type 0 where
  no_op : Pipeline W R X
  batching : Exporter X → R → Sampler W → Pipeline W R X

pub record Provider (W R X : Type 0) : Type 0 where
  pub provider : Pipeline W R X
  pub config : TracingConfig W

pub data ProviderError (E W : Type 0) : Type 0 where
  invalid : TracingError W → ProviderError E W
  resource_failed exporter_failed sampler_failed : ProviderError E W → ProviderError E W
  of_sdk : E → ProviderError E W
  unsupported_exporter unsupported_sampling : String → ProviderError E W

abbrev option_if : Bool → OtlpOption → List OtlpOption
option_if test o = if test then o ∷ [] else []

abbrev is_empty : Dict String → Bool
is_empty [] = true
is_empty (x ∷ xs) = false

unfoldable pub create_sampler :
    {E W : Type 0} → SamplingConfig W → Fallible (ProviderError E W) (Sampler W)
create_sampler s =
    if str_eq s.type "always"
    then ok always_sample
    else if str_eq s.type "never"
    then ok never_sample
    else if str_eq s.type "trace_id_ratio"
    then ok (trace_id_ratio_based s.ratio)
    else if str_eq s.type "parent_based"
    then ok (parent_based (trace_id_ratio_based s.ratio))
    else err (unsupported_sampling s.type)

-- In the order of this run's `range` over the map.
unfoldable custom_attributes : Dict String → List Attribute
custom_attributes [] = []
custom_attributes ((key, value) ∷ rest) = custom key value ∷ custom_attributes rest

unfoldable pub resource_options : {W : Type 0} → TracingConfig W → List (List Attribute)
unfolding get_service_name get_service_version custom_attributes
resource_options c =
    (service_name (get_service_name c)
      ∷ service_version (get_service_version c)
      ∷ deployment_environment c.environment
      ∷ [])
    ∷ (if is_empty c.resource_attributes then [] else custom_attributes c.resource_attributes ∷ [])

unfoldable pub otlp_options : ExporterConfig → List OtlpOption
otlp_options e =
    with_endpoint e.endpoint
    ∷ with_timeout e.timeout
    ∷ (option_if e.insecure with_insecure
        ++ (option_if (not (is_empty e.headers)) (with_headers e.headers)
            ++ option_if (str_eq e.compression "gzip") with_gzip))

abbrev pub enabled_by : String → Bool → Bool
enabled_by value old = if str_eq value "" then old else str_eq value "true"

-- The overrides of `TracerFromConfig`, from `os.Getenv`.
unfoldable pub from_environment :
    {W : Type 0} → (String → String) → TracingConfig W → TracingConfig W
from_environment getenv c = record c {
  enabled = enabled_by (getenv "TRACING_ENABLED") c.enabled;
  service_name = override_text (getenv "TRACING_SERVICE_NAME") c.service_name;
  service_version = override_text (getenv "TRACING_SERVICE_VERSION") c.service_version;
  exporter = record c.exporter {
    type = override_text (getenv "TRACING_EXPORTER_TYPE") c.exporter.type;
    endpoint = override_text (getenv "TRACING_EXPORTER_ENDPOINT") c.exporter.endpoint;
  };
  sampling = record c.sampling {
    type = override_text (getenv "TRACING_SAMPLING_TYPE") c.sampling.type;
  };
}

module _ {E W R X : Type 0} ⦃f : Float64 W⦄ (sdk : Sdk E R X) where
  unfoldable pub create_resource : TracingConfig W → Fallible (ProviderError E W) R
  unfolding resource_options
  create_resource c = map_error of_sdk (sdk.new_resource (resource_options c))

  abbrev as_exporter : Fallible E X → Fallible (ProviderError E W) (Exporter X)
  as_exporter (ok x) = ok (sdk_exporter x)
  as_exporter (err e) = err (of_sdk e)

  unfoldable pub create_exporter : ExporterConfig → Fallible (ProviderError E W) (Exporter X)
  unfolding otlp_options
  create_exporter e =
      if str_eq e.type "otlp"
      then as_exporter (sdk.new_otlp (otlp_options e))
      else if str_eq e.type "console"
      then as_exporter sdk.new_stdout
      else if str_eq e.type "none"
      then ok noop_exporter
      else err (unsupported_exporter e.type)

  unfoldable pub assemble : TracingConfig W → Fallible (ProviderError E W) (Provider W R X)
  assemble c = do
    resource ← map_error resource_failed (create_resource c)
    exporter ← map_error exporter_failed (create_exporter c.exporter)
    sampler ← map_error sampler_failed (create_sampler c.sampling)
    ok (record { provider = batching exporter resource sampler; config = c })

  abbrev pub after_validation :
      TracingConfig W × Option (TracingError W) → Fallible (ProviderError E W) (Provider W R X)
  after_validation (c, some e) = err (invalid e)
  after_validation (c, none) =
      if not c.enabled then ok (record { provider = no_op; config = c }) else assemble c

  unfoldable pub new_provider : TracingConfig W → Fallible (ProviderError E W) (Provider W R X)
  unfolding assemble
  new_provider c = after_validation (validate c)

  unfoldable pub tracer_from_config :
      (String → String) → (String → String) → String → Fallible (ProviderError E W) (Provider W R X)
  unfolding from_environment new_provider
  tracer_from_config to_lower getenv environment =
      new_provider (from_environment getenv (new_environment_config to_lower environment))

-- The process-wide tracer provider and propagators.
pub data Propagator : Type 0 where
  trace_context baggage : Propagator

pub record Globals (W R X : Type 0) : Type 0 where
  pub tracer_provider : Option (Pipeline W R X)
  pub propagators : List Propagator

module _ {E W R X : Type 0} where
  unfoldable install :
      Globals W R X
      → Fallible (ProviderError E W) (Provider W R X)
      → Globals W R X × Fallible (ProviderError E W) (Provider W R X)
  install g (err e) = (g, err e)
  install g (ok p) = (
    record { tracer_provider = some p.provider; propagators = trace_context ∷ baggage ∷ [] },
    ok p,
  )

  unfoldable pub setup_global_tracer :
      ⦃f : Float64 W⦄
      → Sdk E R X
      → TracingConfig W
      → Globals W R X
      → Globals W R X × Fallible (ProviderError E W) (Provider W R X)
  unfolding install
  setup_global_tracer sdk c g = install g (new_provider sdk c)
