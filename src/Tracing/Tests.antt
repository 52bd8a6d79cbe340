-- ===== src/Tracing/Tests.antt =====
-- internal/tracing: providers with numbers for the resources, exporters and errors of the SDK.
use k8s_operator_cloudflare.Prelude.{
  ℕ, ◌*◌, ◌≡◌, ◌≢◌, ◌↔◌, ◌⊎◌, refl, pos, true, false, none, [], second,
}
use k8s_operator_cloudflare.Prelude.Fixed.{Thousandths, fixed}
use k8s_operator_cloudflare.Prelude.Fallible.{ok, err}
use k8s_operator_cloudflare.Tracing.{TracingConfig, validate, exporter_validate, sampling_validate}
use k8s_operator_cloudflare.Tracing.Provider.{
  Sdk, new_provider, create_resource, create_exporter, exporter_failed, unsupported_exporter,
}
use k8s_operator_cloudflare.Tracing.Outcomes.{Succeeds, Answers, new_provider-Succeeds}

abbrev sdk : Sdk ℕ ℕ ℕ
sdk = record { new_resource = λ options. ok 1; new_otlp = λ options. ok 2; new_stdout = ok 3 }

abbrev answers : Answers sdk
answers = record {
  resource = λ options. (1, refl);
  otlp = λ options. (2, refl);
  stdout = (3, refl);
}

-- An exporter to Jaeger, with no timeout.
abbrev jaeger : TracingConfig Thousandths
jaeger = record {
  enabled = true;
  service_name = "operator";
  service_version = "";
  environment = "test";
  exporter = record {
    type = "jaeger";
    endpoint = "http://jaeger:14268/api/traces";
    insecure = true;
    headers = [];
    timeout = pos 0;
    compression = "gzip";
  };
  sampling = record { type = "trace_id_ratio"; ratio = pos 500 };
  resource_attributes = [];
}

jaeger_accepted :
    ((validate jaeger).1 ≡ none) × ((validate jaeger).0.exporter.timeout ≡ pos (10 * second))
unfolding validate exporter_validate sampling_validate
jaeger_accepted = (refl, refl)

jaeger_unsupported : new_provider sdk jaeger ≡ err (exporter_failed (unsupported_exporter "jaeger"))
unfolding new_provider validate exporter_validate sampling_validate create_resource create_exporter
jaeger_unsupported = refl

new_provider-Succeeds_example : Succeeds (new_provider sdk jaeger) ↔ (
    ((validate jaeger).1 ≡ none) × ((jaeger.enabled ≡ false) ⊎ (jaeger.exporter.type ≢ "jaeger")))
new_provider-Succeeds_example = new_provider-Succeeds sdk jaeger answers
