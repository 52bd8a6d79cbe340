-- ===== src/Tracing.antt =====
-- internal/tracing/config.go: the configuration of the traces. A pointer receiver that is changed is
-- the record that is returned; a nil error is `none`. `strings.ToLower` is the parameter `to_lower`.
-- String, which formats the fields, is left out.
pub mod Provider
pub mod Laws
pub mod Outcomes
mod Tests
use k8s_operator_cloudflare.Prelude.{
  ℕ, ◌*◌, ℤ, pos, String, Bool, true, false, not, ◌||◌, ◌&&◌, Option, none, some, [], ◌∷◌,
  if◌then◌else◌, str_eq, leb_ℤ, second,
}
use k8s_operator_cloudflare.Prelude.Dict.{Dict}
use k8s_operator_cloudflare.Prelude.Float.{Float64}
use k8s_operator_cloudflare.Prelude.Fallible.{one_of}

pub record ExporterConfig : Type 0 where
  pub type : String
  pub endpoint : String
  pub insecure : Bool
  pub headers : Dict String
  pub timeout : ℤ
  pub compression : String

pub record SamplingConfig (W : Type 0) : Type 0 where
  pub type : String
  pub ratio : W

pub record TracingConfig (W : Type 0) : Type 0 where
  pub enabled : Bool
  pub service_name : String
  pub service_version : String
  pub environment : String
  pub exporter : ExporterConfig
  pub sampling : SamplingConfig W
  pub resource_attributes : Dict String

pub data TracingError (W : Type 0) : Type 0 where
  wrapped : String → TracingError W → TracingError W
  service_name_required : TracingError W
  invalid_exporter_type endpoint_required invalid_compression invalid_sampling_type :
      String → TracingError W
  ratio_out_of_range : W → TracingError W

abbrev pub wrap : {W : Type 0} → String → Option (TracingError W) → Option (TracingError W)
wrap text none = none
wrap text (some e) = some (wrapped text e)

-- `ExporterConfig.Validate`, which sets the timeout if it is not positive.
unfoldable pub positive_timeout : ExporterConfig → ExporterConfig
positive_timeout e = if leb_ℤ e.timeout (pos 0) then record e { timeout = pos (10 * second) } else e

unfoldable pub needs_endpoint : ExporterConfig → Bool
needs_endpoint e = str_eq e.type "otlp" || str_eq e.type "jaeger"

unfoldable pub known_compression : String → Bool
known_compression name = str_eq name "" || (str_eq name "gzip" || str_eq name "none")

unfoldable pub exporter_validate :
    {W : Type 0} → ExporterConfig → ExporterConfig × Option (TracingError W)
unfolding one_of needs_endpoint known_compression positive_timeout
exporter_validate e =
    if not (one_of ("otlp" ∷ "jaeger" ∷ "console" ∷ "none" ∷ []) e.type)
    then (e, some (invalid_exporter_type e.type))
    else if needs_endpoint e && str_eq e.endpoint ""
    then (e, some (endpoint_required e.type))
    else if not (known_compression e.compression)
    then (positive_timeout e, some (invalid_compression e.compression))
    else (positive_timeout e, none)

module _ {W : Type 0} ⦃f : Float64 W⦄ where
  unfoldable pub new_default_config : TracingConfig W
  new_default_config = record {
    enabled = false;
    service_name = "k8s-operator-cloudflare";
    service_version = "0.1.0";
    environment = "development";
    exporter = record {
      type = "console";
      endpoint = "";
      insecure = true;
      headers = [];
      timeout = pos (10 * second);
      compression = "none";
    };
    sampling = record { type = "parent_based"; ratio = f.lit 1 0 };
    resource_attributes = [];
  }

  unfoldable pub new_environment_config : (String → String) → String → TracingConfig W
  unfolding new_default_config
  new_environment_config to_lower environment =
      let config = record new_default_config { environment = environment } in
      let name = to_lower environment in
      if str_eq name "development" || str_eq name "dev"
      then record config {
        enabled = true;
        exporter = record config.exporter { type = "console" };
        sampling = record { type = "always"; ratio = f.lit 1 0 };
      }
      else if str_eq name "staging"
      then record config {
        enabled = true;
        exporter = record config.exporter {
          type = "otlp";
          endpoint = "http://localhost:4318/v1/traces";
        };
        sampling = record { type = "trace_id_ratio"; ratio = f.lit 5 1 };
      }
      else if str_eq name "production" || str_eq name "prod"
      then record config {
        enabled = true;
        exporter = record config.exporter {
          type = "otlp";
          endpoint = "http://localhost:4318/v1/traces";
          insecure = false;
        };
        sampling = record { type = "trace_id_ratio"; ratio = f.lit 1 1 };
      }
      else record config { enabled = false }

  unfoldable pub sampling_validate : SamplingConfig W → Option (TracingError W)
  unfolding one_of
  sampling_validate s =
      if not (one_of ("always" ∷ "never" ∷ "trace_id_ratio" ∷ "parent_based" ∷ []) s.type)
      then some (invalid_sampling_type s.type)
      else if str_eq s.type "trace_id_ratio"
          && (f.lt s.ratio (f.lit 0 0) || f.lt (f.lit 1 0) s.ratio)
      then some (ratio_out_of_range s.ratio)
      else none

  abbrev with_exporter :
      TracingConfig W
      → ExporterConfig × Option (TracingError W)
      → TracingConfig W × Option (TracingError W)
  with_exporter c (e, some problem) =
      (record c { exporter = e }, some (wrapped "invalid exporter config" problem))
  with_exporter c (e, none) =
      (record c { exporter = e }, wrap "invalid sampling config" (sampling_validate c.sampling))

  unfoldable pub validate : TracingConfig W → TracingConfig W × Option (TracingError W)
  validate c =
      if not c.enabled
      then (c, none)
      else if str_eq c.service_name ""
      then (c, some service_name_required)
      else with_exporter c (exporter_validate c.exporter)

unfoldable pub get_service_name : {W : Type 0} → TracingConfig W → String
get_service_name c =
    if not (str_eq c.service_name "") then c.service_name else "k8s-operator-cloudflare"

unfoldable pub get_service_version : {W : Type 0} → TracingConfig W → String
get_service_version c = if not (str_eq c.service_version "") then c.service_version else "unknown"
