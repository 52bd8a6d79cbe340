-- ===== src/Slo/RecordingRules/Sli.antt =====
-- internal/slo/recording_rules.go: the rules of the service level indicators. A label list stands for
-- its map.
use k8s_operator_cloudflare.Prelude.{List, [], ◌∷◌}
use k8s_operator_cloudflare.Slo.RecordingRules.Rule.{RecordingRule, RecordingRuleGroup}

unfoldable pub sli_rules : List RecordingRule
sli_rules =
    record {
      record_name = "sli:availability:rate5m";
      expr =
          "(\n\t\t\t\tsum(rate(http_requests_total{job=\"cloudflare-dns-operator\",code!~\"5..\"}[5m])) /\n\t\t\t\tsum(rate(http_requests_total{job=\"cloudflare-dns-operator\"}[5m]))\n\t\t\t)";
      labels = ("sli_type", "availability") ∷ ("window", "5m") ∷ [];
    }
    ∷ record {
      record_name = "sli:availability:rate30m";
      expr =
          "(\n\t\t\t\tsum(rate(http_requests_total{job=\"cloudflare-dns-operator\",code!~\"5..\"}[30m])) /\n\t\t\t\tsum(rate(http_requests_total{job=\"cloudflare-dns-operator\"}[30m]))\n\t\t\t)";
      labels = ("sli_type", "availability") ∷ ("window", "30m") ∷ [];
    }
    ∷ record {
      record_name = "sli:availability:rate1h";
      expr =
          "(\n\t\t\t\tsum(rate(http_requests_total{job=\"cloudflare-dns-operator\",code!~\"5..\"}[1h])) /\n\t\t\t\tsum(rate(http_requests_total{job=\"cloudflare-dns-operator\"}[1h]))\n\t\t\t)";
      labels = ("sli_type", "availability") ∷ ("window", "1h") ∷ [];
    }
    ∷ record {
      record_name = "sli:success_rate:rate5m";
      expr =
          "(\n\t\t\t\tsum(rate(http_requests_total{job=\"cloudflare-dns-operator\",code=~\"2..\"}[5m])) /\n\t\t\t\tsum(rate(http_requests_total{job=\"cloudflare-dns-operator\"}[5m]))\n\t\t\t)";
      labels = ("sli_type", "success_rate") ∷ ("window", "5m") ∷ [];
    }
    ∷ record {
      record_name = "sli:success_rate:rate30m";
      expr =
          "(\n\t\t\t\tsum(rate(http_requests_total{job=\"cloudflare-dns-operator\",code=~\"2..\"}[30m])) /\n\t\t\t\tsum(rate(http_requests_total{job=\"cloudflare-dns-operator\"}[30m]))\n\t\t\t)";
      labels = ("sli_type", "success_rate") ∷ ("window", "30m") ∷ [];
    }
    ∷ record {
      record_name = "sli:success_rate:rate1h";
      expr =
          "(\n\t\t\t\tsum(rate(http_requests_total{job=\"cloudflare-dns-operator\",code=~\"2..\"}[1h])) /\n\t\t\t\tsum(rate(http_requests_total{job=\"cloudflare-dns-operator\"}[1h]))\n\t\t\t)";
      labels = ("sli_type", "success_rate") ∷ ("window", "1h") ∷ [];
    }
    ∷ record {
      record_name = "sli:latency_p95:5m";
      expr =
          "histogram_quantile(0.95,\n\t\t\t\tsum(rate(http_request_duration_seconds_bucket{job=\"cloudflare-dns-operator\"}[5m])) by (le)\n\t\t\t)";
      labels = ("sli_type", "latency_p95") ∷ ("window", "5m") ∷ [];
    }
    ∷ record {
      record_name = "sli:latency_p95:30m";
      expr =
          "histogram_quantile(0.95,\n\t\t\t\tsum(rate(http_request_duration_seconds_bucket{job=\"cloudflare-dns-operator\"}[30m])) by (le)\n\t\t\t)";
      labels = ("sli_type", "latency_p95") ∷ ("window", "30m") ∷ [];
    }
    ∷ record {
      record_name = "sli:latency_p95:1h";
      expr =
          "histogram_quantile(0.95,\n\t\t\t\tsum(rate(http_request_duration_seconds_bucket{job=\"cloudflare-dns-operator\"}[1h])) by (le)\n\t\t\t)";
      labels = ("sli_type", "latency_p95") ∷ ("window", "1h") ∷ [];
    }
    ∷ record {
      record_name = "sli:throughput:rate5m";
      expr = "sum(rate(http_requests_total{job=\"cloudflare-dns-operator\"}[5m]))";
      labels = ("sli_type", "throughput") ∷ ("window", "5m") ∷ [];
    }
    ∷ record {
      record_name = "sli:throughput:rate30m";
      expr = "sum(rate(http_requests_total{job=\"cloudflare-dns-operator\"}[30m]))";
      labels = ("sli_type", "throughput") ∷ ("window", "30m") ∷ [];
    }
    ∷ record {
      record_name = "sli:throughput:rate1h";
      expr = "sum(rate(http_requests_total{job=\"cloudflare-dns-operator\"}[1h]))";
      labels = ("sli_type", "throughput") ∷ ("window", "1h") ∷ [];
    }
    ∷ []

unfoldable pub generate_sli_rules : RecordingRuleGroup
unfolding sli_rules
generate_sli_rules = record {
  name = "cloudflare-dns-operator.sli";
  interval = "30s";
  rules = sli_rules;
}
