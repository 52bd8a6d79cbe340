-- ===== src/Slo/RecordingRules/Groups.antt =====
-- internal/slo/recording_rules.go: the rules that depend on the targets. `decimal n` is the verb
-- `%.nf`, and `seconds` is `Duration.Seconds`. A label list stands for its map.
use Prim.Native.String.{◌++◌ as ◌++text◌}
use k8s_operator_cloudflare.Prelude.{ℕ, ℤ, String, List, [], ◌∷◌, ◌++◌, if◌then◌else◌, str_eq}
use k8s_operator_cloudflare.Prelude.Float.{Float64}
use k8s_operator_cloudflare.Slo.Config.{SloConfig}
use k8s_operator_cloudflare.Slo.Calculator.{ratio}
use k8s_operator_cloudflare.Slo.RecordingRules.Rule.{RecordingRule, RecordingRuleGroup}

abbrev pub burn_rate_windows : List String
burn_rate_windows = "5m" ∷ "30m" ∷ "1h" ∷ "6h" ∷ "24h" ∷ []

module _ {ℓ} {W : Type ℓ} ⦃f : Float64 W⦄ where
  -- The entries of the map `sloTargets`, which the code ranges over in an order of Go's choice.
  unfoldable pub slo_targets : (ℤ → W) → SloConfig W → List (String × W)
  slo_targets seconds c =
      ("availability", ratio c.targets.availability)
      ∷ ("success_rate", ratio c.targets.success_rate)
      ∷ ("latency_p95", seconds c.targets.latency_p95)
      ∷ ("throughput", c.targets.throughput_min)
      ∷ []

module _ {ℓ} {W : Type ℓ} ⦃f : Float64 W⦄ (decimal : ℕ → W → String) where
  unfoldable pub latency_rule : String → W → String → RecordingRule
  latency_rule name target window = record {
    record_name = "slo:burn_rate:" ++text name ++text ":" ++text window;
    expr =
        "(\n\t\t\t\t\t\t1 - (\n\t\t\t\t\t\t\tsum(rate(http_request_duration_seconds_bucket{job=\"cloudflare-dns-operator\",le=\""
        ++text decimal 3 target
        ++text "\"}["
        ++text window
        ++text "])) /\n\t\t\t\t\t\t\tsum(rate(http_request_duration_seconds_bucket{job=\"cloudflare-dns-operator\",le=\"+Inf\"}["
        ++text window
        ++text "]))\n\t\t\t\t\t\t)\n\t\t\t\t\t) / (1 - 0.95)";
    labels = ("slo_type", name) ∷ ("window", window) ∷ ("target", decimal 3 target) ∷ [];
  }

  unfoldable pub throughput_rule : String → W → String → RecordingRule
  throughput_rule name target window = record {
    record_name = "slo:burn_rate:" ++text name ++text ":" ++text window;
    expr =
        "(\n\t\t\t\t\t\tclamp_max(1 - (sli:throughput:rate"
        ++text window
        ++text " / "
        ++text decimal 2 target
        ++text "), 1)\n\t\t\t\t\t)";
    labels = ("slo_type", name) ∷ ("window", window) ∷ ("target", decimal 2 target) ∷ [];
  }

  unfoldable pub ratio_rule : String → W → String → RecordingRule
  ratio_rule name target window = record {
    record_name = "slo:burn_rate:" ++text name ++text ":" ++text window;
    expr =
        "(\n\t\t\t\t\t\t1 - (sli:"
        ++text name
        ++text ":rate"
        ++text window
        ++text " / "
        ++text decimal 4 target
        ++text ")\n\t\t\t\t\t) / (1 - "
        ++text decimal 4 target
        ++text ")";
    labels = ("slo_type", name) ∷ ("window", window) ∷ ("target", decimal 4 target) ∷ [];
  }

  unfoldable pub burn_rate_rule : String → W → String → RecordingRule
  unfolding latency_rule throughput_rule ratio_rule
  burn_rate_rule name target window =
      if str_eq name "latency_p95"
      then latency_rule name target window
      else if str_eq name "throughput"
      then throughput_rule name target window
      else ratio_rule name target window

  unfoldable pub burn_rate_rules_of : String → W → List String → List RecordingRule
  unfolding burn_rate_rule
  burn_rate_rules_of name target [] = []
  burn_rate_rules_of name target (window ∷ windows) =
      burn_rate_rule name target window ∷ burn_rate_rules_of name target windows

  unfoldable pub burn_rate_rules : List (String × W) → List RecordingRule
  unfolding burn_rate_rules_of
  burn_rate_rules [] = []
  burn_rate_rules ((name, target) ∷ targets) =
      burn_rate_rules_of name target burn_rate_windows ++ burn_rate_rules targets

  -- `targets` are the entries of `slo_targets` in the order in which they are met.
  unfoldable pub generate_slo_burn_rate_rules : List (String × W) → RecordingRuleGroup
  unfolding burn_rate_rules
  generate_slo_burn_rate_rules targets = record {
    name = "cloudflare-dns-operator.slo.burn_rate";
    interval = "30s";
    rules = burn_rate_rules targets;
  }

  unfoldable pub error_budget_rules : SloConfig W → List RecordingRule
  error_budget_rules c =
      record {
        record_name = "slo:error_budget_remaining:availability:30d";
        expr =
            "(\n\t\t\t\t1 - (\n\t\t\t\t\t(1 - avg_over_time(sli:availability:rate1h[30d])) / (1 - "
            ++text decimal 4 (ratio c.targets.availability)
            ++text ")\n\t\t\t\t)\n\t\t\t)";
        labels =
            ("slo_type", "availability")
            ∷ ("window", "30d")
            ∷ ("target", decimal 4 (ratio c.targets.availability))
            ∷ ("budget_type", "remaining")
            ∷ [];
      }
      ∷ record {
        record_name = "slo:error_budget_remaining:success_rate:30d";
        expr =
            "(\n\t\t\t\t1 - (\n\t\t\t\t\t(1 - avg_over_time(sli:success_rate:rate1h[30d])) / (1 - "
            ++text decimal 4 (ratio c.targets.success_rate)
            ++text ")\n\t\t\t\t)\n\t\t\t)";
        labels =
            ("slo_type", "success_rate")
            ∷ ("window", "30d")
            ∷ ("target", decimal 4 (ratio c.targets.success_rate))
            ∷ ("budget_type", "remaining")
            ∷ [];
      }
      ∷ record {
        record_name = "slo:error_budget_burn_rate:availability:1h";
        expr = "(\n\t\t\t\tslo:burn_rate:availability:1h * 24 * 30\n\t\t\t)";
        labels =
            ("slo_type", "availability") ∷ ("window", "1h") ∷ ("budget_type", "burn_rate") ∷ [];
      }
      ∷ record {
        record_name = "slo:error_budget_burn_rate:availability:6h";
        expr = "(\n\t\t\t\tslo:burn_rate:availability:6h * 4 * 30\n\t\t\t)";
        labels =
            ("slo_type", "availability") ∷ ("window", "6h") ∷ ("budget_type", "burn_rate") ∷ [];
      }
      ∷ record {
        record_name = "slo:error_budget_burn_rate:success_rate:1h";
        expr = "(\n\t\t\t\tslo:burn_rate:success_rate:1h * 24 * 30\n\t\t\t)";
        labels =
            ("slo_type", "success_rate") ∷ ("window", "1h") ∷ ("budget_type", "burn_rate") ∷ [];
      }
      ∷ record {
        record_name = "slo:error_budget_burn_rate:success_rate:6h";
        expr = "(\n\t\t\t\tslo:burn_rate:success_rate:6h * 4 * 30\n\t\t\t)";
        labels =
            ("slo_type", "success_rate") ∷ ("window", "6h") ∷ ("budget_type", "burn_rate") ∷ [];
      }
      ∷ []

  unfoldable pub generate_error_budget_rules : SloConfig W → RecordingRuleGroup
  unfolding error_budget_rules
  generate_error_budget_rules c = record {
    name = "cloudflare-dns-operator.slo.error_budget";
    interval = "1m";
    rules = error_budget_rules c;
  }

  unfoldable pub page_rule : String → String → W → String → RecordingRule
  page_rule short long threshold slo_type = record {
    record_name =
        "slo:multi_window_burn_rate:" ++text slo_type ++text ":" ++text short ++text "_"
        ++text long;
    expr =
        "(\n\t\t\t\t\tslo:burn_rate:"
        ++text slo_type
        ++text ":"
        ++text short
        ++text " > ("
        ++text decimal 1 threshold
        ++text " * 0.25)\n\t\t\t\t\tand\n\t\t\t\t\tslo:burn_rate:"
        ++text slo_type
        ++text ":"
        ++text long
        ++text " > ("
        ++text decimal 1 threshold
        ++text " * 0.25)\n\t\t\t\t)";
    labels =
        ("slo_type", slo_type)
        ∷ ("short_window", short)
        ∷ ("long_window", long)
        ∷ ("severity", "page")
        ∷ ("threshold", decimal 1 threshold)
        ∷ [];
  }

  unfoldable pub ticket_rule : String → String → W → String → RecordingRule
  ticket_rule short long threshold slo_type = record {
    record_name =
        "slo:multi_window_burn_rate:" ++text slo_type ++text ":" ++text short ++text "_"
        ++text long;
    expr =
        "(\n\t\t\t\t\tslo:burn_rate:"
        ++text slo_type
        ++text ":"
        ++text short
        ++text " > ("
        ++text decimal 1 threshold
        ++text " * 0.1)\n\t\t\t\t\tand\n\t\t\t\t\tslo:burn_rate:"
        ++text slo_type
        ++text ":"
        ++text long
        ++text " > ("
        ++text decimal 1 threshold
        ++text " * 0.1)\n\t\t\t\t)";
    labels =
        ("slo_type", slo_type)
        ∷ ("short_window", short)
        ∷ ("long_window", long)
        ∷ ("severity", "ticket")
        ∷ ("threshold", decimal 1 threshold)
        ∷ [];
  }

  -- For each of the two types of objective.
  abbrev both : (String → RecordingRule) → List RecordingRule
  both rule_of = rule_of "availability" ∷ rule_of "success_rate" ∷ []

  unfoldable pub generate_multi_window_rules : RecordingRuleGroup
  unfolding page_rule ticket_rule
  generate_multi_window_rules = record {
    name = "cloudflare-dns-operator.slo.multi_window";
    interval = "30s";
    rules =
        both (page_rule "5m" "1h" (f.lit 144 1))
        ++ both (page_rule "30m" "6h" (f.lit 60 1))
        ++ both (ticket_rule "2h" "1d" (f.lit 30 1))
        ++ both (ticket_rule "6h" "3d" (f.lit 10 1));
  }
