-- ===== src/Slo/RecordingRules/Tests.antt =====
-- Runs of the recording rules, on whole thousandths.
use k8s_operator_cloudflare.Prelude.{
  ◌*◌, ℤ, pos, ◌≡◌, refl, String, Bool, true, false, ◌||◌, Option, none, some, List, [], ◌∷◌,
  if◌then◌else◌, str_eq, second, length,
}
use k8s_operator_cloudflare.Prelude.Fixed.{Thousandths, fixed}
use k8s_operator_cloudflare.Slo.Config.{SloConfig, default_config}
use k8s_operator_cloudflare.Slo.RecordingRules.Sli.{generate_sli_rules}
use k8s_operator_cloudflare.Slo.RecordingRules.Groups.{
  slo_targets, generate_slo_burn_rate_rules, generate_error_budget_rules,
  generate_multi_window_rules,
}
use k8s_operator_cloudflare.Slo.RecordingRules.Generate.{get_recording_rule_names, group_names}

abbrev config : SloConfig Thousandths
unfolding default_config
config = default_config

abbrev targets : List (String × Thousandths)
unfolding slo_targets config
targets = slo_targets (λ d. pos 30000) config

abbrev names : List String
unfolding get_recording_rule_names group_names generate_sli_rules generate_slo_burn_rate_rules
    generate_error_budget_rules generate_multi_window_rules targets
names = get_recording_rule_names (λ n x. "0.5") targets config

abbrev member : String → List String → Bool
member name [] = false
member name (other ∷ others) = str_eq name other || member name others

count_test : length names ≡ 46
unfolding names
count_test = refl

page_window_test : member "slo:burn_rate:availability:6h" names ≡ true
unfolding names
page_window_test = refl

-- Windows that the ticket rules refer to and that no rule records.
ticket_window_test : member "slo:burn_rate:availability:2h" names ≡ false
unfolding names
ticket_window_test = refl

long_window_test : member "slo:burn_rate:availability:1d" names ≡ false
unfolding names
long_window_test = refl

three_days_test : member "slo:burn_rate:success_rate:3d" names ≡ false
unfolding names
three_days_test = refl

indicator_test : member "sli:availability:rate6h" names ≡ false
unfolding names
indicator_test = refl

parse_duration : String → Option ℤ
parse_duration text =
    if str_eq text "30s"
    then some (pos (30 * second))
    else if str_eq text "1m"
    then some (pos (60 * second))
    else none
