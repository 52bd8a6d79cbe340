-- ===== src/Slo/RecordingRules/Generate.antt =====
-- internal/slo/recording_rules.go: all the rules, and what is found wrong with them.
use Prim.Native.String as Text
use Prim.Native.Char.{code}
use k8s_operator_cloudflare.Prelude.{
  ℕ, ◌*◌, ◌==◌, ℤ, pos, ltb_ℤ, String, Bool, false, ◌||◌, Option, none, some, List, [], ◌∷◌, ◌++◌,
  if◌then◌else◌, str_eq, second,
}
use k8s_operator_cloudflare.Prelude.Float.{Float64}
use k8s_operator_cloudflare.Slo.Config.{SloConfig}
use k8s_operator_cloudflare.Slo.RecordingRules.Rule.{RecordingRule, RecordingRuleGroup}
use k8s_operator_cloudflare.Slo.RecordingRules.Sli.{generate_sli_rules}
use k8s_operator_cloudflare.Slo.RecordingRules.Groups.{
  generate_slo_burn_rate_rules, generate_error_budget_rules, generate_multi_window_rules,
}

pub data Issue : Type 0 where
  empty_group_name : Issue
  empty_record_name empty_expression missing_colon : String → Issue
  invalid_interval interval_too_short : String → String → Issue

-- `strings.Contains`, of a text of one character with this code.
unfoldable pub contains_code : ℕ → String → Bool
contains_code n Text.[] = false
contains_code n (Text.◌∷◌ letter rest) = (code letter == n) || contains_code n rest

unfoldable pub reported : Bool → Issue → List Issue
reported test issue = if test then issue ∷ [] else []

-- `parse_duration` is `time.ParseDuration`.
unfoldable pub check_interval : (String → Option ℤ) → RecordingRuleGroup → List Issue
unfolding reported
check_interval parse_duration group =
    if str_eq group.interval "" then [] else elim (parse_duration group.interval) [
      | none ↦ invalid_interval group.interval group.name ∷ []
      | some interval ↦
          reported (ltb_ℤ interval (pos (10 * second)))
            (interval_too_short group.interval group.name)
    ]

unfoldable pub check_rule : (String → Option ℤ) → RecordingRuleGroup → RecordingRule → List Issue
unfolding reported check_interval
check_rule parse_duration group rule =
    reported (str_eq rule.record_name "") (empty_record_name group.name)
    ++ reported (str_eq rule.expr "") (empty_expression rule.record_name)
    ++ (if contains_code 58 rule.record_name then [] else missing_colon rule.record_name ∷ [])
    ++ check_interval parse_duration group

unfoldable pub check_rules :
    (String → Option ℤ) → RecordingRuleGroup → List RecordingRule → List Issue
unfolding check_rule
check_rules parse_duration group [] = []
check_rules parse_duration group (rule ∷ rules) =
    check_rule parse_duration group rule ++ check_rules parse_duration group rules

unfoldable pub check_groups : (String → Option ℤ) → List RecordingRuleGroup → List Issue
unfolding reported check_rules
check_groups parse_duration [] = []
check_groups parse_duration (group ∷ groups) =
    reported (str_eq group.name "") empty_group_name
    ++ check_rules parse_duration group group.rules
    ++ check_groups parse_duration groups

names_of : List RecordingRule → List String
names_of [] = []
names_of (rule ∷ rules) = rule.record_name ∷ names_of rules

unfoldable pub group_names : List RecordingRuleGroup → List String
unfolding names_of
group_names [] = []
group_names (group ∷ groups) = names_of group.rules ++ group_names groups

-- `targets` are the targets of the burn rates in the order in which the code meets them.
module _ {ℓ} {W : Type ℓ} ⦃f : Float64 W⦄ (decimal : ℕ → W → String)
    (targets : List (String × W)) where
  unfoldable pub generate_recording_rules : SloConfig W → List RecordingRuleGroup
  generate_recording_rules c =
      generate_sli_rules
      ∷ generate_slo_burn_rate_rules decimal targets
      ∷ generate_error_budget_rules decimal c
      ∷ generate_multi_window_rules decimal
      ∷ []

  unfoldable pub validate_recording_rules : (String → Option ℤ) → SloConfig W → List Issue
  unfolding check_groups generate_recording_rules
  validate_recording_rules parse_duration c =
      check_groups parse_duration (generate_recording_rules c)

  unfoldable pub get_recording_rule_names : SloConfig W → List String
  unfolding group_names generate_recording_rules
  get_recording_rule_names c = group_names (generate_recording_rules c)
