-- ===== src/Slo/RecordingRules/Rule.antt =====
-- internal/slo/recording_rules.go: rules and groups of rules.
use k8s_operator_cloudflare.Prelude.{String, List}

pub record RecordingRule : Type 0 where
  pub record_name : String
  pub expr : String
  pub labels : List (String × String)

pub record RecordingRuleGroup : Type 0 where
  pub name : String
  pub interval : String
  pub rules : List RecordingRule
