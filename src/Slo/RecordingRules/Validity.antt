-- ===== src/Slo/RecordingRules/Validity.antt =====
-- internal/slo/recording_rules.go: the validation finds nothing wrong with the generated rules.
use k8s_operator_cloudflare.Prelude.{
  ℕ, ◌*◌, ℤ, pos, ◌≡◌, refl, sym, ap, ◌∙◌, String, true, false, Option, some, List, [], ◌∷◌, str_eq,
  eq_iff, All, Bool-cases, ◌⊎◌, inl, inr, second,
}
use k8s_operator_cloudflare.Prelude.Float.{Float64}
use k8s_operator_cloudflare.Slo.Config.{SloConfig}
use k8s_operator_cloudflare.Slo.RecordingRules.Rule.{RecordingRule, RecordingRuleGroup}
use k8s_operator_cloudflare.Slo.RecordingRules.Sli.{generate_sli_rules}
use k8s_operator_cloudflare.Slo.RecordingRules.Groups.{
  generate_slo_burn_rate_rules, generate_error_budget_rules, generate_multi_window_rules,
}
use k8s_operator_cloudflare.Slo.RecordingRules.Generate.{
  contains_code, reported, check_interval, check_rule, check_rules, check_groups,
  generate_recording_rules, validate_recording_rules,
}
use k8s_operator_cloudflare.Slo.RecordingRules.Sound.{
  IsSound, sli_rules-IsSound, burn_rate_rules-IsSound, error_budget_rules-IsSound,
  multi_window_rules-IsSound,
}

contains-nonempty : (n : ℕ) (s : String) → contains_code n s ≡ true → str_eq s "" ≡ false
unfolding contains_code
contains-nonempty n s h = elim (Bool-cases (str_eq s "")) [
  | inl e ↦ absurd (false_ne (sym (ap (contains_code n) ((eq_iff s "").0 e)) ∙ h))
  | inr e ↦ e
]
  where
    false_ne : false ≡ true → ⊥
    false_ne e = cc

-- The documented results of `time.ParseDuration` for the two intervals that are used.
abbrev pub ParsesIntervals : (String → Option ℤ) → Type 0
ParsesIntervals parse_duration =
    (parse_duration "30s" ≡ some (pos (30 * second)))
    × (parse_duration "1m" ≡ some (pos (60 * second)))

module _ (parse_duration : String → Option ℤ) where
  check_rules-IsSound :
      (group : RecordingRuleGroup) (rules : List RecordingRule)
      → check_interval parse_duration group ≡ []
      → All IsSound rules
      → check_rules parse_duration group rules ≡ []
  unfolding check_rules check_rule reported
  check_rules-IsSound group [] fine _ = refl
  check_rules-IsSound group (rule ∷ rules) fine ((named, filled), rest) =
      rw
        (
          contains-nonempty 58 rule.record_name named,
          contains-nonempty 40 rule.expr filled,
          named,
          fine,
        )
        (check_rules-IsSound group rules fine rest)

  check_interval-often :
      (group : RecordingRuleGroup)
      → ParsesIntervals parse_duration
      → (group.interval ≡ "30s") ⊎ (group.interval ≡ "1m")
      → check_interval parse_duration group ≡ []
  unfolding check_interval reported
  check_interval-often group (often, seldom) (inl e) = rw (e, often) refl
  check_interval-often group (often, seldom) (inr e) = rw (e, seldom) refl

-- A group with a name, one of the two intervals and sound rules.
abbrev IsGood : RecordingRuleGroup → Type 0
IsGood group =
    (str_eq group.name "" ≡ false)
    × (((group.interval ≡ "30s") ⊎ (group.interval ≡ "1m")) × All IsSound group.rules)

check_groups-IsGood :
    (parse_duration : String → Option ℤ)
    → ParsesIntervals parse_duration
    → (groups : List RecordingRuleGroup) → All IsGood groups
    → check_groups parse_duration groups ≡ []
unfolding check_groups reported
check_groups-IsGood parse_duration h [] _ = refl
check_groups-IsGood parse_duration h (group ∷ groups) ((named, (often, sound)), rest) =
    rw
      (
        named,
        check_rules-IsSound parse_duration group group.rules
            (check_interval-often parse_duration group h often) sound,
      )
      (check_groups-IsGood parse_duration h groups rest)

module _ {ℓ} {W : Type ℓ} ⦃f : Float64 W⦄ (decimal : ℕ → W → String) where
  -- The rules that are generated pass the validation, for every configuration, every rendering of the
  -- numbers and every order of the targets, where the intervals "30s" and "1m" parse to 30 and 60
  -- seconds.
  pub validate_recording_rules-empty :
      (targets : List (String × W)) (parse_duration : String → Option ℤ) (c : SloConfig W)
      → ParsesIntervals parse_duration
      → validate_recording_rules decimal targets parse_duration c ≡ []
  unfolding validate_recording_rules generate_recording_rules check_groups generate_sli_rules
      generate_slo_burn_rate_rules generate_error_budget_rules generate_multi_window_rules
  validate_recording_rules-empty targets parse_duration c h =
      check_groups-IsGood parse_duration h (generate_recording_rules decimal targets c) (
        (refl, (inl refl, sli_rules-IsSound)),
        (
          (refl, (inl refl, burn_rate_rules-IsSound decimal targets)),
          (
            (refl, (inr refl, error_budget_rules-IsSound decimal c)),
            ((refl, (inl refl, multi_window_rules-IsSound decimal)), tt),
          ),
        ),
      )
