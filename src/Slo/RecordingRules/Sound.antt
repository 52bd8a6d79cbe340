-- ===== src/Slo/RecordingRules/Sound.antt =====
-- internal/slo/recording_rules.go: every generated rule has a name with a colon and an expression.
use Prim.Native.Char.{code}
use Prim.Native.String as Text
use Prim.Native.String.{◌++◌ as ◌++text◌}
use text.Mathlib.TextLemmas.{cons-append, nil-append}
use k8s_operator_cloudflare.Prelude.{
  ℕ, ◌==◌, ◌≡◌, refl, ap, ◌∙◌, String, Bool, true, false, ◌||◌, List, [], ◌∷◌, ◌++◌, if◌then◌else◌,
  str_eq, All, arith,
}
use k8s_operator_cloudflare.Prelude.Float.{Float64}
use k8s_operator_cloudflare.Slo.Config.{SloConfig}
use k8s_operator_cloudflare.Slo.RecordingRules.Rule.{RecordingRule}
use k8s_operator_cloudflare.Slo.RecordingRules.Sli.{sli_rules}
use k8s_operator_cloudflare.Slo.RecordingRules.Groups.{
  latency_rule, throughput_rule, ratio_rule, burn_rate_rule, burn_rate_rules_of, burn_rate_rules,
  burn_rate_windows, error_budget_rules, page_rule, ticket_rule, generate_multi_window_rules,
}
use k8s_operator_cloudflare.Slo.RecordingRules.Generate.{contains_code}

contains_code-append :
    (n : ℕ) (s t : String) → contains_code n (s ++text t) ≡ (contains_code n s || contains_code n t)
unfolding contains_code
contains_code-append n Text.[] t = ap (contains_code n) (nil-append t)
contains_code-append n (Text.◌∷◌ letter rest) t =
    ap (contains_code n) (cons-append letter rest t)
    ∙ ap (λ found. (code letter == n) || found) (contains_code-append n rest t)
    ∙ ground arith

-- The name has a colon, and the expression a parenthesis.
abbrev pub IsSound : RecordingRule → Type 0
IsSound rule = (contains_code 58 rule.record_name ≡ true) × (contains_code 40 rule.expr ≡ true)

All-append :
    (rules more : List RecordingRule)
    → All IsSound rules
    → All IsSound more
    → All IsSound (rules ++ more)
All-append [] more _ h = h
All-append (rule ∷ rules) more (h, hs) h' = (h, All-append rules more hs h')

if-IsSound :
    (b : Bool) (rule other : RecordingRule)
    → IsSound rule
    → IsSound other
    → IsSound (if b then rule else other)
if-IsSound true rule other h h' = h
if-IsSound false rule other h h' = h'

pub sli_rules-IsSound : All IsSound sli_rules
unfolding sli_rules contains_code
sli_rules-IsSound = (
  (refl, refl),
  (
    (refl, refl),
    (
      (refl, refl),
      (
        (refl, refl),
        (
          (refl, refl),
          (
            (refl, refl),
            (
              (refl, refl),
              ((refl, refl), ((refl, refl), ((refl, refl), ((refl, refl), ((refl, refl), tt))))),
            ),
          ),
        ),
      ),
    ),
  ),
)

module _ {ℓ} {W : Type ℓ} ⦃f : Float64 W⦄ (decimal : ℕ → W → String) where
  latency_rule-IsSound :
      (name : String) (target : W) (window : String)
      → IsSound (latency_rule decimal name target window)
  unfolding latency_rule contains_code
  latency_rule-IsSound name target window =
      (rw contains_code-append refl, rw contains_code-append refl)

  throughput_rule-IsSound :
      (name : String) (target : W) (window : String)
      → IsSound (throughput_rule decimal name target window)
  unfolding throughput_rule contains_code
  throughput_rule-IsSound name target window =
      (rw contains_code-append refl, rw contains_code-append refl)

  ratio_rule-IsSound :
      (name : String) (target : W) (window : String)
      → IsSound (ratio_rule decimal name target window)
  unfolding ratio_rule contains_code
  ratio_rule-IsSound name target window =
      (rw contains_code-append refl, rw contains_code-append refl)

  burn_rate_rule-IsSound :
      (name : String) (target : W) (window : String)
      → IsSound (burn_rate_rule decimal name target window)
  unfolding burn_rate_rule
  burn_rate_rule-IsSound name target window =
      if-IsSound (str_eq name "latency_p95") _ _ (latency_rule-IsSound name target window) (
        if-IsSound (str_eq name "throughput") _ _ (throughput_rule-IsSound name target window)
          (ratio_rule-IsSound name target window))

  burn_rate_rules_of-IsSound :
      (name : String) (target : W) (windows : List String)
      → All IsSound (burn_rate_rules_of decimal name target windows)
  unfolding burn_rate_rules_of
  burn_rate_rules_of-IsSound name target [] = tt
  burn_rate_rules_of-IsSound name target (window ∷ windows) =
      (burn_rate_rule-IsSound name target window, burn_rate_rules_of-IsSound name target windows)

  pub burn_rate_rules-IsSound :
      (targets : List (String × W)) → All IsSound (burn_rate_rules decimal targets)
  unfolding burn_rate_rules
  burn_rate_rules-IsSound [] = tt
  burn_rate_rules-IsSound ((name, target) ∷ targets) =
      All-append (burn_rate_rules_of decimal name target burn_rate_windows)
        (burn_rate_rules decimal targets) (burn_rate_rules_of-IsSound name target burn_rate_windows)
        (burn_rate_rules-IsSound targets)

  pub error_budget_rules-IsSound : (c : SloConfig W) → All IsSound (error_budget_rules decimal c)
  unfolding error_budget_rules contains_code
  error_budget_rules-IsSound c = (
    (refl, rw contains_code-append refl),
    (
      (refl, rw contains_code-append refl),
      ((refl, refl), ((refl, refl), ((refl, refl), ((refl, refl), tt)))),
    ),
  )

  page_rule-IsSound :
      (short long : String) (threshold : W) (slo_type : String)
      → IsSound (page_rule decimal short long threshold slo_type)
  unfolding page_rule contains_code
  page_rule-IsSound short long threshold slo_type =
      (rw contains_code-append refl, rw contains_code-append refl)

  ticket_rule-IsSound :
      (short long : String) (threshold : W) (slo_type : String)
      → IsSound (ticket_rule decimal short long threshold slo_type)
  unfolding ticket_rule contains_code
  ticket_rule-IsSound short long threshold slo_type =
      (rw contains_code-append refl, rw contains_code-append refl)

  pub multi_window_rules-IsSound : All IsSound (generate_multi_window_rules decimal).rules
  unfolding generate_multi_window_rules
  multi_window_rules-IsSound = (
    page_rule-IsSound "5m" "1h" (f.lit 144 1) "availability",
    (
      page_rule-IsSound "5m" "1h" (f.lit 144 1) "success_rate",
      (
        page_rule-IsSound "30m" "6h" (f.lit 60 1) "availability",
        (
          page_rule-IsSound "30m" "6h" (f.lit 60 1) "success_rate",
          (
            ticket_rule-IsSound "2h" "1d" (f.lit 30 1) "availability",
            (
              ticket_rule-IsSound "2h" "1d" (f.lit 30 1) "success_rate",
              (
                ticket_rule-IsSound "6h" "3d" (f.lit 10 1) "availability",
                (ticket_rule-IsSound "6h" "3d" (f.lit 10 1) "success_rate", tt),
              ),
            ),
          ),
        ),
      ),
    ),
  )
