-- ===== src/Slo/Manager.antt =====
-- internal/slo/slo.go. The budgets and the values by window, each calculation of a window, the burn
-- rate alerts and the intervals of the tickers. A map of pointers is a map of what they point to; a
-- log line is left out, save the outcome of an alert's check.
pub mod Invariant
pub mod Agreement
pub mod Lifecycle
use k8s_operator_cloudflare.Prelude.{
  ℕ, ◌*◌, ◌/◌, ℤ, pos, pos_part, neg_part, sub_ℕ, ltb_ℤ, ◌==◌, ◌+◌, String, Bool, true, false, ◌&&◌,
  Option, none, some, List, [], ◌∷◌, ◌++◌, if◌then◌else◌, or_default, second, minute, hour,
}
use k8s_operator_cloudflare.Prelude.Float.{Float64}
use k8s_operator_cloudflare.Prelude.Dict.{Dict, lookup, insert}
use k8s_operator_cloudflare.Config.Validation.{mul_int64}
use k8s_operator_cloudflare.Slo.Config.{
  SloConfig, TimeWindow, BurnRateAlert, ErrorBudgetPolicy, ErrorBudgetConfig, AlertingConfig,
  SloTargets,
}
use k8s_operator_cloudflare.Slo.ErrorBudget.{history_key}
use k8s_operator_cloudflare.Slo.Calculator.{
  SliValues, calculate, calculate_multi_window_burn_rate, ratio, latency_conformance,
}

pub record ErrorBudgetState {ℓ} (W : Type ℓ) : Type ℓ where
  pub slo_name : String
  pub current_remaining : W
  pub consumed_percent : W
  pub last_updated : ℕ
  pub policy_triggered : List String
  pub burn_rate : W
  pub time_to_exhaustion : ℤ

pub record Manager {ℓ} (W : Type ℓ) : Type ℓ where
  pub config : SloConfig W
  pub last_calculation : Dict (SliValues W)
  pub error_budgets : Dict (ErrorBudgetState W)

-- What the check of an alert logs.
pub data AlertOutcome : Type 0 where
  windows_not_found threshold_exceeded below_threshold : AlertOutcome

-- The readings of the clock in a calculation for a window.
pub record Readings : Type 0 where
  pub calculated : ℕ
  pub availability : ℕ
  pub success_rate : ℕ
  pub latency : ℕ
  pub alerts : ℕ → ℕ

-- Integer division by ten, which rounds towards zero.
abbrev tenth : ℤ → ℤ
tenth d = sub_ℕ (pos_part d / 10) (neg_part d / 10)

-- How often the loop calculates for a window.
unfoldable pub interval : TimeWindow → ℤ
interval w =
    if w.is_short_term
    then pos (30 * second)
    else if ltb_ℤ (tenth w.duration) (pos (5 * minute))
    then pos (5 * minute)
    else tenth w.duration

same_duration : ℤ → ℤ → Bool
same_duration a b = (pos_part a == pos_part b) && (neg_part a == neg_part b)

-- The last window of the duration.
unfoldable pub find_window : ℤ → List TimeWindow → Option TimeWindow
unfolding same_duration
find_window d [] = none
find_window d (w ∷ ws) = elim (find_window d ws) [
  | some later ↦ some later
  | none ↦ if same_duration w.duration d then some w else none
]

module _ {ℓ} {W : Type ℓ} ⦃f : Float64 W⦄ where
  unfoldable pub new_manager : SloConfig W → Manager W
  new_manager c = record { config = c; last_calculation = []; error_budgets = [] }

  abbrev pub new_state : String → ErrorBudgetState W
  new_state name = record {
    slo_name = name;
    current_remaining = f.lit 0 0;
    consumed_percent = f.lit 0 0;
    last_updated = 0;
    policy_triggered = [];
    burn_rate = f.lit 0 0;
    time_to_exhaustion = pos 0;
  }

  unfoldable pub triggered : List (ErrorBudgetPolicy W) → W → List String
  triggered [] consumed = []
  triggered (p ∷ ps) consumed =
      let rest = triggered ps consumed in
      if f.le p.threshold consumed then p.action ∷ rest else rest

  unfoldable pub check_error_budget_policies : SloConfig W → ErrorBudgetState W → ErrorBudgetState W
  unfolding triggered
  check_error_budget_policies c s = record s {
    policy_triggered = triggered c.error_budget.policies s.consumed_percent;
  }

  unfoldable pub remaining_of : W → W → W
  remaining_of actual target =
      let total = f.sub (f.lit 1 0) target in
      let consumed = if f.lt actual target then f.sub target actual else f.lit 0 0 in
      if f.lt (f.lit 0 0) total then f.div (f.sub total consumed) total else f.lit 1 0

  -- The first estimate, then the exponential moving average.
  burn_rate_after : W → W → W
  burn_rate_after old consumed =
      if f.le old (f.lit 0 0) && f.le (f.lit 0 0) old
      then consumed
      else f.add (f.mul (f.lit 9 1) old) (f.mul (f.lit 1 1) consumed)

  -- Unchanged where the budget does not burn or is used up.
  exhaustion_after : ℤ → W → W → ℤ
  exhaustion_after old rate remaining =
      if f.lt (f.lit 0 0) rate && f.lt (f.lit 0 0) remaining
      then mul_int64 (f.to_duration (f.div remaining (f.div rate (f.lit 24 0)))) (pos hour)
      else old

  unfoldable pub updated_state : SloConfig W → ErrorBudgetState W → W → W → ℕ → ErrorBudgetState W
  unfolding remaining_of burn_rate_after exhaustion_after check_error_budget_policies
  updated_state c s actual target now =
      let remaining = remaining_of actual target in
      let consumed = f.sub (f.lit 1 0) remaining in
      let rate = burn_rate_after s.burn_rate consumed in
      check_error_budget_policies c (record s {
        current_remaining = remaining;
        consumed_percent = consumed;
        last_updated = now;
        burn_rate = rate;
        time_to_exhaustion = exhaustion_after s.time_to_exhaustion rate remaining;
      })

  unfoldable pub update_single_error_budget : Manager W → String → W → W → String → ℕ → Manager W
  unfolding updated_state
  update_single_error_budget m name actual target window now =
      let key = history_key name window in
      let old = or_default (lookup key m.error_budgets) (new_state name) in
      record m {
        error_budgets = insert key (updated_state m.config old actual target now) m.error_budgets;
      }

  unfoldable pub update_error_budgets : Manager W → SliValues W → Readings → Manager W
  unfolding update_single_error_budget
  update_error_budgets m values at =
      let targets = m.config.targets in
      let m1 =
        update_single_error_budget m "availability" values.availability (ratio targets.availability)
          values.window at.availability in
      let m2 =
        update_single_error_budget m1 "success_rate" values.success_rate
          (ratio targets.success_rate) values.window at.success_rate in
      update_single_error_budget m2 "latency_p95" (latency_conformance targets values) (f.lit 95 2)
        values.window at.latency

  unfoldable pub check_burn_rate_alert :
      (ℤ → W) → SloConfig W → BurnRateAlert W → ℕ → ℕ → AlertOutcome
  check_burn_rate_alert seconds c alert now later =
      elim (find_window alert.short_window c.windows) [
        | none ↦ windows_not_found
        | some short ↦ elim (find_window alert.long_window c.windows) [
          | none ↦ windows_not_found
          | some long ↦
              if f.le alert.burn_rate_threshold
                (calculate_multi_window_burn_rate seconds c short long now later).0
              then threshold_exceeded
              else below_threshold
        ]
      ]

  -- The outcomes of the alerts that are enabled: the page, then the ticket.
  unfoldable pub check_burn_rates : (ℤ → W) → SloConfig W → (ℕ → ℕ) → List AlertOutcome
  unfolding check_burn_rate_alert
  check_burn_rates seconds c readings =
      let page = c.alerting_rules.page_alerts in
      let ticket = c.alerting_rules.ticket_alerts in
      (if page.enabled
        then check_burn_rate_alert seconds c page (readings 0) (readings 1) ∷ []
        else [])
      ++ (if ticket.enabled
          then check_burn_rate_alert seconds c ticket (readings 2) (readings 3) ∷ []
          else [])

  unfoldable pub calculate_for_window :
      (ℤ → W) → Manager W → TimeWindow → Readings → Manager W × List AlertOutcome
  unfolding update_error_budgets check_burn_rates
  calculate_for_window seconds m window at =
      let values = (calculate seconds m.config window at.calculated).0 in
      let stored = record m { last_calculation = insert window.name values m.last_calculation } in
      (
        update_error_budgets stored values at,
        if window.is_short_term then check_burn_rates seconds m.config at.alerts else [],
      )

  unfoldable pub get_sli_values : Manager W → String → Option (SliValues W)
  get_sli_values m window = lookup window m.last_calculation

  unfoldable pub get_error_budget_state : Manager W → String → String → Option (ErrorBudgetState W)
  get_error_budget_state m name window = lookup (history_key name window) m.error_budgets

  unfoldable pub get_all_error_budgets : Manager W → Dict (ErrorBudgetState W)
  get_all_error_budgets m = m.error_budgets
