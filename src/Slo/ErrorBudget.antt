-- ===== src/Slo/ErrorBudget.antt =====
-- internal/slo/error_budget.go. The calculation, the bounded history of snapshots, the burn rate, the
-- thresholds and the report. `none` is a missing map entry; a method that only reads returns its
-- result. A method that reads the clock takes each reading.
pub mod Budget
pub mod History
pub mod Alerts
pub mod Policies
pub mod Extremes
pub mod Statistics
pub mod Rate
mod Tests
use Prim.Native.String.{◌++◌ as ◌++text◌}
use k8s_operator_cloudflare.Prelude.{
  ℕ, zero, suc, ◌+◌, ◌-◌, ◌*◌, ◌/◌, ◌%◌, ℤ, pos, negsuc, pos_part, neg_part, sub_ℕ, String, Bool,
  true, false, Option, none, some, List, [], ◌∷◌, ◌++◌, if◌then◌else◌, str_eq, ltb, ltb_ℤ, leb_ℤ,
  or_default, length, drop, last_of, add_time, second, minute, hour,
}
use k8s_operator_cloudflare.Prelude.Float.{Float64}
use k8s_operator_cloudflare.Prelude.Dict.{Dict, lookup, insert}
use k8s_operator_cloudflare.Config.Validation.{mul_int64}
use k8s_operator_cloudflare.Slo.Config.{ErrorBudgetConfig, ErrorBudgetThresholds, ErrorBudgetPolicy}

pub record ErrorBudgetSnapshot {ℓ} (W : Type ℓ) : Type ℓ where
  pub timestamp : ℕ
  pub remaining : W
  pub consumed_percent : W
  pub burn_rate : W
  pub slo_name : String
  pub window : String

pub record ErrorBudgetManager {ℓ} (W : Type ℓ) : Type ℓ where
  pub config : ErrorBudgetConfig W
  pub history : Dict (List (ErrorBudgetSnapshot W))

pub record ErrorBudgetCalculation {ℓ} (W : Type ℓ) : Type ℓ where
  pub slo_name : String
  pub actual : W
  pub target : W
  pub total_budget : W
  pub consumed_budget : W
  pub remaining_budget : W
  pub remaining_percent : W
  pub consumed_percent : W
  pub timestamp : ℕ

-- `message` is the percentage that the text shows.
pub record AlertThreshold {ℓ} (W : Type ℓ) : Type ℓ where
  pub name : String
  pub threshold : W
  pub severity : String
  pub message : W

pub data BurnError : Type 0 where
  insufficient_data no_snapshots invalid_time_difference not_burning : BurnError

pub data Burn {ℓ} (A : Type ℓ) : Type ℓ where
  computed : A → Burn A
  failed : BurnError → Burn A

-- `fmt.Sprintf("%s_%s", sloName, window)`.
unfoldable pub history_key : String → String → String
history_key slo_name window = slo_name ++text "_" ++text window

-- `end.Sub(start)`, for times less than 2^63 nanoseconds apart.
abbrev pub sub_time : ℕ → ℕ → ℤ
sub_time later earlier = sub_ℕ later earlier

abbrev pub negated : ℤ → ℤ
negated d = sub_ℕ (neg_part d) (pos_part d)

module _ {ℓ} {W : Type ℓ} ⦃f : Float64 W⦄ where
  unfoldable pub new_error_budget_manager : ErrorBudgetConfig W → ErrorBudgetManager W
  new_error_budget_manager c = record { config = c; history = [] }

  unfoldable pub clamp : W → W → W → W
  clamp value least most =
      if f.lt value least then least else if f.lt most value then most else value

  unfoldable pub consumed_of : W → W → W
  consumed_of actual target = if f.le target actual then f.lit 0 0 else f.sub target actual

  -- `part / total` where the total is positive, and `other` where it is not.
  abbrev share : W → W → W → W
  share total part other = if f.lt (f.lit 0 0) total then f.div part total else other

  unfoldable pub calculate_error_budget : String → W → W → ℕ → ErrorBudgetCalculation W
  unfolding clamp consumed_of
  calculate_error_budget name actual target now =
      let total = f.sub (f.lit 1 0) target in
      let consumed = consumed_of actual target in
      let remaining = f.sub total consumed in
      record {
        slo_name = name;
        actual = actual;
        target = target;
        total_budget = total;
        consumed_budget = consumed;
        remaining_budget = remaining;
        remaining_percent = clamp (share total remaining (f.lit 1 0)) (f.lit 0 0) (f.lit 1 0);
        consumed_percent = clamp (share total consumed (f.lit 0 0)) (f.lit 0 0) (f.lit 1 0);
        timestamp = now;
      }

  -- `Duration.Hours`, of a positive duration.
  unfoldable pub hours : ℤ → W
  hours d =
      f.add (f.of_ℤ (pos (pos_part d / hour)))
        (f.div (f.of_ℤ (pos (pos_part d % hour))) (f.of_ℤ (pos hour)))

  -- The first snapshot after the start of the period gives the one before it, or itself if it is the
  -- first of all.
  find_start :
      ℕ
      → Option (ErrorBudgetSnapshot W)
      → List (ErrorBudgetSnapshot W)
      → Option (ErrorBudgetSnapshot W)
  find_start period_start before [] = none
  find_start period_start before (s ∷ ss) =
      let rest = find_start period_start (some s) ss in
      if ltb period_start s.timestamp then some (or_default before s) else rest

  absolute : W → W
  absolute x = if f.lt x (f.lit 0 0) then f.sub (f.lit 0 0) x else x

  pub rate_between : ErrorBudgetSnapshot W → ErrorBudgetSnapshot W → Burn W
  unfolding absolute hours
  rate_between start end =
      let elapsed = sub_time end.timestamp start.timestamp in
      if leb_ℤ elapsed (pos 0)
      then failed invalid_time_difference
      else computed (
          if f.lt (f.lit 0 0) (hours elapsed)
          then f.div (absolute (f.sub start.consumed_percent end.consumed_percent)) (hours elapsed)
          else f.lit 0 0)

  -- Of at least two snapshots.
  abbrev rate_since :
      ErrorBudgetSnapshot W → List (ErrorBudgetSnapshot W) → Option (ErrorBudgetSnapshot W) → Burn W
  unfolding rate_between
  rate_since s ss none = failed no_snapshots
  rate_since s ss (some start) = rate_between start (last_of s ss)

  burn_rate_of : List (ErrorBudgetSnapshot W) → ℤ → ℕ → Burn W
  unfolding find_start rate_since
  burn_rate_of [] period now = failed insufficient_data
  burn_rate_of (s ∷ []) period now = failed insufficient_data
  burn_rate_of (s ∷ t ∷ ss) period now =
      rate_since s (t ∷ ss) (find_start (add_time now (negated period)) none (s ∷ t ∷ ss))

  unfoldable pub snapshots_of :
      ErrorBudgetManager W → String → String → List (ErrorBudgetSnapshot W)
  snapshots_of m name window = or_default (lookup (history_key name window) m.history) []

  unfoldable pub calculate_burn_rate : ErrorBudgetManager W → String → String → ℤ → ℕ → Burn W
  unfolding burn_rate_of snapshots_of
  calculate_burn_rate m name window period now =
      burn_rate_of (snapshots_of m name window) period now

  -- `append`, and the last thousand of what is then there.
  unfoldable pub append_bounded :
      ErrorBudgetSnapshot W → List (ErrorBudgetSnapshot W) → List (ErrorBudgetSnapshot W)
  append_bounded s old =
      let all = old ++ (s ∷ []) in
      if ltb 1000 (length all) then drop (length all - 1000) all else all

  unfoldable pub record_snapshot :
      ErrorBudgetManager W → ErrorBudgetSnapshot W → ErrorBudgetManager W
  unfolding append_bounded
  record_snapshot m s =
      let key = history_key s.slo_name s.window in
      record m {
        history = insert key (append_bounded s (or_default (lookup key m.history) [])) m.history;
      }

  exhaustion : List (ErrorBudgetSnapshot W) → W → ℕ → Burn ℕ
  exhaustion [] rate now = failed insufficient_data
  exhaustion (s ∷ ss) rate now =
      let latest = last_of s ss in
      let remaining = f.sub (f.lit 1 0) latest.consumed_percent in
      if f.le remaining (f.lit 0 0)
      then computed latest.timestamp
      else computed (add_time now (mul_int64 (f.to_duration (f.div remaining rate)) (pos hour)))

  burning : List (ErrorBudgetSnapshot W) → Burn W → ℕ → Burn ℕ
  unfolding exhaustion
  burning ss (failed e) now = failed e
  burning ss (computed rate) now =
      if f.le rate (f.lit 0 0) then failed not_burning else exhaustion ss rate now

  -- `later` is the second reading of the clock.
  unfoldable pub predict_exhaustion : ErrorBudgetManager W → String → String → ℕ → ℕ → Burn ℕ
  unfolding burning
  predict_exhaustion m name window now later =
      burning (snapshots_of m name window) (calculate_burn_rate m name window (pos (1 * hour)) now)
        later
