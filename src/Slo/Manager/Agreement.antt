-- ===== src/Slo/Manager/Agreement.antt =====
-- internal/slo: the three places that work out an error budget agree.
use k8s_operator_cloudflare.Prelude.{
  ℕ, ◌≡◌, refl, sym, String, true, false, inl, inr, if◌then◌else◌, Bool-cases,
}
use k8s_operator_cloudflare.Prelude.Float.{Float64, IsNumber, IsOrdered, Converts, Computes}
use k8s_operator_cloudflare.Slo.Config.{SloConfig}
use k8s_operator_cloudflare.Slo.ErrorBudget.{calculate_error_budget, clamp, consumed_of}
use k8s_operator_cloudflare.Slo.ErrorBudget.Budget.{one_positive}
use k8s_operator_cloudflare.Slo.Calculator.{calculate_single_error_budget}
use k8s_operator_cloudflare.Slo.Manager.{ErrorBudgetState, updated_state, remaining_of}

-- Facts of IEEE 754 arithmetic about 1 - x, x - 0 and x / x.
pub record Divides {ℓ} (W : Type ℓ) ⦃f : Float64 W⦄ : Type ℓ where
  pub sub_zero : (x : W) → f.sub x (f.lit 0 0) ≡ x
  pub div_self : (x : W) → f.lt (f.lit 0 0) x ≡ true → IsNumber (f.div x x) → f.div x x ≡ f.lit 1 0
  pub sub_from_one :
      (x : W) → f.lt x (f.lit 1 0) ≡ true → f.lt (f.lit 0 0) (f.sub (f.lit 1 0) x) ≡ true

module _ {ℓ} {W : Type ℓ} ⦃f : Float64 W⦄ (order : IsOrdered W) where
  open order use {le_of_lt, le_of_not_lt, le_trans, number_of_le, not_lt_of_le, not_le_of_lt}

  not_lt-le : (x y : W) → IsNumber x → IsNumber y → f.lt x y ≡ false → f.le y x ≡ true
  not_lt-le x y n n' e = le_of_not_lt y x n' n e

  consumed_agree :
      (actual target : W)
      → IsNumber actual
      → IsNumber target
      → consumed_of actual target ≡ (if f.lt actual target then f.sub target actual else f.lit 0 0)
  unfolding consumed_of
  consumed_agree actual target n n' = elim (Bool-cases (f.lt actual target)) [
    | inl e ↦ rw (e, not_le_of_lt actual target e) refl
    | inr e ↦ rw (e, not_lt-le actual target n n' e) refl
  ]

  -- The remaining budget that the manager stores, clamped to [0, 1], is the remaining percentage that
  -- the error budget manager calculates, for an actual figure and a target that are not NaN.
  pub updated_state-calculate_error_budget :
      (config : SloConfig W) (s : ErrorBudgetState W) (name : String) (actual target : W) (now : ℕ)
      → IsNumber actual
      → IsNumber target
      → clamp (updated_state config s actual target now).current_remaining (f.lit 0 0) (f.lit 1 0)
        ≡ (calculate_error_budget name actual target now).remaining_percent
  unfolding updated_state remaining_of calculate_error_budget
  updated_state-calculate_error_budget config s name actual target now n n' =
      rw (consumed_agree actual target n n') refl

  module _ (conv : Converts W) (comp : Computes W) (exact : Divides W) where
    one_kept : clamp (f.lit 1 0) (f.lit 0 0) (f.lit 1 0) ≡ f.lit 1 0
    unfolding clamp
    one_kept =
        let least = le_of_lt _ _ (one_positive order conv comp) in
        rw (not_lt_of_le _ _ least, not_lt_of_le _ _ (number_of_le _ _ least).1) refl

    -- The gauge of the calculator shows the remaining percentage that the error budget manager
    -- calculates, for a target below 100% whose budget is finite and an actual figure that is not
    -- NaN.
    pub calculate_single_error_budget-calculate_error_budget :
        (name : String) (actual target : W) (now : ℕ)
        → IsNumber actual
        → f.lt target (f.lit 1 0) ≡ true
        → let total = f.sub (f.lit 1 0) target in
          IsNumber (f.div total total)
          → calculate_single_error_budget actual target
            ≡ (calculate_error_budget name actual target now).remaining_percent
    unfolding calculate_single_error_budget calculate_error_budget consumed_of
    calculate_single_error_budget-calculate_error_budget name actual target now n h finite =
        let total = f.sub (f.lit 1 0) target in
        let positive = exact.sub_from_one target h in
        elim (Bool-cases (f.le target actual)) [
          | inl e ↦
              rw
                (
                  not_le_of_lt _ _ h,
                  e,
                  positive,
                  exact.sub_zero total,
                  exact.div_self total positive finite,
                )
                (sym one_kept)
          | inr e ↦ rw (not_le_of_lt _ _ h, e, positive, not_le_of_lt _ _ positive, clamp) refl
        ]
