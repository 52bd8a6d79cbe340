-- ===== src/Slo/ErrorBudget/Rate.antt =====
-- internal/slo/error_budget.go: between which snapshots the burn rate is measured.
use k8s_operator_cloudflare.Prelude.{
  ℕ, ℤ, ◌≡◌, refl, ap, ◌∙◌, String, Bool, true, false, Option, none, some, List, [], ◌∷◌, ◌++◌, All,
  ltb, last_of, add_time,
}
use k8s_operator_cloudflare.Prelude.Float.{Float64}
use k8s_operator_cloudflare.Slo.ErrorBudget.{
  ErrorBudgetManager, ErrorBudgetSnapshot, negated, find_start, rate_between, rate_since,
  burn_rate_of, snapshots_of, calculate_burn_rate,
}

module _ {ℓ} {W : Type ℓ} ⦃f : Float64 W⦄ where
  -- After the start of the period that ends now.
  abbrev pub in_period : ℕ → ℤ → ErrorBudgetSnapshot W → Bool
  in_period now period s = ltb (add_time now (negated period)) s.timestamp

  find_start-first :
      (start : ℕ) (previous : Option (ErrorBudgetSnapshot W)) (x y : ErrorBudgetSnapshot W)
      (before after : List (ErrorBudgetSnapshot W))
      → All (λ s. ltb start s.timestamp ≡ false) before
      → ltb start x.timestamp ≡ false
      → ltb start y.timestamp ≡ true
      → find_start start previous (before ++ (x ∷ y ∷ after)) ≡ some x
  unfolding find_start
  find_start-first start previous x y [] after _ hx hy = rw (hx, hy) refl
  find_start-first start previous x y (s ∷ before) after (h, hs) hx hy =
      rw h (find_start-first start (some s) x y before after hs hx hy)

  last_of-append :
      (s x y : ErrorBudgetSnapshot W) (before after : List (ErrorBudgetSnapshot W))
      → last_of s (before ++ (x ∷ y ∷ after)) ≡ last_of y after
  last_of-append s x y [] after = refl
  last_of-append s x y (t ∷ before) after = last_of-append t x y before after

  rate_since-append :
      (s x y : ErrorBudgetSnapshot W) (before after : List (ErrorBudgetSnapshot W))
      (found : Option (ErrorBudgetSnapshot W))
      → found ≡ some x
      → rate_since s (before ++ (x ∷ y ∷ after)) found ≡ rate_between x (last_of y after)
  unfolding rate_since
  rate_since-append s x y before after found e =
      rw e (ap (rate_between x) (last_of-append s x y before after))

  burn_rate_of-window :
      (now : ℕ) (period : ℤ) (x y : ErrorBudgetSnapshot W)
      (before after : List (ErrorBudgetSnapshot W))
      → All (λ s. in_period now period s ≡ false) before
      → in_period now period x ≡ false
      → in_period now period y ≡ true
      → burn_rate_of (before ++ (x ∷ y ∷ after)) period now ≡ rate_between x (last_of y after)
  unfolding burn_rate_of rate_since
  burn_rate_of-window now period x y [] after h hx hy =
      rw (find_start-first _ none x y [] after h hx hy) refl
  burn_rate_of-window now period x y (b ∷ []) after h hx hy =
      rate_since-append b x y [] after _ (find_start-first _ none x y (b ∷ []) after h hx hy)
  burn_rate_of-window now period x y (b ∷ c ∷ before) after h hx hy =
      rate_since-append b x y (c ∷ before) after _
        (find_start-first _ none x y (b ∷ c ∷ before) after h hx hy)

  -- The burn rate of a period is measured from the last snapshot before the period to the newest of
  -- all: where the history is some snapshots that are not in the period, then x, which is not either,
  -- then y, which is the first that is, then any others, the rate is that between x and the last.
  pub calculate_burn_rate-window :
      (m : ErrorBudgetManager W) (name window : String) (period : ℤ) (now : ℕ)
      (x y : ErrorBudgetSnapshot W) (before after : List (ErrorBudgetSnapshot W))
      → snapshots_of m name window ≡ before ++ (x ∷ y ∷ after)
      → All (λ s. in_period now period s ≡ false) before
      → in_period now period x ≡ false
      → in_period now period y ≡ true
      → calculate_burn_rate m name window period now ≡ rate_between x (last_of y after)
  unfolding calculate_burn_rate
  calculate_burn_rate-window m name window period now x y before after held h hx hy =
      ap (λ ss. burn_rate_of ss period now) held
      ∙ burn_rate_of-window now period x y before after h hx hy
