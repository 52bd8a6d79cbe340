-- ===== src/Slo/ErrorBudget/Extremes.antt =====
-- internal/slo/error_budget.go: what the statistics say of each snapshot of the history.
use k8s_operator_cloudflare.Prelude.{
  ℕ, ◌+◌, ◌≤◌, ℤ, pos, ◌≤ℤ◌, ltb_ℤ, ◌≡◌, refl, sym, ap, ◌∙◌, subst, Bool, true, false, Option, none,
  some, List, [], ◌∷◌, inl, inr, arith, All, Bool-cases, length,
}
use k8s_operator_cloudflare.Prelude.Float.{
  Float64, ◌≼◌, IsNumber, IsOrdered, Converts, Computes, not_lt_lower, not_lt_higher,
}
use k8s_operator_cloudflare.Slo.ErrorBudget.{ErrorBudgetManager, ErrorBudgetSnapshot, sub_time}
use k8s_operator_cloudflare.Slo.ErrorBudget.Budget.{one_positive}
use k8s_operator_cloudflare.Slo.ErrorBudget.Statistics.{
  ErrorBudgetStatistics, Totals, lower, higher, longer, track, add_remaining, add_burn_rate,
  add_snapshot, add_snapshots, start_totals, with_averages, close_violation, calculate_statistics,
}

module _ {ℓ} {W : Type ℓ} ⦃f : Float64 W⦄ where
  -- No remaining budget is below the one or above the other.
  abbrev pub IsInRange : W → W → List (ErrorBudgetSnapshot W) → Type 0
  IsInRange least most ss =
      All (λ s. (f.lt s.remaining least ≡ false) × (f.lt most s.remaining ≡ false)) ss

  -- What a stage of the loop leaves of the statistics.
  abbrev Kept : ErrorBudgetStatistics W → ErrorBudgetStatistics W → ℕ → Type ℓ
  Kept old new n =
      (new.min_remaining ≡ old.min_remaining)
      × (new.max_remaining ≡ old.max_remaining)
      × (new.total_violations ≤ old.total_violations + n)
      × (old.longest_violation ≤ℤ new.longest_violation)

  longer-Kept : (d : ℤ) (stats : ErrorBudgetStatistics W) → Kept stats (longer d stats) 0
  longer-Kept d stats = elim (Bool-cases (ltb_ℤ stats.longest_violation d)) [
    | inl e ↦ rw e (refl, refl, omega arith, ground (arith, e))
    | inr e ↦ rw e (refl, refl, omega arith, omega arith)
  ]

  track-Kept :
      (bad : Bool) (start : Option ℕ) (now : ℕ) (t : Totals W)
      → Kept t.stats (track bad start now t).stats 1
  track-Kept true none now t = (refl, refl, omega arith, omega arith)
  track-Kept true (some start) now t = (refl, refl, omega arith, omega arith)
  track-Kept false none now t = (refl, refl, omega arith, omega arith)
  track-Kept false (some start) now t =
      let (least, most, count, long) = longer-Kept (sub_time now start) t.stats in
      (least, most, omega (arith, count), long)

  add_burn_rate-Kept :
      (s : ErrorBudgetSnapshot W) (t : Totals W) → Kept t.stats (add_burn_rate s t).stats 0
  unfolding add_burn_rate
  add_burn_rate-Kept s t = elim (Bool-cases (f.lt (f.lit 0 0) s.burn_rate)) [
    | inl e ↦ rw e (refl, refl, omega arith, omega arith)
    | inr e ↦ rw e (refl, refl, omega arith, omega arith)
  ]

  -- A turn of the loop widens the range and counts at most one violation.
  add_snapshot_lem :
      (m : ErrorBudgetManager W) (s : ErrorBudgetSnapshot W) (t : Totals W)
      → let new = (add_snapshot m s t).stats in
        (new.min_remaining ≡ lower s.remaining t.stats.min_remaining)
        × (new.max_remaining ≡ higher s.remaining t.stats.max_remaining)
        × (new.total_violations ≤ t.stats.total_violations + 1)
        × (t.stats.longest_violation ≤ℤ new.longest_violation)
  unfolding add_snapshot add_remaining
  add_snapshot_lem m s t =
      let t' = add_burn_rate s (add_remaining s t) in
      let (least, most, count, long) = add_burn_rate-Kept s (add_remaining s t) in
      let (least', most', count', long') =
        track-Kept (f.le m.config.alert_thresholds.warning s.consumed_percent) t'.violation_start
          s.timestamp t' in
      (least' ∙ least, most' ∙ most, omega (arith, count, count'), omega (arith, long, long'))

  module _ (order : IsOrdered W) where
    open order use {le_of_lt, le_trans, number_of_le, not_lt_of_le}

    lower_le : (x old : W) → IsNumber old → (lower x old ≼ old) × (f.lt x (lower x old) ≡ false)
    unfolding lower
    lower_le x old number = elim (Bool-cases (f.lt x old)) [
      | inl e ↦ rw e (le_of_lt x old e, not_lt_of_le x x (number_of_le x old (le_of_lt x old e)).0)
      | inr e ↦ rw e (number, e)
    ]

    higher_ge : (x old : W) → IsNumber old → (old ≼ higher x old) × (f.lt (higher x old) x ≡ false)
    unfolding higher
    higher_ge x old number = elim (Bool-cases (f.lt old x)) [
      | inl e ↦ rw e (le_of_lt old x e, not_lt_of_le x x (number_of_le old x (le_of_lt old x e)).1)
      | inr e ↦ rw e (number, e)
    ]

    abbrev Bounds : List (ErrorBudgetSnapshot W) → Totals W → ErrorBudgetStatistics W → Type 0
    Bounds ss t new =
        (new.min_remaining ≼ t.stats.min_remaining)
        × (t.stats.max_remaining ≼ new.max_remaining)
        × IsInRange new.min_remaining new.max_remaining ss
        × (new.total_violations ≤ t.stats.total_violations + length ss)
        × (t.stats.longest_violation ≤ℤ new.longest_violation)

    add_snapshots-Bounds :
        (m : ErrorBudgetManager W) (ss : List (ErrorBudgetSnapshot W)) (t : Totals W)
        → IsNumber t.stats.min_remaining
        → IsNumber t.stats.max_remaining
        → Bounds ss t (add_snapshots m ss t).stats
    unfolding add_snapshots
    add_snapshots-Bounds m [] t number number' = (number, number', tt, omega arith, omega arith)
    add_snapshots-Bounds m (s ∷ ss) t number number' =
        let t' = add_snapshot m s t in
        let (least, most, count, long) = add_snapshot_lem m s t in
        let (below, fits) = lower_le s.remaining t.stats.min_remaining number in
        let (above, fits') = higher_ge s.remaining t.stats.max_remaining number' in
        let below' = subst (λ x. x ≼ t.stats.min_remaining) (sym least) below in
        let above' = subst (λ x. t.stats.max_remaining ≼ x) (sym most) above in
        let (down, up, range, count', long') =
          add_snapshots-Bounds m ss t' (number_of_le _ _ below').0 (number_of_le _ _ above').1 in
        (
          le_trans _ _ _ down below',
          le_trans _ _ _ above' up,
          (
            (
              not_lt_lower order _ _ _ (ap (λ x. f.lt s.remaining x) least ∙ fits) down,
              not_lt_higher order _ _ _ (ap (λ x. f.lt x s.remaining) most ∙ fits') up,
            ),
            range,
          ),
          omega (arith, count, count'),
          omega (arith, long, long'),
        )

    close_violation-Kept :
        (start : Option ℕ) (now : ℕ) (stats : ErrorBudgetStatistics W)
        → Kept stats (close_violation start now stats) 0
    close_violation-Kept none now stats = (refl, refl, omega arith, omega arith)
    close_violation-Kept (some start) now stats = longer-Kept (sub_time now start) stats

    -- The statistics of a history that is not empty: no snapshot's remaining budget is below the
    -- least or above the greatest that they give; there are at most as many violations as
    -- snapshots; and the longest violation is not negative, whatever the order of the timestamps.
    pub calculate_statistics-IsInRange :
        (conv : Converts W) (comp : Computes W) (m : ErrorBudgetManager W)
        (s : ErrorBudgetSnapshot W) (ss : List (ErrorBudgetSnapshot W)) (now : ℕ)
        → let stats = calculate_statistics m (s ∷ ss) now in
          IsInRange stats.min_remaining stats.max_remaining (s ∷ ss)
          × (stats.total_violations ≤ length (s ∷ ss))
          × (pos 0 ≤ℤ stats.longest_violation)
    unfolding calculate_statistics
    calculate_statistics-IsInRange conv comp m s ss now =
        let ends = number_of_le _ _ (le_of_lt _ _ (one_positive order conv comp)) in
        let t = add_snapshots m (s ∷ ss) start_totals in
        let (down, up, range, count, long) =
          add_snapshots-Bounds m (s ∷ ss) start_totals ends.1 ends.0 in
        let (least, most, count', long') =
          close_violation-Kept t.violation_start now (with_averages (length (s ∷ ss)) t) in
        (
          subst (λ x. IsInRange x (calculate_statistics m (s ∷ ss) now).max_remaining (s ∷ ss))
              (sym least)
              (subst (λ x. IsInRange t.stats.min_remaining x (s ∷ ss)) (sym most) range),
          omega (arith, count, count'),
          omega (arith, long, long'),
        )
