-- ===== src/Reliability/Retry/Delay.antt =====
-- internal/reliability/retry.go: the bounds of a delay.
use k8s_operator_cloudflare.Prelude.{
  ap, ◌∙◌, inl, inr, true, false, arith, ℤ, pos, ◌≤ℤ◌, Bool-cases, if◌then◌else◌,
}
use k8s_operator_cloudflare.Prelude.Float.{
  Float64, ◌≼◌, IsNumber, IsExact, IsOrdered, Converts, Truncates,
}
use k8s_operator_cloudflare.Reliability.Retry.{
  Retryer, backoff, limit, add_jitter, raise, calculate_delay,
}

module _ {ℓ} {W : Type ℓ} ⦃f : Float64 W⦄ {E : Type 0} (order : IsOrdered W)
    (conv : Converts W) where
  open order use {le_of_not_lt, number_of_le}
  open conv use {of_zero, of_ℤ-mono, number_of_ℤ}

  limit_le : (r : Retryer W E) (x : W) → IsNumber x → limit r x ≼ f.of_ℤ r.max_delay
  unfolding limit
  limit_le r x n = elim (Bool-cases (f.lt (f.of_ℤ r.max_delay) x)) [
    | inl e ↦ rw e (number_of_ℤ r.max_delay)
    | inr e ↦ rw e (le_of_not_lt x (f.of_ℤ r.max_delay) n (number_of_ℤ r.max_delay) e)
  ]

  raise_nonneg :
      (r : Retryer W E) (x : W) → pos 0 ≤ℤ r.initial_delay → IsNumber x → f.of_ℤ (pos 0) ≼ raise r x
  unfolding raise
  raise_nonneg r x i n = elim (Bool-cases (f.lt x (f.lit 0 0))) [
    | inl e ↦ rw e (of_ℤ-mono (pos 0) r.initial_delay i)
    | inr e ↦ rw e (le_of_not_lt _ x (number_of_ℤ (pos 0)) n (ap (λ o. f.lt x o) of_zero ∙ e))
  ]

  limit_nonneg :
      (r : Retryer W E) (x : W)
      → pos 0 ≤ℤ r.max_delay
      → f.of_ℤ (pos 0) ≼ x
      → f.of_ℤ (pos 0) ≼ limit r x
  unfolding limit
  limit_nonneg r x d h = elim (Bool-cases (f.lt (f.of_ℤ r.max_delay) x)) [
    | inl e ↦ rw e (of_ℤ-mono (pos 0) r.max_delay d)
    | inr e ↦ rw e h
  ]

  limit-within :
      (trunc : Truncates W) (r : Retryer W E) (x : W)
      → IsExact r.max_delay
      → pos 0 ≤ℤ r.max_delay
      → f.of_ℤ (pos 0) ≼ x
      → (pos 0 ≤ℤ f.to_duration (limit r x)) × (f.to_duration (limit r x) ≤ℤ r.max_delay)
  limit-within trunc r x exact d h =
      trunc.to_duration_within (pos 0) r.max_delay (limit r x) (omega arith) exact
        (limit_nonneg r x d h) (limit_le r x (number_of_le _ _ h).1)

  -- Over floats that compare, convert and truncate as IEEE 754 and Go say: the delay is not negative
  -- and never passes MaxDelay, with or without jitter, where neither InitialDelay nor MaxDelay is
  -- negative, a float holds MaxDelay exactly, the backoff is not negative and the jittered value is
  -- not NaN.
  pub calculate_delay-within :
      (trunc : Truncates W) (r : Retryer W E) (attempt : ℤ) (random : W)
      → IsExact r.max_delay
      → pos 0 ≤ℤ r.initial_delay
      → pos 0 ≤ℤ r.max_delay
      → f.of_ℤ (pos 0) ≼ backoff r attempt
      → IsNumber (add_jitter random (limit r (backoff r attempt)))
      → (pos 0 ≤ℤ calculate_delay r attempt random)
        × (calculate_delay r attempt random ≤ℤ r.max_delay)
  unfolding calculate_delay
  calculate_delay-within trunc r attempt random exact i d b n =
      elim r.jitter
        as (λ j.
          let x = f.to_duration (if j then jittered else delay) in
          (pos 0 ≤ℤ x) × (x ≤ℤ r.max_delay)) [
            | true ↦ limit-within trunc r _ exact d (raise_nonneg r _ i n)
            | false ↦ limit-within trunc r (backoff r attempt) exact d b
          ]
    where
      delay : W
      delay = limit r (backoff r attempt)

      jittered : W
      jittered = limit r (raise r (add_jitter random delay))
