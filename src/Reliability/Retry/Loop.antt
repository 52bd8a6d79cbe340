-- ===== src/Reliability/Retry/Loop.antt =====
-- internal/reliability/retry.go: what `Retry` returns, and after which attempts.
use native.Mathlib.Decide.{ℕ_discrete}
use k8s_operator_cloudflare.Prelude.{
  ℕ, zero, suc, ◌+◌, ◌≤◌, ◌<◌, ◌≡◌, refl, subst, ◌⊎◌, inl, inr, true, false, Option, none, some,
  List, [], ◌∷◌, arith,
}
use k8s_operator_cloudflare.Prelude.Float.{Float64}
use k8s_operator_cloudflare.Reliability.Retry.{
  Retryer, World, Event, attempted, RetryResult, ok, ctx_error, exhausted, Round, leave, again,
  round, retry_loop, retry,
}

-- The attempts that a log counts.
abbrev pub attempts : {E : Type 0} → List (Event E) → ℕ
attempts [] = 0
attempts (attempted n ∷ log) = suc (attempts log)
attempts (_ ∷ log) = attempts log

module _ {ℓ} {W : Type ℓ} ⦃f : Float64 W⦄ {E : Type 0} where
  -- Attempt `i` failed with an error that is retried, the context was alive, and the timer fired.
  abbrev pub GoesOn : Retryer W E → World W E → ℕ → Type 0
  GoesOn r w i =
      (e : E) × (w.call i ≡ some e)
      × (r.retryable_checker (some e) ≡ true)
      × (i < r.max_retries)
      × (w.ctx_err i ≡ none)
      × (w.wait i ≡ none)

  -- How the run may end at attempt `i`.
  abbrev pub Ends : Retryer W E → World W E → ℕ → RetryResult E → Type 0
  Ends r w i ok = w.call i ≡ none
  Ends r w i (exhausted n last) =
      (e : E) × (w.call i ≡ some e)
      × (last ≡ some e)
      × (n ≡ r.max_retries + 1)
      × ((r.retryable_checker (some e) ≡ false) ⊎ (r.max_retries ≤ i))
  Ends r w i (ctx_error c) =
      (e : E) × (w.call i ≡ some e)
      × (r.retryable_checker (some e) ≡ true)
      × (i < r.max_retries)
      × ((w.ctx_err i ≡ some c) ⊎ ((w.ctx_err i ≡ none) × (w.wait i ≡ some c)))

  -- One round.
  abbrev RoundSpec : Retryer W E → World W E → ℕ → List (Event E) → Round E → Type 0
  RoundSpec r w i log (leave log' result) = Ends r w i result × (attempts log' ≡ suc (attempts log))
  RoundSpec r w i log (again log' e) = GoesOn r w i × (attempts log' ≡ suc (attempts log))

  round_lem :
      (r : Retryer W E) (w : World W E) (i : ℕ) (log : List (Event E))
      → RoundSpec r w i log (round r w i log)
  unfolding round
  round_lem r w i log = ground arith

  -- The attempts before `i`.
  abbrev pub AllGoOn : Retryer W E → World W E → ℕ → ℕ → Type 0
  AllGoOn r w from i = (j : ℕ) → from ≤ j → j < i → GoesOn r w j

  -- The loop, by its first round.
  step_lem :
      (rounds : ℕ) (r : Retryer W E) (w : World W E) (i : ℕ) (log : List (Event E))
      (last : Option E)
      → ((log' : List (Event E)) × (result : RetryResult E) × (retry_loop
              (suc rounds)
              r
              w
              i
              log
              last
            ≡ (log', result))
          × Ends r w i result
          × (attempts log' ≡ suc (attempts log)))
        ⊎ ((log' : List (Event E)) × (e : E) × (retry_loop (suc rounds) r w i log last
              ≡ retry_loop rounds r w (suc i) log' (some e))
            × GoesOn r w i
            × (attempts log' ≡ suc (attempts log)))
  unfolding retry_loop
  step_lem rounds r w i log last = go (round r w i log) refl (round_lem r w i log)
    where
      go :
          (x : Round E)
          → round r w i log ≡ x
          → RoundSpec r w i log x
          → ((log' : List (Event E)) × (result : RetryResult E) × (retry_loop
                  (suc rounds)
                  r
                  w
                  i
                  log
                  last
                ≡ (log', result))
              × Ends r w i result
              × (attempts log' ≡ suc (attempts log)))
            ⊎ ((log' : List (Event E)) × (e : E) × (retry_loop (suc rounds) r w i log last
                  ≡ retry_loop rounds r w (suc i) log' (some e))
                × GoesOn r w i
                × (attempts log' ≡ suc (attempts log)))
      go (leave log' result) e (ends, n) = inl (log', result, rw (e, retry_loop), ends, n)
      go (again log' x) e (goes, n) = inr (log', x, rw (e, retry_loop), goes, n)

  -- The run from attempt `i` on.
  abbrev Outcome :
      Retryer W E → World W E → ℕ → List (Event E) → List (Event E) × RetryResult E → Type 0
  Outcome r w i log (log', result) =
      (n : ℕ) × (i ≤ n)
      × (n ≤ r.max_retries)
      × AllGoOn r w i n
      × Ends r w n result
      × (attempts log' + i ≡ attempts log + suc n)

  retry_loop-Outcome :
      (rounds : ℕ) (r : Retryer W E) (w : World W E) (i : ℕ) (log : List (Event E))
      (last : Option E)
      → rounds + i ≡ r.max_retries + 1
      → i ≤ r.max_retries
      → Outcome r w i log (retry_loop rounds r w i log last)
  retry_loop-Outcome zero r w i log last e h = absurd (omega arith)
  retry_loop-Outcome (suc rounds) r w i log last e h = elim (step_lem rounds r w i log last) [
    | inl (log', result, eq, ends, n) ↦
        rw eq (i, omega arith, h, λ j l u. absurd (omega arith), ends, omega arith)
    | inr (log', x, eq, goes, n) ↦ rw eq (
        extend log' (retry_loop rounds r w (suc i) log' (some x)) goes n
          (retry_loop-Outcome rounds r w (suc i) log' (some x) (omega arith) goes.3))
  ]
    where
      extend :
          (log' : List (Event E)) (out : List (Event E) × RetryResult E)
          → GoesOn r w i
          → attempts log' ≡ suc (attempts log)
          → Outcome r w (suc i) log' out
          → Outcome r w i log out
      extend log' out goes c (n, l, u, all, ends, k) = (
        n,
        omega arith,
        u,
        λ j a b. elim (ℕ_discrete i j) [
          | yes s ↦ subst (GoesOn r w) s goes
          | no d ↦ all j (omega arith) b
        ],
        ends,
        omega arith,
      )

  -- What `Retry` returns, in every world: there is an attempt `n`, at most MaxRetries, such that all
  -- before it failed with a retried error, found the context alive and waited to the end of the
  -- delay; exactly the attempts 0 to n were made; and the result is that of attempt `n`. It is nil
  -- if that attempt succeeded, the wrapped error of that attempt if it is not retried or the last,
  -- and the error of the context if it ended before or during the wait.
  pub retry_outcome :
      (r : Retryer W E) (w : World W E)
      → let (log, result) = retry r w in
        (n : ℕ) × (n ≤ r.max_retries)
        × ((j : ℕ) → j < n → GoesOn r w j)
        × Ends r w n result
        × (attempts log ≡ suc n)
  unfolding retry
  retry_outcome r w =
      let (n, _, u, all, ends, k) =
        retry_loop-Outcome (r.max_retries + 1) r w 0 [] none (omega arith) (omega arith) in
      (n, u, λ j b. all j (omega arith) b, ends, omega arith)
