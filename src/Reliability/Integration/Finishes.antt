-- ===== src/Reliability/Integration/Finishes.antt =====
-- internal/reliability/reliability_integration_example.go: how ExecuteWithReliability ends.
use k8s_operator_cloudflare.Prelude.{
  ℕ, zero, suc, ◌≤◌, ◌≡◌, ◌≢◌, ◌⊎◌, inl, inr, refl, ap, ◌∙◌, sym, subst, true, false, Option, none,
  some, List, [], arith, Option-cases,
}
use k8s_operator_cloudflare.Prelude.Float.{Float64}
use k8s_operator_cloudflare.Reliability.CircuitBreaker.{CircuitBreaker, Error, before_request}
use k8s_operator_cloudflare.Reliability.CircuitBreaker.Requests.{
  Outcome, ExecuteResult, rejected, finished, returned, panicked, execute,
}
use k8s_operator_cloudflare.Reliability.RateLimiter.{TokenBucketLimiter}
use k8s_operator_cloudflare.Reliability.RateLimiter.Wait
use k8s_operator_cloudflare.Reliability.RateLimiter.Wait.{
  WaitResult, granted, rate_limited, ctx_error, still_waiting, wait,
}
use k8s_operator_cloudflare.Reliability.Retry
use k8s_operator_cloudflare.Reliability.Retry.{Retryer, World, RetryResult, retry}
use k8s_operator_cloudflare.Reliability.Retry.Loop.{Ends, retry_outcome}
use k8s_operator_cloudflare.Reliability.Integration.{
  Components, Attempt, Ended, called, error_of, is_blocked, executed, asked, waited, before, ending,
  any_blocked, calls, world_of, execute_with_reliability,
}

execute-cases :
    {E : Type 0} (panic_error : E) (cb : CircuitBreaker E) (answer : Option E) (now later : ℕ)
    → let r = execute panic_error cb (λ cb'. (cb', returned answer)) now later in
      ((e : Error) × (r.1 ≡ rejected e)) ⊎ (r.1 ≡ finished (returned answer))
unfolding execute
execute-cases panic_error cb answer now later = elim (Option-cases (before_request cb now).2) [
  | inl admitted ↦ rw (admitted, execute) (inr refl)
  | inr (e, refused) ↦ rw (refused, execute) (inl (e, refl))
]

-- An attempt that returns, and calls `fn` for a nil error.
abbrev IsClean : {E : Type 0} → Option E → Ended E → Type 0
IsClean answer x =
    (is_blocked x ≡ false) × (error_of x ≡ none → (called x ≡ true) × (answer ≡ none))

module _ {ℓ} {W : Type ℓ} ⦃f : Float64 W⦄ {E : Type 0}
    (open_error limited_error panic_error : E) where
  executed-IsClean :
      (answer : Option E) (tb : TokenBucketLimiter W) (r : CircuitBreaker E × ExecuteResult E)
      → ((e : Error) × (r.1 ≡ rejected e)) ⊎ (r.1 ≡ finished (returned answer))
      → IsClean answer (executed open_error limited_error panic_error tb r).1
  executed-IsClean answer tb (cb, rejected e) h = (refl, λ n. absurd (cc))
  executed-IsClean answer tb (cb, finished (returned x)) (inl (e, h)) = absurd (cc)
  executed-IsClean answer tb (cb, finished (returned x)) (inr h) = (refl, λ n. (refl, cc))
  executed-IsClean answer tb (cb, finished panicked) (inl (e, h)) = absurd (cc)
  executed-IsClean answer tb (cb, finished panicked) (inr h) = absurd (cc)

  asked-IsClean :
      (cb : CircuitBreaker E) (tb : TokenBucketLimiter W) (now done : ℕ)
      (answer : Option (Outcome E)) (e : Option E)
      → answer ≡ some (returned e)
      → IsClean e (asked open_error limited_error panic_error cb tb now done answer).1
  unfolding asked
  asked-IsClean cb tb now done answer e h =
      subst (λ x. IsClean e (asked open_error limited_error panic_error cb tb now done x).1) (sym h)
        (executed-IsClean e tb _ (execute-cases panic_error cb e now done))

  waited-IsClean :
      (cb : CircuitBreaker E) (a : Attempt E) (e : Option E)
      (r : TokenBucketLimiter W × List Wait.Event × WaitResult E)
      → a.answer ≡ some (returned e)
      → r.2 ≢ still_waiting
      → IsClean e (waited open_error limited_error panic_error cb a r).1
  unfolding waited
  waited-IsClean cb a e (tb, log, granted) returns h =
      asked-IsClean cb tb a.asked_at a.done_at a.answer e returns
  waited-IsClean cb a e (tb, log, rate_limited) returns h = (refl, λ n. absurd (cc))
  waited-IsClean cb a e (tb, log, ctx_error x) returns h = (refl, λ n. absurd (cc))
  waited-IsClean cb a e (tb, log, still_waiting) returns h = absurd (h refl)

  module _ (c : Components W E) (a : ℕ → Attempt E) where
    calls-le : (n : ℕ) → calls open_error limited_error panic_error c a n ≤ n
    unfolding calls
    calls-le zero = omega arith
    calls-le (suc n) = ground (arith, calls-le n)

    -- The waits of the attempts up to the given number end.
    abbrev pub WaitsEnd : ℕ → Type 0
    WaitsEnd most =
        (i : ℕ)
        → i ≤ most
        → (wait (before open_error limited_error panic_error c a i).rate_limiter (a i).turns []).2
          ≢ still_waiting

    -- The function, where an attempt up to the given number calls it, returns.
    abbrev pub Returns : ℕ → Type 0
    Returns most = (i : ℕ) → i ≤ most → (e : Option E) × ((a i).answer ≡ some (returned e))

    module _ (most : ℕ) (waits : WaitsEnd most) (returns : Returns most) where
      ending-IsClean :
          (i : ℕ) (b : i ≤ most)
          → IsClean (returns i b).0 (ending open_error limited_error panic_error c a i)
      unfolding ending
      ending-IsClean i b =
          waited-IsClean _ (a i) (returns i b).0
            (wait (before open_error limited_error panic_error c a i).rate_limiter (a i).turns [])
            (returns i b).1 (waits i b)

      none_blocked :
          (n : ℕ) → n ≤ suc most → any_blocked open_error limited_error panic_error c a n ≡ false
      unfolding any_blocked
      none_blocked zero b = refl
      none_blocked (suc n) b =
          rw (none_blocked n (omega arith), (ending-IsClean n (omega arith)).0) refl

    -- If the waits for the limiter end, and the function returns where it is called, so that it neither
    -- panics nor blocks, ExecuteWithReliability returns: after n + 1 attempts, of which n are retries
    -- and at most MaxRetries, it leaves the limiter and the breaker as these attempts do, and has
    -- called the function at most once for each. If it returns nil, the last attempt called the
    -- function, which returned nil: neither the limiter nor the breaker makes a success.
    pub execute_with_reliability-returns :
        (r : Retryer W E) (w : World W E)
        → WaitsEnd r.max_retries
        → Returns r.max_retries
        → (result : RetryResult E) × (n : ℕ) × (execute_with_reliability open_error limited_error
              panic_error r w c a
            ≡ some (result, before open_error limited_error panic_error c a (suc n)))
          × (n ≤ r.max_retries)
          × (calls open_error limited_error panic_error c a (suc n) ≤ suc n)
          × (result ≡ Retry.ok
              → (called (ending open_error limited_error panic_error c a n) ≡ true)
                × ((a n).answer ≡ some (returned none)))
    unfolding execute_with_reliability world_of
    execute_with_reliability-returns r w waits returns =
        let (n, u, _, ends, made) =
          retry_outcome r (world_of open_error limited_error panic_error w c a) in
        (
          (retry r (world_of open_error limited_error panic_error w c a)).1,
          n,
          rw (made, none_blocked r.max_retries waits returns (suc n) (omega arith)) refl,
          u,
          calls-le (suc n),
          λ success.
              let (was_called, nil) = (ending-IsClean r.max_retries waits returns n u).1 (
                subst (Ends r (world_of open_error limited_error panic_error w c a) n) success
                  ends) in
              (was_called, (returns n u).1 ∙ ap (λ x. some (returned x)) nil),
        )
