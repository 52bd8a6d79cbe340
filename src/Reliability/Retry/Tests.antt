-- ===== src/Reliability/Retry/Tests.antt =====
-- internal/reliability/retry.go: runs with numbers for errors, and thousandths for floats.
use k8s_operator_cloudflare.Prelude.{
  ℕ, suc, ◌*◌, ◌≤◌, ◌<◌, ◌≡◌, ◌↔◌, refl, true, false, none, some, List, [], ◌∷◌, pos, millisecond,
  codes, leb, if◌then◌else◌,
}
use k8s_operator_cloudflare.Prelude.Fixed.{Thousandths, fixed}
use k8s_operator_cloudflare.Reliability.Retry.{
  Retryer, World, retry, round, new_retryer, calculate_delay, backoff, limit, raise, add_jitter,
  default_retry_config, attempted, retrying, succeeded, ok,
}
use k8s_operator_cloudflare.Reliability.Retry.Substring.{bytes_eq, contains, Occurs, contains_iff}
use k8s_operator_cloudflare.Reliability.Retry.Classify.{
  ErrorApi, default_retryable_checker, cloudflare_retryable,
}
use k8s_operator_cloudflare.Reliability.Retry.Loop.{GoesOn, Ends, attempts, retry_outcome}

-- An error is its text.
abbrev api : ErrorApi (List ℕ)
api = record { message = λ e. e; is_context_error = λ e. bytes_eq e (codes "context canceled") }

-- The text of a missing record holds "500" in the identifier, and is retried.
not_found_retried : cloudflare_retryable api (some (codes "record 15004 not found (404)")) ≡ true
unfolding cloudflare_retryable contains bytes_eq
not_found_retried = refl

-- The search tells capitals apart.
capitals : contains (codes "Timeout") (codes "timeout") ≡ false
unfolding contains
capitals = refl

abbrev retryer : Retryer Thousandths (List ℕ)
retryer = new_retryer (default_retryable_checker api) default_retry_config

-- Two timeouts, then success.
abbrev world : World Thousandths (List ℕ)
world = record {
  call = λ n. if leb 2 n then none else some (codes "timeout");
  ctx_err = λ n. none;
  wait = λ n. none;
  random = λ n. pos 500;
}

third_attempt : retry retryer world ≡ (
  succeeded 2
      ∷ attempted 2
      ∷ retrying 2 (pos (200 * millisecond)) (codes "timeout")
      ∷ attempted 1
      ∷ retrying 1 (pos (100 * millisecond)) (codes "timeout")
      ∷ attempted 0
      ∷ [],
  ok,
)
unfolding retry round new_retryer default_retry_config default_retryable_checker calculate_delay
    backoff limit raise add_jitter bytes_eq
third_attempt = refl

contains_iff_example :
    (contains (codes "a 429") (codes "429") ≡ true) ↔ Occurs (codes "429") (codes "a 429")
contains_iff_example = contains_iff (codes "a 429") (codes "429")

retry_outcome_example :
    let (log, result) = retry retryer world in
    (n : ℕ) × (n ≤ retryer.max_retries)
    × ((j : ℕ) → j < n → GoesOn retryer world j)
    × Ends retryer world n result
    × (attempts log ≡ suc n)
retry_outcome_example = retry_outcome retryer world
