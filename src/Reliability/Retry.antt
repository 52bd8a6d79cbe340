-- ===== src/Reliability/Retry.antt =====
-- internal/reliability/retry.go: the retry loop and its delays. What the run meets from outside is a
-- `World`, by the number of the attempt: the function's error, the context's error, how the wait
-- ends, and the random number. The metrics and OnRetry are entries of a log, newest first.
pub mod Substring
pub mod Classify
pub mod Delay
pub mod Loop
mod Tests
use k8s_operator_cloudflare.Prelude.{
  ℕ, zero, suc, ◌+◌, ◌-◌, ◌*◌, Bool, true, false, not, Option, none, some, List, [], ◌∷◌, leb,
  is_some, if◌then◌else◌, ℤ, pos, negsuc, pos_part, neg_part, ltb_ℤ, is_zero, millisecond, second,
  sub_ℕ, or_default,
}
use k8s_operator_cloudflare.Prelude.Float.{Float64}

-- `none` is a nil function. OnRetry is always logged.
pub record RetryConfig {ℓ} (W : Type ℓ) (E : Type 0) : Type ℓ where
  pub max_retries : ℤ
  pub initial_delay : ℤ
  pub max_delay : ℤ
  pub multiplier : W
  pub jitter : Bool
  pub retryable_checker : Option (Option E → Bool)

-- A retryer's configuration, after the defaults.
pub record Retryer {ℓ} (W : Type ℓ) (E : Type 0) : Type ℓ where
  pub max_retries : ℕ
  pub initial_delay : ℤ
  pub max_delay : ℤ
  pub multiplier : W
  pub jitter : Bool
  pub retryable_checker : Option E → Bool

pub record World {ℓ} (W : Type ℓ) (E : Type 0) : Type ℓ where
  pub call : ℕ → Option E
  pub ctx_err : ℕ → Option E
  -- `none` is the timer, `some` the error of the context that ended the wait.
  pub wait : ℕ → Option E
  pub random : ℕ → W

pub data Event (E : Type 0) : Type 0 where
  attempted : ℕ → Event E
  retrying : ℕ → ℤ → E → Event E
  succeeded : ℕ → Event E
  failed : Event E

-- `exhausted n e` is "operation failed after n attempts: e".
pub data RetryResult (E : Type 0) : Type 0 where
  ok : RetryResult E
  ctx_error : E → RetryResult E
  exhausted : ℕ → Option E → RetryResult E

-- How one round of the loop ends: with `return` or `break`, or with another round.
pub data Round (E : Type 0) : Type 0 where
  leave : List (Event E) → RetryResult E → Round E
  again : List (Event E) → E → Round E

module _ {ℓ} {W : Type ℓ} ⦃f : Float64 W⦄ where
  -- `config.Multiplier == 0`.
  is_nought : W → Bool
  is_nought x = if f.le x (f.lit 0 0) then f.le (f.lit 0 0) x else false

  -- `rand.Float64()` gives `random`.
  unfoldable pub add_jitter : W → W → W
  add_jitter random delay =
      f.add delay (f.mul (f.sub (f.mul random (f.lit 2 0)) (f.lit 1 0)) (f.mul delay (f.lit 25 2)))

module _ {ℓ} {W : Type ℓ} ⦃f : Float64 W⦄ {E : Type 0} where
  unfoldable pub new_retryer : (Option E → Bool) → RetryConfig W E → Retryer W E
  unfolding is_nought
  new_retryer default_checker c = record {
    max_retries = pos_part c.max_retries;
    initial_delay = if is_zero c.initial_delay then pos (100 * millisecond) else c.initial_delay;
    max_delay = if is_zero c.max_delay then pos (30 * second) else c.max_delay;
    multiplier = if is_nought c.multiplier then f.lit 20 1 else c.multiplier;
    jitter = c.jitter;
    retryable_checker = or_default c.retryable_checker default_checker;
  }

  -- The delay before the limit and the jitter.
  unfoldable pub backoff : Retryer W E → ℤ → W
  backoff r attempt =
      f.mul (f.of_ℤ r.initial_delay)
        (f.pow r.multiplier (f.of_ℤ (sub_ℕ (pos_part attempt) (neg_part attempt + 1))))

  unfoldable pub limit : Retryer W E → W → W
  limit r delay = if f.lt (f.of_ℤ r.max_delay) delay then f.of_ℤ r.max_delay else delay

  unfoldable pub raise : Retryer W E → W → W
  raise r delay = if f.lt delay (f.lit 0 0) then f.of_ℤ r.initial_delay else delay

  unfoldable pub calculate_delay : Retryer W E → ℤ → W → ℤ
  calculate_delay r attempt random =
      let delay = limit r (backoff r attempt) in
      f.to_duration (if r.jitter then limit r (raise r (add_jitter random delay)) else delay)

  -- Where `break` leads.
  abbrev pub give_up : Retryer W E → List (Event E) → E → Round E
  give_up r log e = leave (failed ∷ log) (exhausted (r.max_retries + 1) (some e))

  after_delay : World W E → ℕ → List (Event E) → E → Round E
  after_delay w attempt log e = elim (w.wait attempt) [
    | none ↦ again log e
    | some c ↦ leave log (ctx_error c)
  ]

  retry_later : Retryer W E → World W E → ℕ → List (Event E) → E → Round E
  unfolding after_delay
  retry_later r w attempt log e = elim (w.ctx_err attempt) [
    | some c ↦ leave log (ctx_error c)
    | none ↦
        after_delay w attempt
          (retrying (attempt + 1) (calculate_delay r (pos (attempt + 1)) (w.random attempt)) e
            ∷ log)
          e
  ]

  unfoldable pub round : Retryer W E → World W E → ℕ → List (Event E) → Round E
  unfolding retry_later
  round r w attempt log = elim (w.call attempt) [
    | none ↦ leave (succeeded attempt ∷ attempted attempt ∷ log) ok
    | some e ↦
        if not (r.retryable_checker (some e))
        then give_up r (attempted attempt ∷ log) e
        else if leb r.max_retries attempt
        then give_up r (attempted attempt ∷ log) e
        else retry_later r w attempt (attempted attempt ∷ log) e
  ]

  -- `rounds` are left before the loop's own test fails.
  unfoldable pub retry_loop :
      ℕ → Retryer W E → World W E → ℕ → List (Event E) → Option E → List (Event E) × RetryResult E
  retry_loop zero r w attempt log last = (failed ∷ log, exhausted (r.max_retries + 1) last)
  retry_loop (suc rounds) r w attempt log last = elim (round r w attempt log) [
    | leave log' result ↦ (log', result)
    | again log' e ↦ retry_loop rounds r w (suc attempt) log' (some e)
  ]

  unfoldable pub retry : Retryer W E → World W E → List (Event E) × RetryResult E
  unfolding retry_loop
  retry r w = retry_loop (r.max_retries + 1) r w 0 [] none

-- The predefined configurations; `cloudflare_retryable` is the checker of the last.
module _ {ℓ} {W : Type ℓ} ⦃f : Float64 W⦄ {E : Type 0} where
  unfoldable pub default_retry_config : RetryConfig W E
  default_retry_config = record {
    max_retries = pos 3;
    initial_delay = pos (100 * millisecond);
    max_delay = pos (30 * second);
    multiplier = f.lit 20 1;
    jitter = true;
    retryable_checker = none;
  }

  unfoldable pub aggressive_retry_config : RetryConfig W E
  aggressive_retry_config = record {
    max_retries = pos 5;
    initial_delay = pos (50 * millisecond);
    max_delay = pos (10 * second);
    multiplier = f.lit 15 1;
    jitter = true;
    retryable_checker = none;
  }

  unfoldable pub conservative_retry_config : RetryConfig W E
  conservative_retry_config = record {
    max_retries = pos 2;
    initial_delay = pos (500 * millisecond);
    max_delay = pos (60 * second);
    multiplier = f.lit 30 1;
    jitter = true;
    retryable_checker = none;
  }

  unfoldable pub cloudflare_retry_config : (Option E → Bool) → RetryConfig W E
  cloudflare_retry_config cloudflare_retryable = record {
    max_retries = pos 3;
    initial_delay = pos (200 * millisecond);
    max_delay = pos (30 * second);
    multiplier = f.lit 20 1;
    jitter = true;
    retryable_checker = some cloudflare_retryable;
  }
