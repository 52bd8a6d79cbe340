-- ===== src/Reliability/CircuitBreaker/Requests.antt =====
-- internal/reliability/circuit_breaker.go: `Execute`, and a breaker that many goroutines share. A
-- request holds the generation that it began in until it ends; the mutex makes each half atomic.
use k8s_operator_cloudflare.Prelude.{ℕ, suc, Option, none, some, List, [], ◌∷◌, ◌==◌, if◌then◌else◌}
use k8s_operator_cloudflare.Reliability.CircuitBreaker.{
  CircuitBreaker, CircuitBreakerConfig, new_circuit_breaker, Error, before_request, after_request,
  state_of, reset,
}

-- How the function that is run ends.
pub data Outcome (E : Type 0) : Type 0 where
  returned : Option E → Outcome E
  panicked : Outcome E

pub data ExecuteResult (E : Type 0) : Type 0 where
  rejected : Error → ExecuteResult E
  finished : Outcome E → ExecuteResult E

pub data Call (E : Type 0) : Type 0 where
  begin : ℕ → Call E
  finish : ℕ → Option E → ℕ → Call E
  observe : ℕ → Call E
  reset_at : ℕ → ℕ → Call E

-- The breaker and the generations of the requests that run.
pub record System (E : Type 0) : Type 0 where
  pub breaker : CircuitBreaker E
  pub in_flight : List ℕ

unfoldable pub count : ℕ → List ℕ → ℕ
count g [] = 0
count g (x ∷ xs) = let rest = count g xs in if x == g then suc rest else rest

unfoldable pub remove : ℕ → List ℕ → List ℕ
remove g [] = []
remove g (x ∷ xs) = if x == g then xs else x ∷ remove g xs

module _ {E : Type 0} where
  -- The error that a request is counted with; a panic is wrapped in an error of its own.
  reported : E → Outcome E → Option E
  reported panic_error (returned err) = err
  reported panic_error panicked = some panic_error

  run_admitted :
      E
      → ℕ
      → CircuitBreaker E
      → (CircuitBreaker E → CircuitBreaker E × Outcome E)
      → ℕ
      → CircuitBreaker E × ExecuteResult E
  unfolding reported
  run_admitted panic_error generation cb fn done =
      let (cb', out) = fn cb in
      (after_request cb' generation (reported panic_error out) done, finished out)

  -- `fn` may change the breaker: others use it while the function runs.
  unfoldable pub execute :
      E
      → CircuitBreaker E
      → (CircuitBreaker E → CircuitBreaker E × Outcome E)
      → ℕ
      → ℕ
      → CircuitBreaker E × ExecuteResult E
  unfolding run_admitted
  execute panic_error cb fn now done =
      let (cb', generation, err) = before_request cb now in
      elim err [
        | some e ↦ (cb', rejected e)
        | none ↦ run_admitted panic_error generation cb' fn done
      ]

  unfoldable pub enter : List ℕ → CircuitBreaker E × ℕ × Option Error → System E
  enter in_flight (cb, generation, none) = record {
    breaker = cb;
    in_flight = generation ∷ in_flight;
  }
  enter in_flight (cb, generation, some e) = record { breaker = cb; in_flight = in_flight }

  -- A breaker that has just been made.
  unfoldable pub shared : CircuitBreakerConfig E → ℕ → System E
  unfolding new_circuit_breaker
  shared c now = record { breaker = new_circuit_breaker c now; in_flight = [] }

  -- A request that does not run cannot end.
  unfoldable pub step : System E → Call E → System E
  unfolding enter
  step s (begin now) = enter s.in_flight (before_request s.breaker now)
  step s (finish g err now) =
      if count g s.in_flight == 0
      then s
      else record { breaker = after_request s.breaker g err now; in_flight = remove g s.in_flight }
  step s (observe now) = record s { breaker = (state_of s.breaker now).0 }
  step s (reset_at now later) = record s { breaker = reset s.breaker now later }

  unfoldable pub run : System E → List (Call E) → System E
  run s [] = s
  run s (c ∷ cs) = run (step s c) cs
