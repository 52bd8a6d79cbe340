-- ===== src/Reliability/CircuitBreaker/InFlight.antt =====
-- internal/reliability/circuit_breaker.go: the requests that run, by the generation they began in.
use k8s_operator_cloudflare.Prelude.{ℕ, suc, ◌≤◌, ◌<◌, ◌≡◌, ◌≢◌, List, [], ◌∷◌, arith, All}
use k8s_operator_cloudflare.Reliability.CircuitBreaker.Requests.{count, remove}

abbrev pub AtMost : ℕ → List ℕ → Type 0
AtMost n = All (λ g. g ≤ n)

pub AtMost-mono : {m n : ℕ} (xs : List ℕ) → m ≤ n → AtMost m xs → AtMost n xs
AtMost-mono [] h a = tt
AtMost-mono {m} {n} (x ∷ xs) h a = (omega arith, AtMost-mono {m = m} {n = n} xs h a.1)

pub remove-AtMost : (n g : ℕ) (xs : List ℕ) → AtMost n xs → AtMost n (remove g xs)
unfolding remove
remove-AtMost n g [] a = tt
remove-AtMost n g (x ∷ xs) a = ground (arith, remove-AtMost n g xs a.1)

pub count_above : (n g : ℕ) (xs : List ℕ) → AtMost n xs → n < g → count g xs ≡ 0
unfolding count
count_above n g [] a h = omega arith
count_above n g (x ∷ xs) a h = ground (arith, count_above n g xs a.1 h)

pub count-remove_self :
    (g h : ℕ) (xs : List ℕ) → g ≡ h → 0 < count g xs → count h xs ≡ suc (count h (remove g xs))
unfolding count remove
count-remove_self g h [] e p = omega arith
count-remove_self g h (x ∷ xs) e p = ground (arith, count-remove_self g h xs e)

pub count-remove_ne : (g h : ℕ) (xs : List ℕ) → g ≢ h → count h (remove g xs) ≡ count h xs
unfolding count remove
count-remove_ne g h [] p = omega arith
count-remove_ne g h (x ∷ xs) p = ground (arith, count-remove_ne g h xs p)

pub count_pos : (n g : ℕ) (xs : List ℕ) → AtMost n xs → 0 < count g xs → g ≤ n
unfolding count
count_pos n g [] a h = omega arith
count_pos n g (x ∷ xs) a h = ground (arith, count_pos n g xs a.1)
