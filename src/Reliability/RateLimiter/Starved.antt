-- ===== src/Reliability/RateLimiter/Starved.antt =====
-- internal/reliability/rate_limiter.go: how many requests pass, in the two extremes.
use k8s_operator_cloudflare.Prelude.{
  ℕ, zero, suc, ◌+◌, ◌%◌, ◌^◌, ◌≤◌, ◌≡◌, ◌≢◌, refl, ap, ◌∙◌, ◌⊎◌, inl, inr, true, false, List, [],
  ◌∷◌, arith, ℤ, pos, ◌≤ℤ◌, Bool-cases, sub_ℕ, replicate, if◌then◌else◌,
}
use k8s_operator_cloudflare.Prelude.Float.{Float64, ◌≼◌, IsNumber, IsExact, IsOrdered, Computes}
use k8s_operator_cloudflare.Reliability.RateLimiter.{
  RateLimiterType, unset_type, token_bucket, sliding_window, fixed_window, other_type, by_type,
  set_defaults, new_rate_limiter, RateLimiterConfig, TokenBucketLimiter, min_val, seconds,
  refill_tokens, allow, reserve,
}
use k8s_operator_cloudflare.Reliability.RateLimiter.Wait.{
  Turn, granted, Round, leave, again, Event, round, wait, after_reserve,
}

sub_same : (m n : ℕ) → n ≡ m → sub_ℕ m n ≡ pos 0
sub_same m n e = ground arith

module _ {ℓ} {W : Type ℓ} ⦃f : Float64 W⦄ where
  -- How many of the calls of `Allow` at these times are granted.
  unfoldable pub granted_calls : TokenBucketLimiter W → List ℕ → ℕ
  granted_calls tb [] = 0
  granted_calls tb (now ∷ times) =
      let (tb', admitted) = allow tb now in
      let rest = granted_calls tb' times in if admitted then suc rest else rest

  module _ (order : IsOrdered W) (comp : Computes W) where
    open order use {le_of_lt, le_of_not_lt, le_trans, number_of_le, not_le_of_lt}
    open comp use {sub_one, one_pos}

    no_token : (x y : W) → x ≼ y → f.lt y (f.lit 1 0) ≡ true → f.le (f.lit 1 0) x ≡ false
    no_token x y h l = elim (Bool-cases (f.le (f.lit 1 0) x)) [
      | inl e ↦ cc (le_trans _ _ _ e h, not_le_of_lt _ _ l)
      | inr e ↦ e
    ]

    min_val_le : (a b : W) → IsNumber b → min_val a b ≼ b
    unfolding min_val
    min_val_le a b n = elim (Bool-cases (f.lt a b)) [
      | inl e ↦ rw e (le_of_lt a b e)
      | inr e ↦ rw e n
    ]

    refill_small :
        (tb : TokenBucketLimiter W) (now : ℕ)
        → f.lt tb.max_tokens (f.lit 1 0) ≡ true
        → f.le (f.lit 1 0) (refill_tokens tb now).tokens ≡ false
    unfolding refill_tokens
    refill_small tb now h =
        no_token _ tb.max_tokens (min_val_le _ tb.max_tokens (number_of_le _ _ (le_of_lt _ _ h)).0)
          h

    allow_full :
        (tb : TokenBucketLimiter W) (now : ℕ)
        → f.le (f.lit 1 0) (refill_tokens tb now).tokens ≡ true
        → allow tb now ≡ (
          record (refill_tokens tb now) {
            tokens = f.sub (refill_tokens tb now).tokens (f.lit 1 0);
            allowed = ((refill_tokens tb now).allowed + 1) % 2 ^ 64;
          },
          true,
        )
    unfolding allow
    allow_full tb now e = rw e

    allow_empty :
        (tb : TokenBucketLimiter W) (now : ℕ)
        → f.le (f.lit 1 0) (refill_tokens tb now).tokens ≡ false
        → (n : ℕ) × (allow tb now ≡ (record (refill_tokens tb now) { rejected = n }, false))
    unfolding allow
    allow_empty tb now e = (((refill_tokens tb now).rejected + 1) % 2 ^ 64, rw e)

    after_reserve_not_granted :
        {E : Type 0} (tb : TokenBucketLimiter W) (delay : ℤ) (turn : Turn E) (log log' : List Event)
        → after_reserve tb delay turn log ≢ leave log' granted
    unfolding after_reserve
    after_reserve_not_granted tb delay turn log log' e = ground arith

    -- A round without a token neither grants the request nor changes the maximum.
    round_small :
        {E : Type 0} (tb : TokenBucketLimiter W) (turn : Turn E) (log : List Event)
        → f.lt tb.max_tokens (f.lit 1 0) ≡ true
        → ((round tb turn log).0.max_tokens ≡ tb.max_tokens)
          × ((log' : List Event) → (round tb turn log).1 ≢ leave log' granted)
    unfolding round reserve refill_tokens
    round_small tb turn log h =
        let (n, e) = allow_empty tb turn.allow_at (refill_small tb turn.allow_at h) in
        rw e (refl, λ log'. after_reserve_not_granted _ _ turn log log')

    -- A bucket whose maximum is below one token grants nothing: `Wait` never returns nil.
    pub wait_never_granted :
        {E : Type 0} (tb : TokenBucketLimiter W) (turns : List (Turn E)) (log : List Event)
        → f.lt tb.max_tokens (f.lit 1 0) ≡ true
        → (wait tb turns log).2 ≢ granted
    unfolding wait
    wait_never_granted tb [] log h = λ e. cc
    wait_never_granted {E} tb (turn ∷ turns) log h = go (round tb turn log).1 refl (λ log'.
        wait_never_granted (round tb turn log).0 turns log'
          (ap (λ m. f.lt m (f.lit 1 0)) (round_small tb turn log h).0 ∙ h))
      where
        go :
            (r : Round E)
            → (round tb turn log).1 ≡ r
            → ((log' : List Event) → (wait (round tb turn log).0 turns log').2 ≢ granted)
            → (wait tb (turn ∷ turns) log).2 ≢ granted
        go (leave log' result) e rest =
            rw (e, wait) (λ g. (round_small tb turn log h).1 log' (e ∙ ap (leave log') g))
        go (again log') e rest = rw (e, wait) (rest log')

    -- The clock stands, and the refill adds nothing.
    pub record IsStill (tb : TokenBucketLimiter W) : Type ℓ where
      pub number_max : IsNumber tb.max_tokens
      pub adds_nothing : (x : W) → IsNumber x → f.add x (f.mul tb.refill_rate (seconds (pos 0))) ≼ x

    min_val_le_left : (a b : W) → IsNumber a → IsNumber b → min_val a b ≼ a
    unfolding min_val
    min_val_le_left a b n m = elim (Bool-cases (f.lt a b)) [
      | inl e ↦ rw e n
      | inr e ↦ rw e (le_of_not_lt b a m n e)
    ]

    refill_still :
        (tb : TokenBucketLimiter W) (now : ℕ)
        → tb.last_refill ≡ now
        → IsStill tb
        → IsNumber tb.tokens
        → (refill_tokens tb now).tokens ≼ tb.tokens
    unfolding refill_tokens
    refill_still tb now e s n =
        let grown = s.adds_nothing tb.tokens n in
        rw (sub_same now tb.last_refill e)
          (le_trans _ _ _ (min_val_le_left _ _ (number_of_le _ _ grown).0 s.number_max) grown)

    -- A token taken leaves room for one fewer.
    one_fewer :
        (k : ℕ) (x : W)
        → IsExact (pos k)
        → x ≼ f.of_ℤ (pos k)
        → f.le (f.lit 1 0) x ≡ true
        → (j : ℕ) × (k ≡ suc j) × (f.sub x (f.lit 1 0) ≼ f.of_ℤ (pos j))
    one_fewer zero x e h l = cc (le_trans _ _ _ l h, not_le_of_lt _ _ one_pos)
    one_fewer (suc k) x e h l = (k, refl, sub_one k x e h)

    allow_cases :
        (tb : TokenBucketLimiter W) (now : ℕ)
        → let x = refill_tokens tb now in
          ((m : ℕ) × (f.le (f.lit 1 0) x.tokens ≡ true)
            × (allow tb now
                ≡ (record x { tokens = f.sub x.tokens (f.lit 1 0); allowed = m }, true)))
          ⊎ ((m : ℕ) × (f.le (f.lit 1 0) x.tokens ≡ false)
              × (allow tb now ≡ (record x { rejected = m }, false)))
    allow_cases tb now = elim (Bool-cases (f.le (f.lit 1 0) (refill_tokens tb now).tokens)) [
      | inl e ↦ inl (_, e, allow_full tb now e)
      | inr e ↦ let (m, q) = allow_empty tb now e in inr (m, e, q)
    ]

    record_IsStill :
        (tb tb' : TokenBucketLimiter W)
        → tb'.max_tokens ≡ tb.max_tokens
        → tb'.refill_rate ≡ tb.refill_rate
        → IsStill tb
        → IsStill tb'
    record_IsStill tb tb' m r s = record {
      number_max = rw m s.number_max;
      adds_nothing = λ x n. rw r (s.adds_nothing x n);
    }

    -- Over floats as IEEE 754 says, in a limiter whose refills of no time add nothing (IsStill), for
    -- calls at the moment of the last refill: from at most `k` tokens at most `k` are granted, however
    -- many there are.
    pub burst_le :
        (n k now : ℕ) (tb : TokenBucketLimiter W)
        → tb.last_refill ≡ now
        → IsStill tb
        → IsExact (pos k)
        → tb.tokens ≼ f.of_ℤ (pos k)
        → granted_calls tb (replicate n now) ≤ k
    unfolding granted_calls refill_tokens
    burst_le zero k now tb e s x h = omega arith
    burst_le (suc n) k now tb e s x h = elim (allow_cases tb now) [
      | inl (m, l, q) ↦
          let (j, d, u) = one_fewer k (refill_tokens tb now).tokens x below l in
          rw q (
            omega (
              arith,
              burst_le n j now
                  (record (refill_tokens tb now) {
                    tokens = f.sub (refill_tokens tb now).tokens (f.lit 1 0);
                    allowed = m;
                  })
                  refl (record_IsStill tb _ refl refl s) (omega arith) u,
            ))
      | inr (m, l, q) ↦ rw q (
          burst_le n k now (record (refill_tokens tb now) { rejected = m }) refl
            (record_IsStill tb _ refl refl s) x below)
    ]
      where
        below : (refill_tokens tb now).tokens ≼ f.of_ℤ (pos k)
        below = le_trans _ _ _ (refill_still tb now e s (number_of_le _ _ h).0) h

    by_type-max_tokens :
        (t : RateLimiterType) (c : RateLimiterConfig W) (now : ℕ)
        → (by_type t c now).max_tokens ≡ f.of_ℤ c.burst_size
    unfolding by_type
    by_type-max_tokens token_bucket c now = refl
    by_type-max_tokens unset_type c now = refl
    by_type-max_tokens sliding_window c now = refl
    by_type-max_tokens fixed_window c now = refl
    by_type-max_tokens other_type c now = refl

    default_burst :
        (c : RateLimiterConfig W)
        → f.le c.requests_per_second (f.lit 0 0) ≡ false
        → f.to_duration c.requests_per_second ≡ pos 0
        → c.burst_size ≤ℤ pos 0
        → (set_defaults c).burst_size ≡ pos 0
    unfolding set_defaults
    default_burst c p z b = ground arith

    -- Over floats that compare, convert and compute as IEEE 754 says: where no burst size is given and the rate is positive but below one per second, the burst size
    -- becomes the whole part of the rate, 0: `Wait` on the new limiter never returns nil.
    pub slow_rate_never_granted :
        {E : Type 0} (c : RateLimiterConfig W) (now : ℕ) (turns : List (Turn E)) (log : List Event)
        → f.le c.requests_per_second (f.lit 0 0) ≡ false
        → f.to_duration c.requests_per_second ≡ pos 0
        → c.burst_size ≤ℤ pos 0
        → (wait (new_rate_limiter c now) turns log).2 ≢ granted
    unfolding new_rate_limiter
    slow_rate_never_granted c now turns log p z b =
        wait_never_granted (by_type c.type (set_defaults c) now) turns log (
          ap (λ x. f.lt x (f.lit 1 0))
            (by_type-max_tokens c.type (set_defaults c) now
              ∙ ap (λ s. f.of_ℤ s) (default_burst c p z b))
          ∙ one_pos)
