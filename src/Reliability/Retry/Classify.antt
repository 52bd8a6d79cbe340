-- ===== src/Reliability/Retry/Classify.antt =====
-- internal/reliability/retry.go: which errors are retried. The errors belong to the callers: their
-- texts, and whether `errors.Is` finds a context error in one, are parameters.
use k8s_operator_cloudflare.Prelude.{
  ℕ, ◌≡◌, ◌↔◌, refl, ◌⊎◌, inl, inr, Bool, true, false, not, ◌||◌, Option, none, some, List, [], ◌∷◌,
  arith, String, if◌then◌else◌, codes, Bool-cases,
}
use k8s_operator_cloudflare.Reliability.Retry.Substring.{contains, Occurs, contains_iff}

pub record ErrorApi (E : Type 0) : Type 0 where
  -- err.Error(), in bytes.
  pub message : E → List ℕ
  -- errors.Is(err, context.Canceled) || errors.Is(err, context.DeadlineExceeded).
  pub is_context_error : E → Bool

abbrev pub network_error : List ℕ → Bool
network_error s =
    contains s (codes "connection refused")
    || (contains s (codes "timeout")
        || (contains s (codes "temporary failure") || contains s (codes "network is unreachable")))

abbrev pub server_error : List ℕ → Bool
server_error s =
    contains s (codes "500")
    || (contains s (codes "502") || (contains s (codes "503") || contains s (codes "504")))

abbrev pub rate_limited : List ℕ → Bool
rate_limited s = contains s (codes "429") || contains s (codes "rate limit")

abbrev pub auth_error : List ℕ → Bool
auth_error s =
    contains s (codes "401")
    || (contains s (codes "403")
        || (contains s (codes "unauthorized") || contains s (codes "forbidden")))

abbrev pub client_error : List ℕ → Bool
client_error s = contains s (codes "400") || (contains s (codes "404") || contains s (codes "422"))

classify_message : List ℕ → Bool
classify_message s =
    if network_error s
    then true
    else if server_error s
    then true
    else if rate_limited s
    then true
    else if auth_error s
    then false
    else if client_error s
    then false
    else true

module _ {E : Type 0} (api : ErrorApi E) where
  unfoldable pub default_retryable_checker : Option E → Bool
  default_retryable_checker none = false
  default_retryable_checker (some e) = if api.is_context_error e then false else true

  unfoldable pub cloudflare_retryable : Option E → Bool
  unfolding classify_message
  cloudflare_retryable none = false
  cloudflare_retryable (some e) =
      if api.is_context_error e then false else classify_message (api.message e)

-- Some marker of the list stands in the text.
abbrev pub Mentions : List String → List ℕ → Type 0
Mentions [] s = ⊥
Mentions (m ∷ ms) s = Occurs (codes m) s ⊎ Mentions ms s

abbrev pub retryable_markers : List String
retryable_markers =
    "connection refused" ∷ "timeout" ∷ "temporary failure" ∷ "network is unreachable" ∷ "500"
    ∷ "502" ∷ "503" ∷ "504" ∷ "429" ∷ "rate limit" ∷ []

abbrev pub final_markers : List String
final_markers = "401" ∷ "403" ∷ "unauthorized" ∷ "forbidden" ∷ "400" ∷ "404" ∷ "422" ∷ []

-- The same by a list, in Booleans.
any_marker : List String → List ℕ → Bool
any_marker [] s = false
any_marker (m ∷ ms) s = contains s (codes m) || any_marker ms s

any_marker-Mentions : (ms : List String) (s : List ℕ) → any_marker ms s ≡ true → Mentions ms s
unfolding any_marker
any_marker-Mentions [] s h = cc
any_marker-Mentions (m ∷ ms) s h = elim (Bool-cases (contains s (codes m))) [
  | inl e ↦ inl ((contains_iff s (codes m)).0 e)
  | inr e ↦ inr (any_marker-Mentions ms s (ground arith))
]

Mentions-any_marker : (ms : List String) (s : List ℕ) → Mentions ms s → any_marker ms s ≡ true
unfolding any_marker
Mentions-any_marker [] s h = absurd h
Mentions-any_marker (m ∷ ms) s (inl o) = rw ((contains_iff s (codes m)).1 o)
Mentions-any_marker (m ∷ ms) s (inr r) = ground (arith, Mentions-any_marker ms s r)

classify_message_lem :
    (s : List ℕ)
    → classify_message s ≡ (any_marker retryable_markers s || not (any_marker final_markers s))
unfolding classify_message any_marker
classify_message_lem s = ground arith

classify_message_iff :
    (s : List ℕ)
    → (classify_message s ≡ true) ↔ (Mentions retryable_markers s ⊎ ¬ Mentions final_markers s)
classify_message_iff s = (to, from)
  where
    to : classify_message s ≡ true → Mentions retryable_markers s ⊎ ¬ Mentions final_markers s
    to h = elim (Bool-cases (any_marker retryable_markers s)) [
      | inl e ↦ inl (any_marker-Mentions retryable_markers s e)
      | inr e ↦
          inr λ m. ground (arith, classify_message_lem s, Mentions-any_marker final_markers s m)
    ]

    from : Mentions retryable_markers s ⊎ ¬ Mentions final_markers s → classify_message s ≡ true
    from (inl m) = ground (arith, classify_message_lem s, Mentions-any_marker retryable_markers s m)
    from (inr n) = elim (Bool-cases (any_marker final_markers s)) [
      | inl e ↦ absurd (n (any_marker-Mentions final_markers s e))
      | inr e ↦ ground (arith, classify_message_lem s)
    ]

-- An error is retried by the Cloudflare checker exactly if it is no context error, and its text
-- holds one of the retryable markers or none of the final ones: the retryable markers win.
pub cloudflare_retryable_iff :
    {E : Type 0} (api : ErrorApi E) (e : E)
    → (cloudflare_retryable api (some e) ≡ true) ↔ (
        (api.is_context_error e ≡ false)
        × (Mentions retryable_markers (api.message e) ⊎ ¬ Mentions final_markers (api.message e)))
unfolding cloudflare_retryable
cloudflare_retryable_iff api e =
    let (to, from) = classify_message_iff (api.message e) in
    elim (Bool-cases (api.is_context_error e)) [
      | inl c ↦ (λ h. ground arith, λ h. ground arith)
      | inr c ↦ rw c (λ h. (refl, to h), λ h. from h.1)
    ]
