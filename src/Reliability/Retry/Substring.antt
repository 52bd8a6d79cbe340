-- ===== src/Reliability/Retry/Substring.antt =====
-- internal/reliability/retry.go: `contains` and `indexInString`, on the bytes of the texts.
use mathlib.Core.List.{append-nil}
use native.Mathlib.Decide.{ℕ_discrete}
use k8s_operator_cloudflare.Prelude.{
  ℕ, zero, suc, ◌+◌, ◌-◌, ◌≤◌, ◌<◌, ◌≡◌, ◌↔◌, refl, sym, ap, ◌∙◌, ◌⊎◌, inl, inr, Bool, true, false,
  not, ◌&&◌, ◌||◌, List, [], ◌∷◌, ◌++◌, arith, ltb, leb, ◌==◌, if◌then◌else◌, length, length-append,
  drop, take, take-append-drop, ℤ, pos, negsuc, Bool-cases,
}

-- `s == t` on strings.
unfoldable pub bytes_eq : List ℕ → List ℕ → Bool
bytes_eq [] [] = true
bytes_eq (x ∷ xs) (y ∷ ys) = x == y && bytes_eq xs ys
bytes_eq _ _ = false

-- `s[i:i+len(substr)] == substr`.
unfoldable pub occurs_at : List ℕ → List ℕ → ℕ → Bool
unfolding bytes_eq
occurs_at s substr i = bytes_eq (take (length substr) (drop i s)) substr

-- The rounds left, and `i`.
unfoldable pub index_from : ℕ → List ℕ → List ℕ → ℕ → ℤ
unfolding occurs_at
index_from zero s substr i = negsuc 0
index_from (suc rounds) s substr i =
    let rest = index_from rounds s substr (suc i) in if occurs_at s substr i then pos i else rest

-- There are len(s) - len(substr) + 1 rounds, or none where that is negative.
unfoldable pub index_in_string : List ℕ → List ℕ → ℤ
unfolding index_from
index_in_string s substr = index_from (length s + 1 - length substr) s substr 0

abbrev is_minus_one : ℤ → Bool
is_minus_one (pos n) = false
is_minus_one (negsuc n) = n == 0

unfoldable pub contains : List ℕ → List ℕ → Bool
unfolding bytes_eq index_in_string
contains s substr =
    leb (length substr) (length s)
    && (bytes_eq s substr
        || (ltb (length substr) (length s)
            && (bytes_eq (take (length substr) s) substr
                || (bytes_eq (drop (length s - length substr) s) substr
                    || not (is_minus_one (index_in_string s substr))))))

bytes_eq_iff : (s t : List ℕ) → (bytes_eq s t ≡ true) ↔ (s ≡ t)
unfolding bytes_eq
bytes_eq_iff [] [] = (λ _. refl, λ _. refl)
bytes_eq_iff [] (y ∷ ys) = (λ h. cc, λ h. cc)
bytes_eq_iff (x ∷ xs) [] = (λ h. cc, λ h. cc)
bytes_eq_iff (x ∷ xs) (y ∷ ys) =
    (λ h. ground (arith, (bytes_eq_iff xs ys).0), λ h. ground (arith, (bytes_eq_iff xs ys).1))

-- `substr` stands in `s`.
abbrev pub Occurs : List ℕ → List ℕ → Type 0
Occurs substr s = (before : List ℕ) × (after : List ℕ) × (s ≡ before ++ (substr ++ after))

occurs_at-Occurs : (s substr : List ℕ) (i : ℕ) → occurs_at s substr i ≡ true → Occurs substr s
unfolding occurs_at
occurs_at-Occurs s substr i h =
    let rest = drop (length substr) (drop i s) in
    (
      take i s,
      rest,
      sym (take-append-drop i s)
          ∙ ap (λ t. take i s ++ t)
              (sym (take-append-drop (length substr) (drop i s))
                ∙ ap (λ t. t ++ rest) ((bytes_eq_iff _ _).0 h)),
    )

drop-append : (xs ys : List ℕ) → drop (length xs) (xs ++ ys) ≡ ys
drop-append [] ys = refl
drop-append (x ∷ xs) ys = drop-append xs ys

take-append : (xs ys : List ℕ) → take (length xs) (xs ++ ys) ≡ xs
take-append [] ys = refl
take-append (x ∷ xs) ys = ap (λ t. x ∷ t) (take-append xs ys)

Occurs-occurs_at :
    (substr before after : List ℕ)
    → occurs_at (before ++ (substr ++ after)) substr (length before) ≡ true
unfolding occurs_at
Occurs-occurs_at substr before after =
    (bytes_eq_iff _ _).1
      (ap (take (length substr)) (drop-append before (substr ++ after)) ∙ take-append substr after)

-- The first position from `i` on at which `substr` stands, if the rounds reach one.
abbrev IsFirst : ℕ → List ℕ → List ℕ → ℕ → ℤ → Type 0
IsFirst rounds s substr i r =
    ((r ≡ negsuc 0) × ((j : ℕ) → i ≤ j → j < i + rounds → occurs_at s substr j ≡ false))
    ⊎ ((m : ℕ) × (r ≡ pos m)
        × (occurs_at s substr m ≡ true)
        × (i ≤ m)
        × ((j : ℕ) → i ≤ j → j < m → occurs_at s substr j ≡ false))

index_from-IsFirst :
    (rounds : ℕ) (s substr : List ℕ) (i : ℕ)
    → IsFirst rounds s substr i (index_from rounds s substr i)
unfolding index_from
index_from-IsFirst zero s substr i = inl (refl, λ j h k. absurd (omega arith))
index_from-IsFirst (suc rounds) s substr i = elim (Bool-cases (occurs_at s substr i)) [
  | inl e ↦ inr (i, rw e, e, omega arith, λ j h k. absurd (omega arith))
  | inr e ↦ rw e (later e (index_from-IsFirst rounds s substr (suc i)))
]
  where
    skip :
        occurs_at s substr i ≡ false
        → (j : ℕ) → i ≤ j
        → (suc i ≤ j → occurs_at s substr j ≡ false)
        → occurs_at s substr j ≡ false
    skip e j h rest = elim (ℕ_discrete i j) [
      | yes same ↦ rw (← same) e
      | no other ↦ rest (omega arith)
    ]

    later :
        {r : ℤ}
        → occurs_at s substr i ≡ false
        → IsFirst rounds s substr (suc i) r
        → IsFirst (suc rounds) s substr i r
    later e (inl (n, all)) = inl (n, λ j h k. skip e j h (λ l. all j l (omega arith)))
    later e (inr (m, r, o, l, before)) =
        inr (m, r, o, omega arith, λ j h k. skip e j h (λ q. before j q k))

room :
    (s substr before after : List ℕ)
    → s ≡ before ++ (substr ++ after)
    → length before + length substr + length after ≡ length s
room s substr before after e =
    omega (arith, ap length e, length-append before (substr ++ after), length-append substr after)

-- `indexInString` gives the first position at which the text stands, and -1 exactly where it stands
-- nowhere.
pub index_in_string_first :
    (s substr : List ℕ)
    → ((index_in_string s substr ≡ negsuc 0) × ¬ Occurs substr s)
      ⊎ ((m : ℕ) × (index_in_string s substr ≡ pos m)
          × (occurs_at s substr m ≡ true)
          × ((j : ℕ) → j < m → occurs_at s substr j ≡ false))
unfolding index_in_string
index_in_string_first s substr =
    elim (index_from-IsFirst (length s + 1 - length substr) s substr 0) [
      | inl (n, none_found) ↦ inl (n, nowhere none_found)
      | inr (m, r, o, _, before) ↦ inr (m, r, o, λ j k. before j (omega arith) k)
    ]
  where
    nowhere :
        ((j : ℕ) → 0 ≤ j → j < 0 + (length s + 1 - length substr) → occurs_at s substr j ≡ false)
        → ¬ Occurs substr s
    nowhere none_found (before, after, e) = cc (
      none_found (length before) (omega arith) (omega (arith, room s substr before after e)),
      ap (λ t. occurs_at t substr (length before)) e,
      Occurs-occurs_at substr before after,
    )

whole :
    (s substr before after : List ℕ)
    → s ≡ before ++ (substr ++ after)
    → length s ≤ length substr
    → s ≡ substr
whole s substr [] [] e h = e ∙ append-nil substr
whole s substr [] (x ∷ after) e h = absurd (omega (arith, room s substr [] (x ∷ after) e))
whole s substr (x ∷ before) after e h = absurd (omega (arith, room s substr (x ∷ before) after e))

contains_cases :
    (s substr : List ℕ)
    → contains s substr ≡ true
    → (bytes_eq s substr ≡ true)
      ⊎ (bytes_eq (take (length substr) s) substr ≡ true)
      ⊎ (bytes_eq (drop (length s - length substr) s) substr ≡ true)
      ⊎ (is_minus_one (index_in_string s substr) ≡ false)
unfolding contains
contains_cases s substr h = ground arith

not_minus_one-Occurs :
    (s substr : List ℕ) → is_minus_one (index_in_string s substr) ≡ false → Occurs substr s
not_minus_one-Occurs s substr h = elim (index_in_string_first s substr) [
  | inl (e, _) ↦ cc (ap is_minus_one e)
  | inr (m, _, o, _) ↦ occurs_at-Occurs s substr m o
]

contains-Occurs : (s substr : List ℕ) → contains s substr ≡ true → Occurs substr s
contains-Occurs s substr h = elim (contains_cases s substr h) [
  | inl e ↦ ([], [], (bytes_eq_iff _ _).0 e ∙ sym (append-nil substr))
  | inr (inl e) ↦ (
    [],
    drop (length substr) s,
    sym (take-append-drop (length substr) s)
        ∙ ap (λ t. t ++ drop (length substr) s) ((bytes_eq_iff _ _).0 e),
  )
  | inr (inr (inl e)) ↦ (
    take (length s - length substr) s,
    [],
    sym (take-append-drop (length s - length substr) s)
        ∙ ap (λ t. take (length s - length substr) s ++ t)
            ((bytes_eq_iff _ _).0 e ∙ sym (append-nil substr)),
  )
  | inr (inr (inr e)) ↦ not_minus_one-Occurs s substr e
]

Occurs-not_minus_one :
    (s substr : List ℕ) → Occurs substr s → is_minus_one (index_in_string s substr) ≡ false
Occurs-not_minus_one s substr o = elim (index_in_string_first s substr) [
  | inl (_, n) ↦ absurd (n o)
  | inr (m, e, _, _) ↦ ap is_minus_one e
]

Occurs-contains : (s substr : List ℕ) → Occurs substr s → contains s substr ≡ true
unfolding contains
Occurs-contains s substr (before, after, e) = ground (
  arith,
  room s substr before after e,
  λ (h : length s ≤ length substr). (bytes_eq_iff s substr).1 (whole s substr before after e h),
  Occurs-not_minus_one s substr (before, after, e),
)

-- `contains` decides whether one text stands in the other: its quick tests of the ends change
-- nothing.
pub contains_iff : (s substr : List ℕ) → (contains s substr ≡ true) ↔ Occurs substr s
contains_iff s substr = (contains-Occurs s substr, Occurs-contains s substr)
