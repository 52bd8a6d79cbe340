-- ===== src/Prelude/Fallible.antt =====
-- Go's `(value, error)` where the value is used only if the error is nil.
use mathlib.Core.Path.{◌≡◌, refl}
use mathlib.Core.Logic.{◌⊎◌, ◌≢◌, inl, inr}
use native.Mathlib.Omega.{arith}
use text.Mathlib.TextEquality.{eq_iff}
use Prim.Native.String.{String}
use mathlib.Core.List.{List, [], ◌∷◌}
use mathlib.Core.Bool.{Bool, true, false}
use text.Mathlib.Text.{◌==◌ as str_eq}
use k8s_operator_cloudflare.Prelude.Tests.{if◌then◌else◌}

pub data Fallible (E A : Type 0) : Type 0 where
  ok : A → Fallible E A
  err : E → Fallible E A

infixl 5 ◌>>=◌
abbrev pub ◌>>=◌ : {E A B : Type 0} → Fallible E A → (A → Fallible E B) → Fallible E B
ok a >>= f = f a
err e >>= f = err e

-- `if err != nil { return nil, fmt.Errorf("...: %w", err) }`.
abbrev pub map_error : {E F A : Type 0} → (E → F) → Fallible E A → Fallible F A
map_error f (ok a) = ok a
map_error f (err e) = err (f e)

abbrev pub map_ok : {E A B : Type 0} → (A → B) → Fallible E A → Fallible E B
map_ok f (ok a) = ok (f a)
map_ok f (err e) = err e

pub Fallible-cases :
    {E A : Type 0} (r : Fallible E A) → ((a : A) × (r ≡ ok a)) ⊎ ((e : E) × (r ≡ err e))
Fallible-cases (ok a) = inl (a, refl)
Fallible-cases (err e) = inr (e, refl)

-- The loop `for _, t := range names { if t == name { found = true; break } }`.
unfoldable pub one_of : List String → String → Bool
one_of [] name = false
one_of (x ∷ xs) name = let rest = one_of xs name in if str_eq x name then true else rest

-- `if value := os.Getenv(...); value != "" { old = value }`.
abbrev pub override_text : String → String → String
override_text value old = if str_eq value "" then old else value

pub override_text-ne : (value old : String) → old ≢ "" → override_text value old ≢ ""
override_text-ne value old h = ground (arith, eq_iff value "")

pub override_text_unset : (value old : String) → value ≡ "" → override_text value old ≡ old
override_text_unset value old h = ground (arith, eq_iff value "")
