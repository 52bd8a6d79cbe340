-- ===== src/Prelude/Dict.antt =====
-- A Go map with string keys, as an association list. Ranging over a map meets each key once, so the
-- order in which `put_all` writes does not show.
use mathlib.Core.Path.{◌≡◌, refl}
use mathlib.Core.Option.{Option, none, some}
use mathlib.Core.List.{List, [], ◌∷◌}
use Prim.Native.String.{String}
use native.Mathlib.Omega.{arith}
use text.Mathlib.Text.{◌==◌ as str_eq}
use text.Mathlib.TextEquality.{eq_iff}
use k8s_operator_cloudflare.Prelude.Tests.{if◌then◌else◌}

abbrev pub Dict {ℓ} : Type ℓ → Type ℓ
Dict V = List (String × V)

abbrev pub or_else {ℓ} : {A : Type ℓ} → Option A → Option A → Option A
or_else none b = b
or_else (some a) b = some a

module _ {ℓ} {V : Type ℓ} where
  unfoldable pub lookup : String → Dict V → Option V
  lookup k [] = none
  lookup k ((j, v) ∷ m) = let rest = lookup k m in if str_eq j k then some v else rest

  -- `m[k] = v`.
  unfoldable pub insert : String → V → Dict V → Dict V
  insert k v [] = (k, v) ∷ []
  insert k v ((j, w) ∷ m) =
      let rest = insert k v m in if str_eq j k then (k, v) ∷ m else (j, w) ∷ rest

  -- `delete(m, k)`.
  unfoldable pub delete : String → Dict V → Dict V
  delete k [] = []
  delete k ((j, w) ∷ m) = let rest = delete k m in if str_eq j k then rest else (j, w) ∷ rest

  -- `for k, v := range from { m[k] = v }`.
  unfoldable pub put_all : Dict V → Dict V → Dict V
  put_all [] m = m
  put_all ((k, v) ∷ from) m = insert k v (put_all from m)

  pub lookup-insert :
      (name other : String) (value : V) (dict : Dict V)
      → lookup other (insert name value dict)
        ≡ (if str_eq name other then some value else lookup other dict)
  unfolding lookup insert
  lookup-insert name other value [] = refl
  lookup-insert name other value ((head, held) ∷ rest) = ground (
    arith,
    lookup-insert name other value rest,
    eq_iff head other,
    eq_iff head name,
    eq_iff name other,
  )

  pub lookup-delete :
      (name other : String) (dict : Dict V)
      → lookup other (delete name dict) ≡ (if str_eq name other then none else lookup other dict)
  unfolding lookup delete
  lookup-delete name other [] = ground arith
  lookup-delete name other ((head, held) ∷ rest) =
      ground (
        arith,
        lookup-delete name other rest,
        eq_iff head other,
        eq_iff head name,
        eq_iff name other,
      )

  pub lookup-put_all :
      (j : String) (from m : Dict V)
      → lookup j (put_all from m) ≡ or_else (lookup j from) (lookup j m)
  unfolding lookup put_all
  lookup-put_all j [] m = refl
  lookup-put_all j ((k, v) ∷ from) m =
      ground (arith, lookup-insert k j v (put_all from m), lookup-put_all j from m)

pub str_eq_comm : (s t : String) → str_eq s t ≡ str_eq t s
str_eq_comm s t = ground (arith, eq_iff s t, eq_iff t s)
