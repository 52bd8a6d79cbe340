-- ===== src/Metrics/Counters.antt =====
-- internal/metrics/performance.go: what a counter keeps of a sequence of writes.
use k8s_operator_cloudflare.Prelude.{
  ◌≡◌, refl, ap, ◌∙◌, String, Bool, true, false, ◌&&◌, Option, some, List, [], ◌∷◌, if◌then◌else◌,
  str_eq, or_default,
}
use k8s_operator_cloudflare.Prelude.Float.{Float64}
use k8s_operator_cloudflare.Metrics.{Write, sets, increments, observes, Registry}

unfoldable pub same_labels : List String → List String → Bool
same_labels [] [] = true
same_labels [] (k ∷ ks) = false
same_labels (l ∷ ls) [] = false
same_labels (l ∷ ls) (k ∷ ks) = let rest = same_labels ls ks in str_eq l k && rest

module _ {ℓ} {W : Type ℓ} ⦃f : Float64 W⦄ where
  -- A counter after one write.
  unfoldable pub incremented : String → List String → Write W → Option W → Option W
  incremented name ls (sets n ks v) old = old
  incremented name ls (observes n ks v) old = old
  incremented name ls (increments n ks) old =
      if str_eq n name && same_labels ks ls
      then some (f.add (or_default old (f.lit 0 0)) (f.lit 1 0))
      else old

  unfoldable pub incremented_by : String → List String → List (Write W) → Option W → Option W
  incremented_by name ls [] old = old
  incremented_by name ls (w ∷ ws) old = incremented_by name ls ws (incremented name ls w old)

module _ {ℓ} {W R : Type ℓ} ⦃f : Float64 W⦄ (reg : Registry W R) where
  -- What Prometheus documents of a counter: Inc adds 1 to the one of its name and its labels, which
  -- starts from 0, and no other write changes it.
  abbrev pub Counts : Type ℓ
  Counts =
      (s : R) (w : Write W) (name : String) (ls : List String)
      → reg.counter (reg.write s w) name ls ≡ incremented name ls w (reg.counter s name ls)

  unfoldable pub write_all : R → List (Write W) → R
  write_all s [] = s
  write_all s (w ∷ ws) = write_all (reg.write s w) ws

  pub counter-write_all :
      Counts
      → (ws : List (Write W)) (s : R) (name : String) (ls : List String)
      → reg.counter (write_all s ws) name ls ≡ incremented_by name ls ws (reg.counter s name ls)
  unfolding write_all incremented_by
  counter-write_all keeps [] s name ls = refl
  counter-write_all keeps (w ∷ ws) s name ls =
      counter-write_all keeps ws (reg.write s w) name ls
      ∙ ap (incremented_by name ls ws) (keeps s w name ls)
