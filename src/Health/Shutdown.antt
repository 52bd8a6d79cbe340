-- ===== src/Health/Shutdown.antt =====
-- internal/health/shutdown.go. A callback changes the state of the program and may return an error;
-- the errors are logged with the callback's index.
use k8s_operator_cloudflare.Prelude.{
  ℕ, zero, suc, ◌≤◌, ℤ, ◌≡◌, refl, sym, ap, ◌∙◌, Option, none, some, List, [], ◌∷◌, ◌++◌, arith,
  length, length-append,
}
use mathlib.Core.List.{append_assoc, append-nil}

abbrev pub Callback {σ} : Type σ → Type 0 → Type σ
Callback S E = S → S × Option E

pub record GracefulShutdownManager {σ} (S : Type σ) (E : Type 0) : Type σ where
  pub shutdown_callbacks : List (Callback S E)
  pub shutdown_timeout : ℤ

abbrev pub get_elem? {ℓ} : {A : Type ℓ} → List A → ℕ → Option A
get_elem? [] i = none
get_elem? (x ∷ xs) zero = some x
get_elem? (x ∷ xs) (suc i) = get_elem? xs i

-- What is logged of the error that the callback of this index returns.
abbrev pub noted {ε} : {E : Type ε} → ℕ → Option E → List (ℕ × E)
noted i none = []
noted i (some e) = (i, e) ∷ []

-- What is done with a callback that is found; an index out of range ends the loop.
abbrev found_or {ℓ κ} : {A : Type ℓ} {B : Type κ} → B → (A → B) → Option A → B
found_or b f none = b
found_or b f (some a) = f a

module _ {σ} {S : Type σ} {E : Type 0} where
  unfoldable pub new_graceful_shutdown_manager : ℤ → GracefulShutdownManager S E
  new_graceful_shutdown_manager timeout = record {
    shutdown_callbacks = [];
    shutdown_timeout = timeout;
  }

  unfoldable pub add_shutdown_callback :
      GracefulShutdownManager S E → Callback S E → GracefulShutdownManager S E
  add_shutdown_callback m callback = record m {
    shutdown_callbacks = m.shutdown_callbacks ++ (callback ∷ []);
  }

  unfoldable pub call : ℕ → Callback S E → S × List (ℕ × E) → S × List (ℕ × E)
  call i callback (s, log) = let (s', e) = callback s in (s', log ++ noted i e)

  -- `for i := len(callbacks) - 1; i >= 0; i--`, with the index above `i`.
  unfoldable pub run_callbacks : List (Callback S E) → ℕ → S × List (ℕ × E) → S × List (ℕ × E)
  unfolding call
  run_callbacks callbacks zero t = t
  run_callbacks callbacks (suc i) t =
      found_or t (λ callback. run_callbacks callbacks i (call i callback t)) (get_elem? callbacks i)

  unfoldable pub execute_graceful_shutdown : GracefulShutdownManager S E → S → S × List (ℕ × E)
  unfolding run_callbacks
  execute_graceful_shutdown m s =
      run_callbacks m.shutdown_callbacks (length m.shutdown_callbacks) (s, [])

  -- The callbacks, registered in this order.
  unfoldable pub add_all :
      GracefulShutdownManager S E → List (Callback S E) → GracefulShutdownManager S E
  add_all m [] = m
  add_all m (c ∷ cs) = add_all (add_shutdown_callback m c) cs

  -- Every callback once, those registered later before those registered earlier; the first has the
  -- index `i`.
  unfoldable pub last_in_first_out : ℕ → List (Callback S E) → S × List (ℕ × E) → S × List (ℕ × E)
  last_in_first_out i [] t = t
  last_in_first_out i (c ∷ cs) t = call i c (last_in_first_out (suc i) cs t)

  get_elem-append :
      (cs ds : List (Callback S E)) (i : ℕ)
      → suc i ≤ length cs
      → get_elem? (cs ++ ds) i ≡ get_elem? cs i
  get_elem-append [] ds i h = absurd (omega (arith, h))
  get_elem-append (c ∷ cs) ds zero h = refl
  get_elem-append (c ∷ cs) ds (suc i) h = get_elem-append cs ds i (omega (arith, h))

  get_elem-last :
      (cs : List (Callback S E)) (c : Callback S E)
      → get_elem? (cs ++ (c ∷ [])) (length cs) ≡ some c
  get_elem-last [] c = refl
  get_elem-last (d ∷ cs) c = get_elem-last cs c

  same_found :
      (t : S × List (ℕ × E)) {f g : Callback S E → S × List (ℕ × E)}
      → ((c : Callback S E) → f c ≡ g c)
      → (found : Option (Callback S E)) → found_or t f found ≡ found_or t g found
  same_found t h none = refl
  same_found t h (some c) = h c

  run_callbacks-append :
      (cs ds : List (Callback S E)) (i : ℕ) (t : S × List (ℕ × E))
      → i ≤ length cs
      → run_callbacks (cs ++ ds) i t ≡ run_callbacks cs i t
  unfolding run_callbacks
  run_callbacks-append cs ds zero t h = refl
  run_callbacks-append cs ds (suc i) t h =
      let shorter : i ≤ length cs = omega (arith, h) in
      ap (λ found. found_or t (λ c. run_callbacks (cs ++ ds) i (call i c t)) found)
        (get_elem-append cs ds i h)
      ∙ same_found t (λ c. run_callbacks-append cs ds i (call i c t) shorter) (get_elem? cs i)

  run_callbacks-last :
      (cs : List (Callback S E)) (c : Callback S E) (t : S × List (ℕ × E))
      → run_callbacks (cs ++ (c ∷ [])) (suc (length cs)) t
        ≡ run_callbacks cs (length cs) (call (length cs) c t)
  unfolding run_callbacks
  run_callbacks-last cs c t =
      let all = cs ++ (c ∷ []) in
      let within : length cs ≤ length cs = omega arith in
      ap (λ found. found_or t (λ d. run_callbacks all (length cs) (call (length cs) d t)) found)
        (get_elem-last cs c)
      ∙ run_callbacks-append cs (c ∷ []) (length cs) (call (length cs) c t) within

  run_callbacks-split :
      (before after : List (Callback S E)) (t : S × List (ℕ × E))
      → run_callbacks (before ++ after) (length (before ++ after)) t
        ≡ run_callbacks before (length before) (last_in_first_out (length before) after t)
  unfolding last_in_first_out
  run_callbacks-split before [] t = rw (append-nil before) refl
  run_callbacks-split before (c ∷ after) t =
      let longer = before ++ (c ∷ []) in
      let size : length longer ≡ suc (length before) =
        omega (arith, length-append before (c ∷ [])) in
      ap (λ cs. run_callbacks cs (length cs) t) (sym (append_assoc before (c ∷ []) after))
      ∙ run_callbacks-split longer after t
      ∙ ap (λ n. run_callbacks longer n (last_in_first_out n after t)) size
      ∙ run_callbacks-last before c (last_in_first_out (suc (length before)) after t)

  callbacks-add_all :
      (m : GracefulShutdownManager S E) (cs : List (Callback S E))
      → (add_all m cs).shutdown_callbacks ≡ m.shutdown_callbacks ++ cs
  unfolding add_all add_shutdown_callback
  callbacks-add_all m [] = sym (append-nil m.shutdown_callbacks)
  callbacks-add_all m (c ∷ cs) =
      callbacks-add_all (add_shutdown_callback m c) cs
      ∙ append_assoc m.shutdown_callbacks (c ∷ []) cs

  -- A shutdown runs every callback that was registered exactly once, the last registered first, and
  -- goes on after an error: it logs each error with the index of its callback.
  pub execute_graceful_shutdown-last_in_first_out :
      (timeout : ℤ) (cs : List (Callback S E)) (s : S)
      → execute_graceful_shutdown (add_all (new_graceful_shutdown_manager timeout) cs) s
        ≡ last_in_first_out 0 cs (s, [])
  unfolding execute_graceful_shutdown new_graceful_shutdown_manager run_callbacks
  execute_graceful_shutdown-last_in_first_out timeout cs s =
      ap (λ all. run_callbacks all (length all) (s, []))
        (callbacks-add_all (new_graceful_shutdown_manager timeout) cs)
      ∙ run_callbacks-split [] cs (s, [])
