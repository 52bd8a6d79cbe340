-- ===== src/Controller/Outcomes.antt =====
-- internal/controller/cloudflarerecord_controller.go: what one reconcile writes and returns.
use k8s_operator_cloudflare.Prelude.{
  ℕ, ◌≡◌, ◌⊎◌, inl, inr, refl, ℤ, pos, Bool, true, false, Option, none, some, List, not,
  if◌then◌else◌, is_some,
}
use k8s_operator_cloudflare.Controller.{
  CloudflareRecord, Reconciler, Fetched, fetched, not_found, get_error, Api, Call, Outcome,
  may_reconcile, reconcile, reconcile_delete, reconcile_fetched, process, processed,
  ensure_finalizer, after_removal, after_status_update, after_finalizer,
  cloudflare_record_finalizer,
}

module _ {ℓ} {E : Type ℓ} (api : Api E) (r : Reconciler) (now : ℕ) where
  -- The `RequeueAfter` that is returned, by the error.
  unfoldable pub IsDue : Option E → ℤ → Type 0
  IsDue none after = (after ≡ pos 0) ⊎ (after ≡ r.requeue_interval)
  IsDue (some e) after = after ≡ r.requeue_interval_on_error

  abbrev pub IsScheduled : Outcome E → Type 0
  IsScheduled o = IsDue o.error o.requeue_after

  after_status_update-IsScheduled :
      (cs : List Call) (e : Option E) → IsScheduled (after_status_update api r now cs e)
  unfolding after_status_update IsDue
  after_status_update-IsScheduled cs none = inr refl
  after_status_update-IsScheduled cs (some e) = refl

  IsScheduled-if :
      (b : Bool) (x y : Outcome E)
      → IsScheduled x
      → IsScheduled y
      → IsScheduled (if b then x else y)
  IsScheduled-if true x y h k = h
  IsScheduled-if false x y h k = k

  after_removal-IsScheduled :
      (c : CloudflareRecord) (e : Option E) → IsScheduled (after_removal api r now c e)
  unfolding after_removal IsDue
  after_removal-IsScheduled c none = inl refl
  after_removal-IsScheduled c (some e) = refl

  after_finalizer-IsScheduled :
      (c : CloudflareRecord) (answer : CloudflareRecord × Option E)
      → IsScheduled (after_finalizer api r now c answer)
  unfolding after_finalizer process IsDue
  after_finalizer-IsScheduled c (answer, none) =
      after_status_update-IsScheduled _ (api.update_status_of (processed api r now answer))
  after_finalizer-IsScheduled c (answer, some e) = refl

  ensure_finalizer-IsScheduled : (c : CloudflareRecord) → IsScheduled (ensure_finalizer api r now c)
  unfolding ensure_finalizer process
  ensure_finalizer-IsScheduled c =
      IsScheduled-if (api.contains_finalizer c.finalizers cloudflare_record_finalizer) _ _
        (after_status_update-IsScheduled _ (api.update_status_of (processed api r now c)))
        (after_finalizer-IsScheduled _ _)

  reconcile_fetched-IsScheduled : (f : Fetched E) → IsScheduled (reconcile_fetched api r now f)
  unfolding reconcile_fetched reconcile_delete IsDue
  reconcile_fetched-IsScheduled (fetched c) =
      IsScheduled-if (not (may_reconcile r.config_manager)) _ _ (inr refl) (
        IsScheduled-if (is_some c.deletion_timestamp) _ _ (after_removal-IsScheduled _ _)
          (ensure_finalizer-IsScheduled c))
  reconcile_fetched-IsScheduled (not_found e) = inl refl
  reconcile_fetched-IsScheduled (get_error e) = refl

  -- Whatever the API answers: a reconcile that returns an error returns with it the interval for
  -- errors, and one that returns none returns the interval, or 0.
  pub reconcile-IsScheduled : IsScheduled (reconcile api r now)
  unfolding reconcile
  reconcile-IsScheduled = reconcile_fetched-IsScheduled api.get
