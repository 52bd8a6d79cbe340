-- ===== src/Controller/Writes.antt =====
-- internal/controller/cloudflarerecord_controller.go: the writes that one reconcile sends, and the finalizer.
use k8s_operator_cloudflare.Prelude.{
  ℕ, ◌≡◌, ◌≢◌, refl, subst, sym, String, Bool, true, false, Option, none, some, List, [], ◌∷◌, not,
  if◌then◌else◌, is_some,
}
use k8s_operator_cloudflare.Config.FeatureFlags.{FeatureFlagManager, is_enabled}
use k8s_operator_cloudflare.Config.FeatureFlags.Laws.{is_enabled-clone}
use k8s_operator_cloudflare.Config.Types.{Config}
use k8s_operator_cloudflare.Config.Manager.{ConfigManager, get_feature_flag_manager, is_configured}
use k8s_operator_cloudflare.Controller.{
  CloudflareRecord, Reconciler, Fetched, fetched, not_found, get_error, Api, Call, updates,
  updates_status, Outcome, may_reconcile, reconcile, reconcile_delete, reconcile_fetched, process,
  processed, ensure_finalizer, after_removal, after_status_update, after_finalizer,
  cloudflare_record_finalizer, update_status,
}

-- What controllerutil does with the finalizer of the operator, and what the API server answers: the
-- finalizers that were sent.
pub record Keeps {ℓ} {E : Type ℓ} (api : Api E) : Type ℓ where
  pub adds :
      (fs : List String)
      → api.contains_finalizer
          (api.add_finalizer fs cloudflare_record_finalizer)
          cloudflare_record_finalizer
        ≡ true
  pub removes :
      (fs : List String)
      → api.contains_finalizer
          (api.remove_finalizer fs cloudflare_record_finalizer)
          cloudflare_record_finalizer
        ≡ false
  pub keeps :
      (fs : List String) (f : String)
      → f ≢ cloudflare_record_finalizer
      → api.contains_finalizer (api.remove_finalizer fs cloudflare_record_finalizer) f
        ≡ api.contains_finalizer fs f
  pub answers :
      (c : CloudflareRecord) → (api.update c).1 ≡ none → (api.update c).0.finalizers ≡ c.finalizers

-- Every status that is written is of a record of which P holds.
unfoldable pub EveryStatus : (CloudflareRecord → Type 0) → List Call → Type 0
EveryStatus P [] = Unit
EveryStatus P (updates c ∷ cs) = EveryStatus P cs
EveryStatus P (updates_status c ∷ cs) = P c × EveryStatus P cs

module _ {ℓ} {E : Type ℓ} (api : Api E) (r : Reconciler) (now : ℕ) where
  abbrev pub has_finalizer : CloudflareRecord → Bool
  has_finalizer c = api.contains_finalizer c.finalizers cloudflare_record_finalizer

  -- A record whose status may be written as ready.
  abbrev pub IsGuarded : CloudflareRecord → Type 0
  IsGuarded c =
      (has_finalizer c ≡ true)
      × ((c.status.ready ≡ true)
          × ((c.status.observed_generation ≡ c.generation) × (c.status.last_updated ≡ some now)))

  -- The calls of `after_status_update` do not depend on the error.
  after_status_update-calls :
      (cs : List Call) (e : Option E) → (after_status_update api r now cs e).calls ≡ cs
  unfolding after_status_update
  after_status_update-calls cs none = refl
  after_status_update-calls cs (some e) = refl

  processed-IsGuarded :
      (c : CloudflareRecord) → has_finalizer c ≡ true → IsGuarded (processed api r now c)
  unfolding processed update_status
  processed-IsGuarded c h = (h, (refl, (refl, refl)))

  process-EveryStatus :
      (c : CloudflareRecord)
      → has_finalizer c ≡ true
      → EveryStatus IsGuarded (process api r now [] c).calls
  unfolding process EveryStatus
  process-EveryStatus c h =
      rw
        (after_status_update-calls (updates_status (processed api r now c) ∷ [])
          (api.update_status_of (processed api r now c)))
        (processed-IsGuarded c h, tt)

  after_finalizer-EveryStatus :
      (c : CloudflareRecord) (answer : CloudflareRecord × Option E)
      → has_finalizer c ≡ true
      → (answer.1 ≡ none → answer.0.finalizers ≡ c.finalizers)
      → EveryStatus IsGuarded (after_finalizer api r now c answer).calls
  unfolding after_finalizer process EveryStatus
  after_finalizer-EveryStatus c (answer, none) h k =
      rw
        (after_status_update-calls (updates c ∷ updates_status (processed api r now answer) ∷ [])
          (api.update_status_of (processed api r now answer)))
        (processed-IsGuarded answer (rw (k refl) h), tt)
  after_finalizer-EveryStatus c (answer, some e) h k = tt

  EveryStatus-if :
      (b : Bool) (x y : Outcome E)
      → (b ≡ true → EveryStatus IsGuarded x.calls)
      → (b ≡ false → EveryStatus IsGuarded y.calls)
      → EveryStatus IsGuarded (if b then x else y).calls
  EveryStatus-if true x y h k = h refl
  EveryStatus-if false x y h k = k refl

  after_removal-calls :
      (c : CloudflareRecord) (e : Option E) → (after_removal api r now c e).calls ≡ updates c ∷ []
  unfolding after_removal
  after_removal-calls c none = refl
  after_removal-calls c (some e) = refl

  after_removal-error :
      (c : CloudflareRecord) (e : Option E) → (after_removal api r now c e).error ≡ e
  unfolding after_removal
  after_removal-error c none = refl
  after_removal-error c (some e) = refl

  disabled_manager :
      (m : ConfigManager) (cfg : Config) (flags : FeatureFlagManager)
      → r.config_manager ≡ some m
      → m.current_config ≡ some cfg
      → m.feature_flag_manager ≡ some flags
      → is_enabled flags "EnableReconciliation" ≡ false
      → may_reconcile r.config_manager ≡ false
  unfolding may_reconcile is_configured get_feature_flag_manager
  disabled_manager m cfg flags e ec ef h =
      rw (e, ec, ef, is_enabled-clone flags "EnableReconciliation") h

  disabled_fetched :
      may_reconcile r.config_manager ≡ false
      → (f : Fetched E) → (reconcile_fetched api r now f).calls ≡ []
  unfolding reconcile_fetched
  disabled_fetched h (fetched c) = rw h refl
  disabled_fetched h (not_found e) = refl
  disabled_fetched h (get_error e) = refl

  module _ (kept : Keeps api) where
    reconcile_delete-EveryStatus :
        (c : CloudflareRecord) → EveryStatus IsGuarded (reconcile_delete api r now c).calls
    unfolding reconcile_delete EveryStatus
    reconcile_delete-EveryStatus c =
        subst (EveryStatus IsGuarded) (sym (after_removal-calls _ _)) tt

    ensure_finalizer-EveryStatus :
        (c : CloudflareRecord) → EveryStatus IsGuarded (ensure_finalizer api r now c).calls
    unfolding ensure_finalizer
    ensure_finalizer-EveryStatus c =
        EveryStatus-if (has_finalizer c) _ _ (process-EveryStatus c)
          (λ _. after_finalizer-EveryStatus _ _ (kept.adds c.finalizers) (kept.answers _))

    reconcile_fetched-EveryStatus :
        (f : Fetched E) → EveryStatus IsGuarded (reconcile_fetched api r now f).calls
    unfolding reconcile_fetched EveryStatus
    reconcile_fetched-EveryStatus (fetched c) =
        EveryStatus-if (not (may_reconcile r.config_manager)) _ _ (λ _. tt)
          (λ _.
            EveryStatus-if (is_some c.deletion_timestamp) _ _ (λ _. reconcile_delete-EveryStatus c)
              (λ _. ensure_finalizer-EveryStatus c))
    reconcile_fetched-EveryStatus (not_found e) = tt
    reconcile_fetched-EveryStatus (get_error e) = tt

    -- If controllerutil and the API server do with finalizers what they say: whatever else the API
    -- answers, each status that a reconcile writes is ready, of the generation that it observed and of
    -- its time, and is of a record that holds the operator's finalizer.
    pub status_after_finalizer : EveryStatus IsGuarded (reconcile api r now).calls
    unfolding reconcile
    status_after_finalizer = reconcile_fetched-EveryStatus api.get

    -- If the functions of controllerutil do with finalizers what they say, and the feature flags do not
    -- disable the reconciliation: a reconcile of a record that is being deleted sends one write, in
    -- which the operator's finalizer is missing and every other one is as before, and returns the error
    -- of that write.
    pub deletion_removes_finalizer :
        (c : CloudflareRecord) (t : ℕ) (f : String)
        → api.get ≡ fetched c
        → c.deletion_timestamp ≡ some t
        → may_reconcile r.config_manager ≡ true
        → f ≢ cloudflare_record_finalizer
        → (d : CloudflareRecord) × (((reconcile api r now).calls ≡ updates d ∷ [])
            × (((reconcile api r now).error ≡ (api.update d).1)
                × ((has_finalizer d ≡ false)
                    × (api.contains_finalizer d.finalizers f
                        ≡ api.contains_finalizer c.finalizers f))))
    unfolding reconcile reconcile_fetched reconcile_delete
    deletion_removes_finalizer c t f g d h n = (
      record c { finalizers = api.remove_finalizer c.finalizers cloudflare_record_finalizer },
      rw (g, h, d)
          (
            after_removal-calls _ _,
            (after_removal-error _ _, (kept.removes c.finalizers, kept.keeps c.finalizers f n)),
          ),
    )

  -- If the manager has a configuration, and flags that do not enable "EnableReconciliation", a
  -- reconcile writes nothing, whatever the API answers: also a record that is being deleted keeps its
  -- finalizer.
  pub disabled_writes_nothing :
      (m : ConfigManager) (cfg : Config) (flags : FeatureFlagManager)
      → r.config_manager ≡ some m
      → m.current_config ≡ some cfg
      → m.feature_flag_manager ≡ some flags
      → is_enabled flags "EnableReconciliation" ≡ false
      → (reconcile api r now).calls ≡ []
  unfolding reconcile
  disabled_writes_nothing m cfg flags e ec ef h =
      disabled_fetched (disabled_manager m cfg flags e ec ef h) api.get
