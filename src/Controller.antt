-- ===== src/Controller.antt =====
-- internal/controller/cloudflarerecord_controller.go, with api/v1/cloudflarerecord_types.go. Traces
-- and logs are left out, and of the metrics there is the label of the reconcile counter, from which
-- Controller/Metrics gives the writes to the performance metrics. The pointer to the record is the
-- record that is passed on.
pub mod Conditions
pub mod Load
pub mod Metrics
pub mod Outcomes
pub mod Rates
pub mod Writes
mod Tests
use k8s_operator_cloudflare.Prelude.{
  ℕ, ◌*◌, ℤ, pos, String, Bool, true, false, not, ◌||◌, ◌&&◌, Option, none, some, List, [], ◌∷◌,
  ◌++◌, if◌then◌else◌, str_eq, ltb_ℤ, minute, is_some,
}
use k8s_operator_cloudflare.Config.FeatureFlags.{FeatureFlagManager, is_enabled}
use k8s_operator_cloudflare.Config.Types.{Config, PerformanceConfig}
use k8s_operator_cloudflare.Config.Manager.{
  ConfigManager, get_config, get_feature_flag_manager, is_configured,
}

pub record Condition : Type 0 where
  pub type : String
  pub status : String
  pub reason : String
  pub message : String
  pub last_transition_time : ℕ

pub record CloudflareRecordStatus : Type 0 where
  pub record_id : Option String
  pub zone_id : Option String
  pub ready : Bool
  pub last_updated : Option ℕ
  pub conditions : List Condition
  pub observed_generation : ℤ

pub record SecretReference : Type 0 where
  pub name : String
  pub namespace : Option String

pub record CloudflareRecordSpec : Type 0 where
  pub zone : String
  pub type : String
  pub name : String
  pub content : String
  pub ttl : Option ℤ
  pub priority : Option ℤ
  pub proxied : Option Bool
  pub comment : Option String
  pub tags : List String
  pub cloudflare_credentials_secret_ref : SecretReference

pub record CloudflareRecord : Type 0 where
  pub finalizers : List String
  pub deletion_timestamp : Option ℕ
  pub generation : ℤ
  pub spec : CloudflareRecordSpec
  pub status : CloudflareRecordStatus

abbrev pub cloudflare_record_finalizer : String
cloudflare_record_finalizer = "dns.cloudflare.io/finalizer"

abbrev pub condition_type_ready : String
condition_type_ready = "Ready"

pub record Reconciler : Type 0 where
  pub config_manager : Option ConfigManager
  pub max_concurrent_reconciles : ℤ
  pub reconcile_timeout : ℤ
  pub requeue_interval : ℤ
  pub requeue_interval_on_error : ℤ

-- `os.Getenv`, and `strconv.Atoi` and `time.ParseDuration` with `none` for an error.
pub record Environment : Type 0 where
  pub getenv : String → String
  pub atoi : String → Option ℤ
  pub parse_duration : String → Option ℤ

abbrev override : ℤ → ℤ → ℤ
override new old = if ltb_ℤ (pos 0) new then new else old

abbrev override_parsed : Option ℤ → ℤ → ℤ
override_parsed none old = old
override_parsed (some new) old = override new old

-- A new reconciler with its default settings.
abbrev unloaded : Option ConfigManager → Reconciler
unloaded m = record {
  config_manager = m;
  max_concurrent_reconciles = pos 5;
  reconcile_timeout = pos (5 * minute);
  requeue_interval = pos (5 * minute);
  requeue_interval_on_error = pos (1 * minute);
}

module _ (host : Environment) where
  unfoldable from_env : String → (String → Option ℤ) → ℤ → ℤ
  from_env name parse old =
      if str_eq (host.getenv name) "" then old else override_parsed (parse (host.getenv name)) old

  unfoldable load_from_env : Reconciler → Reconciler
  unfolding from_env
  load_from_env r = record r {
    max_concurrent_reconciles =
        from_env "MAX_CONCURRENT_RECONCILES" host.atoi r.max_concurrent_reconciles;
    reconcile_timeout = from_env "RECONCILE_TIMEOUT" host.parse_duration r.reconcile_timeout;
    requeue_interval = from_env "REQUEUE_INTERVAL" host.parse_duration r.requeue_interval;
    requeue_interval_on_error =
        from_env "REQUEUE_INTERVAL_ON_ERROR" host.parse_duration r.requeue_interval_on_error;
  }

  unfoldable load_from_config : PerformanceConfig → Reconciler → Reconciler
  load_from_config p r = record r {
    max_concurrent_reconciles = override p.max_concurrent_reconciles r.max_concurrent_reconciles;
    reconcile_timeout = override p.reconcile_timeout r.reconcile_timeout;
    requeue_interval = override p.requeue_interval r.requeue_interval;
    requeue_interval_on_error = override p.requeue_interval_on_error r.requeue_interval_on_error;
  }

  unfoldable load : Option Config → Reconciler → Reconciler
  unfolding load_from_env load_from_config
  load none r = load_from_env r
  load (some c) r = load_from_config c.performance r

  abbrev configuration : Option ConfigManager → Option Config
  configuration none = none
  configuration (some m) = if is_configured m then get_config m else none

  -- The defaults are set first.
  unfoldable pub load_performance_config : Option ConfigManager → Reconciler
  unfolding load
  load_performance_config m = load (configuration m) (unloaded m)

abbrev behind : Condition → Option (List Condition) → Option (List Condition)
behind c none = none
behind c (some cs) = some (c ∷ cs)

-- The loop of `updateStatus` over the existing conditions: only the first one of the type `Ready` is
-- looked at; `none` if there is none.
unfoldable pub replace_ready : Condition → List Condition → Option (List Condition)
replace_ready new [] = none
replace_ready new (old ∷ rest) =
    let found = replace_ready new rest in
    if str_eq old.type condition_type_ready
    then some (
        (if not (str_eq old.status new.status) || not (str_eq old.reason new.reason)
          then new
          else old)
        ∷ rest)
    else behind old found

abbrev or_append : Option (List Condition) → List Condition → Condition → List Condition
or_append none old new = old ++ (new ∷ [])
or_append (some cs) old new = cs

unfoldable pub update_status :
    ℕ → Bool → String → String → CloudflareRecordStatus → CloudflareRecordStatus
update_status now ready reason message s =
    let condition : Condition = record {
      type = condition_type_ready;
      status = if ready then "True" else "False";
      reason = reason;
      message = message;
      last_transition_time = now;
    } in
    record s {
      ready = ready;
      conditions = or_append (replace_ready condition s.conditions) s.conditions condition;
    }

-- The Kubernetes API as one reconcile meets it, and the functions of controllerutil. A write gives the
-- record that the client decodes from the answer, and the error.
pub data Fetched {ℓ} (E : Type ℓ) : Type ℓ where
  fetched : CloudflareRecord → Fetched E
  not_found : E → Fetched E
  get_error : E → Fetched E

pub record Api {ℓ} (E : Type ℓ) : Type ℓ where
  pub get : Fetched E
  pub update : CloudflareRecord → CloudflareRecord × Option E
  pub update_status_of : CloudflareRecord → Option E
  pub contains_finalizer : List String → String → Bool
  pub add_finalizer : List String → String → List String
  pub remove_finalizer : List String → String → List String

-- The writes that a reconcile sends, in order.
pub data Call : Type 0 where
  updates : CloudflareRecord → Call
  updates_status : CloudflareRecord → Call

-- `ctrl.Result` is its `RequeueAfter`; `label` is the one that IncReconcileRate counts, if it is called.
pub record Outcome {ℓ} (E : Type ℓ) : Type ℓ where
  pub calls : List Call
  pub requeue_after : ℤ
  pub error : Option E
  pub label : Option String

abbrev reconciliation_enabled : Option FeatureFlagManager → Bool
reconciliation_enabled none = true
reconciliation_enabled (some f) = is_enabled f "EnableReconciliation"

unfoldable pub may_reconcile : Option ConfigManager → Bool
may_reconcile none = true
may_reconcile (some m) =
    if is_configured m then reconciliation_enabled (get_feature_flag_manager m) else true

module _ {ℓ} {E : Type ℓ} (api : Api E) (r : Reconciler) (now : ℕ) where
  abbrev failed : List Call → E → String → Outcome E
  failed cs e text = record {
    calls = cs;
    requeue_after = r.requeue_interval_on_error;
    error = some e;
    label = some text;
  }

  -- `reconcileDelete`, and the label that its caller counts.
  unfoldable after_removal : CloudflareRecord → Option E → Outcome E
  after_removal c none = record {
    calls = updates c ∷ [];
    requeue_after = pos 0;
    error = none;
    label = some "delete_success";
  }
  after_removal c (some e) = failed (updates c ∷ []) e "delete_error"

  unfoldable pub reconcile_delete : CloudflareRecord → Outcome E
  unfolding after_removal
  reconcile_delete c =
      let c' = record c {
        finalizers = api.remove_finalizer c.finalizers cloudflare_record_finalizer;
      } in
      after_removal c' (api.update c').1

  unfoldable after_status_update : List Call → Option E → Outcome E
  after_status_update cs none = record {
    calls = cs;
    requeue_after = r.requeue_interval;
    error = none;
    label = some "success";
  }
  after_status_update cs (some e) = failed cs e "status_error"

  unfoldable processed : CloudflareRecord → CloudflareRecord
  processed c = record c {
    status =
        record (update_status now true "RecordCreated"
          "DNS record processing completed (implementation ready for Cloudflare API)" c.status) {
            observed_generation = c.generation;
            last_updated = some now;
          };
  }

  -- From "Add DNS record details to span" to the end, after the calls that were sent before.
  unfoldable pub process : List Call → CloudflareRecord → Outcome E
  unfolding after_status_update processed
  process sent c =
      after_status_update (sent ++ (updates_status (processed c) ∷ []))
        (api.update_status_of (processed c))

  unfoldable after_finalizer : CloudflareRecord → CloudflareRecord × Option E → Outcome E
  after_finalizer c (answer, none) = process (updates c ∷ []) answer
  after_finalizer c (answer, some e) = failed (updates c ∷ []) e "finalizer_error"

  unfoldable pub ensure_finalizer : CloudflareRecord → Outcome E
  unfolding after_finalizer
  ensure_finalizer c =
      let c' = record c {
        finalizers = api.add_finalizer c.finalizers cloudflare_record_finalizer;
      } in
      if api.contains_finalizer c.finalizers cloudflare_record_finalizer
      then process [] c
      else after_finalizer c' (api.update c')

  unfoldable reconcile_fetched : Fetched E → Outcome E
  reconcile_fetched (fetched c) =
      if not (may_reconcile r.config_manager)
      then record { calls = []; requeue_after = r.requeue_interval; error = none; label = none }
      else if is_some c.deletion_timestamp
      then reconcile_delete c
      else ensure_finalizer c
  reconcile_fetched (not_found e) = record {
    calls = [];
    requeue_after = pos 0;
    error = none;
    label = some "not_found";
  }
  reconcile_fetched (get_error e) = failed [] e "error"

  unfoldable pub reconcile : Outcome E
  unfolding reconcile_fetched
  reconcile = reconcile_fetched api.get
