-- ===== src/Controller/Tests.antt =====
-- internal/controller/cloudflarerecord_controller.go: a record that is created and then deleted.
use text.Mathlib.TextPositions.{eq_refl}
use k8s_operator_cloudflare.Prelude.{
  Option, ◌≡◌, ◌≢◌, refl, pos, String, Bool, true, false, none, some, List, [], ◌∷◌, arith,
  if◌then◌else◌, str_eq, eq_iff,
}
use k8s_operator_cloudflare.Config.FeatureFlags.{is_enabled, flag_value}
use k8s_operator_cloudflare.Prelude.Dict.{lookup}
use k8s_operator_cloudflare.Config.Types.{new_config}
use k8s_operator_cloudflare.Config.Manager.{ConfigManager, new_config_manager}
use k8s_operator_cloudflare.Prelude.Fixed.{Thousandths, fixed}
use k8s_operator_cloudflare.Metrics.{Registry, get_reconcile_rate_metric, get_error_rate_metric}
use k8s_operator_cloudflare.Metrics.Counters.{Counts, incremented}
use k8s_operator_cloudflare.Controller.{
  CloudflareRecord, CloudflareRecordStatus, Reconciler, Environment, Api, fetched, updates,
  load_performance_config, may_reconcile, reconcile, ensure_finalizer, process, update_status,
  cloudflare_record_finalizer,
}
use k8s_operator_cloudflare.Controller.Conditions.{
  IsReported, find_ready, others, count_ready, update_status_conditions,
}
use k8s_operator_cloudflare.Controller.Metrics.{Attempt, outcome_of}
use k8s_operator_cloudflare.Controller.Rates.{
  successes, counted_up, after_reconciles, reconciles_read,
}
use k8s_operator_cloudflare.Controller.Outcomes.{IsScheduled, reconcile-IsScheduled}
use k8s_operator_cloudflare.Controller.Writes.{
  Keeps, EveryStatus, IsGuarded, status_after_finalizer, deletion_removes_finalizer,
  disabled_writes_nothing,
}

contains : List String → String → Bool
contains [] f = false
contains (g ∷ fs) f = let rest = contains fs f in if str_eq g f then true else rest

remove : List String → String → List String
remove [] f = []
remove (g ∷ fs) f = let rest = remove fs f in if str_eq g f then rest else g ∷ rest

abbrev add : List String → String → List String
add fs f = f ∷ fs

remove-gone : (fs : List String) (f : String) → contains (remove fs f) f ≡ false
unfolding contains remove
remove-gone [] f = refl
remove-gone (g ∷ fs) f = ground (arith, remove-gone fs f)

remove-kept : (fs : List String) (f g : String) → g ≢ f → contains (remove fs f) g ≡ contains fs g
unfolding contains remove
remove-kept [] f g n = refl
remove-kept (h ∷ fs) f g n = ground (arith, remove-kept fs f g n, eq_iff h f, eq_iff h g)

abbrev status : CloudflareRecordStatus
status = record {
  record_id = none;
  zone_id = none;
  ready = false;
  last_updated = none;
  conditions =
      record {
        type = "Synced";
        status = "True";
        reason = "x";
        message = "";
        last_transition_time = 1;
      }
      ∷ record {
        type = "Ready";
        status = "False";
        reason = "y";
        message = "";
        last_transition_time = 2;
      }
      ∷ [];
  observed_generation = pos 1;
}

abbrev created : CloudflareRecord
created = record {
  finalizers = "other" ∷ [];
  deletion_timestamp = none;
  generation = pos 2;
  spec = record {
    zone = "example.com";
    type = "A";
    name = "www";
    content = "192.0.2.1";
    ttl = none;
    priority = none;
    proxied = some true;
    comment = none;
    tags = [];
    cloudflare_credentials_secret_ref = record { name = "token"; namespace = none };
  };
  status = status;
}

abbrev deleted : CloudflareRecord
deleted = record created {
  finalizers = cloudflare_record_finalizer ∷ "other" ∷ [];
  deletion_timestamp = some 5;
}

-- The server stores what it is sent, and refuses the write of a status.
abbrev api : CloudflareRecord → Api String
api c = record {
  get = fetched c;
  update = λ d. (d, none);
  update_status_of = λ d. some "conflict";
  contains_finalizer = contains;
  add_finalizer = add;
  remove_finalizer = remove;
}

add-contained : (fs : List String) (f : String) → contains (add fs f) f ≡ true
unfolding contains
add-contained fs f = rw (eq_refl f) refl

keeps : (c : CloudflareRecord) → Keeps (api c)
keeps c = record {
  adds = λ fs. add-contained fs cloudflare_record_finalizer;
  removes = λ fs. remove-gone fs cloudflare_record_finalizer;
  keeps = λ fs f n. remove-kept fs cloudflare_record_finalizer f n;
  answers = λ d h. refl;
}

abbrev host : Environment
host = record {
  getenv = λ name. if str_eq name "RECONCILE_TIMEOUT" then "1m" else "";
  atoi = λ s. none;
  parse_duration = λ s. some (pos 60000000000);
}

abbrev reconciler : Reconciler
reconciler = load_performance_config host none

-- The manager of the default configuration, whose flags do not have "EnableReconciliation".
abbrev manager : ConfigManager
manager = record (new_config_manager "operators" none) {
  current_config = some new_config;
  feature_flag_manager = some (record { flags = new_config.features });
}

abbrev disabled : Reconciler
disabled = record reconciler { config_manager = some manager }

flag_missing : is_enabled (record { flags = new_config.features }) "EnableReconciliation" ≡ false
unfolding is_enabled new_config flag_value lookup
flag_missing = refl

other_finalizer : "other" ≢ cloudflare_record_finalizer
other_finalizer e = ground (arith, eq_iff "other" cloudflare_record_finalizer)

reconcile-IsScheduled_example :
    IsScheduled (api created) reconciler 9 (reconcile (api created) reconciler 9)
reconcile-IsScheduled_example = reconcile-IsScheduled (api created) reconciler 9

status_after_finalizer_example :
    EveryStatus (IsGuarded (api created) reconciler 9) (reconcile (api created) reconciler 9).calls
status_after_finalizer_example = status_after_finalizer (api created) reconciler 9 (keeps created)

deletion_removes_finalizer_example :
    (d : CloudflareRecord) × (((reconcile (api deleted) reconciler 9).calls ≡ updates d ∷ [])
      × (((reconcile (api deleted) reconciler 9).error ≡ none)
          × ((contains d.finalizers cloudflare_record_finalizer ≡ false)
              × (contains d.finalizers "other" ≡ contains deleted.finalizers "other"))))
unfolding may_reconcile load_performance_config
deletion_removes_finalizer_example =
    deletion_removes_finalizer (api deleted) reconciler 9 (keeps deleted) deleted 5 "other" refl
      refl refl other_finalizer

disabled_writes_nothing_example : (reconcile (api deleted) disabled 9).calls ≡ []
disabled_writes_nothing_example =
    disabled_writes_nothing (api deleted) disabled 9 manager new_config
      (record { flags = new_config.features }) refl refl refl flag_missing

update_status_conditions_example :
    let after = update_status 9 true "RecordCreated" "done" status in
    (after.ready ≡ true)
    × (IsReported (find_ready after.conditions) "True" "RecordCreated"
        × ((others after.conditions ≡ others status.conditions)
            × (count_ready after.conditions ≡ 1)))
unfolding count_ready
update_status_conditions_example = update_status_conditions 9 true "RecordCreated" "done" status

-- The counters alone, as functions of the name and the labels.
abbrev counters : Registry Thousandths (String → List String → Option Thousandths)
counters = record {
  write = λ s w name ls. incremented name ls w (s name ls);
  gauge = λ s name ls. none;
  counter = λ s name ls. s name ls;
  seconds = λ n. n;
}

counters-Counts : Counts counters
counters-Counts s w name ls = refl

-- A reconcile whose status is stored, and one whose status is refused.
abbrev attempts : List (Attempt String)
attempts =
    record {
      api = record (api created) { update_status_of = λ d. none };
      reconciler = reconciler;
      now = 9;
      namespace = "web";
      api_time = pos 10;
      duration = pos 20;
    }
    ∷ record {
      api = api created;
      reconciler = reconciler;
      now = 19;
      namespace = "web";
      api_time = pos 10;
      duration = pos 20;
    }
    ∷ []

one_success : successes "web" attempts ≡ 1
unfolding successes outcome_of reconcile may_reconcile load_performance_config ensure_finalizer
    contains process
one_success = refl

reconciles_read_example :
    let after = after_reconciles counters (λ name ls. none) attempts in
    (get_error_rate_metric counters after "cloudflarerecord" "web" ≡ pos 0)
    × (get_reconcile_rate_metric counters after "cloudflarerecord" "web"
        ≡ counted_up (successes "web" attempts) (pos 0))
unfolding get_error_rate_metric get_reconcile_rate_metric
reconciles_read_example = reconciles_read counters counters-Counts (λ name ls. none) attempts "web"
