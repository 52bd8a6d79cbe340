-- ===== src/Command/Serve.antt =====
-- cmd/main.go: the servers, the options of the manager, and the steps that end the process if they
-- fail. `join` is filepath.Join; what each step answers is `Steps`.
use k8s_operator_cloudflare.Prelude.{
  ℕ, String, Bool, false, not, Option, none, some, List, [], ◌∷◌, ◌++◌, if◌then◌else◌, str_eq,
  is_some,
}
use k8s_operator_cloudflare.Prelude.Fallible.{Fallible, ok, err, ◌>>=◌}
use k8s_operator_cloudflare.Command.{Flags, or_text}

-- `disableHTTP2`, and the `GetCertificate` of the watcher of a certificate and its key.
pub data TlsOption : Type 0 where
  http1_only : TlsOption
  certificate_of : String → String → TlsOption

pub record MetricsOptions : Type 0 where
  pub bind_address : String
  pub secure_serving : Bool
  pub with_authentication : Bool
  pub tls_opts : List TlsOption

-- The fields of `ctrl.Options` that are set; `webhook_tls_opts` is the option of the webhook server.
pub record ManagerOptions : Type 0 where
  pub metrics : MetricsOptions
  pub webhook_tls_opts : List TlsOption
  pub health_probe_bind_address : String
  pub leader_election : Bool
  pub leader_election_id : String
  pub leader_election_namespace : String
  pub lease_duration : ℕ
  pub renew_deadline : ℕ
  pub retry_period : ℕ

pub data Step : Type 0 where
  webhook_certificates metrics_certificates manager controller metrics_watcher webhook_watcher
        healthz readyz running :
      Step

-- The error of each call that `os.Exit(1)` follows, with `none` for nil.
pub record Steps (E : Type 0) : Type 0 where
  pub new_watcher : String → String → Option E
  pub new_manager : ManagerOptions → Option E
  pub setup_controller : Option E
  pub add_watcher : String → String → Option E
  pub add_healthz : Option E
  pub add_readyz : Option E
  pub start : Option E

abbrev pub certificates : List TlsOption → Option (String × String) → List TlsOption
certificates opts none = opts
certificates opts (some (cert, key)) = opts ++ (certificate_of cert key ∷ [])

unfoldable pub base_tls : Flags → List TlsOption
base_tls flags = if not flags.enable_http2 then http1_only ∷ [] else []

module _ (join : String → String → String) where
  -- The files of the certificate, if a path is given.
  unfoldable pub webhook_files : Flags → Option (String × String)
  webhook_files flags =
      if str_eq flags.webhook_cert_path ""
      then none
      else some (
        join flags.webhook_cert_path flags.webhook_cert_name,
        join flags.webhook_cert_path flags.webhook_cert_key,
      )

  unfoldable pub metrics_files : Flags → Option (String × String)
  metrics_files flags =
      if str_eq flags.metrics_cert_path ""
      then none
      else some (
        join flags.metrics_cert_path flags.metrics_cert_name,
        join flags.metrics_cert_path flags.metrics_cert_key,
      )

  unfoldable pub manager_options : Flags → ManagerOptions
  unfolding base_tls webhook_files metrics_files
  manager_options flags = record {
    metrics = record {
      bind_address = flags.metrics_bind_address;
      secure_serving = flags.metrics_secure;
      with_authentication = flags.metrics_secure;
      tls_opts = certificates (base_tls flags) (metrics_files flags);
    };
    webhook_tls_opts = certificates (base_tls flags) (webhook_files flags);
    health_probe_bind_address = flags.health_probe_bind_address;
    leader_election = flags.leader_elect;
    leader_election_id = or_text flags.leader_elect_resource_name "085fc383.cloudflare.io";
    leader_election_namespace = flags.leader_elect_resource_namespace;
    lease_duration = flags.leader_elect_lease_duration;
    renew_deadline = flags.leader_elect_renew_deadline;
    retry_period = flags.leader_elect_retry_period;
  }

module _ {E : Type 0} where
  abbrev attempt : Step → Option E → Fallible (Step × E) (Unit {0})
  attempt step none = ok tt
  attempt step (some e) = err (step, e)

  abbrev for_files :
      (String → String → Option E)
      → Step
      → Option (String × String)
      → Fallible (Step × E) (Unit {0})
  for_files call step none = ok tt
  for_files call step (some (cert, key)) = attempt step (call cert key)

  -- From the certificates to the start of the manager.
  unfoldable pub run_steps :
      (String → String → String) → Steps E → Flags → Fallible (Step × E) (Unit {0})
  run_steps join steps flags = do
    _ ← for_files steps.new_watcher webhook_certificates (webhook_files join flags)
    _ ← for_files steps.new_watcher metrics_certificates (metrics_files join flags)
    _ ← attempt manager (steps.new_manager (manager_options join flags))
    _ ← attempt controller steps.setup_controller
    _ ← for_files steps.add_watcher metrics_watcher (metrics_files join flags)
    _ ← for_files steps.add_watcher webhook_watcher (webhook_files join flags)
    _ ← attempt healthz steps.add_healthz
    _ ← attempt readyz steps.add_readyz
    attempt running steps.start

-- How the process ends: after os.Exit(1) with the step and its error, or by the return of `main`,
-- which runs the deferred Shutdown of the tracing provider if there is one.
pub record Ending (E : Type 0) : Type 0 where
  pub exit : Option (Step × E)
  pub tracing_shutdown : Bool

module _ {E P : Type 0} where
  unfoldable pub ending : Option P → Fallible (Step × E) (Unit {0}) → Ending E
  ending provider (ok done) = record { exit = none; tracing_shutdown = is_some provider }
  ending provider (err failure) = record { exit = some failure; tracing_shutdown = false }

  unfoldable pub main : (String → String → String) → Steps E → Flags → Option P → Ending E
  unfolding ending
  main join steps flags provider = ending provider (run_steps join steps flags)
