-- ===== src/Lib.antt =====
-- A model of the operator that keeps Cloudflare DNS records for Kubernetes resources: the controller,
-- its configuration, the library of reliability that its calls of the Cloudflare API are meant to go
-- through, the service level objectives with their error budgets, the health probes, the set-up of the
-- logs and the traces, and the command that puts them together.
--
-- The parts, and how they interact. The controller reconciles one record at a time: it reads the record
-- from the Kubernetes API, asks the configuration manager if a feature flag allows it to go on, keeps
-- the finalizer of the operator on the record and writes its status. The manager asks the loader for a
-- configuration, which the loader merges from layers over the defaults (a file, a Secret, a ConfigMap and
-- the environment) and validates. The circuit breaker, the retries and the rate limiter wrap a call; the
-- controller does not use them yet. The manager of the objectives calculates the indicators of each time
-- window with the calculator, keeps an error budget for each objective and window, and checks the alerts;
-- the error budget manager keeps a history and reports on it; the recording rules are the same objectives
-- as Prometheus is to compute them. The probes and the shutdown stand between the process and Kubernetes.
-- The command sets up the logs and the traces, loads the configuration into the manager, makes the
-- reconciler with it, and watches the sources of the configuration in a goroutine of its own.
--
-- Controller.antt (internal/controller/cloudflarerecord_controller.go, api/v1/cloudflarerecord_types.go):
--   the record, the reconciler and one reconcile as a function of what the API answers, which gives the
--   writes in order, the requeue interval, the error and the label of the reconcile counter.
--   `reconcile` is Reconcile, split where the source returns early: `reconcile_fetched`,
--   `reconcile_delete`, `ensure_finalizer` and `process`. `update_status` is updateStatus and
--   `load_performance_config` is loadPerformanceConfig. Controller/Metrics gives the writes to
--   the performance metrics. Controller/Conditions, Load, Outcomes, Rates and Writes hold the proofs.
-- Metrics.antt (internal/metrics/performance.go): the methods that the reconciler calls and those that read;
--   Metrics/Counters holds what a counter keeps.
-- Config/FeatureFlags.antt (internal/config/feature_flags.go): the manager of the flags, one function per
--   method; Config/FeatureFlags/Laws and Enabled hold the proofs.
-- Config/Types.antt (internal/config/types.go): the configuration, its defaults, Copy and Merge;
--   Config/Types/Merge and Layers hold the proofs.
-- Config/Validation.antt (internal/config/validation.go and the methods IsValid of types.go): Validate,
--   with the error of the first check that fails; Config/Validation/Bounds and Defaults hold the proofs.
-- Config/Loader.antt (internal/config/loader.go): the options, the sources that a load records, and the load
--   from a file. Loader/Env is LoadFromEnv, Loader/Cluster the loads from a ConfigMap and a Secret,
--   Loader/Priority LoadWithPriority as a list of layers that are added in order, Loader/Watch WatchConfig.
--   Loader/Laws, Sources, Outcomes, Precedence and Changes hold the proofs.
-- Config/Manager.antt (internal/config/manager.go): the manager, its load and reload, its callbacks, whose
--   calls are notices, and the switch of the automatic reload; Manager/Reload is the loop of that reload.
--   Manager/Loads, Manager/Runs and Manager/Ticks hold the proofs.
-- Reliability/CircuitBreaker.antt (internal/reliability/circuit_breaker.go): the breaker, its counts and
--   its state machine. CircuitBreaker/Requests has Execute and the breaker that concurrent requests
--   share: a list of calls, each a request that begins, one that ends, a look at the state or a reset.
--   CircuitBreaker/Invariant, with InFlight and Fine, and Transitions hold the proofs.
-- Reliability/Retry.antt (internal/reliability/retry.go): the loop of Retry and the delays;
--   Retry/Substring and Retry/Classify the search in the texts of errors and the checkers that use it;
--   Retry/Loop and Retry/Delay hold proofs.
-- Reliability/RateLimiter.antt (internal/reliability/rate_limiter.go): the token bucket; RateLimiter/Wait
--   the loop of Wait, RateLimiter/Presets the predefined configurations, RateLimiter/Tokens and
--   RateLimiter/Starved proofs.
-- Reliability/Integration.antt (internal/reliability/reliability_integration_example.go): the three together;
--   `attempt` is the function that ExecuteWithReliability hands to Retry, whose own function may return,
--   panic or never end. Integration/Finishes holds the
--   proof.
-- Slo/Config.antt (internal/slo/config.go): the configuration of the objectives.
-- Slo/ErrorBudget.antt (internal/slo/error_budget.go): the calculation of a budget, the bounded history, the
--   burn rate and the prediction; ErrorBudget/Alerts the thresholds and the policies, ErrorBudget/Statistics
--   the statistics and the report. ErrorBudget/Budget, History, Rate, Policies and Extremes hold
--   the proofs.
-- Slo/Calculator.antt (internal/slo/calculator.go): the indicators and what is written to the collectors.
-- Slo/Manager.antt (internal/slo/slo.go): the budgets by objective and window, a calculation for a window,
--   the alerts and the intervals; Manager/Lifecycle is Start, Stop and the end of the loop as a relation
--   between states. Manager/Agreement, Manager/Invariant, Lifecycle/Accounts and Lifecycle/Stop hold the
--   proofs.
-- Slo/RecordingRules.antt (internal/slo/recording_rules.go): RecordingRules/Rule, Sli and Groups are the rules
--   with their texts, Generate all of them with the validation. Sound and Validity hold the proofs.
-- Health.antt (internal/health/checker.go): the probes over the answers of the clients; Health/Probes holds
--   the proofs. Health/Shutdown.antt (internal/health/shutdown.go): the callbacks of a shutdown.
-- Tracing.antt (internal/tracing/config.go): the configuration of the traces; Tracing/Provider
--   (internal/tracing/tracer.go) the provider. Tracing/Laws and Outcomes hold the proofs.
-- Logging.antt (internal/logging/config.go): the configuration of the logs; Logging/Logger
--   (internal/logging/logger.go) what zap is asked to build and the fields of a span, Logging/Middleware
--   (internal/logging/middleware.go) the values in a context and the wrapper of the reconciler.
--   Logging/Laws and Fields hold the proofs.
-- Command.antt (cmd/main.go, cmd/constants.go): the loggers, the tracer, the load of the configuration and the
--   reconciler; Command/Watcher the loop of the hot reload as a relation between states, Command/Serve the
--   options of the servers and the manager and the steps that end the process. Command/Logs, Traces,
--   Settings, Spin and Exits hold the proofs.
-- Prelude.antt: the names that all share, Boolean tests, lists, signed integers, texts as lists of
--   bytes, maps as association lists, results with an error, and the interface of float64.
-- The modules Tests hold runs and the instances of the theorems.
--
-- Integers, time and floats. A uint32 of the breaker is a natural number that wraps at 2^32, so its
-- accounting is stated for fewer than 2^31 calls; int and time.Duration are integers, and wrap where the
-- validation and the error budgets multiply them. A time is a number of nanoseconds. A float64 is a value of an
-- interface (Prelude.Float), whose laws are the facts of IEEE 754 that a theorem names as hypotheses (of the
-- conversion to an integer only what it does within the range of exact integers);
-- Prelude/Fixed fills it with fixed-point numbers, for the tests.
--
-- Loops and fuel. Retry makes at most MaxRetries + 1 rounds, and its loop runs on that number; the search
-- in a text on the number of its positions. Wait runs on a list with what each of its rounds meets (the
-- clock and the context), so a statement about all lists is one about every length of the wait. The loop of
-- a shutdown runs on the index. The loop of the manager of objectives has no end of its own: its end is a
-- step, and a statement about all sequences of steps is one about every interleaving with Start and Stop.
-- The loop of the hot reload is such a relation too. WatchConfig and the loop of the automatic reload run on a list
-- with what each turn of their `select` meets.
--
-- What other code does is a parameter: the Kubernetes API and controllerutil (Controller.Api), the
-- environment and its parsers (Controller.Environment), the functions of Go's package net
-- (Config.Validation.Net), the file system, the decoders, the environment and the cluster of the loader
-- (Config.Loader.World), the rendering of a number and the parser of a duration of the recording rules, the
-- answers of the clients of the probes, the errors and the random numbers of the retries, the levels and
-- presets of zap and what it builds (Logging.Levels, Logging.Logger.Zap), what the OpenTelemetry SDK gives
-- (Tracing.Provider.Sdk), the registry of Prometheus (Metrics.Registry), the steps of the start
-- (Command.Serve.Steps), strings.ToLower and sort.Strings. A map that Go ranges over in any order is a list
-- in the order in which it is met. A mutex makes a method atomic, and
-- a method that writes returns the new state.
--
-- Not modelled: the other metrics and the generated code, which call libraries; the functions of the logs and
-- the traces that only forward to a library, and the texts of String; the encoders of YAML and JSON; the
-- wait for a signal, the default callbacks and the profiling server of the health package; the flags'
-- texts, the log lines and the scheme of the command.
pub mod Prelude
pub mod Reliability
pub mod Config
pub mod Controller
pub mod Slo
pub mod Health
pub mod Tracing
pub mod Logging
pub mod Metrics
pub mod Command
