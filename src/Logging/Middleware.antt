-- ===== src/Logging/Middleware.antt =====
-- internal/logging/middleware.go. A context is its span and what `WithValue` has put into it, the
-- newest first; a type assertion is a match on the value. `Z` is the type of zap's loggers and `R` of
-- logr's. A time is its distance from the zero time. GenerateRequestID only forwards.
use k8s_operator_cloudflare.Prelude.{
  ℕ, ℤ, pos, String, Bool, true, false, not, Option, none, some, List, [], ◌∷◌, ◌++◌, if◌then◌else◌,
  ◌==◌,
}
use k8s_operator_cloudflare.Logging.Logger.{
  SpanContext, Field, time_field, field, values_of, with_any, with_trace_context,
  with_trace_context_logr, get_trace_id, get_span_id,
}

pub record RequestContext : Type 0 where
  pub request_id : String
  pub user_agent : String
  pub remote_ip : String
  pub operation : String
  pub resource : String
  pub namespace : String
  pub start_time : ℕ
  pub trace_id : String
  pub span_id : String

pub data ContextKey : Type 0 where
  request_context_key logger_context_key : ContextKey

abbrev same_key : ContextKey → ContextKey → Bool
same_key request_context_key request_context_key = true
same_key logger_context_key logger_context_key = true
same_key _ _ = false

pub data ContextValue (Z R : Type 0) : Type 0 where
  request_info : RequestContext → ContextValue Z R
  zap_logger : Z → ContextValue Z R
  logr_logger : R → ContextValue Z R

pub record Context (Z R : Type 0) : Type 0 where
  pub span : SpanContext
  pub values : List (ContextKey × ContextValue Z R)

module _ {Z R : Type 0} where
  unfoldable find : ContextKey → List (ContextKey × ContextValue Z R) → Option (ContextValue Z R)
  find key [] = none
  find key ((k, v) ∷ rest) = let older = find key rest in if same_key k key then some v else older

  abbrev with_value : ContextKey → ContextValue Z R → Context Z R → Context Z R
  with_value key v c = record c { values = (key, v) ∷ c.values }

  unfoldable pub context_with_request_info : RequestContext → Context Z R → Context Z R
  context_with_request_info r c = with_value request_context_key (request_info r) c

  abbrev as_request_info : Option (ContextValue Z R) → Option RequestContext
  as_request_info (some (request_info r)) = some r
  as_request_info _ = none

  unfoldable pub request_info_from_context : Context Z R → Option RequestContext
  unfolding find
  request_info_from_context c = as_request_info (find request_context_key c.values)

  unfoldable pub context_with_logger : Z → Context Z R → Context Z R
  context_with_logger logger c = with_value logger_context_key (zap_logger logger) c

  abbrev as_zap : Option (ContextValue Z R) → Option Z
  as_zap (some (zap_logger z)) = some z
  as_zap _ = none

  unfoldable pub logger_from_context : Context Z R → Option Z
  unfolding find
  logger_from_context c = as_zap (find logger_context_key c.values)

  unfoldable pub context_with_logr : R → Context Z R → Context Z R
  context_with_logr logger c = with_value logger_context_key (logr_logger logger) c

  abbrev as_logr : R → Option (ContextValue Z R) → R
  as_logr discard (some (logr_logger r)) = r
  as_logr discard _ = discard

  -- `discard` is `logr.Discard()`.
  unfoldable pub logr_from_context : R → Context Z R → R
  unfolding find
  logr_from_context discard c = as_logr discard (find logger_context_key c.values)

unfoldable pub request_fields : RequestContext → List Field
request_fields r =
    field "request.id" r.request_id
    ++ (field "operation" r.operation
        ++ (field "resource" r.resource
            ++ (field "namespace" r.namespace
                ++ (field "user_agent" r.user_agent
                    ++ (field "remote_ip" r.remote_ip
                        ++ (if not (r.start_time == 0)
                            then time_field "start_time" r.start_time ∷ []
                            else []))))))

-- `format` is `Format(time.RFC3339)`.
unfoldable pub request_values : (ℕ → String) → RequestContext → List String
request_values format r =
    values_of "request.id" r.request_id
    ++ (values_of "operation" r.operation
        ++ (values_of "resource" r.resource
            ++ (values_of "namespace" r.namespace
                ++ (values_of "user_agent" r.user_agent
                    ++ (values_of "remote_ip" r.remote_ip
                        ++ (if not (r.start_time == 0)
                            then "start_time" ∷ format r.start_time ∷ []
                            else []))))))

abbrev with_fields : {Z : Type 0} → (List Field → Z → Z) → Option RequestContext → Z → Z
unfolding request_fields
with_fields extend none logger = logger
with_fields extend (some r) logger = with_any extend (request_fields r) logger

abbrev with_values :
    {R : Type 0} → (List String → R → R) → (ℕ → String) → Option RequestContext → R → R
unfolding request_values
with_values extend format none logger = logger
with_values extend format (some r) logger = with_any extend (request_values format r) logger

module _ {Z R : Type 0} where
  unfoldable pub enrich_logger : (List Field → Z → Z) → Context Z R → Z → Z
  unfolding with_fields
  enrich_logger extend c logger =
      with_fields extend (request_info_from_context c) (with_trace_context extend c.span logger)

  unfoldable pub enrich_logr : (List String → R → R) → (ℕ → String) → Context Z R → R → R
  unfolding with_values
  enrich_logr extend format c logger =
      with_values extend format (request_info_from_context c)
        (with_trace_context_logr extend c.span logger)

-- A line of the log, with the fields that hold the error, the duration and the requeue delay.
pub data Entry (E : Type 0) : Type 0 where
  starting : ℤ → Entry E
  failed : E → ℤ → ℤ → Entry E
  completed : ℤ → ℤ → Entry E

-- One call of the wrapped reconciler: what the clock and the request give.
pub record Request : Type 0 where
  pub name : String
  pub namespace : String
  pub start : ℕ
  pub request_id : String
  pub duration : ℤ

-- The result and the error that are returned, the context of the call, and the lines that are logged,
-- each by its logger.
pub record Handled (Z R Q E : Type 0) : Type 0 where
  pub result : Q × Option E
  pub context : Context Z R
  pub entries : List (Z × Entry E)

abbrev last_entry : {Q E : Type 0} → (Q → ℤ) → ℤ → Q × Option E → Entry E
last_entry requeue_after duration (q, none) = completed duration (requeue_after q)
last_entry requeue_after duration (q, some e) = failed e duration (requeue_after q)

unfoldable pub request_context : Request → SpanContext → RequestContext
request_context request span = record {
  request_id = request.request_id;
  user_agent = "";
  remote_ip = "";
  operation = "reconcile";
  resource = request.name;
  namespace = request.namespace;
  start_time = request.start;
  trace_id = get_trace_id span;
  span_id = get_span_id span;
}

module _ {Z R Q E : Type 0} (extend : List Field → Z → Z) (requeue_after : Q → ℤ) where
  unfoldable pub reconciler_middleware :
      Z → (Context Z R → Request → Q × Option E) → Context Z R → Request → Handled Z R Q E
  unfolding request_context
  reconciler_middleware logger reconciler c request =
      let informed = context_with_request_info (request_context request c.span) c in
      let enriched = enrich_logger extend informed logger in
      let context = context_with_logger enriched informed in
      let answer = reconciler context request in
      record {
        result = answer;
        context = context;
        entries =
            (enriched, starting (pos 0))
            ∷ (enriched, last_entry requeue_after request.duration answer)
            ∷ [];
      }
