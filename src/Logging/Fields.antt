-- ===== src/Logging/Fields.antt =====
-- internal/logging/middleware.go: what is attached to a logger, and what a context gives back.
use k8s_operator_cloudflare.Prelude.{
  ℕ, ℤ, ◌≡◌, refl, inl, inr, String, not, Option, none, some, List, [], ◌∷◌, ◌++◌, if◌then◌else◌,
  str_eq, ◌==◌, Bool-cases,
}
use k8s_operator_cloudflare.Logging.Logger.{
  SpanContext, Field, string_field, time_field, field, values_of, trace_fields, trace_values,
}
use k8s_operator_cloudflare.Logging.Middleware.{
  RequestContext, Context, context_with_request_info, request_info_from_context,
  context_with_logger, logger_from_context, context_with_logr, logr_from_context, request_fields,
  request_values, reconciler_middleware, request_context, Request,
}

-- The keys and values of logr for zap's fields.
unfoldable pub flatten : (ℕ → String) → List Field → List String
flatten format [] = []
flatten format (string_field name value ∷ fs) = name ∷ value ∷ flatten format fs
flatten format (time_field name time ∷ fs) = name ∷ format time ∷ flatten format fs

module _ (format : ℕ → String) where
  flatten-append :
      (xs ys : List Field) → flatten format (xs ++ ys) ≡ flatten format xs ++ flatten format ys
  unfolding flatten
  flatten-append [] ys = refl
  flatten-append (string_field name value ∷ xs) ys = simp (flatten-append xs ys)
  flatten-append (time_field name time ∷ xs) ys = simp (flatten-append xs ys)

  flatten-field : (name value : String) → flatten format (field name value) ≡ values_of name value
  unfolding flatten
  flatten-field name value = elim (Bool-cases (str_eq value "")) [
    | inl e ↦ rw e refl
    | inr e ↦ rw e refl
  ]

  flatten-start_time :
      (time : ℕ)
      → flatten format (if not (time == 0) then time_field "start_time" time ∷ [] else [])
        ≡ (if not (time == 0) then "start_time" ∷ format time ∷ [] else [])
  unfolding flatten
  flatten-start_time time = elim (Bool-cases (time == 0)) [ inl e ↦ rw e refl | inr e ↦ rw e refl ]

  -- The two enrichments attach the same: the keys and values that EnrichLogr passes to WithValues for
  -- a request, and WithTraceContextLogr for a span, are the names and values of the fields that
  -- EnrichLogger and WithTraceContext pass to With, in the same order, with the start time formatted.
  pub request_values-request_fields :
      (r : RequestContext) (s : SpanContext)
      → (flatten format (request_fields r) ≡ request_values format r)
        × (flatten format (trace_fields s) ≡ trace_values s)
  unfolding request_fields request_values trace_fields trace_values
  request_values-request_fields r s = (
    simp (flatten-append, flatten-field, flatten-start_time),
    simp (flatten-append, flatten-field),
  )

module _ {Z R : Type 0} (discard : R) (c : Context Z R) where
  -- A zap logger and a logr logger share one key of the context: after ContextWithLogger,
  -- LoggerFromContext gives that logger and LogrFromContext gives the logger that discards, also where
  -- the context held a logr logger before; after ContextWithLogr it is the other way round; the
  -- request information stays.
  pub loggers_share_key :
      (zap : Z) (logr : R)
      → (logger_from_context (context_with_logger zap c) ≡ some zap)
        × (logr_from_context discard (context_with_logger zap (context_with_logr logr c)) ≡ discard)
        × (logr_from_context discard (context_with_logr logr c) ≡ logr)
        × (logger_from_context (context_with_logr logr (context_with_logger zap c)) ≡ none)
        × (request_info_from_context (context_with_logger zap (context_with_logr logr c))
            ≡ request_info_from_context c)
  unfolding logger_from_context logr_from_context context_with_logger context_with_logr
      request_info_from_context
  loggers_share_key zap logr = (refl, refl, refl, refl, refl)

module _ {Z R Q E : Type 0} (extend : List Field → Z → Z) (requeue_after : Q → ℤ) where
  -- The middleware returns what the wrapped reconciler returns in the context that it prepares: the
  -- one that it was given with the request's information and a logger, which it logs with.
  pub reconciler_middleware-result :
      (logger : Z) (reconciler : Context Z R → Request → Q × Option E) (c : Context Z R)
      (request : Request)
      → let handled = reconciler_middleware extend requeue_after logger reconciler c request in
        (handled.result ≡ reconciler handled.context request)
        × (request_info_from_context handled.context ≡ some (request_context request c.span))
  unfolding reconciler_middleware request_info_from_context context_with_logger
      context_with_request_info
  reconciler_middleware-result logger reconciler c request = (refl, refl)
