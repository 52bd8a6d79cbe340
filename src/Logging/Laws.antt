-- ===== src/Logging/Laws.antt =====
-- internal/logging/config.go and logger.go: what Validate accepts, and which logger is built.
use k8s_operator_cloudflare.Prelude.{
  pos, ◌≡◌, refl, ◌≢◌, ◌↔◌, ◌⊎◌, ◌||◌, inl, inr, sym, subst, String, true, false, Option, none,
  some, List, [], if◌then◌else◌, str_eq, eq_iff, ◌≤ℤ◌, arith, Bool-cases, Option-cases,
}
use k8s_operator_cloudflare.Prelude.Fallible.{err, map_error, override_text_unset}
use k8s_operator_cloudflare.Logging.{
  LoggingConfig, LoggingError, LogSampling, Levels, validate, sampling_validate, get_level, is_json,
  new_environment_config, new_default_config,
}
use k8s_operator_cloudflare.Logging.Logger.{
  Zap, ZapConfig, zap_config, encoding_of, invalid_config, build_failed, new_logger,
  after_validation, from_environment,
}

pub record IsUsableSampling (s : LogSampling) : Type 0 where
  pub initial : s.enabled ≡ true → pos 0 ≤ℤ s.initial
  pub thereafter : s.enabled ≡ true → pos 0 ≤ℤ s.thereafter

sampling_validate-IsUsableSampling :
    (s : LogSampling) → (sampling_validate s ≡ none) ↔ IsUsableSampling s
unfolding sampling_validate
sampling_validate-IsUsableSampling s = ground arith

module _ {L : Type 0} (levels : Levels L) where
  -- What Validate accepts.
  pub record IsUsable (c : LoggingConfig) : Type 0 where
    pub leveled : levels.is_invalid (get_level levels c) ≡ false
    pub formatted : (c.format ≡ "json") ⊎ (c.format ≡ "console")
    pub samples : IsUsableSampling c.sampling

  pub validate-IsUsable : (c : LoggingConfig) → ((validate levels c).1 ≡ none) ↔ IsUsable c
  unfolding validate
  validate-IsUsable c = ground (
    arith,
    eq_iff c.format "json",
    eq_iff c.format "console",
    sampling_validate-IsUsableSampling c.sampling,
  )

  -- An accepted configuration has an output, the given ones if there are any, and differs from what
  -- was given only there.
  pub validate-outputs :
      (c : LoggingConfig)
      → (validate levels c).1 ≡ none
      → ((validate levels c).0.outputs ≢ [])
        × (c.outputs ≢ [] → (validate levels c).0.outputs ≡ c.outputs)
        × ((validate levels c).0 ≡ record c { outputs = (validate levels c).0.outputs })
  unfolding validate
  validate-outputs c h = ground arith

module _ {L P Z E : Type 0} (zap : Zap L P Z E) (c : LoggingConfig) where
  -- What zap is asked to build for a configuration.
  pub record IsBuiltFrom (q : ZapConfig L P) : Type 0 where
    pub level : q.level ≡ get_level zap.levels c
    pub encoding : q.encoding ≡ c.format
    pub outputs : q.output_paths ≢ []
    pub given_outputs : c.outputs ≢ [] → q.output_paths ≡ c.outputs
    pub error_outputs : q.error_output_paths ≡ q.output_paths
    pub sampling : q.sampling ≡ (
        if c.sampling.enabled
        then some (c.sampling.initial, c.sampling.thereafter)
        else if c.development
        then zap.development_config.sampling
        else zap.production_config.sampling)

  zap_config-IsBuiltFrom :
      (outputs : List String)
      → (c.format ≡ "json") ⊎ (c.format ≡ "console")
      → outputs ≢ []
      → (c.outputs ≢ [] → outputs ≡ c.outputs)
      → IsBuiltFrom (zap_config zap (record c { outputs = outputs }))
  unfolding zap_config encoding_of is_json get_level
  zap_config-IsBuiltFrom outputs (inl e) some_output same = ground (arith, eq_iff c.format "json")
  zap_config-IsBuiltFrom outputs (inr e) some_output same =
      ground (arith, eq_iff c.format "json", eq_iff "console" "json")

  after_validation-accepted :
      (r : LoggingConfig × Option LoggingError)
      → r.1 ≡ none
      → after_validation zap r ≡ map_error build_failed (zap.build (zap_config zap r.0))
  after_validation-accepted (d, none) h = refl
  after_validation-accepted (d, some e) h = absurd (cc)

  after_validation-rejected :
      (r : LoggingConfig × Option LoggingError) (e : LoggingError)
      → r.1 ≡ some e
      → after_validation zap r ≡ err (invalid_config e)
  after_validation-rejected (d, none) e h = absurd (cc)
  after_validation-rejected (d, some x) e h = ground arith

  -- NewLogger of a configuration that Validate does not accept is the error of the validation. For
  -- one that it accepts the result is what zap builds, with its error wrapped, of a configuration
  -- with the level that the text stands for, the encoding of the format, at least one output (the
  -- given ones, if any) that also takes the errors, and the given sampling if it is enabled. If it is
  -- not enabled, the sampling is that of zap's preset for development or for production.
  pub new_logger-IsBuiltFrom :
      (¬ IsUsable zap.levels c × ((e : LoggingError) × (new_logger zap c ≡ err (invalid_config e))))
      ⊎ (IsUsable zap.levels c
          × ((q : ZapConfig L P) × IsBuiltFrom q
              × (new_logger zap c ≡ map_error build_failed (zap.build q))))
  unfolding new_logger
  new_logger-IsBuiltFrom = elim (Option-cases (validate zap.levels c).1) [
    | inr (e, found) ↦ inl (
      λ u. cc ((validate-IsUsable zap.levels c).1 u),
      (e, after_validation-rejected (validate zap.levels c) e found),
    )
    | inl clean ↦
        let usable = (validate-IsUsable zap.levels c).0 clean in
        let (some_output, same, kept) = validate-outputs zap.levels c clean in
        inr (
          usable,
          (
            zap_config zap (validate zap.levels c).0,
            subst (λ (d : LoggingConfig). IsBuiltFrom (zap_config zap d)) (sym kept)
                (zap_config-IsBuiltFrom (validate zap.levels c).0.outputs usable.formatted
                  some_output same),
            after_validation-accepted (validate zap.levels c) clean,
          ),
        )
  ]

-- The configuration of an environment, whatever it is called.
new_environment_config-fields :
    (to_lower : String → String) (environment : String)
    → let c = new_environment_config to_lower environment in
      ((c.level ≡ "debug") ⊎ (c.level ≡ "info"))
      × ((c.format ≡ "json") ⊎ (c.format ≡ "console"))
      × IsUsableSampling c.sampling
unfolding new_environment_config new_default_config
new_environment_config-fields to_lower environment =
    let name = to_lower environment in
    elim (Bool-cases (str_eq name "development" || str_eq name "dev")) [
      | inl e ↦ rw e (inl refl, inr refl, ground arith)
      | inr e ↦ elim (Bool-cases (str_eq name "production" || str_eq name "prod")) [
        | inl e' ↦ rw (e, e') (inr refl, inl refl, ground arith)
        | inr e' ↦ rw (e, e') (inr refl, inl refl, ground arith)
      ]
    ]

-- LoggerFromConfig accepts the configuration of every environment, if LOG_LEVEL and LOG_FORMAT are not
-- set and zap reads "debug" and "info".
pub from_environment-IsUsable :
    {L : Type 0} (levels : Levels L) (to_lower getenv : String → String) (environment : String)
    → ((name : String)
        → (name ≡ "debug") ⊎ (name ≡ "info")
        → (l : L) × (levels.unmarshal name ≡ some l) × (levels.is_invalid l ≡ false))
    → getenv "LOG_LEVEL" ≡ ""
    → getenv "LOG_FORMAT" ≡ ""
    → IsUsable levels (from_environment getenv (new_environment_config to_lower environment))
unfolding from_environment get_level
from_environment-IsUsable levels to_lower getenv environment reads level_unset format_unset =
    let c = new_environment_config to_lower environment in
    let (level, format, sampling) = new_environment_config-fields to_lower environment in
    let (l, read, known) = reads c.level level in
    record {
      leveled = rw (override_text_unset (getenv "LOG_LEVEL") c.level level_unset, read) known;
      formatted = rw (override_text_unset (getenv "LOG_FORMAT") c.format format_unset) format;
      samples = sampling;
    }
