-- ===== src/Config/Loader/Precedence.antt =====
-- internal/config/loader.go: the environment variables as the layer of the highest
-- priority.
use k8s_operator_cloudflare.Prelude.{ℤ, is_some, is_zero, Option, none, ◌≡◌, some, if◌then◌else◌}
use k8s_operator_cloudflare.Prelude.Dict.{Dict, lookup}
use k8s_operator_cloudflare.Config.Types.{Config, env}
use k8s_operator_cloudflare.Config.Loader.{World, is_set}
use k8s_operator_cloudflare.Config.Loader.Env.{parsed}
use k8s_operator_cloudflare.Config.Loader.Priority.{State}

-- The number that is read, if there is one and it is not zero.
abbrev pub number_or : Option ℤ → ℤ → ℤ
number_or none old = old
number_or (some n) old = if is_zero n then old else n

module _ {E : Type 0} where
  -- What the environment variables change of what the sources below them gave.
  abbrev pub IsFromEnv : World E → State → State → Type 0
  IsFromEnv w below p =
      let level = w.getenv "CONFIG_OPERATOR_LOG_LEVEL" in
      let rps = parsed w w.atoi "CONFIG_CLOUDFLARE_RATE_LIMIT_RPS" in
      (p.0.operator.log_level ≡ (if is_set level then level else below.0.operator.log_level))
      × (lookup "operator.logLevel" p.1
          ≡ (if is_set level then some env else lookup "operator.logLevel" below.1))
      × (p.0.cloudflare.rate_limit_rps ≡ number_or rps below.0.cloudflare.rate_limit_rps)
      × (lookup "cloudflare.rateLimitRPS" p.1
          ≡ (if is_some rps then some env else lookup "cloudflare.rateLimitRPS" below.1))
