-- ===== src/Command/Exits.antt =====
-- cmd/main.go: when the process runs its servers, and what it leaves.
use k8s_operator_cloudflare.Prelude.{
  ◌≡◌, refl, inl, inr, String, false, Option, none, some, List, [], ◌∷◌, is_some, if◌then◌else◌,
}
use k8s_operator_cloudflare.Prelude.Fallible.{Fallible-cases}
use k8s_operator_cloudflare.Command.{Flags}
use k8s_operator_cloudflare.Command.Serve.{
  Steps, manager_options, webhook_files, metrics_files, run_steps, ending, main, base_tls,
  http1_only, certificate_of, certificates, TlsOption,
}

-- The spans are flushed exactly if `main` returns and there is a provider: any failed step, that of
-- the manager that had run included, ends the process without the deferred Shutdown.
pub main-tracing_shutdown :
    {E P : Type 0} (join : String → String → String) (steps : Steps E) (flags : Flags)
    (provider : Option P)
    → let end = main join steps flags provider in
      end.tracing_shutdown ≡ (if is_some end.exit then false else is_some provider)
unfolding main ending
main-tracing_shutdown join steps flags provider =
    elim (Fallible-cases (run_steps join steps flags)) [
      | inl (done, e) ↦ rw e refl
      | inr (failure, e) ↦ rw e refl
    ]

certificates-first :
    (opts : List TlsOption) (files : Option (String × String))
    → opts ≡ http1_only ∷ []
    → (rest : List TlsOption) × (certificates opts files ≡ http1_only ∷ rest)
certificates-first opts none h = ([], h)
certificates-first opts (some (cert, key)) h = (certificate_of cert key ∷ [], rw h refl)

-- Without --enable-http2 the first TLS option of both servers turns HTTP/2 off, whatever certificates
-- are given.
pub manager_options-http1_only :
    (join : String → String → String) (flags : Flags)
    → flags.enable_http2 ≡ false
    → ((rest : List TlsOption) × ((manager_options join flags).metrics.tls_opts
          ≡ http1_only ∷ rest))
      × ((rest : List TlsOption) × ((manager_options join flags).webhook_tls_opts
            ≡ http1_only ∷ rest))
unfolding manager_options base_tls
manager_options-http1_only join flags h = (
  certificates-first (base_tls flags) (metrics_files join flags) (rw h refl),
  certificates-first (base_tls flags) (webhook_files join flags) (rw h refl),
)
