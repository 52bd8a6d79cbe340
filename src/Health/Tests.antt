-- ===== src/Health/Tests.antt =====
-- Runs of the probes and of a shutdown.
use k8s_operator_cloudflare.Prelude.{
  ℕ, ◌*◌, pos, ◌≡◌, ◌↔◌, refl, String, true, none, some, List, [], ◌∷◌, second,
}
use k8s_operator_cloudflare.Health.{
  replied, refused, Checker, crd_not_ready, crd_not_found, passed, panicked, failed, liveness_check,
  readiness_check, new_checker,
}
use k8s_operator_cloudflare.Health.Probes.{IsReachable, HasCrd, readiness_check_iff}
use k8s_operator_cloudflare.Health.Shutdown.{
  Callback, new_graceful_shutdown_manager, add_all, add_shutdown_callback,
  execute_graceful_shutdown, last_in_first_out, execute_graceful_shutdown-last_in_first_out,
}

abbrev checker : Checker String
checker = record {
  k8s_client = some (replied "v1.30");
  discovery_client = some (replied ("Zone" ∷ "CloudflareRecord" ∷ []));
  has_manager = true;
  cloudflare_api = some (refused "invalid token");
}

missing_crd_test :
    readiness_check (record checker { discovery_client = some (replied []) })
    ≡ failed (crd_not_ready crd_not_found)
unfolding readiness_check
missing_crd_test = refl

-- A client that could not be made is not seen as missing.
nil_client_test : liveness_check (new_checker {E = String} none none none) ≡ panicked
unfolding liveness_check new_checker
nil_client_test = refl

ready : readiness_check checker ≡ passed
unfolding readiness_check
ready = refl

readiness_check_iff_example :
    (readiness_check checker ≡ passed)
    ↔ (IsReachable checker × HasCrd checker × (checker.has_manager ≡ true))
readiness_check_iff_example = readiness_check_iff checker

-- Each callback adds its number to the state, and the first fails.
abbrev flush : Callback (List ℕ) String
flush done = (1 ∷ done, some "flush")

abbrev close : Callback (List ℕ) String
close done = (2 ∷ done, none)

order_test :
    execute_graceful_shutdown
      (add_all (new_graceful_shutdown_manager (pos (30 * second))) (flush ∷ close ∷ []))
      []
    ≡ (1 ∷ 2 ∷ [], (0, "flush") ∷ [])
unfolding execute_graceful_shutdown add_all new_graceful_shutdown_manager add_shutdown_callback
order_test = refl

execute_graceful_shutdown-last_in_first_out_example :
    execute_graceful_shutdown
      (add_all (new_graceful_shutdown_manager (pos (30 * second))) (flush ∷ close ∷ []))
      []
    ≡ last_in_first_out 0 (flush ∷ close ∷ []) ([], [])
execute_graceful_shutdown-last_in_first_out_example =
    execute_graceful_shutdown-last_in_first_out (pos (30 * second)) (flush ∷ close ∷ []) []
