-- ===== src/Slo/Manager/Lifecycle/Tests.antt =====
-- `Start`, then `Stop`.
use k8s_operator_cloudflare.Prelude.{◌≡◌, refl, true, false, List, [], ◌∷◌, arith}
use k8s_operator_cloudflare.Slo.Manager.Lifecycle.{
  Life, new_life, start, stop, Event, start_called, stop_called, starts, stops, Steps, unmoved,
  after, count_starts, count_stops,
}
use k8s_operator_cloudflare.Slo.Manager.Lifecycle.Stop.{interleaving_without_panic, stop_returns}

abbrev started : Life
started = record (new_life true) { loops = 1 }

abbrev stopping : Life
stopping = record started { stop_closed = true; waiting = 1 }

abbrev stopping_idle : Life
stopping_idle = record (new_life true) { stop_closed = true; waiting = 1 }

start_stop : Steps (new_life true) (stop_called ∷ start_called ∷ []) stopping
unfolding start stop
start_stop = after (after unmoved (starts refl)) (stops refl)

stop_alone : Steps (new_life true) (stop_called ∷ []) stopping_idle
unfolding stop
stop_alone = after unmoved (stops refl)

interleaving_without_panic_example : stopping.panicked ≡ false
interleaving_without_panic_example =
    interleaving_without_panic true (stop_called ∷ start_called ∷ []) stopping start_stop
      (omega arith) (omega arith)

stop_returns_example :
    (es' : List Event) × (l' : Life) × Steps stopping es' l'
    × (count_starts es' ≡ 0)
    × (count_stops es' ≡ 0)
    × (l'.returned ≡ 1)
stop_returns_example = stop_returns (stop_called ∷ start_called ∷ []) stopping start_stop refl refl
