-- ===== src/Slo/Manager/Lifecycle/Stop.antt =====
-- internal/slo/slo.go: panics, and whether `Stop` returns.
use k8s_operator_cloudflare.Prelude.{
  ◌+◌, ◌≤◌, ◌≡◌, refl, ap, ◌∙◌, Bool, true, false, List, [], ◌∷◌, inl, inr, arith, if◌then◌else◌,
  Bool-cases, leb,
}
use k8s_operator_cloudflare.Slo.Manager.Lifecycle.{
  Life, new_life, stop, leave, stop_return, Event, loop_left, stop_returned, starts, stops, cancels,
  leaves, returns, Steps, unmoved, after, count_starts, count_stops,
}
use k8s_operator_cloudflare.Slo.Manager.Lifecycle.Accounts.{
  bit, Accounts, Explained, Steps-Explained,
}

open_of : (b : Bool) → bit b ≡ 0 → b ≡ false
open_of true h = absurd (omega arith)
open_of false h = refl

closed_of : (b : Bool) → bit b ≡ 1 → b ≡ true
closed_of true h = refl
closed_of false h = absurd (omega arith)

-- In every interleaving in which `Start` is called at most once and `Stop` at most once, nothing
-- panics: no channel is closed twice.
pub interleaving_without_panic :
    (enabled : Bool) (es : List Event) (l : Life)
    → Steps (new_life enabled) es l
    → count_starts es ≤ 1
    → count_stops es ≤ 1
    → l.panicked ≡ false
interleaving_without_panic enabled es l steps one_start one_stop =
    elim (Steps-Explained enabled steps) [
      | inl (alive, h) ↦ alive
      | inr (dead, inl twice) ↦ absurd (omega arith)
      | inr (dead, inr twice) ↦ absurd (omega arith)
    ]

stop-returned : (l : Life) → l.enabled ≡ true → (stop l).returned ≡ l.returned
unfolding stop
stop-returned l h = go l.stop_closed l.enabled h
  where
    go :
        (c e : Bool)
        → e ≡ true
        → (if c
            then record l { panicked = true }
            else if e
            then record l { stop_closed = true; waiting = l.waiting + 1 }
            else record l { stop_closed = true; returned = l.returned + 1 }).returned
          ≡ l.returned
    go true e k = refl
    go false true k = refl
    go false false k = cc

-- With monitoring enabled and `Start` never called, no call of `Stop` ever returns.
pub stop_never_returns :
    (es : List Event) (l : Life) → Steps (new_life true) es l → count_starts es ≡ 0 → l.returned ≡ 0
unfolding leave
stop_never_returns es l steps none_started = never steps none_started
  where
    wait_on :
        (es : List Event) (l : Life)
        → Explained true (count_starts es) (count_stops es) l
        → count_starts es ≡ 0
        → l.panicked ≡ false
        → (l.enabled ≡ true) × (l.done_closed ≡ false)
    wait_on es l (inl (alive, h)) none_started _ =
        (h.same, open_of l.done_closed (omega (arith, h.loops_left, none_started)))
    wait_on es l (inr (dead, _)) none_started alive = absurd (cc)

    never :
        {es : List Event} {l : Life}
        → Steps (new_life true) es l
        → count_starts es ≡ 0
        → l.returned ≡ 0
    never unmoved none_started = refl
    never (after steps (starts alive)) none_started = absurd (omega arith)
    never (after {es = prior} {l = l} steps (stops alive)) none_started =
        let waits = wait_on prior l (Steps-Explained true steps) none_started alive in
        stop-returned l waits.0 ∙ never steps none_started
    never (after steps (cancels alive)) none_started = never steps none_started
    never (after steps (leaves alive some_loop told)) none_started = never steps none_started
    never (after {es = prior} {l = l} steps (returns alive some_stop done)) none_started =
        let waits = wait_on prior l (Steps-Explained true steps) none_started alive in
        cc (waits.1, done)

-- With monitoring enabled and `Start` called once, a call of `Stop` can always return: from every
-- state that is reached with one call of each, the loop can end, if it has not, and then the call
-- returns, without a further call.
pub stop_returns :
    (es : List Event) (l : Life)
    → Steps (new_life true) es l
    → count_starts es ≡ 1
    → count_stops es ≡ 1
    → (es' : List Event) × (l' : Life) × Steps l es' l'
      × (count_starts es' ≡ 0)
      × (count_stops es' ≡ 0)
      × (l'.returned ≡ 1)
unfolding leave stop_return
stop_returns es l steps one_start one_stop = elim (Steps-Explained true steps) [
  | inl (alive, h) ↦ settles l alive (counts es l one_start one_stop h)
  | inr (dead, inl twice) ↦ absurd (omega arith)
  | inr (dead, inr twice) ↦ absurd (omega arith)
]
  where
    counts :
        (es : List Event) (l : Life)
        → count_starts es ≡ 1
        → count_stops es ≡ 1
        → Accounts true (count_starts es) (count_stops es) l
        → (l.loops + bit l.done_closed ≡ 1) × (l.stop_closed ≡ true) × (l.waiting + l.returned ≡ 1)
    counts es l k k' h =
        (h.loops_left ∙ k, closed_of l.stop_closed (h.closed ∙ k'), h.stops_left ∙ k')

    one_loop : (l : Life) → l.loops + bit l.done_closed ≡ 1 → l.done_closed ≡ false → 1 ≤ l.loops
    one_loop l loops open_still =
        let nothing : bit l.done_closed ≡ 0 = ap bit open_still in omega (arith, loops, nothing)

    settles :
        (l : Life)
        → l.panicked ≡ false
        → (l.loops + bit l.done_closed ≡ 1) × (l.stop_closed ≡ true) × (l.waiting + l.returned ≡ 1)
        → (es' : List Event) × (l' : Life) × Steps l es' l'
          × (count_starts es' ≡ 0)
          × (count_stops es' ≡ 0)
          × (l'.returned ≡ 1)
    settles l alive (loops, told, calls) = elim (Bool-cases (leb 1 l.waiting)) [
      | inr none_waits ↦ ([], l, unmoved, refl, refl, ground (arith, none_waits, calls))
      | inl waits ↦
          let some_stop : 1 ≤ l.waiting = ground (arith, waits) in
          elim (Bool-cases l.done_closed) [
            | inl done ↦ (
              stop_returned ∷ [],
              stop_return l,
              after unmoved (returns alive some_stop done),
              refl,
              refl,
              omega (arith, calls, some_stop),
            )
            | inr open_still ↦ (
              stop_returned ∷ loop_left ∷ [],
              stop_return (leave l),
              after (after unmoved (leaves alive (one_loop l loops open_still) (rw told refl)))
                  (returns (rw (open_still, alive) refl) some_stop refl),
              refl,
              refl,
              omega (arith, calls, some_stop),
            )
          ]
    ]
