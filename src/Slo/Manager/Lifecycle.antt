-- ===== src/Slo/Manager/Lifecycle.antt =====
-- internal/slo/slo.go: `Start`, `Stop` and the end of the loop of `run`, in every interleaving. The two
-- channels carry no value: a channel is closed or it is not, and to close it twice is a panic, which
-- ends the program.
mod Accounts
mod Stop
mod Tests
use k8s_operator_cloudflare.Prelude.{
  ℕ, zero, suc, ◌+◌, ◌-◌, ◌≤◌, ◌≡◌, refl, sym, ap, subst, ◌∙◌, Bool, true, false, ◌||◌, List, [],
  ◌∷◌, ◌⊎◌, inl, inr, arith, if◌then◌else◌, Bool-cases, leb,
}

pub record Life : Type 0 where
  pub enabled : Bool
  -- The loops that `Start` has begun and that have not ended.
  pub loops : ℕ
  pub stop_closed : Bool
  pub done_closed : Bool
  pub cancelled : Bool
  -- The calls of `Stop` that wait for the end of the loop, and those that have returned.
  pub waiting : ℕ
  pub returned : ℕ
  pub panicked : Bool

abbrev pub new_life : Bool → Life
new_life enabled = record {
  enabled = enabled;
  loops = 0;
  stop_closed = false;
  done_closed = false;
  cancelled = false;
  waiting = 0;
  returned = 0;
  panicked = false;
}

unfoldable pub start : Life → Life
start l = if l.enabled then record l { loops = l.loops + 1 } else l

unfoldable pub stop : Life → Life
stop l =
    if l.stop_closed
    then record l { panicked = true }
    else if l.enabled
    then record l { stop_closed = true; waiting = l.waiting + 1 }
    else record l { stop_closed = true; returned = l.returned + 1 }

-- A loop ends: the deferred `close(m.doneCh)`.
unfoldable pub leave : Life → Life
leave l = record l {
  loops = l.loops - 1;
  done_closed = true;
  panicked = l.done_closed || l.panicked;
}

unfoldable pub stop_return : Life → Life
stop_return l = record l { waiting = l.waiting - 1; returned = l.returned + 1 }

pub data Event : Type 0 where
  start_called stop_called context_cancelled loop_left stop_returned : Event

-- A program that has panicked takes no step.
pub data Step : Life → Event → Life → Type 0 where
  starts : {l : Life} → l.panicked ≡ false → Step l start_called (start l)
  stops : {l : Life} → l.panicked ≡ false → Step l stop_called (stop l)
  cancels :
      {l : Life} → l.panicked ≡ false → Step l context_cancelled (record l { cancelled = true })
  leaves :
      {l : Life}
      → l.panicked ≡ false
      → 1 ≤ l.loops
      → (l.stop_closed || l.cancelled) ≡ true
      → Step l loop_left (leave l)
  returns :
      {l : Life}
      → l.panicked ≡ false
      → 1 ≤ l.waiting
      → l.done_closed ≡ true
      → Step l stop_returned (stop_return l)

-- The events, the latest first.
pub data Steps (origin : Life) : List Event → Life → Type 0 where
  unmoved : Steps origin [] origin
  after :
      {es : List Event} {e : Event} {l l' : Life}
      → Steps origin es l
      → Step l e l'
      → Steps origin (e ∷ es) l'

abbrev pub count_starts : List Event → ℕ
count_starts [] = 0
count_starts (start_called ∷ es) = suc (count_starts es)
count_starts (stop_called ∷ es) = count_starts es
count_starts (context_cancelled ∷ es) = count_starts es
count_starts (loop_left ∷ es) = count_starts es
count_starts (stop_returned ∷ es) = count_starts es

abbrev pub count_stops : List Event → ℕ
count_stops [] = 0
count_stops (start_called ∷ es) = count_stops es
count_stops (stop_called ∷ es) = suc (count_stops es)
count_stops (context_cancelled ∷ es) = count_stops es
count_stops (loop_left ∷ es) = count_stops es
count_stops (stop_returned ∷ es) = count_stops es
