-- ===== src/Slo/Manager/Lifecycle/Accounts.antt =====
-- internal/slo/slo.go: what the calls of `Start` and `Stop` so far say of a state.
use k8s_operator_cloudflare.Prelude.{
  ℕ, suc, ◌+◌, ◌-◌, ◌≤◌, ◌≡◌, refl, sym, ap, subst, ◌∙◌, Bool, true, false, ◌||◌, List, ◌∷◌, ◌⊎◌,
  inl, inr, arith, if◌then◌else◌,
}
use k8s_operator_cloudflare.Slo.Manager.Lifecycle.{
  Life, new_life, start, stop, leave, stop_return, Event, Step, starts, stops, cancels, leaves,
  returns, Steps, unmoved, after, count_starts, count_stops,
}

abbrev pub bit : Bool → ℕ
bit true = 1
bit false = 0

abbrev pub counted : Bool → ℕ → ℕ
counted true s = s
counted false s = 0

-- What the calls so far say of a state without panic, and of one after a panic.
pub record Accounts (enabled : Bool) (s p : ℕ) (l : Life) : Type 0 where
  pub same : l.enabled ≡ enabled
  pub loops_left : l.loops + bit l.done_closed ≡ counted enabled s
  pub closed : bit l.stop_closed ≡ p
  pub stops_left : l.waiting + l.returned ≡ p

abbrev pub Explained : Bool → ℕ → ℕ → Life → Type 0
Explained enabled s p l =
    ((l.panicked ≡ false) × Accounts enabled s p l) ⊎ ((l.panicked ≡ true) × ((2 ≤ s) ⊎ (2 ≤ p)))

start-Explained :
    (enabled : Bool) (s p : ℕ) (l : Life)
    → l.panicked ≡ false
    → Accounts enabled s p l
    → Explained enabled (suc s) p (start l)
unfolding start
start-Explained true s p l alive h =
    subst (Explained true (suc s) p)
      (sym (ap (λ b. if b then record l { loops = l.loops + 1 } else l) h.same))
      (inl (
        alive,
        record {
          same = h.same;
          loops_left = omega (arith, h.loops_left);
          closed = h.closed;
          stops_left = h.stops_left;
        },
      ))
start-Explained false s p l alive h =
    subst (Explained false (suc s) p)
      (sym (ap (λ b. if b then record l { loops = l.loops + 1 } else l) h.same))
      (inl (
        alive,
        record {
          same = h.same;
          loops_left = h.loops_left;
          closed = h.closed;
          stops_left = h.stops_left;
        },
      ))

stop-Explained :
    (enabled : Bool) (s p : ℕ) (l : Life)
    → l.panicked ≡ false
    → Accounts enabled s p l
    → Explained enabled s (suc p) (stop l)
unfolding stop
stop-Explained enabled s p l alive h = go l.stop_closed l.enabled refl refl
  where
    go :
        (c e : Bool)
        → l.stop_closed ≡ c
        → l.enabled ≡ e
        → Explained enabled s (suc p) (
            if c
            then record l { panicked = true }
            else if e
            then record l { stop_closed = true; waiting = l.waiting + 1 }
            else record l { stop_closed = true; returned = l.returned + 1 })
    go true e k k' =
        let once : 1 ≡ p = sym (ap bit k) ∙ h.closed in inr (refl, inr (omega (arith, once)))
    go false true k k' =
        let never : 0 ≡ p = sym (ap bit k) ∙ h.closed in
        inl (
          alive,
          record {
            same = h.same;
            loops_left = h.loops_left;
            closed = omega (arith, never);
            stops_left = omega (arith, h.stops_left);
          },
        )
    go false false k k' =
        let never : 0 ≡ p = sym (ap bit k) ∙ h.closed in
        inl (
          alive,
          record {
            same = h.same;
            loops_left = h.loops_left;
            closed = omega (arith, never);
            stops_left = omega (arith, h.stops_left);
          },
        )

leave-Explained :
    (enabled : Bool) (s p : ℕ) (l : Life)
    → l.panicked ≡ false
    → 1 ≤ l.loops
    → Accounts enabled s p l
    → Explained enabled s p (leave l)
unfolding leave
leave-Explained enabled s p l alive some_loop h = go l.done_closed enabled refl h.same h.loops_left
  where
    go :
        (d e : Bool)
        → l.done_closed ≡ d
        → l.enabled ≡ e
        → l.loops + bit l.done_closed ≡ counted e s
        → Explained e s p
            (record l { loops = l.loops - 1; done_closed = true; panicked = d || l.panicked })
    go false e k k' count =
        let open_still : bit l.done_closed ≡ 0 = ap bit k in
        inl (
          alive,
          record {
            same = k';
            loops_left = omega (arith, count, open_still, some_loop);
            closed = h.closed;
            stops_left = h.stops_left;
          },
        )
    go true true k k' count =
        let closed_now : bit l.done_closed ≡ 1 = ap bit k in
        inr (refl, inl (omega (arith, count, closed_now, some_loop)))
    go true false k k' count = absurd (omega (arith, count, some_loop))

stop_return-Explained :
    (enabled : Bool) (s p : ℕ) (l : Life)
    → l.panicked ≡ false
    → 1 ≤ l.waiting
    → Accounts enabled s p l
    → Explained enabled s p (stop_return l)
unfolding stop_return
stop_return-Explained enabled s p l alive some_stop h = inl (
  alive,
  record {
    same = h.same;
    loops_left = h.loops_left;
    closed = h.closed;
    stops_left = omega (arith, h.stops_left, some_stop);
  },
)

Step-Explained :
    (enabled : Bool) (es : List Event) {e : Event} {l l' : Life}
    → Explained enabled (count_starts es) (count_stops es) l
    → Step l e l'
    → Explained enabled (count_starts (e ∷ es)) (count_stops (e ∷ es)) l'
Step-Explained enabled es (inl (alive, h)) (starts _) = start-Explained enabled _ _ _ alive h
Step-Explained enabled es (inl (alive, h)) (stops _) = stop-Explained enabled _ _ _ alive h
Step-Explained enabled es (inl (alive, h)) (cancels _) = inl (
  alive,
  record { same = h.same; loops_left = h.loops_left; closed = h.closed; stops_left = h.stops_left },
)
Step-Explained enabled es (inl (alive, h)) (leaves _ some_loop _) =
    leave-Explained enabled _ _ _ alive some_loop h
Step-Explained enabled es (inl (alive, h)) (returns _ some_stop _) =
    stop_return-Explained enabled _ _ _ alive some_stop h
Step-Explained enabled es (inr (dead, _)) (starts alive) = absurd (cc)
Step-Explained enabled es (inr (dead, _)) (stops alive) = absurd (cc)
Step-Explained enabled es (inr (dead, _)) (cancels alive) = absurd (cc)
Step-Explained enabled es (inr (dead, _)) (leaves alive _ _) = absurd (cc)
Step-Explained enabled es (inr (dead, _)) (returns alive _ _) = absurd (cc)

pub Steps-Explained :
    (enabled : Bool) {es : List Event} {l : Life}
    → Steps (new_life enabled) es l
    → Explained enabled (count_starts es) (count_stops es) l
Steps-Explained true unmoved =
    inl (refl, record { same = refl; loops_left = refl; closed = refl; stops_left = refl })
Steps-Explained false unmoved =
    inl (refl, record { same = refl; loops_left = refl; closed = refl; stops_left = refl })
Steps-Explained enabled (after {es} steps step) =
    Step-Explained enabled es (Steps-Explained enabled steps) step
