-- ===== src/Controller/Conditions.antt =====
-- internal/controller/cloudflarerecord_controller.go: the conditions that `updateStatus` leaves.
use text.Mathlib.TextPositions.{eq_refl}
use k8s_operator_cloudflare.Prelude.{
  ℕ, ◌+◌, ◌≡◌, refl, ap, subst, inl, inr, Bool-cases, String, Bool, true, false, not, Option, none,
  some, List, [], ◌∷◌, arith, if◌then◌else◌, str_eq, ◌==◌, ◌||◌, eq_iff,
}
use k8s_operator_cloudflare.Controller.{
  Condition, CloudflareRecordStatus, condition_type_ready, replace_ready, or_append, behind,
  update_status,
}

abbrev is_ready : Condition → Bool
is_ready c = str_eq c.type condition_type_ready

-- The first condition of the type `Ready`.
unfoldable pub find_ready : List Condition → Option Condition
find_ready [] = none
find_ready (c ∷ cs) = let rest = find_ready cs in if is_ready c then some c else rest

-- The conditions of another type, in order.
unfoldable pub others : List Condition → List Condition
others [] = []
others (c ∷ cs) = let rest = others cs in if is_ready c then rest else c ∷ rest

unfoldable pub count_ready : List Condition → ℕ
count_ready [] = 0
count_ready (c ∷ cs) = let rest = count_ready cs in if is_ready c then rest + 1 else rest

abbrev is_true : Bool → String
is_true ready = if ready then "True" else "False"

pub IsReported : Option Condition → String → String → Type 0
IsReported none status reason = ⊥
IsReported (some c) status reason = (c.status ≡ status) × (c.reason ≡ reason)

abbrev IsReplacement : Condition → List Condition → Type 0
IsReplacement new cs =
    let after = or_append (replace_ready new cs) cs new in
    IsReported (find_ready after) new.status new.reason
    × ((others after ≡ others cs)
        × (count_ready after ≡ (if count_ready cs == 0 then 1 else count_ready cs)))

or_append-behind :
    (new c : Condition) (x : Option (List Condition)) (cs : List Condition)
    → or_append (behind c x) (c ∷ cs) new ≡ c ∷ or_append x cs new
or_append-behind new c none cs = refl
or_append-behind new c (some ds) cs = refl

same_report :
    (new c : Condition)
    → not (str_eq c.status new.status) || not (str_eq c.reason new.reason) ≡ false
    → (c.status ≡ new.status) × (c.reason ≡ new.reason)
same_report new c h = ground (arith, eq_iff c.status new.status, eq_iff c.reason new.reason)

behind_other :
    {A : Type 0} {xs ys : List Condition} {C : Type 0} (c : Condition)
    → A × ((xs ≡ ys) × C)
    → A × ((c ∷ xs ≡ c ∷ ys) × C)
behind_other c (a, (e, d)) = (a, (ap (λ x. c ∷ x) e, d))

replace_ready-IsReplacement :
    (new : Condition) (cs : List Condition) → is_ready new ≡ true → IsReplacement new cs
unfolding replace_ready find_ready others count_ready IsReported
replace_ready-IsReplacement new [] h = rw h ((refl, refl), (refl, refl))
replace_ready-IsReplacement new (c ∷ cs) h = elim (Bool-cases (is_ready c)) [
  | inr n ↦
      rw (n, or_append-behind new c (replace_ready new cs) cs, n)
        (behind_other c (replace_ready-IsReplacement new cs h))
  | inl y ↦
      elim (Bool-cases (not (str_eq c.status new.status) || not (str_eq c.reason new.reason))) [
        | inl d ↦ rw (y, d, h) ((refl, refl), (refl, ground arith))
        | inr e ↦ rw (y, e, y) (same_report new c e, (refl, ground arith))
      ]
]

-- After `updateStatus`, whatever the conditions were: the status says if the record is ready, and the
-- first `Ready` condition has the new status and the new reason. The conditions of other types are
-- unchanged, and so is the number of `Ready` conditions, but that it is one where it was none.
pub update_status_conditions :
    (now : ℕ) (ready : Bool) (reason message : String) (s : CloudflareRecordStatus)
    → let after = update_status now ready reason message s in
      (after.ready ≡ ready)
      × (IsReported (find_ready after.conditions) (if ready then "True" else "False") reason
          × ((others after.conditions ≡ others s.conditions)
              × (count_ready after.conditions
                  ≡ (if count_ready s.conditions == 0 then 1 else count_ready s.conditions))))
unfolding update_status
update_status_conditions now ready reason message s =
    (refl, replace_ready-IsReplacement _ s.conditions refl)

IsReported-at :
    (b x : Bool) (c : Condition) (rest : Option Condition) (status reason : String)
    → b ≡ x
    → IsReported (if b then some c else rest) status reason
    → IsReported (if x then some c else rest) status reason
IsReported-at b x c rest status reason e h =
    subst (λ y. IsReported (if y then some c else rest) status reason) e h

unchanged :
    (new c : Condition)
    → IsReported (some c) new.status new.reason
    → (not (str_eq c.status new.status) || not (str_eq c.reason new.reason)) ≡ false
unfolding IsReported
unchanged new c (e, d) = rw (e, d, eq_refl new.status, eq_refl new.reason) refl

keeps_reported :
    (new : Condition) (cs : List Condition)
    → IsReported (find_ready cs) new.status new.reason
    → or_append (replace_ready new cs) cs new ≡ cs
unfolding IsReported find_ready replace_ready
keeps_reported new [] h = absurd h
keeps_reported new (c ∷ cs) h = elim (Bool-cases (is_ready c)) [
  | inr n ↦
      rw (n, or_append-behind new c (replace_ready new cs) cs)
        (ap (λ x. c ∷ x)
          (keeps_reported new cs (IsReported-at _ _ c (find_ready cs) new.status new.reason n h)))
  | inl y ↦
      rw (y, unchanged new c (IsReported-at _ _ c (find_ready cs) new.status new.reason y h)) refl
]

-- A second `updateStatus` with the same readiness and reason, whatever its time and message, changes
-- no condition: the transition time is that of the first.
pub update_status_again :
    (now later : ℕ) (ready : Bool) (reason message other : String) (s : CloudflareRecordStatus)
    → let after = update_status now ready reason message s in
      (update_status later ready reason other after).conditions ≡ after.conditions
unfolding update_status
update_status_again now later ready reason message other s =
    keeps_reported
      (record {
        type = condition_type_ready;
        status = if ready then "True" else "False";
        reason = reason;
        message = other;
        last_transition_time = later;
      })
      _ (replace_ready-IsReplacement _ s.conditions refl).0
