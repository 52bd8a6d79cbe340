-- ===== src/Slo/ErrorBudget/History.antt =====
-- internal/slo/error_budget.go: what the bounded history of a key holds.
use k8s_operator_cloudflare.Prelude.{
  ◌-◌, ◌≡◌, refl, ap, sym, ◌∙◌, String, false, List, [], ◌∷◌, ◌++◌, inl, inr, arith, if◌then◌else◌,
  str_eq, or_default, length, drop, recent, recent-recent, Bool-cases, eq_iff, ltb,
}
use k8s_operator_cloudflare.Prelude.Float.{Float64}
use k8s_operator_cloudflare.Prelude.Dict.{lookup, lookup-insert}
use k8s_operator_cloudflare.Slo.ErrorBudget.{
  ErrorBudgetSnapshot, ErrorBudgetManager, history_key, append_bounded, record_snapshot,
  snapshots_of, new_error_budget_manager,
}
use k8s_operator_cloudflare.Slo.Config.{ErrorBudgetConfig}
use mathlib.Core.List.{append-nil, append_assoc}

module _ {ℓ} {W : Type ℓ} ⦃f : Float64 W⦄ where
  abbrev pub key_of : ErrorBudgetSnapshot W → String
  key_of s = history_key s.slo_name s.window

  -- The snapshots recorded, in this order.
  unfoldable pub record_all :
      ErrorBudgetManager W → List (ErrorBudgetSnapshot W) → ErrorBudgetManager W
  record_all m [] = m
  record_all m (s ∷ ss) = record_all (record_snapshot m s) ss

  -- Those of them that have the key.
  unfoldable pub with_key : String → List (ErrorBudgetSnapshot W) → List (ErrorBudgetSnapshot W)
  with_key key [] = []
  with_key key (s ∷ ss) =
      let rest = with_key key ss in if str_eq (key_of s) key then s ∷ rest else rest

  held : String → ErrorBudgetManager W → List (ErrorBudgetSnapshot W)
  held key m = or_default (lookup key m.history) []

  append_bounded-recent :
      (s : ErrorBudgetSnapshot W) (old : List (ErrorBudgetSnapshot W))
      → append_bounded s old ≡ recent 1000 (old ++ (s ∷ []))
  unfolding append_bounded
  append_bounded-recent s old =
      let all = old ++ (s ∷ []) in
      elim (Bool-cases (ltb 1000 (length all))) [
        | inl e ↦ rw e refl
        | inr e ↦ rw e (ap (λ n. drop n all) (within all e))
      ]
    where
      within :
          (all : List (ErrorBudgetSnapshot W))
          → ltb 1000 (length all) ≡ false
          → 0 ≡ length all - 1000
      within all e = ground arith

  held-record_snapshot :
      (key : String) (m : ErrorBudgetManager W) (s : ErrorBudgetSnapshot W)
      → held key (record_snapshot m s)
        ≡ (if str_eq (key_of s) key then recent 1000 (held key m ++ (s ∷ [])) else held key m)
  unfolding held record_snapshot
  held-record_snapshot key m s = elim (Bool-cases (str_eq (key_of s) key)) [
    | inl e ↦
        rw
          (
            lookup-insert (key_of s) key (append_bounded s (held (key_of s) m)) m.history,
            e,
            (eq_iff (key_of s) key).0 e,
          )
          (append_bounded-recent s (held key m))
    | inr e ↦
        rw (lookup-insert (key_of s) key (append_bounded s (held (key_of s) m)) m.history, e) refl
  ]

  held-record_all :
      (key : String) (m : ErrorBudgetManager W) (past ss : List (ErrorBudgetSnapshot W))
      → held key m ≡ recent 1000 past
      → held key (record_all m ss) ≡ recent 1000 (past ++ with_key key ss)
  unfolding record_all with_key
  held-record_all key m past [] h = h ∙ ap (λ all. recent 1000 all) (sym (append-nil past))
  held-record_all key m past (s ∷ ss) h = elim (Bool-cases (str_eq (key_of s) key)) [
    | inl e ↦ rw e (
        held-record_all key (record_snapshot m s) (past ++ (s ∷ [])) ss
          (held-record_snapshot key m s ∙ rw (e, h) (recent-recent 1000 past (s ∷ [])))
        ∙ ap (λ all. recent 1000 all) (append_assoc past (s ∷ []) (with_key key ss)))
    | inr e ↦ rw e (
        held-record_all key (record_snapshot m s) past ss
          (held-record_snapshot key m s ∙ rw (e, h) refl))
  ]

  -- Whatever snapshots are recorded in a new manager, in whatever order, the history of an objective
  -- and a window is the last thousand of those recorded under its key, in their order.
  pub record_snapshot-recent :
      (config : ErrorBudgetConfig W) (ss : List (ErrorBudgetSnapshot W)) (name window : String)
      → snapshots_of (record_all (new_error_budget_manager config) ss) name window
        ≡ recent 1000 (with_key (history_key name window) ss)
  unfolding snapshots_of held new_error_budget_manager lookup
  record_snapshot-recent config ss name window =
      held-record_all (history_key name window) (new_error_budget_manager config) [] ss refl
