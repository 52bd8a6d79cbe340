-- ===== src/Config/Loader/Outcomes.antt =====
-- internal/config/loader.go: what a LoadWithPriority that succeeds gives.
use k8s_operator_cloudflare.Prelude.{
  ◌≡◌, refl, ap, subst, Bool, true, false, Option, none, some, List, [], ◌∷◌, ◌++◌, ◌≢◌, eq_iff,
  if◌then◌else◌, str_eq, arith, Bool-cases, inl, inr,
}
use k8s_operator_cloudflare.Prelude.Dict.{Dict}
use k8s_operator_cloudflare.Config.Types.{
  Config, ConfigSource, merge, merge_operator, copy, new_config, set_text,
}
use k8s_operator_cloudflare.Config.Validation.{ConfigError, validate}
use k8s_operator_cloudflare.Config.Loader.{
  World, LoadOptions, LoadError, Result, ok, err, ◌>>=◌, mark_fields_from_source,
  validate_load_options,
}
use k8s_operator_cloudflare.Config.Loader.Priority.{
  Layer, State, take_layer, add_layer, add_layers, layers, defaults, load_with_priority, validated,
  finish,
}

keeps_leader_election :
    (c o : Config)
    → c.operator.leader_election ≡ true
    → (merge c (some o)).operator.leader_election ≡ true
unfolding merge merge_operator copy
keeps_leader_election c o h = h

keeps_environment : (c o : Config) → c.environment ≢ "" → (merge c (some o)).environment ≢ ""
unfolding merge copy set_text
keeps_environment c o h = elim (Bool-cases (str_eq o.environment "")) [
  | inl e ↦ rw e h
  | inr n ↦ rw n (λ e. ground (arith, eq_iff o.environment "", e, n))
]

module _ {E : Type 0} (w : World E) where
  defaults_leader_election : (defaults w).0.operator.leader_election ≡ true
  unfolding defaults new_config mark_fields_from_source
  defaults_leader_election = refl

  defaults_environment : (defaults w).0.environment ≢ ""
  unfolding defaults new_config mark_fields_from_source
  defaults_environment e = ground (arith, eq_iff "production" "", e)

module _ {E : Type 0} where
  finish_flag :
      (b : Bool) (v : Option ConfigError) (s p : State)
      → (if b then validated {E = E} v s else ok s) ≡ ok p
      → (s ≡ p) × (b ≡ true → v ≡ none)
  finish_flag false v s p h = (cc, λ e. absurd (cc))
  finish_flag true none s p h = (cc, λ e. refl)
  finish_flag true (some e) s p h = absurd (cc)

  module _ (w : World E) where
    -- What a load that succeeds went through.
    abbrev pub Loads : LoadOptions → State → Type 0
    Loads o p =
        (add_layers (layers w o) (defaults w) ≡ ok p)
        × (o.validate_config ≡ true → validate w.net p.0 ≡ none)

    finish-ok :
        (o : LoadOptions) (s p : State)
        → finish w o s ≡ ok p
        → (s ≡ p) × (o.validate_config ≡ true → validate w.net p.0 ≡ none)
    unfolding finish
    finish-ok o s p h =
        let (e, v) = finish_flag o.validate_config (validate w.net s.0) s p h in
        (e, λ t. subst (λ (q : State). validate w.net q.0 ≡ none) e (v t))

    bind-finish :
        (o : LoadOptions) (r : Result E State) (p : State)
        → (r >>= finish w o) ≡ ok p
        → (r ≡ ok p) × (o.validate_config ≡ true → validate w.net p.0 ≡ none)
    bind-finish o (err e) p h = absurd (cc)
    bind-finish o (ok s) p h = let (e, v) = finish-ok o s p h in (ap ok e, v)

    loads :
        (o : LoadOptions) (p : State) (v : Option (LoadError E))
        → (elim v [ some e ↦ err e | none ↦ add_layers (layers w o) (defaults w) >>= finish w o ])
          ≡ ok p
        → Loads o p
    loads o p (some e) h = absurd (cc)
    loads o p none h = bind-finish o (add_layers (layers w o) (defaults w)) p h

    pub load-Loads : (o : LoadOptions) (p : State) → load_with_priority w o ≡ ok p → Loads o p
    unfolding load_with_priority
    load-Loads o p h = loads o p (validate_load_options o) h

    -- A load that asks for validation gives only a configuration that passes `Validate`.
    pub load_with_priority-validate :
        (o : LoadOptions) (p : State)
        → o.validate_config ≡ true
        → load_with_priority w o ≡ ok p
        → validate w.net p.0 ≡ none
    load_with_priority-validate o p v h = (load-Loads o p h).1 v

  >>=-ok :
      {A B : Type 0} (m : Result E A) (f : A → Result E B) (b : B)
      → (m >>= f) ≡ ok b
      → (a : A) × (m ≡ ok a) × (f a ≡ ok b)
  >>=-ok (ok a) f b h = (a, refl, h)
  >>=-ok (err e) f b h = absurd (cc)

  added_inv :
      (P : Config → Type 0)
      → ((c o : Config) → P c → P (merge c (some o)))
      → (enabled : Bool) (loaded : Result E Config)
        (note : Config → Dict ConfigSource → Dict ConfigSource) (s t : State)
      → add_layer (record { enabled = enabled; loaded = loaded; note = note }) s ≡ ok t
      → P s.0
      → P t.0
  unfolding add_layer
  added_inv P keep false loaded note s t h q =
      let e : s ≡ t = cc in subst (λ (x : State). P x.0) e q
  added_inv P keep true (err e) note s t h q = absurd (cc)
  added_inv P keep true (ok c) note s t h q =
      let e : take_layer note s c ≡ t = cc in subst (λ (x : State). P x.0) e (keep s.0 c q)

  -- A property of the configuration that merging keeps holds after any layers.
  add_layers_inv :
      (P : Config → Type 0)
      → ((c o : Config) → P c → P (merge c (some o)))
      → (ls : List (Layer E)) (s p : State) → add_layers ls s ≡ ok p
      → P s.0
      → P p.0
  unfolding add_layers
  add_layers_inv P keep [] s p h q = let e : s ≡ p = cc in subst (λ (x : State). P x.0) e q
  add_layers_inv P keep (l ∷ ls) s p h q =
      let (t, a, b) = >>=-ok (add_layer l s) (add_layers ls) p h in
      add_layers_inv P keep ls t p b (added_inv P keep l.enabled l.loaded l.note s t a q)

  -- The last layer, if it is enabled and loads, is merged over what the others gave.
  pub last_layer :
      (ls : List (Layer E)) (enabled : Bool) (c : Config)
      (note : Config → Dict ConfigSource → Dict ConfigSource) (s p : State)
      → enabled ≡ true
      → add_layers (ls ++ (record { enabled = enabled; loaded = ok c; note = note } ∷ [])) s ≡ ok p
      → (t : State) × (add_layers ls s ≡ ok t) × (take_layer note t c ≡ p)
  unfolding add_layers add_layer
  last_layer [] enabled c note s p e h = (s, refl, ground (arith))
  last_layer (l ∷ ls) enabled c note s p e h =
      let (t, a, b) = >>=-ok (add_layer l s) _ p h in
      let (below, gives, last) = last_layer ls enabled c note t p e b in (below, rw a gives, last)

  module _ (w : World E) where
    -- Whatever the layers say, a load that succeeds gives a configuration with leader election: the
    -- default, which no file, Secret, ConfigMap or environment variable changes.
    pub load_with_priority-leader_election :
        (o : LoadOptions) (p : State)
        → load_with_priority w o ≡ ok p
        → p.0.operator.leader_election ≡ true
    load_with_priority-leader_election o p h =
        add_layers_inv (λ c. c.operator.leader_election ≡ true) keeps_leader_election (layers w o)
          (defaults w) p (load-Loads w o p h).0 (defaults_leader_election w)

    -- A load that succeeds gives a configuration that names an environment.
    pub load_with_priority-environment :
        (o : LoadOptions) (p : State) → load_with_priority w o ≡ ok p → p.0.environment ≢ ""
    load_with_priority-environment o p h =
        add_layers_inv (λ c. c.environment ≢ "") keeps_environment (layers w o) (defaults w) p
          (load-Loads w o p h).0 (defaults_environment w)
