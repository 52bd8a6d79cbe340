-- ===== src/Config/Loader/Laws.antt =====
-- internal/config/loader.go: the layers of LoadWithPriority as a merge of the ones that are enabled.
use k8s_operator_cloudflare.Prelude.{
  ◌≡◌, refl, ◌∙◌, Bool, true, false, some, List, [], ◌∷◌, if◌then◌else◌,
}
use k8s_operator_cloudflare.Prelude.Dict.{Dict}
use k8s_operator_cloudflare.Config.Types.{Config, ConfigSource, merge}
use k8s_operator_cloudflare.Config.Types.Merge.{merge_all}
use k8s_operator_cloudflare.Config.Loader.{Result, ok, err, ◌>>=◌}
use k8s_operator_cloudflare.Config.Loader.Priority.{Layer, State, take_layer, add_layer, add_layers}

module _ {E : Type 0} where
  nested :
      (r : Result E (List Config)) (c o : Config)
      → (r >>= λ cs. ok (merge_all (merge c (some o)) cs))
        ≡ ((r >>= λ cs. ok (o ∷ cs)) >>= λ cs. ok (merge_all c cs))
  unfolding merge_all
  nested (err e) c o = refl
  nested (ok cs) c o = refl

  -- The enabled layers, loaded in order; the first that fails gives the error.
  unfoldable pub load_all : List (Layer E) → Result E (List Config)
  load_all [] = ok []
  load_all (l ∷ ls) =
      let rest = load_all ls in
      if l.enabled then (l.loaded >>= λ c. rest >>= λ cs. ok (c ∷ cs)) else rest

  abbrev pub config_of : Result E State → Result E Config
  config_of r = r >>= λ s. ok s.0

  one_layer :
      (enabled : Bool) (loaded : Result E Config)
      (note : Config → Dict ConfigSource → Dict ConfigSource) (ls : List (Layer E)) (s : State)
      → ((t : State) → config_of (add_layers ls t) ≡ (load_all ls >>= λ cs. ok (merge_all t.0 cs)))
      → config_of (add_layers (record { enabled = enabled; loaded = loaded; note = note } ∷ ls) s)
        ≡ (load_all (record { enabled = enabled; loaded = loaded; note = note } ∷ ls) >>= λ cs.
            ok (merge_all s.0 cs))
  unfolding add_layers add_layer load_all merge_all
  one_layer false loaded note ls s h = h s
  one_layer true (err e) note ls s h = refl
  one_layer true (ok c) note ls s h = h (take_layer note s c) ∙ nested (load_all ls) s.0 c

  pub add_layers-load_all :
      (ls : List (Layer E)) (s : State)
      → config_of (add_layers ls s) ≡ (load_all ls >>= λ cs. ok (merge_all s.0 cs))
  unfolding add_layers load_all merge_all
  add_layers-load_all [] s = refl
  add_layers-load_all (l ∷ ls) s = one_layer l.enabled l.loaded l.note ls s (add_layers-load_all ls)
