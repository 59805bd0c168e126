-- ===== src/Config/Service/Clean.antt =====
-- An insertion into a document that has no name twice makes one that has none twice.
use luminosity.Base.{Text, List, [], ◌∷◌, Option-cases, ok, >>=-eq-ok, ◌≡◌, inl, inr, sym, subst}
use luminosity.Config.Key.{Key}
use luminosity.Config.Node.{Scalar, string, scalar, mapping, Mapping, empty}
use luminosity.Config.Node.Entries.{get}
use luminosity.Config.Node.Entries.Clean.{
  IsClean, AreClean, HasClean, get-IsClean, put_found-HasClean, push-HasClean, upsert-HasClean,
}
use luminosity.Config.Service.{ensure, descend_for_insert, insert}
use luminosity.Config.Service.Steps.{set_leaf-ok, child_of-ok}

module _ (kept : Scalar → Type 0) (texts : (v : Text) → kept (string v)) where
  leaf-IsClean : (v : Text) → IsClean kept (scalar (string v))
  unfolding IsClean AreClean HasClean
  leaf-IsClean v = texts v

  empty-IsClean : IsClean kept (mapping empty)
  unfolding IsClean AreClean HasClean
  empty-IsClean = tt

  of_mapping : (m : Mapping) → IsClean kept (mapping m) → HasClean kept m
  unfolding IsClean AreClean HasClean
  of_mapping m c = c

  pub to_mapping : (m : Mapping) → HasClean kept m → IsClean kept (mapping m)
  unfolding IsClean AreClean HasClean
  to_mapping m c = c

  descend-HasClean :
      (m parent child : Mapping) (head : Text) (key : Key)
      → descend_for_insert m head key ≡ ok (parent, child)
      → HasClean kept m
      → HasClean kept parent × HasClean kept child
  unfolding descend_for_insert
  descend-HasClean m parent child head key h c = elim (Option-cases (get m head)) [
    | inl absent ↦
        let (there, same) = child_of-ok _ _ parent child head key (rw (absent, ensure) at h) in
        let grown : HasClean kept parent =
          subst (λ (x : Mapping). HasClean kept x) (sym same)
            (push-HasClean kept m head (mapping empty) absent c empty-IsClean) in
        (
          grown,
          of_mapping child (get-IsClean kept parent head (mapping child) grown (rw same there)),
        )
    | inr (n, found) ↦
        let (there, same) = child_of-ok _ _ parent child head key (rw (found, ensure) at h) in
        let grown : HasClean kept parent = subst (λ (x : Mapping). HasClean kept x) (sym same) c in
        (
          grown,
          of_mapping child (get-IsClean kept parent head (mapping child) grown (rw same there)),
        )
  ]

  pub insert-HasClean :
      (m m' : Mapping) (segments : List Text) (v : Text) (key : Key)
      → HasClean kept m
      → insert m segments v key ≡ ok m'
      → HasClean kept m'
  unfolding insert
  insert-HasClean m m' [] v key c h = subst (λ (x : Mapping). HasClean kept x) (cc h) c
  insert-HasClean m m' (head ∷ []) v key c h =
      let (_, same) = set_leaf-ok m m' head v key h in
      subst (λ (x : Mapping). HasClean kept x) (sym same)
        (upsert-HasClean kept m head (scalar (string v)) c (leaf-IsClean v))
  insert-HasClean m m' (head ∷ next ∷ rest) v key c h =
      let ((parent, child), down, later) = >>=-eq-ok (descend_for_insert m head key) _ h in
      let (child', below, same) = >>=-eq-ok (insert child (next ∷ rest) v key) _ later in
      let (cp, below_clean) = descend-HasClean m parent child head key down c in
      let deep = insert-HasClean child child' (next ∷ rest) v key below_clean below in
      subst (λ (x : Mapping). HasClean kept x) (cc same)
        (put_found-HasClean kept parent head (mapping child') cp (to_mapping child' deep))
