-- ===== src/Config/Service/Conflicts.antt =====
-- When an insertion is refused: an independent description of the conflicts.
use luminosity.Base.{
  Text, text_eq_refl, List, [], ◌∷◌, Option, none, some, ok, err, ◌>>=◌, >>=-eq-err, ◌≡◌, ◌↔◌, inl,
  inr, refl, sym, ◌∙◌,
}
use luminosity.Config.Error.{ConfigError, path_conflict, Existing, value, section}
use luminosity.Config.Key.{Key}
use luminosity.Config.Node.{Scalar, string, Node, scalar, sequence, mapping, Nodes, Mapping, empty}
use luminosity.Config.Node.Entries.{get, put_found, push, upsert}
use luminosity.Config.Node.Entries.Laws.{get-push}
use luminosity.Config.Service.{set_leaf_at, set_leaf, ensure, child_of, descend_for_insert, insert}

-- Nodes that a value cannot replace, and nodes that no segment can be looked up in.
pub data IsSection : Node → Type 0 where
  of_sequence : (ns : Nodes) → IsSection (sequence ns)
  of_mapping : (m : Mapping) → IsSection (mapping m)

pub data IsNoMapping : Node → Type 0 where
  of_scalar : (s : Scalar) → IsNoMapping (scalar s)
  of_sequence : (ns : Nodes) → IsNoMapping (sequence ns)

-- Writing at these segments conflicts at segment `at`, which holds a section where a value is to
-- go, or no mapping where the path leads through it.
pub data Conflict : Mapping → List Text → Text → Existing → Type 0 where
  at_leaf :
      {m : Mapping} {head : Text} {n : Node}
      → get m head ≡ some n
      → IsSection n
      → Conflict m (head ∷ []) head section
  on_path :
      {m : Mapping} {head next : Text} {rest : List Text} {n : Node}
      → get m head ≡ some n
      → IsNoMapping n
      → Conflict m (head ∷ next ∷ rest) head value
  below :
      {m child : Mapping} {head next at : Text} {rest : List Text} {existing : Existing}
      → get m head ≡ some (mapping child)
      → Conflict child (next ∷ rest) at existing
      → Conflict m (head ∷ next ∷ rest) at existing

abbrev pub Conflicts : Mapping → List Text → Key → ConfigError → Type 0
Conflicts m segments key e =
    (at : Text) × (existing : Existing) × (e ≡ path_conflict key at existing)
    × Conflict m segments at existing

descend-none :
    (m : Mapping) (head : Text) (key : Key)
    → get m head ≡ none
    → descend_for_insert m head key ≡ ok (push m head (mapping empty), empty)
unfolding descend_for_insert
descend-none m head key e =
    rw (e, ensure) (rw (get-push m head head (mapping empty) e, text_eq_refl head))

descend-some :
    (m : Mapping) (head : Text) (key : Key) (n : Node)
    → get m head ≡ some n
    → descend_for_insert m head key ≡ child_of (some n) m head key
unfolding descend_for_insert
descend-some m head key n e = rw (e, ensure) (rw e)

-- The three ways through the first of several segments.
insert-none :
    (m : Mapping) (head next : Text) (rest : List Text) (v : Text) (key : Key)
    → get m head ≡ none
    → insert m (head ∷ next ∷ rest) v key ≡ (
        insert empty (next ∷ rest) v key >>= λ child'.
        ok (put_found (push m head (mapping empty)) head (mapping child')))
unfolding insert
insert-none m head next rest v key e = rw (descend-none m head key e)

insert-some :
    (m child : Mapping) (head next : Text) (rest : List Text) (v : Text) (key : Key)
    → get m head ≡ some (mapping child)
    → insert m (head ∷ next ∷ rest) v key
      ≡ (insert child (next ∷ rest) v key >>= λ child'. ok (put_found m head (mapping child')))
unfolding insert child_of
insert-some m child head next rest v key e = rw (descend-some m head key (mapping child) e)

insert-IsNoMapping :
    (m : Mapping) (head next : Text) (rest : List Text) (v : Text) (key : Key) {n : Node}
    → IsNoMapping n
    → get m head ≡ some n
    → insert m (head ∷ next ∷ rest) v key ≡ err (path_conflict key head value)
unfolding insert child_of
insert-IsNoMapping m head next rest v key (of_scalar s) e =
    rw (descend-some m head key (scalar s) e)
insert-IsNoMapping m head next rest v key (of_sequence ns) e =
    rw (descend-some m head key (sequence ns) e)

-- Every insertion into an empty mapping succeeds.
pub insert-empty :
    (segments : List Text) (v : Text) (key : Key)
    → (m : Mapping) × (insert empty segments v key ≡ ok m)
unfolding insert set_leaf set_leaf_at get
insert-empty [] v key = (empty, refl)
insert-empty (head ∷ []) v key = (upsert empty head (scalar (string v)), refl)
insert-empty (head ∷ next ∷ rest) v key =
    let (child, done) = insert-empty (next ∷ rest) v key in
    (
      put_found (push empty head (mapping empty)) head (mapping child),
      insert-none empty head next rest v key refl ∙ rw done,
    )

insert_leaf-Conflicts :
    (m : Mapping) (head v : Text) (key : Key) (e : ConfigError) (o : Option Node)
    → get m head ≡ o
    → set_leaf_at o m head v key ≡ err e
    → Conflicts m (head ∷ []) key e
unfolding set_leaf_at
insert_leaf-Conflicts m head v key e none g h = cc
insert_leaf-Conflicts m head v key e (some (scalar s)) g h = cc
insert_leaf-Conflicts m head v key e (some (sequence ns)) g h =
    (head, section, cc, at_leaf g (of_sequence ns))
insert_leaf-Conflicts m head v key e (some (mapping c)) g h =
    (head, section, cc, at_leaf g (of_mapping c))

insert_path-Conflicts :
    (m : Mapping) (head next : Text) (rest : List Text) (v : Text) (key : Key) (e : ConfigError)
    → (o : Option Node) → get m head ≡ o
    → insert m (head ∷ next ∷ rest) v key ≡ err e
    → ((child : Mapping)
        → insert child (next ∷ rest) v key ≡ err e
        → Conflicts child (next ∷ rest) key e)
    → Conflicts m (head ∷ next ∷ rest) key e
insert_path-Conflicts m head next rest v key e none g h deeper =
    let (child, done) = insert-empty (next ∷ rest) v key in
    cc (sym (insert-none m head next rest v key g) ∙ h, done)
insert_path-Conflicts m head next rest v key e (some (scalar s)) g h deeper = (
  head,
  value,
  cc (insert-IsNoMapping m head next rest v key (of_scalar s) g),
  on_path g (of_scalar s),
)
insert_path-Conflicts m head next rest v key e (some (sequence ns)) g h deeper = (
  head,
  value,
  cc (insert-IsNoMapping m head next rest v key (of_sequence ns) g),
  on_path g (of_sequence ns),
)
insert_path-Conflicts m head next rest v key e (some (mapping child)) g h deeper =
    elim (>>=-eq-err (insert child (next ∷ rest) v key) _
      (sym (insert-some m child head next rest v key g) ∙ h)) [
        | inl refused ↦
            let (at, existing, same, conflict) = deeper child refused in
            (at, existing, same, below g conflict)
        | inr (child', _, never) ↦ cc
      ]

insert-Conflicts :
    (m : Mapping) (segments : List Text) (v : Text) (key : Key) (e : ConfigError)
    → insert m segments v key ≡ err e
    → Conflicts m segments key e
unfolding insert set_leaf
insert-Conflicts m [] v key e h = cc
insert-Conflicts m (head ∷ []) v key e h = insert_leaf-Conflicts m head v key e (get m head) refl h
insert-Conflicts m (head ∷ next ∷ rest) v key e h =
    insert_path-Conflicts m head next rest v key e (get m head) refl h
      (λ child. insert-Conflicts child (next ∷ rest) v key e)

Conflict-insert :
    {m : Mapping} {segments : List Text} {at : Text} {existing : Existing} (v : Text) (key : Key)
    → Conflict m segments at existing
    → insert m segments v key ≡ err (path_conflict key at existing)
unfolding insert set_leaf
Conflict-insert v key (at_leaf found (of_sequence ns)) = rw (found, set_leaf_at)
Conflict-insert v key (at_leaf found (of_mapping c)) = rw (found, set_leaf_at)
Conflict-insert {m} v key (on_path {head} {next} {rest} found no_mapping) =
    insert-IsNoMapping m head next rest v key no_mapping found
Conflict-insert {m} v key (below {child} {head} {next} {rest} found deeper) =
    insert-some m child head next rest v key found ∙ rw (Conflict-insert v key deeper)

-- An insertion is refused exactly when its segments conflict with the document, and the error
-- names the key, the segment and what that segment already holds.
pub insert-err_iff :
    (m : Mapping) (segments : List Text) (v : Text) (key : Key) (e : ConfigError)
    → (insert m segments v key ≡ err e) ↔ Conflicts m segments key e
insert-err_iff m segments v key e = (
  insert-Conflicts m segments v key e,
  λ (at, existing, same, conflict). Conflict-insert v key conflict ∙ rw same,
)
