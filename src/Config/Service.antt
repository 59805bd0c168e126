-- ===== src/Config/Service.antt =====
-- cli/config/src/service.rs: resolving a key in a document and inserting one. The driven ports
-- and the service over them are in the child Access.
pub mod Steps
pub mod Insert
pub mod Clean
pub mod Conflicts
pub mod Access
pub mod Driver
use luminosity.Base.{Text, List, [], ◌∷◌, Option, none, some, Result, ok, err, ◌>>=◌}
use luminosity.Config.Error.{ConfigError, path_conflict, value, section}
use luminosity.Config.Key.{Key}
use luminosity.Config.Node.{Scalar, string, Node, scalar, sequence, mapping, Mapping, empty}
use luminosity.Config.Node.Entries.{get, put_found, push, upsert}

pub data Resolved : Type 0 where
  found : Scalar → Resolved
  absent : Resolved

-- The `match` after the loop of `resolve`.
pub leaf : Node → Resolved
leaf (scalar s) = found s
leaf _ = absent

-- The loop of `resolve` from `current` on.
unfoldable pub walk : List Text → Node → Resolved
unfolding leaf
walk [] current = leaf current
walk (segment ∷ rest) (mapping m) = elim (get m segment) [
  | some child ↦ walk rest child
  | none ↦ absent
]
walk (segment ∷ rest) _ = absent

unfoldable pub resolve : Option Node → Key → Resolved
resolve none key = absent
resolve (some document) key = walk key.segments document

-- The match on what a leaf finds at its name.
unfoldable pub set_leaf_at : Option Node → Mapping → Text → Text → Key → Result Mapping ConfigError
set_leaf_at (some (mapping _)) m head v key = err (path_conflict key head section)
set_leaf_at (some (sequence _)) m head v key = err (path_conflict key head section)
set_leaf_at _ m head v key = ok (upsert m head (scalar (string v)))

-- A function that takes a `&mut Mapping` returns the mapping that it leaves. On an error the
-- caller drops the mapping, so none is returned.
unfoldable pub set_leaf : Mapping → Text → Text → Key → Result Mapping ConfigError
unfolding set_leaf_at
set_leaf m head v key = set_leaf_at (get m head) m head v key

-- `if parent.get(head).is_none() { parent.push(…) }`
unfoldable pub ensure : Mapping → Text → Mapping
ensure parent head = elim (get parent head) [
  | none ↦ push parent head (mapping empty)
  | some _ ↦ parent
]

unfoldable pub child_of :
    Option Node → Mapping → Text → Key → Result (Mapping × Mapping) ConfigError
child_of (some (mapping child)) parent head key = ok (parent, child)
child_of _ parent head key = err (path_conflict key head value)

-- The parent, and the child in it that the returned reference points to.
unfoldable pub descend_for_insert : Mapping → Text → Key → Result (Mapping × Mapping) ConfigError
unfolding ensure child_of
descend_for_insert parent head key =
    let parent' = ensure parent head in child_of (get parent' head) parent' head key

-- What is written through the reference to the child goes back into the parent.
unfoldable pub insert : Mapping → List Text → Text → Key → Result Mapping ConfigError
insert m [] v key = ok m
insert m (head ∷ []) v key = set_leaf m head v key
insert m (head ∷ next ∷ rest) v key = do
  (parent, child) ← descend_for_insert m head key
  child' ← insert child (next ∷ rest) v key
  ok (put_found parent head (mapping child'))
