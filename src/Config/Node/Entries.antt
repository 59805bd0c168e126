-- ===== src/Config/Node/Entries.antt =====
-- The operations of `Mapping` (cli/config/src/node.rs).
pub mod Laws
pub mod Clean
use luminosity.Base.{Text, text_eq, List, [], ◌∷◌, Option, none, some, if◌then◌else◌}
use luminosity.Config.Node.{Node, Mapping, empty, entry}

unfoldable pub get : Mapping → Text → Option Node
get empty key = none
get (entry existing node rest) key =
    let found = get rest key in if text_eq existing key then some node else found

-- What `get_mut` gives, with the assignment through it: the first value at `key` is replaced.
unfoldable pub put_found : Mapping → Text → Node → Mapping
put_found empty key node = empty
put_found (entry existing old rest) key node =
    let changed = put_found rest key node in
    if text_eq existing key then entry existing node rest else entry existing old changed

unfoldable pub push : Mapping → Text → Node → Mapping
push empty key node = entry key node empty
push (entry existing old rest) key node = entry existing old (push rest key node)

unfoldable pub upsert : Mapping → Text → Node → Mapping
upsert m key node = elim (get m key) [ some _ ↦ put_found m key node | none ↦ push m key node ]

unfoldable pub entries : Mapping → List (Text × Node)
entries empty = []
entries (entry key node rest) = (key, node) ∷ entries rest

-- `FromIterator<(String, Node)>`
unfoldable pub from_iter : List (Text × Node) → Mapping
from_iter [] = empty
from_iter ((key, node) ∷ rest) = entry key node (from_iter rest)
