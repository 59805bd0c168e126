-- ===== src/Config/Node.antt =====
-- cli/config/src/node.rs: the typed, order-preserving configuration tree. A `Mapping` is the list
-- of its entries, in a block with `Node`, which it holds.
pub mod Entries
use luminosity.Base.{ℕ, Bool, Text}
use luminosity.Base.Int.{ℤ}

-- An `f64` is carried and never computed with: it is its bit pattern.
pub data Scalar : Type 0 where
  string : Text → Scalar
  bool : Bool → Scalar
  int : ℤ → Scalar
  float : ℕ → Scalar
  null : Scalar

mutual
  pub data Node : Type 0 where
    scalar : Scalar → Node
    sequence : Nodes → Node
    mapping : Mapping → Node

  -- `Vec<Node>`
  pub data Nodes : Type 0 where
    nil : Nodes
    cons : Node → Nodes → Nodes

  -- `Mapping(Vec<(String, Node)>)`
  pub data Mapping : Type 0 where
    empty : Mapping
    entry : Text → Node → Mapping → Mapping
