-- ===== src/Adapters/Document/Trees.antt =====
-- The trees on the way between YAML and the configuration lose nothing.
use luminosity.Base.{◌≡◌, refl, ap, ◌∙◌}
use luminosity.Config.Node.{Scalar, Node, scalar, sequence, mapping, Nodes, Mapping, empty}
use luminosity.Adapters.Document.{
  Parsed, ParsedItems, ParsedEntries, visit, visit_seq, visit_map, serialize, serialize_items,
  serialize_entries, to_node, to_nodes, to_mapping, to_parsed, to_parsed_items, to_parsed_entries,
}

mutual
  unfolding to_node to_parsed

  to_node-to_parsed_lem : (n : Node) → to_node (to_parsed n) ≡ n
  to_node-to_parsed_lem (scalar Scalar.null) = refl
  to_node-to_parsed_lem (scalar (Scalar.bool b)) = refl
  to_node-to_parsed_lem (scalar (Scalar.int i)) = refl
  to_node-to_parsed_lem (scalar (Scalar.float x)) = refl
  to_node-to_parsed_lem (scalar (Scalar.string t)) = refl
  to_node-to_parsed_lem (sequence ns) = ap sequence (to_nodes-to_parsed_items ns)
  to_node-to_parsed_lem (mapping m) = ap mapping (to_mapping-to_parsed_entries m)

  to_nodes-to_parsed_items : (ns : Nodes) → to_nodes (to_parsed_items ns) ≡ ns
  to_nodes-to_parsed_items Nodes.nil = refl
  to_nodes-to_parsed_items (Nodes.cons n ns) =
      cc (to_node-to_parsed_lem n, to_nodes-to_parsed_items ns)

  to_mapping-to_parsed_entries : (m : Mapping) → to_mapping (to_parsed_entries m) ≡ m
  to_mapping-to_parsed_entries empty = refl
  to_mapping-to_parsed_entries (Mapping.entry k n m) =
      cc (to_node-to_parsed_lem n, to_mapping-to_parsed_entries m)

mutual
  unfolding visit serialize

  visit-serialize_lem : (p : Parsed) → visit (serialize p) ≡ p
  visit-serialize_lem Parsed.null = refl
  visit-serialize_lem (Parsed.bool b) = refl
  visit-serialize_lem (Parsed.int i) = refl
  visit-serialize_lem (Parsed.float x) = refl
  visit-serialize_lem (Parsed.str t) = refl
  visit-serialize_lem (Parsed.seq items) = ap Parsed.seq (visit_seq-serialize_items items)
  visit-serialize_lem (Parsed.map entries) = ap Parsed.map (visit_map-serialize_entries entries)

  visit_seq-serialize_items : (ps : ParsedItems) → visit_seq (serialize_items ps) ≡ ps
  visit_seq-serialize_items ParsedItems.nil = refl
  visit_seq-serialize_items (ParsedItems.cons p ps) =
      cc (visit-serialize_lem p, visit_seq-serialize_items ps)

  visit_map-serialize_entries : (ps : ParsedEntries) → visit_map (serialize_entries ps) ≡ ps
  visit_map-serialize_entries ParsedEntries.end = refl
  visit_map-serialize_entries (ParsedEntries.entry k p ps) =
      cc (visit-serialize_lem p, visit_map-serialize_entries ps)

-- A node that is written as the library's calls and visited again is the node: every scalar keeps
-- its type, and every mapping its order.
pub to_node-visit : (n : Node) → to_node (visit (serialize (to_parsed n))) ≡ n
to_node-visit n = ap to_node (visit-serialize_lem (to_parsed n)) ∙ to_node-to_parsed_lem n
