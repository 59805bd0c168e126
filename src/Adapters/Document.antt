-- ===== src/Adapters/Document.antt =====
-- cli/config-adapters/src/document.rs: YAML frontmatter to the configuration tree and back. The
-- YAML library is the parameter `Yaml`: it drives the visitor of `Parsed` when it reads, and is
-- driven by its `Serialize` when it writes, and a tree of `Calls` holds either.
pub mod Trees
pub mod Rendering
use luminosity.Base.{
  ℕ, ◌^◌, ◌-◌, Bool, Text, codes, decimal, [], ◌++◌, Option, none, some, Result, ok, ◌>>=◌, ◌>>◌,
  leb, is_empty, trim, ends_with, if◌then◌else◌,
}
use luminosity.Base.Int.{ℤ, pos}
use luminosity.Config.Node.{Scalar, Node, scalar, sequence, mapping, Nodes, Mapping, empty}
use luminosity.Adapters.Frontmatter.{split}

mutual
  pub data Parsed : Type 0 where
    null : Parsed
    bool : Bool → Parsed
    int : ℤ → Parsed
    float : ℕ → Parsed
    str : Text → Parsed
    seq : ParsedItems → Parsed
    map : ParsedEntries → Parsed

  -- `Vec<Parsed>`
  pub data ParsedItems : Type 0 where
    nil : ParsedItems
    cons : Parsed → ParsedItems → ParsedItems

  -- `Vec<(String, Parsed)>`
  pub data ParsedEntries : Type 0 where
    end : ParsedEntries
    entry : Text → Parsed → ParsedEntries → ParsedEntries

-- The calls between the YAML library and this module for one value.
mutual
  pub data Calls : Type 0 where
    call_bool : Bool → Calls
    call_i64 : ℤ → Calls
    call_u64 : ℕ → Calls
    call_f64 : ℕ → Calls
    call_str : Text → Calls
    call_unit : Calls
    call_none : Calls
    call_seq : ItemCalls → Calls
    call_map : EntryCalls → Calls

  pub data ItemCalls : Type 0 where
    no_item : ItemCalls
    item : Calls → ItemCalls → ItemCalls

  pub data EntryCalls : Type 0 where
    no_entry : EntryCalls
    key_value : Text → Calls → EntryCalls → EntryCalls

-- `serde_saphyr::from_str` and `serde_saphyr::to_string`
pub record Yaml : Type 0 where
  pub from_str : Text → Result Calls Text
  pub to_string : Calls → Result Text Text

abbrev pub i64_max : ℕ
i64_max = 2 ^ 63 - 1

-- `i64::try_from(value).map_or_else(|_| Str(value.to_string()), Int)`
unfoldable pub visit_u64 : ℕ → Parsed
visit_u64 value = if leb value i64_max then Parsed.int (pos value) else Parsed.str (decimal value)

-- `ParsedVisitor`
unfoldable mutual
  pub visit : Calls → Parsed
  visit (call_bool value) = Parsed.bool value
  visit (call_i64 value) = Parsed.int value
  visit (call_u64 value) = visit_u64 value
  visit (call_f64 value) = Parsed.float value
  visit (call_str value) = Parsed.str value
  visit call_unit = Parsed.null
  visit call_none = Parsed.null
  visit (call_seq items) = Parsed.seq (visit_seq items)
  visit (call_map entries) = Parsed.map (visit_map entries)

  pub visit_seq : ItemCalls → ParsedItems
  visit_seq no_item = ParsedItems.nil
  visit_seq (item value rest) = ParsedItems.cons (visit value) (visit_seq rest)

  pub visit_map : EntryCalls → ParsedEntries
  visit_map no_entry = ParsedEntries.end
  visit_map (key_value name value rest) = ParsedEntries.entry name (visit value) (visit_map rest)

-- `Serialize for Parsed`
unfoldable mutual
  pub serialize : Parsed → Calls
  serialize Parsed.null = call_unit
  serialize (Parsed.bool value) = call_bool value
  serialize (Parsed.int value) = call_i64 value
  serialize (Parsed.float value) = call_f64 value
  serialize (Parsed.str value) = call_str value
  serialize (Parsed.seq items) = call_seq (serialize_items items)
  serialize (Parsed.map entries) = call_map (serialize_entries entries)

  pub serialize_items : ParsedItems → ItemCalls
  serialize_items ParsedItems.nil = no_item
  serialize_items (ParsedItems.cons value rest) = item (serialize value) (serialize_items rest)

  pub serialize_entries : ParsedEntries → EntryCalls
  serialize_entries ParsedEntries.end = no_entry
  serialize_entries (ParsedEntries.entry name value rest) =
      key_value name (serialize value) (serialize_entries rest)

unfoldable mutual
  pub to_node : Parsed → Node
  to_node Parsed.null = scalar Scalar.null
  to_node (Parsed.bool value) = scalar (Scalar.bool value)
  to_node (Parsed.int value) = scalar (Scalar.int value)
  to_node (Parsed.float value) = scalar (Scalar.float value)
  to_node (Parsed.str value) = scalar (Scalar.string value)
  to_node (Parsed.seq items) = sequence (to_nodes items)
  to_node (Parsed.map entries) = mapping (to_mapping entries)

  pub to_nodes : ParsedItems → Nodes
  to_nodes ParsedItems.nil = Nodes.nil
  to_nodes (ParsedItems.cons value rest) = Nodes.cons (to_node value) (to_nodes rest)

  pub to_mapping : ParsedEntries → Mapping
  to_mapping ParsedEntries.end = empty
  to_mapping (ParsedEntries.entry name value rest) =
      Mapping.entry name (to_node value) (to_mapping rest)

unfoldable mutual
  pub to_parsed : Node → Parsed
  to_parsed (scalar Scalar.null) = Parsed.null
  to_parsed (scalar (Scalar.bool value)) = Parsed.bool value
  to_parsed (scalar (Scalar.int value)) = Parsed.int value
  to_parsed (scalar (Scalar.float value)) = Parsed.float value
  to_parsed (scalar (Scalar.string value)) = Parsed.str value
  to_parsed (sequence items) = Parsed.seq (to_parsed_items items)
  to_parsed (mapping m) = Parsed.map (to_parsed_entries m)

  pub to_parsed_items : Nodes → ParsedItems
  to_parsed_items Nodes.nil = ParsedItems.nil
  to_parsed_items (Nodes.cons value rest) =
      ParsedItems.cons (to_parsed value) (to_parsed_items rest)

  pub to_parsed_entries : Mapping → ParsedEntries
  to_parsed_entries empty = ParsedEntries.end
  to_parsed_entries (Mapping.entry name value rest) =
      ParsedEntries.entry name (to_parsed value) (to_parsed_entries rest)

-- `if !yaml.ends_with('\n') { yaml.push('\n') }`
unfoldable pub with_newline : Text → Text
with_newline yaml = if ends_with b'\n' yaml then yaml else yaml ++ codes "\n"

module _ (yaml : Yaml) where
  open yaml use {from_str, to_string}

  unfoldable pub parse_frontmatter : Text → Result Node Text
  parse_frontmatter frontmatter =
      if is_empty (trim frontmatter)
      then ok (mapping empty)
      else do calls ← from_str frontmatter; ok (to_node (visit calls))

  unfoldable pub emit : Node → Result Text Text
  emit document = do text ← to_string (serialize (to_parsed document)); ok (with_newline text)

  unfoldable pub preserved_body : Text → Result Text Text
  preserved_body content = do
    parts ← split content
    parse_frontmatter parts.frontmatter
    ok parts.body

  -- The body of the existing file, if there is one.
  unfoldable pub kept_body : Option Text → Result Text Text
  kept_body none = ok []
  kept_body (some content) = preserved_body content

  unfoldable pub render : Option Text → Node → Result Text Text
  render existing document = do
    body ← kept_body existing
    text ← emit document
    ok (codes "---\n" ++ (text ++ (codes "---\n" ++ body)))
