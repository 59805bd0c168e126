-- ===== src/Tests/Documents.antt =====
-- Frontmatter, and documents over the YAML library of the tests.
use luminosity.Base.{Text, text_eq, codes, ◌++◌, some, ok, err, ◌≡◌, refl, is_whitespace}
use luminosity.Config.Node.{Node, mapping, sequence, scalar, string, int, Nodes, empty, entry}
use luminosity.Base.Int.{negsuc}
use luminosity.Config.Node.Entries.Clean.{IsClean}
use luminosity.Adapters.Frontmatter.{Split, is_fence, collect, close, split_segments, split}
use luminosity.Adapters.Frontmatter.Lines.{IsBlock}
use luminosity.Adapters.Frontmatter.Splitting.{split-block, Reads, split-Reads}
use luminosity.Adapters.Document.{
  visit, serialize, to_node, to_parsed, parse_frontmatter, kept_body, preserved_body, render, emit,
  with_newline,
}
use luminosity.Adapters.Document.Trees.{to_node-visit}
use luminosity.Adapters.Document.Rendering.{IsDocument, split-render}
use luminosity.Tests.Disks.{yaml, yaml-YamlLaws, yaml_from_str, yaml_to_string, yaml_map}

abbrev block : Text
block = codes "a: b\nc: d\n"

-- A body that holds a fence of its own.
abbrev body : Text
body = codes "text\n---\nmore"

abbrev file : Text
file = codes "---\n" ++ (block ++ (codes "---\n" ++ body))

block-IsBlock : IsBlock block
unfolding is_fence text_eq
block-IsBlock = record { whole_lines = refl; no_fence = refl }

split-block_example : split file ≡ ok (record { frontmatter = block; body = body })
split-block_example = split-block block body block-IsBlock

split-Reads_example : Reads file (record { frontmatter = block; body = body })
split-Reads_example =
    split-Reads file (record { frontmatter = block; body = body }) split-block_example

abbrev tree : Node
tree = mapping (
    entry (codes "xs")
      (sequence
        (Nodes.cons (scalar (int (negsuc 4))) (Nodes.cons (scalar (string (codes "x"))) Nodes.nil)))
      empty)

to_node-visit_example : to_node (visit (serialize (to_parsed tree))) ≡ tree
to_node-visit_example = to_node-visit tree

abbrev existing : Text
existing = codes "---\na: b\n---\nkeep\n"

abbrev written : Text
written = codes "---\n{}\n---\nkeep\n"

render-existing : render yaml (some existing) (mapping empty) ≡ ok written
unfolding render kept_body preserved_body split split_segments collect close is_fence text_eq
    parse_frontmatter emit with_newline yaml_from_str yaml_to_string yaml_map is_whitespace visit
    to_node to_parsed serialize
render-existing = refl

empty-IsDocument : IsDocument yaml yaml-YamlLaws (mapping empty)
unfolding IsClean
empty-IsDocument = tt

split-render_example :
    (s : Split) × (split written ≡ ok s)
    × (parse_frontmatter yaml s.frontmatter ≡ ok (mapping empty))
    × (kept_body yaml (some existing) ≡ ok s.body)
split-render_example =
    split-render yaml yaml-YamlLaws (some existing) (mapping empty) written empty-IsDocument
      render-existing

abbrev open_block : Text
open_block = codes "---\na: b\n"

split-open_block : split open_block ≡ err (codes "unterminated frontmatter block")
unfolding split split_segments collect close is_fence text_eq
split-open_block = refl
