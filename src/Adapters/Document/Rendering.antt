-- ===== src/Adapters/Document/Rendering.antt =====
-- A rendered file, read again.
use luminosity.Base.{
  ℕ, subst, true, false, Text, codes, [], ◌∷◌, ◌++◌, Option, some, ok, err, >>=-eq-ok, ok-injective,
  ◌⊎◌, is_empty, trim, ends_with, split_inclusive, ◌≡◌, refl, ap, ◌∙◌, Bool-cases, inl, inr,
}
use luminosity.Config.Node.{Scalar, Node, mapping, empty}
use luminosity.Config.Node.Entries.Clean.{IsClean}
use luminosity.Adapters.Frontmatter.{Split, split}
use luminosity.Adapters.Frontmatter.Lines.{IsBlock, ends_line}
use luminosity.Adapters.Frontmatter.Splitting.{no_fences, split-block}
use luminosity.Adapters.Document.{
  Calls, Yaml, visit, serialize, to_node, to_parsed, with_newline, parse_frontmatter, emit,
  preserved_body, kept_body, render,
}
use luminosity.Adapters.Document.Trees.{to_node-visit}

-- A scalar that is written and read again: of the floats those that the library keeps.
abbrev pub IsKeptScalar : (ℕ → Type 0) → Scalar → Type 0
IsKeptScalar kept_float (Scalar.float bits) = kept_float bits
IsKeptScalar kept_float (Scalar.string v) = Unit {0}
IsKeptScalar kept_float (Scalar.bool b) = Unit {0}
IsKeptScalar kept_float (Scalar.int i) = Unit {0}
IsKeptScalar kept_float Scalar.null = Unit {0}

-- What the program relies on in the YAML library: what it reads has no name twice in a mapping and
-- holds scalars that it keeps, which are all texts, all booleans, all integers, null and such floats
-- as it chooses, so that a NaN with a payload may be left out; a document of that form that it wrote
-- it reads as an equal value; it writes no `---` line, and what it writes is not blank.
pub record YamlLaws (yaml : Yaml) : Type 1 where
  pub kept_float : ℕ → Type 0
  pub reads_clean :
      (t : Text) (c : Calls)
      → yaml.from_str t ≡ ok c
      → IsClean (IsKeptScalar kept_float) (to_node (visit c))
  pub reads_back :
      (n : Node) (t : Text)
      → IsClean (IsKeptScalar kept_float) n
      → yaml.to_string (serialize (to_parsed n)) ≡ ok t
      → (c : Calls) × (yaml.from_str (with_newline t) ≡ ok c)
        × (visit c ≡ visit (serialize (to_parsed n)))
  pub no_fence :
      (c : Calls) (t : Text)
      → yaml.to_string c ≡ ok t
      → no_fences (split_inclusive b'\n' (with_newline t)) ≡ true
  pub not_blank :
      (c : Calls) (t : Text) → yaml.to_string c ≡ ok t → is_empty (trim (with_newline t)) ≡ false

ends_line-newline : (t : Text) → ends_line (t ++ codes "\n") ≡ true
ends_line-newline [] = refl
ends_line-newline (c ∷ []) = refl
ends_line-newline (c ∷ d ∷ ds) = ends_line-newline (d ∷ ds)

ends_with-ends_line : (t : Text) → ends_with b'\n' t ≡ true → ends_line t ≡ true
ends_with-ends_line [] h = refl
ends_with-ends_line (c ∷ []) h = h
ends_with-ends_line (c ∷ d ∷ ds) h = ends_with-ends_line (d ∷ ds) h

with_newline-ends_line : (t : Text) → ends_line (with_newline t) ≡ true
unfolding with_newline
with_newline-ends_line t = elim (Bool-cases (ends_with b'\n' t)) [
  | inl there ↦ rw there (ends_with-ends_line t there)
  | inr missing ↦ rw missing (ends_line-newline t)
]

module _ (yaml : Yaml) (laws : YamlLaws yaml) where
  -- A document that the library writes and reads again.
  abbrev pub IsDocument : Node → Type 0
  IsDocument = IsClean (IsKeptScalar laws.kept_float)

  -- Every document that was parsed is one.
  pub parse_frontmatter-IsDocument :
      (t : Text) (n : Node) → parse_frontmatter yaml t ≡ ok n → IsDocument n
  unfolding parse_frontmatter IsClean
  parse_frontmatter-IsDocument t n h = elim (Bool-cases (is_empty (trim t))) [
    | inl blank ↦
        let same : mapping empty ≡ n = ok-injective (rw blank at h) in
        subst (λ (x : Node). IsDocument x) same tt
    | inr other ↦
        let (c, read, same) = >>=-eq-ok (yaml.from_str t) _ (rw other at h) in
        subst (λ (x : Node). IsDocument x) (ok-injective same) (laws.reads_clean t c read)
  ]

  -- The text that was emitted for a document is a block that parses to the document.
  emit-IsBlock :
      (document : Node) (t : Text)
      → IsDocument document
      → emit yaml document ≡ ok t
      → IsBlock t × (parse_frontmatter yaml t ≡ ok document)
  unfolding emit parse_frontmatter
  emit-IsBlock document t clean h =
      let c = serialize (to_parsed document) in
      let (t', written, same) = >>=-eq-ok (yaml.to_string c) _ h in
      let (c', read, equal) = laws.reads_back document t' clean written in
      rw (← ok-injective same) (
        record { whole_lines = with_newline-ends_line t'; no_fence = laws.no_fence c t' written },
        rw (laws.not_blank c t' written, read) (ap ok (ap to_node equal ∙ to_node-visit document)),
      )

  -- Over a YAML library that keeps its promises, a file that was rendered for a document with no
  -- name twice in a mapping, whose floats the library keeps, splits into the frontmatter of the
  -- document and the body that was kept from the existing file, and the frontmatter parses to the
  -- document.
  pub split-render :
      (existing : Option Text) (document : Node) (file : Text)
      → IsDocument document
      → render yaml existing document ≡ ok file
      → (s : Split) × (split file ≡ ok s)
        × (parse_frontmatter yaml s.frontmatter ≡ ok document)
        × (kept_body yaml existing ≡ ok s.body)
  unfolding render
  split-render existing document file clean h =
      let (body, kept, later) = >>=-eq-ok (kept_body yaml existing) _ h in
      let (text, emitted, same) = >>=-eq-ok (emit yaml document) _ later in
      let (block, parsed) = emit-IsBlock document text clean emitted in
      (
        record { frontmatter = text; body = body },
        rw (← ok-injective same) (split-block text body block),
        parsed,
        kept,
      )

  -- A file whose fences or whose YAML are malformed is never rendered over.
  pub render_malformed :
      (content detail : Text) (document : Node)
      → (split content ≡ err detail)
        ⊎ ((s : Split) × (split content ≡ ok s)
            × (parse_frontmatter yaml s.frontmatter ≡ err detail))
      → render yaml (some content) document ≡ err detail
  unfolding render kept_body preserved_body
  render_malformed content detail document (inl bad) = rw bad
  render_malformed content detail document (inr (s, cut, bad)) = rw cut (rw bad)
