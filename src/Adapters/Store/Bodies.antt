-- ===== src/Adapters/Store/Bodies.antt =====
-- Which part of a file is its body, when it is read and when its level is written.
use luminosity.Base.{
  ℕ, true, false, Text, Option, none, some, Result, ok, err, ◌>>=◌, >>=-eq-ok, ok-injective, ◌≡◌,
  ◌≢◌, ◌⊎◌, inl, inr, refl, sym, ◌∙◌, arith,
}
use luminosity.Platform.Path.{FilePath}
use luminosity.Platform.Files.{IoError, FileSystem}
use luminosity.Config.Error.{ConfigError}
use luminosity.Config.Node.{Node, scalar, sequence, Mapping, mapping}
use luminosity.Adapters.Frontmatter.{Split, split}
use luminosity.Adapters.Document.{Yaml, parse_frontmatter, preserved_body, kept_body, render}
use luminosity.Adapters.Document.Rendering.{YamlLaws, IsDocument, split-render}
use luminosity.Adapters.Store.{unless_missing, malformed, refuse_escaping_path, read_and_split}
use luminosity.Adapters.Store.Operations.{is_mapping, body_of, read_fragment_body}

-- The text that a fragment takes from a file: what is below a frontmatter that is a mapping, and
-- otherwise the file, byte for byte.
pub data BodyOf (yaml : Yaml) (content body : Text) : Type 0 where
  below :
      (s : Split) (m : Mapping)
      → split content ≡ ok s
      → parse_frontmatter yaml s.frontmatter ≡ ok (mapping m)
      → body ≡ s.body
      → BodyOf yaml content body
  whole :
      (s : Split)
      → split content ≡ ok s
      → ((m : Mapping) → parse_frontmatter yaml s.frontmatter ≢ ok (mapping m))
      → body ≡ content
      → BodyOf yaml content body

is_mapping-cases :
    (r : Result Node Text)
    → ((m : Mapping) × (r ≡ ok (mapping m)) × (is_mapping r ≡ true))
      ⊎ (((m : Mapping) → r ≢ ok (mapping m)) × (is_mapping r ≡ false))
unfolding is_mapping
is_mapping-cases (ok (mapping m)) = inl (m, refl, refl)
is_mapping-cases (ok (scalar s)) = inr (λ m e. cc, refl)
is_mapping-cases (ok (sequence ns)) = inr (λ m e. cc, refl)
is_mapping-cases (err e) = inr (λ m e. cc, refl)

unless_missing-ok :
    (path : FilePath) (r : Result Text IoError) (a : Text)
    → unless_missing path r ≡ ok (some a)
    → r ≡ ok a
unfolding unless_missing
unless_missing-ok path r a h = ground arith

malformed-ok :
    (path : FilePath) (r : Result Split Text) (s : Split) → malformed path r ≡ ok s → r ≡ ok s
unfolding malformed
malformed-ok path r s h = ground arith

body_of-BodyOf :
    (yaml : Yaml) (content : Text) (s : Split)
    → split content ≡ ok s
    → BodyOf yaml content (body_of yaml content s)
unfolding body_of
body_of-BodyOf yaml content s cut = elim (is_mapping-cases (parse_frontmatter yaml s.frontmatter)) [
  | inl (m, e, test) ↦ below s m cut e (rw test)
  | inr (other, test) ↦ whole s cut other (rw test)
]

module _ {W : Type 0} (fs : FileSystem W) (yaml : Yaml) (process_id : ℕ) (root : FilePath) where
  read_and_split-ok :
      (w : W) (path : FilePath) (content : Text) (s : Split)
      → read_and_split fs root w path ≡ ok (some (content, s))
      → (fs.read_to_string w path ≡ ok content) × (split content ≡ ok s)
  unfolding read_and_split
  read_and_split-ok w path content s h =
      let (found, read, rest) = >>=-eq-ok (unless_missing path (fs.read_to_string w path)) _ h in
      go found read rest
    where
      go :
          (found : Option Text)
          → unless_missing path (fs.read_to_string w path) ≡ ok found
          → ◌≡◌ {A = Result (Option (Text × Split)) ConfigError}
              (elim found [
                | none ↦ ok none
                | some c ↦ malformed path (split c) >>= λ parts. ok (some (c, parts))
              ])
              (ok (some (content, s)))
          → (fs.read_to_string w path ≡ ok content) × (split content ≡ ok s)
      go none read rest = cc
      go (some c) read rest =
          let (parts, cut, same) = >>=-eq-ok (malformed path (split c)) _ rest in
          let e : c ≡ content = cc in
          let p : parts ≡ s = cc in
          (
            unless_missing-ok path (fs.read_to_string w path) content (rw (← e) read),
            malformed-ok path (split content) s (rw (← e, ← p) cut),
          )

  -- A fragment body that was read is the body, in this sense, of the file's content.
  pub read_fragment_body-BodyOf :
      (w : W) (path : FilePath) (body : Text)
      → read_fragment_body fs yaml process_id root w path ≡ ok (some body)
      → (content : Text) × (fs.read_to_string w path ≡ ok content) × BodyOf yaml content body
  unfolding read_fragment_body
  read_fragment_body-BodyOf w path body h =
      let (_, inside, later) = >>=-eq-ok (refuse_escaping_path fs root w path) _ h in
      let (found, read, rest) = >>=-eq-ok (read_and_split fs root w path) _ later in
      go found read rest
    where
      go :
          (found : Option (Text × Split))
          → read_and_split fs root w path ≡ ok found
          → ◌≡◌ {A = Result (Option Text) ConfigError}
              (ok (elim found [
                | none ↦ none
                | some (content, parts) ↦ some (body_of yaml content parts)
              ]))
              (ok (some body))
          → (content : Text) × (fs.read_to_string w path ≡ ok content) × BodyOf yaml content body
      go none read rest = cc
      go (some (content, s)) read rest =
          let (on_disk, cut) = read_and_split-ok w path content s read in
          let same : body_of yaml content s ≡ body = cc in
          (content, on_disk, rw (← same) (body_of-BodyOf yaml content s cut))

body_of_prose :
    (yaml : Yaml) (content : Text) (s : Split)
    → ((m : Mapping) → parse_frontmatter yaml s.frontmatter ≢ ok (mapping m))
    → body_of yaml content s ≡ content
unfolding body_of
body_of_prose yaml content s other =
    elim (is_mapping-cases (parse_frontmatter yaml s.frontmatter)) [
      | inl (m, e, _) ↦ absurd (other m e)
      | inr (_, test) ↦ rw test
    ]

body_of_block :
    (yaml : Yaml) (content : Text) (s : Split) (m : Mapping)
    → parse_frontmatter yaml s.frontmatter ≡ ok (mapping m)
    → body_of yaml content s ≡ s.body
unfolding body_of is_mapping
body_of_block yaml content s m e = rw e

kept_body_prose :
    (yaml : Yaml) (content : Text) (s : Split) (n : Node)
    → split content ≡ ok s
    → parse_frontmatter yaml s.frontmatter ≡ ok n
    → kept_body yaml (some content) ≡ ok s.body
unfolding kept_body preserved_body
kept_body_prose yaml content s n cut parsed = rw cut (rw parsed)

-- Over a YAML library that keeps its promises, where a file opens with prose between two fences,
-- which parses as YAML but not as a mapping, its body is the whole file; a write of its level, for a
-- document with no name twice in a mapping whose floats the library keeps, leaves only what stood
-- below the second fence.
pub prose_is_dropped :
    (yaml : Yaml)
    → (laws : YamlLaws yaml)
    → (content : Text) (s : Split) (n : Node) (root : Mapping) (file : Text) → split content ≡ ok s
    → parse_frontmatter yaml s.frontmatter ≡ ok n
    → ((m : Mapping) → n ≢ mapping m)
    → IsDocument yaml laws (mapping root)
    → render yaml (some content) (mapping root) ≡ ok file
    → (body_of yaml content s ≡ content)
      × ((after : Split) × (split file ≡ ok after) × (body_of yaml file after ≡ s.body))
prose_is_dropped yaml laws content s n root file cut parsed prose clean h =
    let (after, again, block, kept) =
      split-render yaml laws (some content) (mapping root) file clean h in
    let same : s.body ≡ after.body =
      ok-injective (sym (kept_body_prose yaml content s n cut parsed) ∙ kept) in
    (
      body_of_prose yaml content s (λ m e. prose m (ok-injective (sym parsed ∙ e))),
      (after, again, body_of_block yaml file after root block ∙ sym same),
    )
