-- ===== src/Adapters/Store/Operations/Lawful.antt =====
-- `FileConfigStore` keeps what the configuration service relies on.
use luminosity.Adapters.Store.Operations.Refusals.{
  config_path-parent, plain-refuse_escaping_path, refuse_escaping_path-kept,
}
use luminosity.Adapters.Store.Operations.Kept.{
  IsKept, atomic_write-IsKept, atomic_write-IsFound, atomic_write-plain,
}
use luminosity.Base.{
  ℕ, Text, codes, Option, none, some, ◌∙◌, ◌>>=◌, Result, ok, err, >>=-eq-ok, map_err-ok, ◌≡◌, ◌≢◌,
  ◌⊎◌, inl, inr, refl, ap,
}
use luminosity.Platform.Path.{FilePath}
use luminosity.Platform.Files.{FileSystem}
use luminosity.Config.Level.{Level}
use luminosity.Config.Error.{ConfigError}
use luminosity.Config.Node.{Node, scalar, sequence, mapping}
use luminosity.Config.Node.Entries.Clean.{IsClean, HasClean}
use luminosity.Config.Service.Clean.{to_mapping, insert-HasClean}
use luminosity.Config.Service.Access.{root_of}
use luminosity.Config.Service.Access.Laws.{IsStore}
use luminosity.Adapters.Frontmatter.{Split, split}
use luminosity.Adapters.Document.{Yaml, parse_frontmatter, render}
use luminosity.Adapters.Document.Rendering.{
  YamlLaws, IsKeptScalar, IsDocument, parse_frontmatter-IsDocument, split-render,
}
use luminosity.Adapters.Store.{
  config_dir, file_name, config_path, unless_missing, malformed, refuse_escaping_path,
  read_and_split,
}
use luminosity.Adapters.Store.Operations.{Disk, rendered, write_rendered, write_level, read, ports}
use luminosity.Adapters.Store.Operations.Writing.{write_level-Replaced}
use luminosity.Adapters.Store.Operations.Contract.{Seen, seen, SystemLaws}

module _ {W : Type 0} (fs : FileSystem W) (root : FilePath) (laws : SystemLaws fs root)
    (yaml : Yaml) (process_id : ℕ) where
  read_and_split-same :
      (w w' : W) (path : FilePath)
      → fs.read_to_string w' path ≡ fs.read_to_string w path
      → read_and_split fs root w' path ≡ read_and_split fs root w path
  unfolding read_and_split
  read_and_split-same w w' path same = rw same refl

  -- A level whose file is kept reads as it did.
  read-IsKept :
      (w w' : W) (level : Level)
      → IsKept fs root laws yaml process_id w w' (config_path root level)
      → read fs yaml process_id root w' level ≡ read fs yaml process_id root w level
  unfolding read config_path seen
  read-IsKept w w' level kept =
      rw
        (
          refuse_escaping_path-kept fs root w w' (config_path root level)
              (config_path-parent fs root level)
              (laws.missing_dir w (config_dir root) (file_name (codes "config") level)) kept.same
              kept.dir,
          read_and_split-same w w' (config_path root level)
              (ap (λ (s : Seen). s.content) kept.same),
        )
        refl

  -- What the level reads after a write, if its file is another level's or the write failed.
  write_level-read :
      (disk : Disk W) (level other : Level) (document : Node)
      → (other ≢ level)
        ⊎ ((e : ConfigError) × ((write_level fs yaml process_id root disk level document).0
              ≡ err e))
      → read fs yaml process_id root
          (write_level fs yaml process_id root disk level document).1.files
          other
        ≡ read fs yaml process_id root disk.files other
  unfolding write_level write_rendered
  write_level-read disk level other document how =
      go (rendered fs yaml process_id root disk.files level document) how
    where
      go :
          (r : Result Text ConfigError)
          → (other ≢ level)
            ⊎ ((e : ConfigError) × ((write_rendered fs yaml process_id root disk level r).0
                  ≡ err e))
          → read fs yaml process_id root
              (write_rendered fs yaml process_id root disk level r).1.files
              other
            ≡ read fs yaml process_id root disk.files other
      go (err e) how = refl
      go (ok text) how =
          read-IsKept _ _ other
            (atomic_write-IsKept fs root laws yaml process_id disk level other text how)

  -- After a write that ended well the level's file is no link, in a directory that resolves.
  write_level-refuse :
      (disk : Disk W) (level : Level) (document : Node)
      → (write_level fs yaml process_id root disk level document).0 ≡ ok tt
      → refuse_escaping_path fs root
          (write_level fs yaml process_id root disk level document).1.files
          (config_path root level)
        ≡ ok tt
  unfolding write_level write_rendered
  write_level-refuse disk level document h =
      go (rendered fs yaml process_id root disk.files level document) h
    where
      go :
          (r : Result Text ConfigError)
          → (write_rendered fs yaml process_id root disk level r).0 ≡ ok tt
          → refuse_escaping_path fs root
              (write_rendered fs yaml process_id root disk level r).1.files
              (config_path root level)
            ≡ ok tt
      go (err e) h = cc
      go (ok text) h =
          plain-refuse_escaping_path fs root _ (config_path root level)
            (config_path-parent fs root level)
            (atomic_write-IsFound fs root laws yaml process_id disk level text h)
            (atomic_write-plain fs root laws yaml process_id disk level text h)

  -- What was rendered is what the document layer rendered, over what the file held.
  rendered-render :
      (w : W) (level : Level) (document : Node) (text : Text)
      → rendered fs yaml process_id root w level document ≡ ok text
      → (existing : Option Text) × (render yaml existing document ≡ ok text)
  unfolding rendered malformed
  rendered-render w level document text h =
      let path = config_path root level in
      let (_, _, later) = >>=-eq-ok (refuse_escaping_path fs root w path) _ h in
      let (existing, _, last) =
        >>=-eq-ok (unless_missing path (fs.read_to_string w path)) _ later in
      (existing, map_err-ok _ (render yaml existing document) last)

  read_and_split-ok :
      (w : W) (path : FilePath) (text : Text) (parts : Split)
      → fs.read_to_string w path ≡ ok text
      → split text ≡ ok parts
      → read_and_split fs root w path ≡ ok (some (text, parts))
  unfolding read_and_split unless_missing malformed
  read_and_split-ok w path text parts there cut = rw (there, cut) refl

  module _ (yaml_laws : YamlLaws yaml) where
    read-back :
        (disk : Disk W) (level : Level) (document : Node)
        → IsDocument yaml yaml_laws document
        → (write_level fs yaml process_id root disk level document).0 ≡ ok tt
        → read fs yaml process_id root
            (write_level fs yaml process_id root disk level document).1.files
            level
          ≡ ok (some document)
    unfolding read malformed
    read-back disk level document clean h =
        let (text, made, there) =
          (write_level-Replaced fs root laws.files yaml process_id disk level document).0 h in
        let (existing, rendering) = rendered-render disk.files level document text made in
        let (parts, cut, parsed, _) =
          split-render yaml yaml_laws existing document text clean rendering in
        rw
          (
            write_level-refuse disk level document h,
            read_and_split-ok _ (config_path root level) text parts there cut,
            parsed,
          )
          refl

    -- What a level reads is a document that the store can keep.
    read-IsDocument :
        (w : W) (level : Level) (n : Node)
        → read fs yaml process_id root w level ≡ ok (some n)
        → IsDocument yaml yaml_laws n
    unfolding read malformed
    read-IsDocument w level n h =
        let (_, _, later) =
          >>=-eq-ok (refuse_escaping_path fs root w (config_path root level)) _ h in
        let (file, _, last) =
          >>=-eq-ok (read_and_split fs root w (config_path root level)) _ later in
        go file last
      where
        go :
            (file : Option (Text × Split))
            → ◌≡◌ {A = Result (Option Node) ConfigError}
                (elim file [
                  | none ↦ ok none
                  | some (_, parts) ↦ (do
                    node ←
                        malformed
                          (config_path root level)
                          (parse_frontmatter yaml parts.frontmatter)
                    ok (some node))
                ])
                (ok (some n))
            → IsDocument yaml yaml_laws n
        go none h = cc
        go (some (content, parts)) h =
            let (node, parsed, same) =
              >>=-eq-ok
                (malformed (config_path root level) (parse_frontmatter yaml parts.frontmatter)) _
                h in
            let whole = map_err-ok _ (parse_frontmatter yaml parts.frontmatter) parsed in
            let same_node : node ≡ n = cc same in
            parse_frontmatter-IsDocument yaml yaml_laws parts.frontmatter n
              (whole ∙ ap ok same_node)

    root_of-HasClean :
        (w : W) (level : Level) (document : Option Node)
        → read fs yaml process_id root w level ≡ ok document
        → HasClean (IsKeptScalar yaml_laws.kept_float) (root_of document)
    unfolding root_of IsClean
    root_of-HasClean w level none h = tt
    root_of-HasClean w level (some (scalar x)) h = tt
    root_of-HasClean w level (some (sequence ns)) h = tt
    root_of-HasClean w level (some (mapping m)) h = read-IsDocument w level (mapping m) h

    pub ports-IsStore : IsStore (ports fs yaml process_id root)
    unfolding ports
    ports-IsStore = record {
      IsKept = IsDocument yaml yaml_laws;
      set_kept = λ disk level document segments v key r was inserted.
          to_mapping (IsKeptScalar yaml_laws.kept_float) (λ v. tt) r
            (insert-HasClean (IsKeptScalar yaml_laws.kept_float) (λ v. tt) (root_of document) r
              segments v key (root_of-HasClean disk.files level document was) inserted);
      read_back = λ disk disk' level document clean h.
          let done : (write_level fs yaml process_id root disk level document).0 ≡ ok tt =
            ap (λ (p : Result (Unit {0}) ConfigError × Disk W). p.0) h in
          let after : (write_level fs yaml process_id root disk level document).1 ≡ disk' =
            ap (λ (p : Result (Unit {0}) ConfigError × Disk W). p.1) h in
          rw (← after) (read-back disk level document clean done);
      failed_write = λ disk disk' level document e h other.
          let bad : (write_level fs yaml process_id root disk level document).0 ≡ err e =
            ap (λ (p : Result (Unit {0}) ConfigError × Disk W). p.0) h in
          let after : (write_level fs yaml process_id root disk level document).1 ≡ disk' =
            ap (λ (p : Result (Unit {0}) ConfigError × Disk W). p.1) h in
          rw (← after) (write_level-read disk level other document (inr (e, bad)));
      other_level =
          λ disk level other document ne. write_level-read disk level other document (inl ne);
    }
