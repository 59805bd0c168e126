-- ===== src/Adapters/Store/Operations/Roots.antt =====
-- A write of a level does not move the root of the project.
use luminosity.Base.{
  ℕ, ◌<◌, true, false, Text, codes, length, Result, ok, err, Bool-cases, inl, inr, ◌≡◌, ◌≢◌, refl,
  sym, ap, ◌∙◌, arith,
}
use luminosity.Platform.Path.{FilePath, join, starts_with}
use luminosity.Platform.Path.Prefixes.{length-join}
use luminosity.Platform.Path.Names.{join-name, starts_with-name}
use luminosity.Platform.Files.{FileSystem}
use luminosity.Config.Level.{Level}
use luminosity.Config.Error.{ConfigError}
use luminosity.Config.Node.{Node}
use luminosity.Adapters.Document.{Yaml}
use luminosity.Adapters.Store.{config_dir, file_name, config_path}
use luminosity.Adapters.Store.Discovery.{discover_root-Nearest}
use luminosity.Adapters.Store.Operations.{
  Disk, temp_name, temp_dir, temp_path, atomic_write, rendered, write_rendered, write_level,
  is_root, discover_root,
}
use luminosity.Adapters.Store.Operations.Contract.{Seen, seen, SystemLaws}
use luminosity.Adapters.Store.Operations.Kept.{
  config_dir-ne-config_path, config_dir-ne-temp_path, temp_dir-below, after_create-seen,
  after_create-ok,
}
use luminosity.Adapters.Store.Operations.Nearest.{
  Watched, watch, Nearest-discover_root, Nearest-kept, Nearest-self,
}

module _ {W : Type 0} (fs : FileSystem W) (root : FilePath) (laws : SystemLaws fs root)
    (yaml : Yaml) (process_id : ℕ) where
  -- A mark is a path under a name that nothing written has.
  pub record IsMark (name : Text) : Type 0 where
    pub not_temp : (counter : ℕ) → name ≢ temp_name process_id counter
    pub not_config : (level : Level) → name ≢ file_name (codes "config") level
    pub not_tmp : name ≢ codes "tmp"

  pub luminosity-IsMark : IsMark (codes ".luminosity")
  unfolding temp_name file_name
  luminosity-IsMark = record {
    not_temp = λ counter e. cc;
    not_config = λ level e. cc;
    not_tmp = λ e. cc;
  }

  pub git-IsMark : IsMark (codes ".git")
  unfolding temp_name file_name
  git-IsMark = record { not_temp = λ counter e. cc; not_config = λ level e. cc; not_tmp = λ e. cc }

  pub mark-ne-temp_path :
      (dir : FilePath) (name : Text) (counter : ℕ)
      → IsMark name
      → join dir name ≢ temp_path fs yaml process_id root counter
  unfolding temp_path
  mark-ne-temp_path dir name counter mark e = mark.not_temp counter (join-name dir _ name _ e)

  pub mark-ne-config_path :
      (dir : FilePath) (name : Text) (level : Level)
      → IsMark name
      → join dir name ≢ config_path root level
  unfolding config_path
  mark-ne-config_path dir name level mark e = mark.not_config level (join-name dir _ name _ e)

  -- No path in a directory longer than the root is above the directory of the temporary files,
  -- but that one.
  temp_dir-mark :
      (dir : FilePath) (name : Text)
      → IsMark name
      → length root.components < length dir.components
      → starts_with (temp_dir fs yaml process_id root) (join dir name) ≡ false
  unfolding temp_dir config_dir
  temp_dir-mark dir name mark longer =
      elim (Bool-cases (starts_with (temp_dir fs yaml process_id root) (join dir name))) [
        | inr apart ↦ apart
        | inl over ↦ absurd (
            mark.not_tmp (
              sym (
                starts_with-name (config_dir root) dir (codes "tmp") name
                  (omega (arith, longer, length-join root (codes ".luminosity"))) over)))
      ]

  atomic_write-mark :
      (disk : Disk W) (level : Level) (contents : Text) (dir : FilePath) (name : Text)
      → IsMark name
      → laws.shown (join dir name)
      → length root.components < length dir.components
      → seen fs
          (atomic_write fs yaml process_id root disk (config_path root level) contents).1.files
          (join dir name)
        ≡ seen fs disk.files (join dir name)
  unfolding atomic_write
  atomic_write-mark disk level contents dir name mark so longer =
      let made = fs.create_dir_all disk.files (temp_dir fs yaml process_id root) in
      after_create-seen fs root laws yaml process_id disk.write_counter (config_path root level)
        (join dir name) contents made.0 made.1 (laws.files.config_file level) so
        (mark-ne-temp_path dir name disk.write_counter mark)
        (inl (mark-ne-config_path dir name level mark))
      ∙ laws.create_dir_all_others disk.files (temp_dir fs yaml process_id root) (join dir name) so
          (temp_dir-mark dir name mark longer)

  -- No directory longer than the root is marked anew.
  pub atomic_write-is_root :
      (disk : Disk W) (level : Level) (contents : Text) (dir : FilePath)
      → Watched laws.shown dir
      → length root.components < length dir.components
      → is_root fs
          (atomic_write fs yaml process_id root disk (config_path root level) contents).1.files
          dir
        ≡ is_root fs disk.files dir
  unfolding is_root seen
  atomic_write-is_root disk level contents dir (watch _ lum git _) longer =
      rw
        (
          ap (λ (s : Seen). s.directory)
              (atomic_write-mark disk level contents dir (codes ".luminosity") luminosity-IsMark lum
                longer),
          ap (λ (s : Seen). s.there)
              (atomic_write-mark disk level contents dir (codes ".git") git-IsMark git longer),
        )
        refl

  -- After a write that ended well, the root is marked.
  atomic_write-marked :
      (disk : Disk W) (level : Level) (contents : Text)
      → (atomic_write fs yaml process_id root disk (config_path root level) contents).0 ≡ ok tt
      → is_root fs
          (atomic_write fs yaml process_id root disk (config_path root level) contents).1.files
          root
        ≡ true
  unfolding is_root atomic_write seen config_dir
  atomic_write-marked disk level contents h =
      let dir = temp_dir fs yaml process_id root in
      let made = fs.create_dir_all disk.files dir in
      let (created, _) =
        after_create-ok fs root laws yaml process_id disk.write_counter (config_path root level)
          contents made.0 made.1 (laws.files.config_file level) h in
      let kept =
        ap (λ (s : Seen). s.directory)
          (after_create-seen fs root laws yaml process_id disk.write_counter
            (config_path root level) (config_dir root) contents made.0 made.1
            (laws.files.config_file level) laws.config_dir_shown
            (config_dir-ne-temp_path fs root laws yaml process_id disk.write_counter)
            (inl (config_dir-ne-config_path fs root laws yaml process_id level))) in
      rw
        (kept
          ∙ laws.create_dir_all_is_dir disk.files dir (config_dir root)
              (temp_dir-below fs root laws yaml process_id) created)
        refl

  -- Over a file system that keeps its promises, after a write of a level that succeeded, the root is discovered from where it was discovered before, whether it had been marked or not.
  pub discover_root-write_level :
      (disk : Disk W) (level : Level) (document : Node) (start : FilePath)
      → Watched laws.shown start
      → discover_root fs disk.files start ≡ root
      → (write_level fs yaml process_id root disk level document).0 ≡ ok tt
      → discover_root fs (write_level fs yaml process_id root disk level document).1.files start
        ≡ root
  unfolding write_level write_rendered
  discover_root-write_level disk level document start watched found h =
      go (rendered fs yaml process_id root disk.files level document) h
    where
      again :
          (text : Text)
          → (atomic_write fs yaml process_id root disk (config_path root level) text).0 ≡ ok tt
          → discover_root fs
              (atomic_write fs yaml process_id root disk (config_path root level) text).1.files
              start
            ≡ root
      again text h =
          let after =
            (atomic_write fs yaml process_id root disk (config_path root level) text).1.files in
          let marked = atomic_write-marked disk level text h in
          Nearest-discover_root fs after start root
            (elim (discover_root-Nearest fs disk.files start) [
              | inl n ↦
                  Nearest-kept fs laws.shown disk.files after start root marked
                    (λ dir longer seen_dir.
                      atomic_write-is_root disk level text dir seen_dir longer)
                    watched (rw found at n)
              | inr (_, same) ↦ Nearest-self fs after start root (sym found ∙ same) marked
            ])

      go :
          (r : Result Text ConfigError)
          → (write_rendered fs yaml process_id root disk level r).0 ≡ ok tt
          → discover_root fs (write_rendered fs yaml process_id root disk level r).1.files start
            ≡ root
      go (err e) h = cc
      go (ok text) h = again text h
