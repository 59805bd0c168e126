-- ===== src/Adapters/Store/Operations/Marked.antt =====
-- The root of a project that is marked stays the root whether a write succeeds or fails.
use luminosity.Base.{
  ℕ, true, false, Text, text_eq, codes, Result, ok, err, Bool-cases, ◌≢◌, inl, inr, ◌≡◌, refl, ap,
  ◌∙◌, arith,
}
use luminosity.Platform.Path.{FilePath, join, starts_with}
use luminosity.Platform.Path.Names.{starts_with-join_other}
use luminosity.Platform.Files.{FileSystem}
use luminosity.Config.Level.{Level}
use luminosity.Config.Error.{ConfigError}
use luminosity.Config.Node.{Node}
use luminosity.Adapters.Document.{Yaml}
use luminosity.Adapters.Store.{config_dir, config_path}
use luminosity.Adapters.Store.Discovery.{Nearest, Unmarked, top, below, discover_root-Nearest}
use luminosity.Adapters.Store.Operations.{
  Disk, temp_dir, atomic_write, rendered, write_rendered, write_level, is_root, discover_root,
}
use luminosity.Adapters.Store.Operations.Contract.{Seen, seen, SystemLaws}
use luminosity.Adapters.Store.Operations.Kept.{
  config_dir-ne-config_path, config_dir-ne-temp_path, after_create-seen,
}
use luminosity.Adapters.Store.Operations.Nearest.{
  Watched, watch, Watched-root, Nearest-discover_root, Nearest-kept,
}
use luminosity.Adapters.Store.Operations.Roots.{
  git-IsMark, mark-ne-temp_path, mark-ne-config_path, atomic_write-is_root,
}

module _ {W : Type 0} (fs : FileSystem W) (root : FilePath) (laws : SystemLaws fs root)
    (yaml : Yaml) (process_id : ℕ) where
  temp_dir-git : starts_with (temp_dir fs yaml process_id root) (join root (codes ".git")) ≡ false
  unfolding temp_dir config_dir text_eq
  temp_dir-git = starts_with-join_other root (codes ".luminosity") (codes ".git") (codes "tmp") refl

  -- `.luminosity` stays a directory.
  atomic_write-config_dir :
      (disk : Disk W) (level : Level) (contents : Text)
      → fs.is_dir disk.files (config_dir root) ≡ true
      → fs.is_dir
          (atomic_write fs yaml process_id root disk (config_path root level) contents).1.files
          (config_dir root)
        ≡ true
  unfolding atomic_write seen
  atomic_write-config_dir disk level contents h =
      let dir = temp_dir fs yaml process_id root in
      let made = fs.create_dir_all disk.files dir in
      ap (λ (s : Seen). s.directory)
        (after_create-seen fs root laws yaml process_id disk.write_counter (config_path root level)
          (config_dir root) contents made.0 made.1 (laws.files.config_file level)
          laws.config_dir_shown
          (config_dir-ne-temp_path fs root laws yaml process_id disk.write_counter)
          (inl (config_dir-ne-config_path fs root laws yaml process_id level)))
      ∙ laws.create_dir_all_keeps disk.files dir (config_dir root) h

  -- What `.git` shows stays as it was.
  atomic_write-git :
      (disk : Disk W) (level : Level) (contents : Text)
      → Watched laws.shown root
      → fs.exists
          (atomic_write fs yaml process_id root disk (config_path root level) contents).1.files
          (join root (codes ".git"))
        ≡ fs.exists disk.files (join root (codes ".git"))
  unfolding atomic_write seen
  atomic_write-git disk level contents (watch _ lum git _) =
      let dir = temp_dir fs yaml process_id root in
      let made = fs.create_dir_all disk.files dir in
      let mark = git-IsMark fs root laws yaml process_id in
      ap (λ (s : Seen). s.there)
        (after_create-seen fs root laws yaml process_id disk.write_counter (config_path root level)
            (join root (codes ".git")) contents made.0 made.1 (laws.files.config_file level) git
            (mark-ne-temp_path fs root laws yaml process_id root (codes ".git") disk.write_counter
              mark)
            (inl (mark-ne-config_path fs root laws yaml process_id root (codes ".git") level mark))
          ∙ laws.create_dir_all_others disk.files dir (join root (codes ".git")) git temp_dir-git)

  atomic_write-stays_marked :
      (disk : Disk W) (level : Level) (contents : Text)
      → Watched laws.shown root
      → is_root fs disk.files root ≡ true
      → is_root fs
          (atomic_write fs yaml process_id root disk (config_path root level) contents).1.files
          root
        ≡ true
  unfolding is_root config_dir
  atomic_write-stays_marked disk level contents watched h =
      elim (Bool-cases (fs.is_dir disk.files (config_dir root))) [
        | inl there ↦ rw (atomic_write-config_dir disk level contents there) refl
        | inr missing ↦
            let git : fs.exists disk.files (join root (codes ".git")) ≡ true = rw missing at h in
            ground (arith, atomic_write-git disk level contents watched, git)
      ]

  -- A mark at the start is found there.
  discover_root-start :
      (w : W) (start : FilePath)
      → discover_root fs w start ≡ root
      → is_root fs w root ≡ true
      → Nearest fs w start root
  discover_root-start w start found marked = elim (discover_root-Nearest fs w start) [
    | inl n ↦ rw found at n
    | inr (u, same) ↦ absurd (unmarked u (rw (← same) (rw found marked)))
  ]
    where
      unmarked : Unmarked fs w start → is_root fs w start ≢ true
      unmarked (top _ plain last) m = cc
      unmarked (below _ up plain p u) m = cc

  -- Where the root is marked, every write, whether it succeeds or fails, leaves it the root.
  pub discover_root-any_write :
      (disk : Disk W) (level : Level) (document : Node) (start : FilePath)
      → Watched laws.shown start
      → discover_root fs disk.files start ≡ root
      → is_root fs disk.files root ≡ true
      → discover_root fs (write_level fs yaml process_id root disk level document).1.files start
        ≡ root
  unfolding write_level write_rendered
  discover_root-any_write disk level document start watched found marked =
      go (rendered fs yaml process_id root disk.files level document)
    where
      go :
          (r : Result Text ConfigError)
          → discover_root fs (write_rendered fs yaml process_id root disk level r).1.files start
            ≡ root
      go (err e) = found
      go (ok text) =
          let after =
            (atomic_write fs yaml process_id root disk (config_path root level) text).1.files in
          let near = discover_root-start disk.files start found marked in
          Nearest-discover_root fs after start root (
            Nearest-kept fs laws.shown disk.files after start root
              (atomic_write-stays_marked disk level text
                (Watched-root fs laws.shown disk.files start root watched near) marked)
              (λ dir longer seen_dir.
                atomic_write-is_root fs root laws yaml process_id disk level text dir seen_dir
                  longer)
              watched near)
