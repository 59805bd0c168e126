-- ===== src/Adapters/Store/Operations/Kept.antt =====
-- What a write of a level keeps of a level's file: of the other one always, of its own if it fails.
use luminosity.Config.Source.{project_context}
use luminosity.Adapters.Store.{fragment_path}
use luminosity.Adapters.Store.Paths.{fragment_path-injective}
use luminosity.Adapters.Store.Operations.Refusals.{DirKept}
use luminosity.Base.{
  ℕ, true, false, Text, codes, length, Result, ok, err, ◌≡◌, ◌≢◌, ◌⊎◌, inl, inr, refl, ap, ◌∙◌,
  arith,
}
use luminosity.Platform.Path.{FilePath, join, starts_with}
use luminosity.Platform.Path.Prefixes.{length-join, starts_with-joined}
use luminosity.Platform.Files.{IoError, FileSystem}
use luminosity.Config.Level.{Level}
use luminosity.Config.Error.{ConfigError}
use luminosity.Adapters.Document.{Yaml}
use luminosity.Adapters.Store.{config_dir, file_name, config_path, unless_missing, is_symlink}
use luminosity.Adapters.Store.Operations.{
  temp_name, Disk, temp_dir, temp_path, with_counter, after_create, atomic_write,
}
use luminosity.Adapters.Store.Operations.Writing.{config_path-ne-temp_path, temp_dir-config_path}
use luminosity.Adapters.Store.Operations.Contract.{Seen, seen, IsFound, SystemLaws}
use luminosity.Adapters.Store.Operations.Keeping.{write_via-seen, write_via-link}

module _ {W : Type 0} (fs : FileSystem W) (root : FilePath) (laws : SystemLaws fs root)
    (yaml : Yaml) (process_id : ℕ) where
  pub config_dir-ne-temp_path :
      (counter : ℕ) → config_dir root ≢ temp_path fs yaml process_id root counter
  unfolding temp_path temp_dir
  config_dir-ne-temp_path counter e =
      let dir = config_dir root in
      absurd (
        omega (
          arith,
          ap (λ (p : FilePath). length p.components) e,
          length-join dir (codes "tmp"),
          length-join (join dir (codes "tmp")) (temp_name process_id counter),
        ))

  pub config_dir-ne-config_path : (level : Level) → config_dir root ≢ config_path root level
  unfolding config_path
  config_dir-ne-config_path level e = absurd (
      omega (
        arith,
        ap (λ (p : FilePath). length p.components) e,
        length-join (config_dir root) (file_name (codes "config") level),
      ))

  config_path-ne :
      (other level : Level) → other ≢ level → config_path root other ≢ config_path root level
  unfolding fragment_path
  config_path-ne other level ne e =
      ne (fragment_path-injective root project_context project_context other level e).1

  pub after_create-seen :
      (counter : ℕ) (target other : FilePath) (contents : Text) (r : Result (Unit {0}) IoError)
      (w : W)
      → laws.files.file target
      → laws.shown other
      → other ≢ temp_path fs yaml process_id root counter
      → (other ≢ target)
        ⊎ ((e : ConfigError) × ((after_create fs yaml process_id root counter target contents r w).0
              ≡ err e))
      → seen fs (after_create fs yaml process_id root counter target contents r w).1.files other
        ≡ seen fs w other
  unfolding after_create with_counter
  after_create-seen counter target other contents (err error) w fo so ne how = refl
  after_create-seen counter target other contents (ok _) w fo so ne how =
      write_via-seen fs root laws yaml process_id (temp_path fs yaml process_id root counter) target
        other contents w (laws.files.temp_file yaml process_id counter) fo so ne how

  -- A path that is seen as it was, with the directory as it was or made.
  pub record IsKept (w w' : W) (path : FilePath) : Type 0 where
    pub same : seen fs w' path ≡ seen fs w path
    pub dir : DirKept fs root w w'

  -- After the directories were made, `.luminosity` stays where it resolves.
  atomic_write-resolved :
      (disk : Disk W) (level : Level) (contents : Text)
      → fs.canonicalize
          (atomic_write fs yaml process_id root disk (config_path root level) contents).1.files
          (config_dir root)
        ≡ fs.canonicalize
            (fs.create_dir_all disk.files (temp_dir fs yaml process_id root)).1
            (config_dir root)
  unfolding atomic_write seen
  atomic_write-resolved disk level contents =
      let made = fs.create_dir_all disk.files (temp_dir fs yaml process_id root) in
      ap (λ (s : Seen). s.resolved)
        (after_create-seen disk.write_counter (config_path root level) (config_dir root) contents
          made.0 made.1 (laws.files.config_file level) laws.config_dir_shown
          (config_dir-ne-temp_path disk.write_counter) (inl (config_dir-ne-config_path level)))

  pub temp_dir-below : starts_with (temp_dir fs yaml process_id root) (config_dir root) ≡ true
  unfolding temp_dir
  temp_dir-below = starts_with-joined (config_dir root) (codes "tmp")

  -- `.luminosity` was there before, or was made.
  atomic_write-DirKept :
      (disk : Disk W) (level : Level) (contents : Text)
      → DirKept fs root disk.files
          (atomic_write fs yaml process_id root disk (config_path root level) contents).1.files
  unfolding DirKept
  atomic_write-DirKept disk level contents = rw (atomic_write-resolved disk level contents) (
      laws.create_dir_all_above disk.files (temp_dir fs yaml process_id root) (config_dir root)
        temp_dir-below)

  pub after_create-ok :
      (counter : ℕ) (target : FilePath) (contents : Text) (r : Result (Unit {0}) IoError) (w : W)
      → laws.files.file target
      → (after_create fs yaml process_id root counter target contents r w).0 ≡ ok tt
      → (r ≡ ok tt)
        × (fs.symlink_metadata
              (after_create fs yaml process_id root counter target contents r w).1.files
              target
            ≡ ok false)
  unfolding after_create with_counter
  after_create-ok counter target contents (err e) w fo h = cc
  after_create-ok counter target contents (ok _) w fo h = (
    refl,
    write_via-link fs root laws yaml process_id (temp_path fs yaml process_id root counter) target
        contents w (laws.files.temp_file yaml process_id counter) fo h,
  )

  -- After a write that ended well, `.luminosity` resolves.
  pub atomic_write-IsFound :
      (disk : Disk W) (level : Level) (contents : Text)
      → (atomic_write fs yaml process_id root disk (config_path root level) contents).0 ≡ ok tt
      → IsFound (
          fs.canonicalize
            (atomic_write fs yaml process_id root disk (config_path root level) contents).1.files
            (config_dir root))
  unfolding atomic_write
  atomic_write-IsFound disk level contents h =
      let dir = temp_dir fs yaml process_id root in
      let made = fs.create_dir_all disk.files dir in
      let (created, _) =
        after_create-ok disk.write_counter (config_path root level) contents made.0 made.1
          (laws.files.config_file level) h in
      rw (atomic_write-resolved disk level contents)
        (laws.create_dir_all_ok disk.files dir (config_dir root) temp_dir-below created)

  -- After a write that ended well, the file is no link.
  pub atomic_write-plain :
      (disk : Disk W) (level : Level) (contents : Text)
      → (atomic_write fs yaml process_id root disk (config_path root level) contents).0 ≡ ok tt
      → is_symlink fs root
          (atomic_write fs yaml process_id root disk (config_path root level) contents).1.files
          (config_path root level)
        ≡ ok false
  unfolding atomic_write is_symlink unless_missing
  atomic_write-plain disk level contents h =
      let made = fs.create_dir_all disk.files (temp_dir fs yaml process_id root) in
      let (_, plain) =
        after_create-ok disk.write_counter (config_path root level) contents made.0 made.1
          (laws.files.config_file level) h in
      rw plain refl

  pub atomic_write-IsKept :
      (disk : Disk W) (level other : Level) (contents : Text)
      → (other ≢ level)
        ⊎ ((e : ConfigError) × ((atomic_write fs yaml process_id root disk
                (config_path root level)
                contents).0
              ≡ err e))
      → IsKept disk.files
          (atomic_write fs yaml process_id root disk (config_path root level) contents).1.files
          (config_path root other)
  unfolding atomic_write
  atomic_write-IsKept disk level other contents how =
      let dir = temp_dir fs yaml process_id root in
      let made = fs.create_dir_all disk.files dir in
      record {
        dir = atomic_write-DirKept disk level contents;
        same =
            after_create-seen disk.write_counter (config_path root level) (config_path root other)
              contents made.0 made.1 (laws.files.config_file level) (laws.config_shown other)
              (config_path-ne-temp_path fs root laws.files yaml process_id other disk.write_counter)
              (elim how [ inl ne ↦ inl (config_path-ne other level ne) | inr bad ↦ inr bad ])
            ∙ laws.create_dir_all_others disk.files dir (config_path root other)
                (laws.config_shown other)
                (temp_dir-config_path fs root laws.files yaml process_id other);
      }
