-- ===== src/Adapters/Store/Operations/Writing.antt =====
-- A write of a level replaces its file as a whole or leaves it as it was.
use luminosity.Base.{
  ℕ, false, Text, codes, text_eq, length, Result, ok, err, ◌≡◌, ◌≢◌, refl, ap, ◌∙◌, arith,
}
use luminosity.Platform.Path.{FilePath, join, starts_with}
use luminosity.Platform.Path.Prefixes.{length-join, starts_with-join}
use luminosity.Platform.Files.{IoError, FileSystem}
use luminosity.Config.Level.{Level, team, personal}
use luminosity.Config.Error.{ConfigError}
use luminosity.Config.Node.{Node}
use luminosity.Adapters.Document.{Yaml}
use luminosity.Adapters.Store.{config_dir, file_name, config_path}
use luminosity.Adapters.Store.Operations.{
  Disk, temp_name, temp_dir, temp_path, abandon, after_rename, after_write, write_via, with_counter,
  after_create, atomic_write, rendered, write_rendered, write_level,
}

-- What `std::fs` promises of the content of the files of the store under `root`. The promises are
-- about the paths in `file`, the files of the levels and the temporary files among them: no two of
-- them lead to one file, through links or otherwise, and no directory stands at any of them. There
-- a call changes the file that it names and no other, and a rename that fails changes nothing. A
-- file system in which the file of one level is a link to that of the other keeps no such promises.
pub record FileLaws {W : Type 0} (fs : FileSystem W) (root : FilePath) : Type 1 where
  pub file : FilePath → Type 0
  pub config_file : (level : Level) → file (config_path root level)
  pub temp_file :
      (yaml : Yaml) (process_id counter : ℕ) → file (temp_path fs yaml process_id root counter)
  pub create_dir_all_others :
      (w : W) (dir other : FilePath)
      → file other
      → starts_with dir other ≡ false
      → fs.read_to_string (fs.create_dir_all w dir).1 other ≡ fs.read_to_string w other
  pub write_ok :
      (w : W) (path : FilePath) (contents : Text)
      → file path
      → (fs.write w path contents).0 ≡ ok tt
      → fs.read_to_string (fs.write w path contents).1 path ≡ ok contents
  pub write_others :
      (w : W) (path other : FilePath) (contents : Text)
      → file path
      → file other
      → other ≢ path
      → fs.read_to_string (fs.write w path contents).1 other ≡ fs.read_to_string w other
  pub rename_ok :
      (w : W) (from target : FilePath)
      → file from
      → file target
      → (fs.rename w from target).0 ≡ ok tt
      → fs.read_to_string (fs.rename w from target).1 target ≡ fs.read_to_string w from
  pub rename_err :
      (w : W) (from target other : FilePath) (e : IoError)
      → (fs.rename w from target).0 ≡ err e
      → fs.read_to_string (fs.rename w from target).1 other ≡ fs.read_to_string w other
  pub remove_others :
      (w : W) (path other : FilePath)
      → file path
      → file other
      → other ≢ path
      → fs.read_to_string (fs.remove_file w path).1 other ≡ fs.read_to_string w other

config-ne-tmp : (level : Level) → text_eq (file_name (codes "config") level) (codes "tmp") ≡ false
unfolding file_name text_eq
config-ne-tmp team = refl
config-ne-tmp personal = refl

module _ {W : Type 0} (fs : FileSystem W) where
  -- The file at `target` after a write that ended in `out`: the new contents on success, else
  -- what it was.
  pub record Replaced (before : W) (target : FilePath) (contents : Text)
      (r : Result (Unit {0}) ConfigError) (after : W) : Type 0 where
    pub done : r ≡ ok tt → fs.read_to_string after target ≡ ok contents
    pub failed :
        (e : ConfigError)
        → r ≡ err e
        → fs.read_to_string after target ≡ fs.read_to_string before target

module _ {W : Type 0} (fs : FileSystem W) (root : FilePath) (laws : FileLaws fs root) (yaml : Yaml)
    (process_id : ℕ) where
  after_rename-Replaced :
      (temp target : FilePath) (contents : Text) (before w : W) (r : Result (Unit {0}) IoError)
      → laws.file temp
      → laws.file target
      → target ≢ temp
      → (r ≡ ok tt → fs.read_to_string w target ≡ ok contents)
      → ((e : IoError) → r ≡ err e → fs.read_to_string w target ≡ fs.read_to_string before target)
      → Replaced fs before target contents
          (after_rename fs yaml process_id root temp target r w).0
          (after_rename fs yaml process_id root temp target r w).1
  unfolding after_rename abandon
  after_rename-Replaced temp target contents before w (ok _) ft fo ne good bad = record {
    done = λ _. good refl;
    failed = λ e h. cc;
  }
  after_rename-Replaced temp target contents before w (err e) ft fo ne good bad = record {
    done = λ h. cc;
    failed = λ e' h. laws.remove_others w temp target ft fo ne ∙ bad e refl;
  }

  after_write-Replaced :
      (temp target : FilePath) (contents : Text) (before w : W) (r : Result (Unit {0}) IoError)
      → laws.file temp
      → laws.file target
      → target ≢ temp
      → (r ≡ ok tt → fs.read_to_string w temp ≡ ok contents)
      → fs.read_to_string w target ≡ fs.read_to_string before target
      → Replaced fs before target contents
          (after_write fs yaml process_id root temp target r w).0
          (after_write fs yaml process_id root temp target r w).1
  unfolding after_write abandon
  after_write-Replaced temp target contents before w (ok _) ft fo ne good same =
      after_rename-Replaced temp target contents before (fs.rename w temp target).1
        (fs.rename w temp target).0 ft fo ne (λ h. laws.rename_ok w temp target ft fo h ∙ good refl)
        (λ e h. laws.rename_err w temp target target e h ∙ same)
  after_write-Replaced temp target contents before w (err e) ft fo ne good same = record {
    done = λ h. cc;
    failed = λ e' h. laws.remove_others w temp target ft fo ne ∙ same;
  }

  write_via-Replaced :
      (temp target : FilePath) (contents : Text) (before w : W)
      → laws.file temp
      → laws.file target
      → target ≢ temp
      → fs.read_to_string w target ≡ fs.read_to_string before target
      → Replaced fs before target contents
          (write_via fs yaml process_id root temp target contents w).0
          (write_via fs yaml process_id root temp target contents w).1
  unfolding write_via
  write_via-Replaced temp target contents before w ft fo ne same =
      after_write-Replaced temp target contents before (fs.write w temp contents).1
        (fs.write w temp contents).0 ft fo ne (laws.write_ok w temp contents ft)
        (laws.write_others w temp target contents ft fo ne ∙ same)

  -- The path of a level is no temporary file, and no directory above one.
  pub config_path-ne-temp_path :
      (level : Level) (counter : ℕ)
      → config_path root level ≢ temp_path fs yaml process_id root counter
  unfolding temp_path config_path temp_dir
  config_path-ne-temp_path level counter e =
      let dir = config_dir root in
      absurd (
        omega (
          arith,
          ap (λ (p : FilePath). length p.components) e,
          length-join dir (file_name (codes "config") level),
          length-join dir (codes "tmp"),
          length-join (join dir (codes "tmp")) (temp_name process_id counter),
        ))

  pub temp_dir-config_path :
      (level : Level)
      → starts_with (temp_dir fs yaml process_id root) (config_path root level) ≡ false
  unfolding temp_dir config_path
  temp_dir-config_path level =
      starts_with-join (config_dir root) (codes "tmp") (file_name (codes "config") level)
        (config-ne-tmp level)

  after_create-Replaced :
      (level : Level) (counter : ℕ) (contents : Text) (before w : W) (r : Result (Unit {0}) IoError)
      → fs.read_to_string w (config_path root level)
        ≡ fs.read_to_string before (config_path root level)
      → Replaced fs before
          (config_path root level)
          contents
          (after_create fs yaml process_id root counter (config_path root level) contents r w).0
          (after_create fs yaml process_id root counter
            (config_path root level)
            contents
            r
            w).1.files
  unfolding after_create with_counter
  after_create-Replaced level counter contents before w (ok _) same =
      write_via-Replaced (temp_path fs yaml process_id root counter) (config_path root level)
        contents before w (laws.temp_file yaml process_id counter) (laws.config_file level)
        (config_path-ne-temp_path level counter) same
  after_create-Replaced level counter contents before w (err e) same = record {
    done = λ h. cc;
    failed = λ e' h. same;
  }

  atomic_write-Replaced :
      (level : Level) (disk : Disk W) (contents : Text)
      → Replaced fs disk.files
          (config_path root level)
          contents
          (atomic_write fs yaml process_id root disk (config_path root level) contents).0
          (atomic_write fs yaml process_id root disk (config_path root level) contents).1.files
  unfolding atomic_write
  atomic_write-Replaced level disk contents =
      let dir = temp_dir fs yaml process_id root in
      after_create-Replaced level disk.write_counter contents disk.files
        (fs.create_dir_all disk.files dir).1 (fs.create_dir_all disk.files dir).0
        (laws.create_dir_all_others disk.files dir (config_path root level) (laws.config_file level)
          (temp_dir-config_path level))

  -- Over a file system that keeps its promises at the paths of the store, a write of a level that
  -- succeeded leaves the rendered text in the level's file; one that failed, at whatever step, leaves
  -- the file as it was.
  pub write_level-Replaced :
      (disk : Disk W) (level : Level) (document : Node)
      → ((write_level fs yaml process_id root disk level document).0 ≡ ok tt
          → (text : Text) × (rendered fs yaml process_id root disk.files level document ≡ ok text)
            × (fs.read_to_string
                  (write_level fs yaml process_id root disk level document).1.files
                  (config_path root level)
                ≡ ok text))
        × ((e : ConfigError)
            → (write_level fs yaml process_id root disk level document).0 ≡ err e
            → fs.read_to_string
                (write_level fs yaml process_id root disk level document).1.files
                (config_path root level)
              ≡ fs.read_to_string disk.files (config_path root level))
  unfolding write_level
  write_level-Replaced disk level document =
      go (rendered fs yaml process_id root disk.files level document) refl
    where
      go :
          (r : Result Text ConfigError)
          → rendered fs yaml process_id root disk.files level document ≡ r
          → ((write_rendered fs yaml process_id root disk level r).0 ≡ ok tt
              → (text : Text) × (rendered fs yaml process_id root disk.files level document
                  ≡ ok text)
                × (fs.read_to_string
                      (write_rendered fs yaml process_id root disk level r).1.files
                      (config_path root level)
                    ≡ ok text))
            × ((e : ConfigError)
                → (write_rendered fs yaml process_id root disk level r).0 ≡ err e
                → fs.read_to_string
                    (write_rendered fs yaml process_id root disk level r).1.files
                    (config_path root level)
                  ≡ fs.read_to_string disk.files (config_path root level))
      go (err e) same = (λ h. cc, λ e' h. refl)
      go (ok text) same =
          let a = atomic_write-Replaced level disk text in
          (λ h. (text, same, a.done h), λ e h. a.failed e h)
