-- ===== src/Adapters/Store/Operations/Contract.antt =====
-- cli/config-adapters/src/store.rs: what a path shows to the store, and what the store relies on
-- there.
use luminosity.Base.{ℕ, Bool, true, false, Text, Result, ok, err, ◌≡◌, ◌≢◌, ◌⊎◌}
use luminosity.Platform.Path.{FilePath, join, starts_with}
use luminosity.Platform.Files.{IoError, FileSystem}
use luminosity.Config.Level.{Level}
use luminosity.Adapters.Document.{Yaml}
use luminosity.Adapters.Store.{config_dir, config_path}
use luminosity.Adapters.Store.Operations.{temp_path}
use luminosity.Adapters.Store.Operations.Writing.{FileLaws}

-- The content of a path, whether it is a link, where it resolves, and whether it is a directory or
-- there at all.
pub record Seen : Type 0 where
  pub content : Result Text IoError
  pub link : Result Bool IoError
  pub resolved : Result FilePath IoError
  pub directory : Bool
  pub there : Bool

unfoldable pub seen : {W : Type 0} → FileSystem W → W → FilePath → Seen
seen fs w path = record {
  content = fs.read_to_string w path;
  link = fs.symlink_metadata w path;
  resolved = fs.canonicalize w path;
  directory = fs.is_dir w path;
  there = fs.exists w path;
}

-- The path is not there: asking for it fails with `NotFound`.
pub record IsMissing {ℓ} {A : Type ℓ} (r : Result A IoError) : Type ℓ where
  pub error : IoError
  pub same : r ≡ err error
  pub not_found : error.is_not_found ≡ true

abbrev pub IsFound {ℓ} : {A : Type ℓ} → Result A IoError → Type ℓ
IsFound {A = A} r = (a : A) × (r ≡ ok a)

-- What `std::fs` promises the store under `root`: of its files what FileLaws says, and of the paths
-- in `shown` that a call which does not name them leaves what they show as it was. A path where a
-- link leads to one of the files is not in `shown`. A rename that fails changes nothing, a directory
-- that is made resolves, and so do those above it, one that is there stays, a file that is written
-- is no link, and a rename moves what stood at its source.
pub record SystemLaws {W : Type 0} (fs : FileSystem W) (root : FilePath) : Type 1 where
  pub files : FileLaws fs root
  pub shown : FilePath → Type 0
  pub config_dir_shown : shown (config_dir root)
  pub config_shown : (level : Level) → shown (config_path root level)
  pub temp_shown :
      (yaml : Yaml) (process_id counter : ℕ) → shown (temp_path fs yaml process_id root counter)
  pub create_dir_all_others :
      (w : W) (dir other : FilePath)
      → shown other
      → starts_with dir other ≡ false
      → seen fs (fs.create_dir_all w dir).1 other ≡ seen fs w other
  pub create_dir_all_above :
      (w : W) (dir above : FilePath)
      → starts_with dir above ≡ true
      → (fs.canonicalize (fs.create_dir_all w dir).1 above ≡ fs.canonicalize w above)
        ⊎ (IsMissing (fs.canonicalize w above)
            × IsFound (fs.canonicalize (fs.create_dir_all w dir).1 above))
  pub create_dir_all_ok :
      (w : W) (dir above : FilePath)
      → starts_with dir above ≡ true
      → (fs.create_dir_all w dir).0 ≡ ok tt
      → IsFound (fs.canonicalize (fs.create_dir_all w dir).1 above)
  pub create_dir_all_is_dir :
      (w : W) (dir above : FilePath)
      → starts_with dir above ≡ true
      → (fs.create_dir_all w dir).0 ≡ ok tt
      → fs.is_dir (fs.create_dir_all w dir).1 above ≡ true
  pub create_dir_all_keeps :
      (w : W) (dir above : FilePath)
      → fs.is_dir w above ≡ true
      → fs.is_dir (fs.create_dir_all w dir).1 above ≡ true
  pub write_others :
      (w : W) (path other : FilePath) (contents : Text)
      → files.file path
      → shown other
      → other ≢ path
      → seen fs (fs.write w path contents).1 other ≡ seen fs w other
  pub write_plain :
      (w : W) (path : FilePath) (contents : Text)
      → files.file path
      → (fs.write w path contents).0 ≡ ok tt
      → fs.symlink_metadata (fs.write w path contents).1 path ≡ ok false
  pub rename_others :
      (w : W) (from target other : FilePath)
      → files.file from
      → files.file target
      → shown other
      → other ≢ from
      → other ≢ target
      → seen fs (fs.rename w from target).1 other ≡ seen fs w other
  pub rename_link :
      (w : W) (from target : FilePath)
      → files.file from
      → files.file target
      → (fs.rename w from target).0 ≡ ok tt
      → fs.symlink_metadata (fs.rename w from target).1 target ≡ fs.symlink_metadata w from
  pub rename_err :
      (w : W) (from target other : FilePath) (e : IoError)
      → (fs.rename w from target).0 ≡ err e
      → seen fs (fs.rename w from target).1 other ≡ seen fs w other
  pub remove_others :
      (w : W) (path other : FilePath)
      → files.file path
      → shown other
      → other ≢ path
      → seen fs (fs.remove_file w path).1 other ≡ seen fs w other
  -- Nothing is in a directory that is not there.
  pub missing_dir :
      (w : W) (dir : FilePath) (name : Text)
      → IsMissing (fs.canonicalize w dir)
      → IsMissing (fs.symlink_metadata w (join dir name))
