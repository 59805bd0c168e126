-- ===== src/Adapters/Store.antt =====
-- cli/config-adapters/src/store.rs: `FileConfigStore`, which is its root path.
pub mod Operations
pub mod Paths
pub mod Containment
pub mod Bodies
pub mod Discovery
use luminosity.Base.{
  ◌+◌, Bool, true, false, not, Text, codes, ◌++◌, Option, none, some, Result, ok, err, ◌>>=◌, ◌>>◌,
  map_err, if◌then◌else◌,
}
use luminosity.Platform.Path.{FilePath, join, parent, strip_prefix, starts_with, display}
use luminosity.Platform.Files.{IoError, FileSystem}
use luminosity.Config.Level.{Level, qualifier}
use luminosity.Config.Error.{ConfigError, malformed_frontmatter, io, unsafe_path}
use luminosity.Config.Source.{
  SkillName, as_str, FragmentSource, project_context, skill_context, skill_instructions,
}
use luminosity.Adapters.Frontmatter.{Split, split}

-- The path rule.
unfoldable pub config_dir : FilePath → FilePath
config_dir root = join root (codes ".luminosity")

-- `format!("<base>{}.md", level.qualifier())`
unfoldable pub file_name : Text → Level → Text
unfolding qualifier
file_name base level = base ++ (qualifier level ++ codes ".md")

unfoldable pub config_path : FilePath → Level → FilePath
config_path root level = join (config_dir root) (file_name (codes "config") level)

unfoldable pub skill_dir : FilePath → SkillName → FilePath
skill_dir root name = join (join (config_dir root) (codes "skills")) (as_str name)

unfoldable pub fragment_path : FilePath → FragmentSource → Level → FilePath
fragment_path root project_context level = config_path root level
fragment_path root (skill_context name) level =
    join (skill_dir root name) (file_name (codes "context") level)
fragment_path root (skill_instructions name) level =
    join (skill_dir root name) (file_name (codes "instructions") level)

-- `path.strip_prefix(&self.root).unwrap_or(path)`, displayed
unfoldable pub relative : FilePath → FilePath → Text
relative root path = elim (strip_prefix path root) [
  | some rest ↦ display rest
  | none ↦ display path
]

unfoldable pub io_error : FilePath → IoError → ConfigError
io_error path error = io (display path) error.detail

-- A read whose `NotFound` is no error.
unfoldable pub unless_missing {ℓ} :
    {A : Type ℓ} → FilePath → Result A IoError → Result (Option A) ConfigError
unless_missing path (ok a) = ok (some a)
unless_missing path (err error) = if error.is_not_found then ok none else err (io_error path error)

-- `.map_err(|detail| ConfigError::MalformedFrontmatter { … })`
unfoldable pub malformed {ℓ} : {A : Type ℓ} → FilePath → Result A Text → Result A ConfigError
malformed path = map_err (malformed_frontmatter (display path))

module _ {W : Type 0} (fs : FileSystem W) (root : FilePath) where
  open fs use {
    read_to_string, canonicalize, symlink_metadata, create_dir_all, write, rename, remove_file,
  }

  unfoldable pub canonical : W → FilePath → Result (Option FilePath) ConfigError
  canonical w path = unless_missing path (canonicalize w path)

  unfoldable pub is_symlink : W → FilePath → Result Bool ConfigError
  is_symlink w path = unless_missing path (symlink_metadata w path) >>= λ found.
      ok (elim found [ some b ↦ b | none ↦ false ])

  -- The closure `escapes` on what a path resolves to, if anything.
  unfoldable pub escapes : FilePath → Option FilePath → Bool
  escapes base none = false
  escapes base (some resolved) = not (starts_with resolved base)

  unfoldable pub refuse : FilePath → Bool → Result (Unit {0}) ConfigError
  refuse path true = err (unsafe_path (display path))
  refuse path false = ok tt

  -- The test of the parent directory.
  unfoldable pub check_parent : W → FilePath → FilePath → Result (Unit {0}) ConfigError
  check_parent w path base = elim (parent path) [
    | none ↦ ok tt
    | some dir ↦ (do resolved ← canonical w dir; refuse path (escapes base resolved))
  ]

  -- The test of a symlinked leaf.
  unfoldable pub check_leaf : W → FilePath → FilePath → Result (Unit {0}) ConfigError
  check_leaf w path base = do
    link ← is_symlink w path
    elim link [
      | true ↦ (do resolved ← canonical w path; refuse path (escapes base resolved))
      | false ↦ ok tt
    ]

  unfoldable pub refuse_escaping_path : W → FilePath → Result (Unit {0}) ConfigError
  unfolding refuse check_parent check_leaf
  refuse_escaping_path w path = do
    found ← canonical w (config_dir root)
    elim found [ none ↦ ok tt | some base ↦ (do check_parent w path base; check_leaf w path base) ]

  unfoldable pub read_and_split : W → FilePath → Result (Option (Text × Split)) ConfigError
  read_and_split w path = do
    found ← unless_missing path (read_to_string w path)
    elim found [
      | none ↦ ok none
      | some content ↦ (do parts ← malformed path (split content); ok (some (content, parts)))
    ]
