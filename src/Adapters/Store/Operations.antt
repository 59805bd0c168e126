-- ===== src/Adapters/Store/Operations.antt =====
-- The ports that `FileConfigStore` implements (cli/config-adapters/src/store.rs).
pub mod Writing
pub mod Contract
pub mod Keeping
pub mod Refusals
pub mod Kept
pub mod Lawful
pub mod Nearest
pub mod Roots
pub mod Marked
pub mod Writers
pub mod Interleaving
use luminosity.Base.{
  ℕ, ◌+◌, ◌%◌, ◌^◌, zero, suc, length, Bool, true, false, ◌||◌, Text, codes, decimal, ◌++◌, Option,
  none, some, Result, ok, err, ◌>>=◌, ◌>>◌, if◌then◌else◌,
}
use luminosity.Platform.Path.{FilePath, join, parent, display}
use luminosity.Platform.Files.{IoError, FileSystem}
use luminosity.Config.Level.{Level, team, personal}
use luminosity.Config.Error.{ConfigError}
use luminosity.Config.Source.{FragmentSource}
use luminosity.Config.Node.{Node, mapping}
use luminosity.Config.Fragment.{LevelBody, SourceLocation, Reader}
use luminosity.Config.Service.Access.{Ports}
use luminosity.Adapters.Frontmatter.{Split}
use luminosity.Adapters.Document.{Yaml, parse_frontmatter, render}
use luminosity.Adapters.Store.{
  config_dir, config_path, fragment_path, relative, io_error, unless_missing, malformed,
  refuse_escaping_path, read_and_split,
}

-- The file system with the counter `WRITE_COUNTER` that names temporary files.
pub record Disk (W : Type 0) : Type 0 where
  pub files : W
  pub write_counter : ℕ

-- `matches!(parsed, Ok(Node::Mapping(_)))`
unfoldable pub is_mapping : Result Node Text → Bool
is_mapping (ok (mapping _)) = true
is_mapping _ = false

-- The body of a file that was read, given its raw content and its split.
unfoldable pub body_of : Yaml → Text → Split → Text
body_of yaml content parts =
    if is_mapping (parse_frontmatter yaml parts.frontmatter) then parts.body else content

-- `format!("config-{}-{}.tmp", …)`
unfoldable pub temp_name : ℕ → ℕ → Text
temp_name process_id counter =
    codes "config-" ++ (decimal process_id ++ (codes "-" ++ (decimal counter ++ codes ".tmp")))

module _ {W : Type 0} (fs : FileSystem W) (yaml : Yaml) (process_id : ℕ) (root : FilePath) where
  open fs use {read_to_string, is_dir, exists, create_dir_all, write, rename, remove_file}

  unfoldable pub read_fragment_body : W → FilePath → Result (Option Text) ConfigError
  read_fragment_body w path = do
    refuse_escaping_path fs root w path
    found ← read_and_split fs root w path
    ok (elim found [ none ↦ none | some (content, parts) ↦ some (body_of yaml content parts) ])

  -- `ReadConfigLevel::read`
  unfoldable pub read : W → Level → Result (Option Node) ConfigError
  read w level = do
    let path = config_path root level
    refuse_escaping_path fs root w path
    found ← read_and_split fs root w path
    elim found [
      | none ↦ ok none
      | some (_, parts) ↦ (do
        node ← malformed path (parse_frontmatter yaml parts.frontmatter)
        ok (some node))
    ]

  -- `ReadFragmentBody::read_body`
  unfoldable pub read_body : W → FragmentSource → Level → Result LevelBody ConfigError
  read_body w source level = do
    let path = fragment_path root source level
    body ← read_fragment_body w path
    ok (record { path = relative root path; body = body })

  -- `ReadFragmentBody::locate`
  unfoldable pub locate : FragmentSource → Result SourceLocation ConfigError
  locate source = ok (record {
    root = display root;
    paths = (
      relative root (fragment_path root source team),
      relative root (fragment_path root source personal),
    );
  })

  unfoldable pub reader : W → Reader
  reader w = record { read_body = read_body w; locate = locate }

  unfoldable pub temp_dir : FilePath
  temp_dir = join (config_dir root) (codes "tmp")

  unfoldable pub temp_path : ℕ → FilePath
  temp_path counter = join temp_dir (temp_name process_id counter)

  -- A failed step on the temporary file: the file is removed, and the error is of `path`.
  abandon : FilePath → FilePath → IoError → W → Result (Unit {0}) ConfigError × W
  abandon temp path error w = (err (io_error path error), (remove_file w temp).1)

  after_rename :
      FilePath → FilePath → Result (Unit {0}) IoError → W → Result (Unit {0}) ConfigError × W
  after_rename temp target (err error) w = abandon temp target error w
  after_rename temp target (ok _) w = (ok tt, w)

  after_write :
      FilePath → FilePath → Result (Unit {0}) IoError → W → Result (Unit {0}) ConfigError × W
  after_write temp target (err error) w = abandon temp temp error w
  after_write temp target (ok _) w =
      let (renamed, w') = rename w temp target in after_rename temp target renamed w'

  pub write_via : FilePath → FilePath → Text → W → Result (Unit {0}) ConfigError × W
  unfolding abandon after_rename after_write
  write_via temp target contents w =
      let (written, w') = write w temp contents in after_write temp target written w'

  with_counter : ℕ → Result (Unit {0}) ConfigError × W → Result (Unit {0}) ConfigError × Disk W
  with_counter n (r, w) = (r, record { files = w; write_counter = n })

  -- `fetch_add` comes after the directory is there, and wraps at 64 bits.
  pub after_create :
      ℕ → FilePath → Text → Result (Unit {0}) IoError → W → Result (Unit {0}) ConfigError × Disk W
  after_create counter target contents (err error) w =
      (err (io_error temp_dir error), record { files = w; write_counter = counter })
  after_create counter target contents (ok _) w =
      with_counter ((counter + 1) % 2 ^ 64) (write_via (temp_path counter) target contents w)

  unfoldable pub atomic_write : Disk W → FilePath → Text → Result (Unit {0}) ConfigError × Disk W
  unfolding with_counter after_create write_via
  atomic_write disk target contents =
      let (created, w) = create_dir_all disk.files temp_dir in
      after_create disk.write_counter target contents created w

  -- What is to be written: everything that `write` does before it changes the disk.
  unfoldable pub rendered : W → Level → Node → Result Text ConfigError
  rendered w level document = do
    let path = config_path root level
    refuse_escaping_path fs root w path
    existing ← unless_missing path (read_to_string w path)
    malformed path (render yaml existing document)

  unfoldable pub write_rendered :
      Disk W → Level → Result Text ConfigError → Result (Unit {0}) ConfigError × Disk W
  write_rendered disk level (err e) = (err e, disk)
  write_rendered disk level (ok text) = atomic_write disk (config_path root level) text

  -- `WriteConfigLevel::write`
  unfoldable pub write_level : Disk W → Level → Node → Result (Unit {0}) ConfigError × Disk W
  unfolding write_rendered
  write_level disk level document = write_rendered disk level (rendered disk.files level document)

  -- The store as both ports of the configuration service.
  unfoldable pub ports : Ports (Disk W)
  ports = record { read = λ disk level. read disk.files level; write = write_level }

-- `discover_root`: the loop over the start directory and its ancestors, each one component
-- shorter, on fuel for every component.
module _ {W : Type 0} (fs : FileSystem W) where
  unfoldable pub is_root : W → FilePath → Bool
  is_root w dir =
      fs.is_dir w (join dir (codes ".luminosity")) || fs.exists w (join dir (codes ".git"))

  unfoldable pub first_root : ℕ → W → FilePath → Option FilePath
  first_root zero w dir = none
  first_root (suc fuel) w dir =
      let above : Option FilePath = elim (parent dir) [
        | none ↦ none
        | some up ↦ first_root fuel w up
      ] in
      if is_root w dir then some dir else above

  unfoldable pub discover_root : W → FilePath → FilePath
  discover_root w start = elim (first_root (suc (length start.components)) w start) [
    | some dir ↦ dir
    | none ↦ start
  ]
