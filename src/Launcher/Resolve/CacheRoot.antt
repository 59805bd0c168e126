-- ===== src/Launcher/Resolve/CacheRoot.antt =====
-- cli/launcher/src/launch/outbound/resolve/cache_root.rs: the choice of the cache directory. The
-- environment, the target system and what running the probe's script gives are parameters.
pub mod Candidates
use luminosity.Base.{
  ℕ, Bool, true, false, ◌&&◌, Text, codes, decimal, ◌++◌, Option, none, some, is_empty, is_ok,
  Result, ok, err, if◌then◌else◌,
}
use luminosity.Platform.Path.{FilePath, join, display}
use luminosity.Platform.Files.{IoError}
use luminosity.Launcher.External.{OsText, ResolutionError, cache_root_unavailable}
use luminosity.Launcher.Resolve.Fetch.{Bytes}
use luminosity.Launcher.Resolve.Cache.{CacheFiles}

pub record CacheRootConfig : Type 0 where
  pub cache_dir_override : Option FilePath
  pub plugin_root : Option FilePath
  pub xdg_cache_home : Option FilePath
  pub home : Option FilePath

-- `std::env::var_os`
abbrev pub Environment : Type 0
Environment = Text → Option OsText

-- `.filter(|value| !value.is_empty())`
unfoldable pub nonempty : Option OsText → Option OsText
nonempty none = none
nonempty (some value) = if is_empty value.lossy then none else some value

-- `.map(PathBuf::from)`
unfoldable pub to_path : (OsText → FilePath) → Option OsText → Option FilePath
to_path path_of none = none
to_path path_of (some value) = some (path_of value)

unfoldable pub from_env : (OsText → FilePath) → Environment → CacheRootConfig
from_env path_of env = record {
  cache_dir_override = to_path path_of (nonempty (env (codes "LUMINOSITY_CACHE_DIR")));
  plugin_root = to_path path_of (nonempty (env (codes "CLAUDE_PLUGIN_ROOT")));
  xdg_cache_home = to_path path_of (nonempty (env (codes "XDG_CACHE_HOME")));
  home = to_path path_of (nonempty (env (codes "HOME")));
}

-- What `home` gives where there is no `XDG_CACHE_HOME`.
unfoldable pub home_fallback : Bool → Option FilePath → Option FilePath
home_fallback is_macos none = none
home_fallback true (some home) =
    some (join (join (join home (codes "Library")) (codes "Caches")) (codes "luminosity"))
home_fallback false (some home) = some (join (join home (codes ".cache")) (codes "luminosity"))

unfoldable pub xdg_fallback : Bool → CacheRootConfig → Option FilePath
xdg_fallback is_macos config = elim config.xdg_cache_home [
  | some base ↦ some (join base (codes "luminosity"))
  | none ↦ home_fallback is_macos config.home
]

-- `b"#!/bin/sh\nexit 0\n"`
abbrev pub script : Bytes
script = codes "#!/bin/sh\nexit 0\n"

-- `.map(|status| status.success()).unwrap_or(false)`
abbrev or_failed : Option Bool → Bool
or_failed none = false
or_failed (some success) = success

unavailable {ℓ} : {A : Type ℓ} → Text → Result A ResolutionError
unavailable detail = err (cache_root_unavailable detail)

module _ {W : Type 0} (files : CacheFiles W) (status : W → FilePath → Option Bool) (process_id : ℕ)
    (is_macos : Bool) where
  unfoldable pub probe_path : FilePath → FilePath
  probe_path dir = join dir (codes ".luminosity-probe-" ++ decimal process_id)

  -- The script is run if it was written and made executable, and is removed in any case.
  unfoldable pub run_probe : FilePath → Bool → W → Bool × W
  run_probe probe written w = (written && or_failed (status w probe), (files.remove_file w probe).1)

  -- `make_executable` is called only if the script was written.
  unfoldable pub probe_written : FilePath → Result (Unit {0}) IoError → W → Bool × W
  probe_written probe (err _) w = run_probe probe false w
  probe_written probe (ok _) w =
      let (made, w') = files.set_executable w probe in run_probe probe (is_ok made) w'

  unfoldable pub probe_created : FilePath → Result (Unit {0}) IoError → W → Bool × W
  probe_created dir (err _) w = (false, w)
  probe_created dir (ok _) w =
      let (written, w') = files.write w (probe_path dir) script in
      probe_written (probe_path dir) written w'

  unfoldable pub probe_writable_and_executable : FilePath → W → Bool × W
  probe_writable_and_executable dir w =
      let (created, w') = files.create_dir_all w dir in probe_created dir created w'

  unfoldable pub resolve_override : FilePath → Bool × W → Result FilePath ResolutionError × W
  unfolding unavailable
  resolve_override dir (true, w) = (ok dir, w)
  resolve_override dir (false, w) = (
    unavailable
        (codes "LUMINOSITY_CACHE_DIR " ++ (display dir ++ codes " is not writable+exec-capable")),
    w,
  )

  unfoldable pub resolve_probed : FilePath → Bool × W → Result FilePath ResolutionError × W
  unfolding unavailable
  resolve_probed dir (true, w) = (ok dir, w)
  resolve_probed dir (false, w) = (
    unavailable (
        codes "neither the plugin root nor " ++ (display dir ++ codes " is writable+exec-capable")),
    w,
  )

  unfoldable pub resolve_fallback : Option FilePath → W → Result FilePath ResolutionError × W
  unfolding unavailable
  resolve_fallback none w =
      (unavailable (codes "plugin root is not writable+exec and no XDG/HOME is set"), w)
  resolve_fallback (some dir) w = resolve_probed dir (probe_writable_and_executable dir w)

  unfoldable pub resolve_primary :
      CacheRootConfig → FilePath → Bool × W → Result FilePath ResolutionError × W
  resolve_primary config dir (true, w) = (ok dir, w)
  resolve_primary config dir (false, w) = resolve_fallback (xdg_fallback is_macos config) w

  unfoldable pub resolve_plugin_root :
      CacheRootConfig → Option FilePath → W → Result FilePath ResolutionError × W
  unfolding unavailable
  resolve_plugin_root config none w = (unavailable (codes "CLAUDE_PLUGIN_ROOT is not set"), w)
  resolve_plugin_root config (some plugin_root) w =
      let primary = join plugin_root (codes "bin") in
      resolve_primary config primary (probe_writable_and_executable primary w)

  unfoldable pub resolve : CacheRootConfig → W → Result FilePath ResolutionError × W
  resolve config w = elim config.cache_dir_override [
    | some dir ↦ resolve_override dir (probe_writable_and_executable dir w)
    | none ↦ resolve_plugin_root config config.plugin_root w
  ]
