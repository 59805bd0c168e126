-- ===== src/Launcher/Main.antt =====
-- cli/launcher/src/main.rs, the composition root, with launch/outbound/tls.rs.
pub mod Trusting
pub mod Degrading
pub mod RoundTrip
pub mod Refusing
use luminosity.Base.{
  ℕ, Bool, false, not, ◌&&◌, ◌||◌, Text, text_eq, codes, List, [], ◌∷◌, ◌++◌, Option, none, some,
  Result, ok, err, ◌>>=◌, ◌>>◌, map_err, if◌then◌else◌,
}
use luminosity.Platform.Path.{FilePath}
use luminosity.Config.Error.{ConfigError, io, KernelError, failed}
use luminosity.Config.Key.{Key}
use luminosity.Config.Level.{Level}
use luminosity.Config.Fragment.{Reader, assembler}
use luminosity.Config.Service.Driver.{ConfigAccess, service}
use luminosity.Adapters.Store.Operations.{Disk, discover_root, ports, reader}
use luminosity.Launcher.Support.{Printed}
use luminosity.Launcher.Cli.{Cli}
use luminosity.Launcher.Version.{vergen}
use luminosity.Launcher.External.{OsText, to_str, ExternalCommand, ResolutionError}
use luminosity.Launcher.Dispatch.{Ending, returned, replaced, Services, dispatch}
use luminosity.Launcher.Help.{external_subcommands_section}
use luminosity.Launcher.Resolve.{load_manifest}
use luminosity.Launcher.Resolve.Fetch.{production}
use luminosity.Launcher.Resolve.Trust.{Manifest}
use luminosity.Launcher.Resolve.CacheRoot.{nonempty}
use luminosity.Launcher.System.{ParseError, System}
use luminosity.Launcher.Resolvers.{
  fixture_env, config_at, trusted_keys, production_resolver, fixture_resolver,
}

-- How the process ends, unless another program takes it over: `ExitCode`, or the code with which
-- clap ends it.
pub data Exit : Type 0 where
  success failure : Exit
  by_clap : ℕ → Exit

pub data Ended : Type 0 where
  exited : Exit → Ended
  taken_over : FilePath → List OsText → Ended

-- `install_crypto_provider`: a provider that is there already is as good.
unfoldable pub install_crypto_provider : Result (Unit {0}) KernelError
install_crypto_provider = ok tt

-- `matches!(…, Some("version" | …))`
unfoldable pub is_builtin : Option Text → Bool
is_builtin none = false
is_builtin (some name) =
    text_eq name (codes "version")
    || text_eq name (codes "config")
    || text_eq name (codes "context")
    || text_eq name (codes "instructions")
    || text_eq name (codes "help")

-- `args_os().nth(1)` as UTF-8
unfoldable pub first_argument : List OsText → Option Text
first_argument (_ ∷ argument ∷ _) = to_str argument
first_argument _ = none

unfoldable pub is_root_help : List OsText → ParseError → Bool
is_root_help args error = error.is_display_help && not (is_builtin (first_argument args))

module _ {W : Type 0} (system : System W) where
  open system use {
    fs, cache_files, status, current_dir, env, path_of, process_id, system_exec, network, client,
    try_parse, help, build, host_platform, is_macos, release_key, crypto, json, from_utf8_lossy,
    yaml, float_text,
  }

  -- `discover_store`: a store is its root.
  unfoldable pub discover_store : W → Result FilePath ConfigError
  discover_store w = do
    start ← map_err (io (codes ".")) (current_dir w)
    ok (discover_root fs w start)

  -- `LazyConfigAccess::set` on the store that was discovered
  unfoldable pub set_at :
      Result FilePath ConfigError
      → Disk W
      → Key
      → Text
      → Level
      → Result (Unit {0}) ConfigError × Disk W
  set_at (err error) disk key v level = (err error, disk)
  set_at (ok root) disk key v level = (service (ports fs yaml process_id root)).set disk key v level

  -- `LazyConfigAccess`
  unfoldable pub lazy_access : ConfigAccess (Disk W)
  lazy_access = record {
    get = λ disk key level. discover_store disk.files >>= λ root.
        (service (ports fs yaml process_id root)).get disk key level;
    set = λ disk key v level. set_at (discover_store disk.files) disk key v level;
  }

  -- `LazyFragmentBody`
  unfoldable pub lazy_reader : W → Reader
  lazy_reader w = record {
    read_body = λ source level.
        discover_store w >>= λ root. (reader fs yaml process_id root w).read_body source level;
    locate =
        λ source. discover_store w >>= λ root. (reader fs yaml process_id root w).locate source;
  }

  -- What `run` hands to `dispatch`, but for the resolver.
  unfoldable pub services_with :
      (ExternalCommand → Disk W → Result FilePath ResolutionError × Disk W) → Services (Disk W)
  services_with resolver = record {
    reporter = vergen build;
    access = lazy_access;
    assembler = λ disk. assembler (lazy_reader disk.files);
    resolver = resolver;
    system_exec = system_exec;
    float_text = float_text;
  }

  -- The resolver is the fixture's where the variable is set and not empty.
  unfoldable pub services_by : Option OsText → Services (Disk W)
  services_by (some _) = services_with (fixture_resolver system)
  services_by none = services_with (production_resolver system)

  unfoldable pub services : Services (Disk W)
  services = services_by (nonempty (env fixture_env))

  unfoldable pub run : Cli → Disk W → Printed × Ending × Disk W
  run cli disk = dispatch services cli.command disk

  -- `.ok()?` and the manifest without a cache
  unfoldable pub help_manifest : Result Manifest ResolutionError
  help_manifest = do
    keys ← trusted_keys system
    load_manifest crypto keys json from_utf8_lossy
        (config_at system (record { absolute = false; components = [] })) production network

  unfoldable pub help_section : Option Text
  help_section = elim help_manifest [
    | ok manifest ↦ external_subcommands_section manifest
    | err _ ↦ none
  ]

  -- The help, and the empty line of `println!()`
  unfoldable pub render_augmented_help : Printed
  render_augmented_help = record { stdout = help help_section ∷ [] ∷ []; stderr = [] }

  -- The process at its end: an exit, or the program and the arguments that took it over.
  unfoldable pub ended : Printed × Ending × Disk W → Printed × Ended × Disk W
  ended (printed, replaced program args, disk) = (printed, taken_over program args, disk)
  ended (printed, returned (ok _), disk) = (printed, exited success, disk)
  ended (printed, returned (err (failed message)), disk) = (
    record printed { stderr = printed.stderr ++ (codes "luminosity: " ++ message) ∷ [] },
    exited failure,
    disk,
  )

  unfoldable pub parsed : List OsText → Result Cli ParseError → Disk W → Printed × Ended × Disk W
  parsed args (ok cli) disk = ended (run cli disk)
  parsed args (err error) disk =
      if is_root_help args error
      then (render_augmented_help, exited success, disk)
      else (error.printed, exited (by_clap error.exit_code), disk)

  unfoldable pub installed :
      Result (Unit {0}) KernelError → List OsText → Disk W → Printed × Ended × Disk W
  installed (err (failed message)) args disk = (
    record { stdout = []; stderr = (codes "luminosity: " ++ message) ∷ [] },
    exited failure,
    disk,
  )
  installed (ok _) args disk = parsed args (try_parse args) disk

  -- `main` on the arguments, the program's name included
  unfoldable pub main : List OsText → Disk W → Printed × Ended × Disk W
  main args disk = installed install_crypto_provider args disk
