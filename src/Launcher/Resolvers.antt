-- ===== src/Launcher/Resolvers.antt =====
-- The two resolvers of subcommands: cli/launcher/src/launch/outbound/resolver.rs, and the lazy one
-- of cli/launcher/src/main.rs.
pub mod Trusting
use luminosity.Base.{Text, codes, List, ◌++◌, none, some, Result, ok, err, ◌>>=◌, ◌>>◌, map_err}
use luminosity.Platform.Path.{FilePath}
use luminosity.Adapters.Store.Operations.{Disk}
use luminosity.Launcher.External.{
  ExternalCommand, ResolutionError, unresolved, cache_root_unavailable,
}
use luminosity.Launcher.Resolve
use luminosity.Launcher.Resolve.{ResolverConfig, production_config}
use luminosity.Launcher.Resolve.Fetch.{Fetcher, production}
use luminosity.Launcher.Resolve.Trust.{embedded}
use luminosity.Launcher.Resolve.CacheRoot
use luminosity.Launcher.Resolve.CacheRoot.{nonempty, from_env}
use luminosity.Launcher.System.{System}

-- `FIXTURE_ENV`
abbrev pub fixture_env : Text
fixture_env = codes "LUMINOSITY_RESOLVE_FIXTURE"

module _ {W : Type 0} (system : System W) where
  open system use {
    fs, cache_files, status, current_dir, env, path_of, process_id, system_exec, network, client,
    try_parse, help, build, host_platform, is_macos, release_key, crypto, json, from_utf8_lossy,
    yaml, float_text,
  }

  unfoldable pub release_base_url : Text
  release_base_url = elim (env (codes "LUMINOSITY_RELEASE_BASE_URL")) [
    | some override_url ↦ override_url.lossy
    | none ↦
        codes "https://github.com/atomicinnovation/luminosity/releases/download/v"
        ++ build.cargo_pkg_version
  ]

  -- `Fetcher::new`
  unfoldable pub new_fetcher : Result Fetcher Text
  new_fetcher = do client; ok production

  unfoldable pub config_at : FilePath → ResolverConfig
  config_at cache = production_config build.cargo_pkg_version host_platform release_base_url cache

  -- `LazyProductionResolver::resolve` behind the choice of the cache: the keys and the fetcher.
  unfoldable pub trusted_keys : Result (List crypto.PublicKey) ResolutionError
  trusted_keys = do
    keys ← embedded crypto release_key
    map_err cache_root_unavailable new_fetcher
    ok keys

  unfoldable pub resolve_with :
      FilePath
      → ExternalCommand
      → Result (List crypto.PublicKey) ResolutionError
      → Disk W
      → Result FilePath ResolutionError × Disk W
  resolve_with cache command (err error) disk = (err error, disk)
  resolve_with cache command (ok keys) disk =
      let (resolved, w) =
        Resolve.resolve crypto keys json from_utf8_lossy (config_at cache) production network
          cache_files process_id command disk.files in
      (resolved, record disk { files = w })

  -- `LazyProductionResolver::resolve` on the chosen cache
  unfoldable pub resolve_at :
      ExternalCommand
      → Result FilePath ResolutionError
      → Disk W
      → Result FilePath ResolutionError × Disk W
  resolve_at command (err error) disk = (err error, disk)
  resolve_at command (ok cache) disk = resolve_with cache command trusted_keys disk

  unfoldable pub production_resolver :
      ExternalCommand → Disk W → Result FilePath ResolutionError × Disk W
  production_resolver command disk =
      let (cache, w) =
        CacheRoot.resolve cache_files status process_id is_macos (from_env path_of env)
          disk.files in
      resolve_at command cache (record disk { files = w })

  -- `FixtureResolver::resolve`
  unfoldable pub fixture_resolver :
      ExternalCommand → Disk W → Result FilePath ResolutionError × Disk W
  fixture_resolver command disk = elim (nonempty (env fixture_env)) [
    | some path ↦ (ok (path_of path), disk)
    | none ↦ (err (unresolved command.name), disk)
  ]
