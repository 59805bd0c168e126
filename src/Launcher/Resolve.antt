-- ===== src/Launcher/Resolve.antt =====
-- cli/launcher/src/launch/outbound/resolve/mod.rs: the resolver that fetches, verifies and caches.
pub mod Fetch
pub mod Trust
pub mod Cache
pub mod CacheRoot
pub mod Authentic
pub mod Outcomes
pub mod Successes
use luminosity.Base.{
  ℕ, Bool, true, false, Text, codes, List, [], ◌∷◌, ◌++◌, Option, none, some, Result, ok, err,
  ◌>>=◌, ◌>>◌, map_err, if◌then◌else◌,
}
use luminosity.Platform.Path.{FilePath}
use luminosity.Launcher.External.{
  OsText, to_str, ExternalCommand, ResolutionError, unresolved, fetch, asset_not_found,
  release_unavailable,
}
use luminosity.Launcher.Resolve.Fetch.{
  Bytes, FetchError, not_found, unreachable, Network, Fetcher, get,
}
use luminosity.Launcher.Resolve.Trust.{
  Crypto, PlatformEntry, Manifest, Json, platform_entry, parse_and_validate, verify_binary,
  verify_manifest,
}
use luminosity.Launcher.Resolve.Cache.{
  CacheFiles, CachedBinary, cache_error, and_then, find, store, evict, enforce_retention_cap,
}

pub record ResolverConfig : Type 0 where
  pub expected_version : Text
  pub platform : Text
  pub base_url : Text
  pub cache_root : FilePath
  pub retained_versions : ℕ

abbrev default_retained_versions : ℕ
default_retained_versions = 3

-- `ResolverConfig::production`, for the version and the platform that the launcher was built for
unfoldable pub production_config : Text → Text → Text → FilePath → ResolverConfig
production_config version platform base_url cache_root = record {
  expected_version = version;
  platform = platform;
  base_url = base_url;
  cache_root = cache_root;
  retained_versions = default_retained_versions;
}

unfoldable pub fetch_error : Text → Text → Bool → FetchError → ResolutionError
fetch_error target url true not_found = release_unavailable target url
fetch_error target url false not_found = asset_not_found target url
fetch_error target url is_manifest (unreachable _) = fetch target url

last_or_empty : List Text → Text
last_or_empty [] = []
last_or_empty (c ∷ []) = c
last_or_empty (c ∷ d ∷ ds) = last_or_empty (d ∷ ds)

-- `path.file_name()`, displayed, or nothing
unfoldable pub file_name : FilePath → Text
unfolding last_or_empty
file_name path = last_or_empty path.components

-- `ok_or_else`
abbrev pub ok_or {ℓ κ} : {A : Type ℓ} {E : Type κ} → E → Option A → Result A E
ok_or error none = err error
ok_or error (some a) = ok a

-- What was fetched for a command, all of it verified.
pub record Asset : Type 0 where
  pub entry : PlatformEntry
  pub bytes : Bytes

module _ (crypto : Crypto) (keys : List crypto.PublicKey) (json : Json)
    (from_utf8_lossy : Bytes → Text) (config : ResolverConfig) (fetcher : Fetcher)
    (network : Network) where
  unfoldable pub load_manifest : Result Manifest ResolutionError
  load_manifest = do
    let manifest_url = config.base_url ++ codes "/manifest.json"
    manifest_bytes ←
        map_err (fetch_error config.platform manifest_url true) (get fetcher network manifest_url)
    let signature_url = config.base_url ++ codes "/manifest.minisig"
    signature_bytes ←
        map_err (fetch_error config.platform signature_url true) (get fetcher network signature_url)
    verify_manifest crypto manifest_bytes (from_utf8_lossy signature_bytes) keys
    parse_and_validate json manifest_bytes config.expected_version

  -- `fetch_verify_store` up to the store.
  unfoldable pub fetch_verify : Text → Result Asset ResolutionError
  fetch_verify name = do
    manifest ← load_manifest
    let asset_name = name ++ (codes "-" ++ config.platform)
    let asset_url = config.base_url ++ (codes "/" ++ asset_name)
    entry ←
        ok_or (asset_not_found asset_name asset_url) (platform_entry manifest name config.platform)
    bytes ← map_err (fetch_error asset_name asset_url false) (get fetcher network asset_url)
    verify_binary crypto asset_name bytes entry.sha256 entry.signature keys
    ok (record { entry = entry; bytes = bytes })

  module _ {W : Type 0} (files : CacheFiles W) (process_id : ℕ) where
    -- `fetch_verify_store` from the store on.
    unfoldable pub store_asset :
        Text → Result Asset ResolutionError → W → Result FilePath ResolutionError × W
    store_asset name (err e) w = (err e, w)
    store_asset name (ok asset) w =
        and_then
          (store files process_id config.cache_root name config.expected_version asset.entry.sha256
            asset.bytes asset.entry.signature w)
          λ cached w1. (
            ok cached.path,
            enforce_retention_cap files config.cache_root name config.retained_versions w1,
          )

    unfoldable pub fetch_verify_store : Text → W → Result FilePath ResolutionError × W
    fetch_verify_store name w = store_asset name (fetch_verify name) w

    unfoldable pub reverify : W → CachedBinary → Result (Unit {0}) ResolutionError
    reverify w cached = do
      bytes ← map_err (cache_error cached.path) (files.read w cached.path)
      signature ←
          map_err (cache_error cached.signature_path) (files.read_to_string w cached.signature_path)
      verify_binary crypto (file_name cached.path) bytes cached.sha256 signature keys

    -- What `resolve` does about a cached binary, by the outcome of its verification.
    unfoldable pub use_cached :
        Text
        → CachedBinary
        → Result (Unit {0}) ResolutionError
        → W
        → Result FilePath ResolutionError × W
    use_cached name cached (ok _) w = (ok cached.path, w)
    use_cached name cached (err _) w = fetch_verify_store name (evict files cached w)

    unfoldable pub resolve_cached :
        Text → Option CachedBinary → W → Result FilePath ResolutionError × W
    resolve_cached name none w = fetch_verify_store name w
    resolve_cached name (some cached) w = use_cached name cached (reverify w cached) w

    unfoldable pub resolve_name : OsText → Option Text → W → Result FilePath ResolutionError × W
    resolve_name raw none w = (err (unresolved raw), w)
    resolve_name raw (some name) w =
        resolve_cached name (find files w config.cache_root name config.expected_version) w

    unfoldable pub resolve : ExternalCommand → W → Result FilePath ResolutionError × W
    resolve command w = resolve_name command.name (to_str command.name) w
