-- ===== src/Launcher/Resolve/Outcomes.antt =====
-- Every way that a resolution can end.
use luminosity.Base.{ℕ, Text, List, Option, none, some, Result, ok, err, ◌≡◌, refl}
use luminosity.Platform.Path.{FilePath}
use luminosity.Launcher.External.{to_str, ExternalCommand, ResolutionError, unresolved}
use luminosity.Launcher.Resolve.Fetch.{Bytes, Network, Fetcher}
use luminosity.Launcher.Resolve.Trust.{Crypto, Json}
use luminosity.Launcher.Resolve.Cache.{CacheFiles, CachedBinary, find, evict}
use luminosity.Launcher.Resolve.{
  ResolverConfig, Asset, fetch_verify, store_asset, fetch_verify_store, reverify, use_cached,
  resolve_cached, resolve_name, resolve,
}
use luminosity.Launcher.Resolve.Authentic.{Verified, fetch_verify-Verified}

module _ (crypto : Crypto) (keys : List crypto.PublicKey) (json : Json)
    (from_utf8_lossy : Bytes → Text) (config : ResolverConfig) (fetcher : Fetcher)
    (network : Network) {W : Type 0} (files : CacheFiles W) (process_id : ℕ) where
  -- The state that a fetch starts from: as it was where nothing is cached, and else what the removal
  -- of a cached binary that did not verify, and then that of its signature, left.
  pub data Start (name : Text) (w : W) : W → Type 0 where
    nothing_cached :
        find files w config.cache_root name config.expected_version ≡ none → Start name w w
    evicted :
        (c : CachedBinary) (e : ResolutionError)
        → find files w config.cache_root name config.expected_version ≡ some c
        → reverify crypto keys json from_utf8_lossy config fetcher network files process_id w c
          ≡ err e
        → Start name w (files.remove_file (files.remove_file w c.path).1 c.signature_path).1

  pub data Outcome (command : ExternalCommand) (w : W)
      : Result FilePath ResolutionError × W → Type 0 where
    no_name : to_str command.name ≡ none → Outcome command w (err (unresolved command.name), w)
    hit :
        (name : Text) (c : CachedBinary)
        → to_str command.name ≡ some name
        → find files w config.cache_root name config.expected_version ≡ some c
        → reverify crypto keys json from_utf8_lossy config fetcher network files process_id w c
          ≡ ok tt
        → Outcome command w (ok c.path, w)
    refused :
        (name : Text) (start : W) (e : ResolutionError)
        → to_str command.name ≡ some name
        → Start name w start
        → fetch_verify crypto keys json from_utf8_lossy config fetcher network name ≡ err e
        → Outcome command w (err e, start)
    verified :
        (name : Text) (start : W) (a : Asset)
        → to_str command.name ≡ some name
        → Start name w start
        → Verified crypto keys json from_utf8_lossy config fetcher network name a
        → Outcome command w (
            store_asset crypto keys json from_utf8_lossy config fetcher network files process_id
              name
              (ok a)
              start)

  fetch-Outcome :
      (command : ExternalCommand) (w start : W) (name : Text)
      → to_str command.name ≡ some name
      → Start name w start
      → Outcome command w (
          fetch_verify_store crypto keys json from_utf8_lossy config fetcher network files
            process_id name start)
  unfolding fetch_verify_store store_asset
  fetch-Outcome command w start name named begin =
      go (fetch_verify crypto keys json from_utf8_lossy config fetcher network name) refl
    where
      go :
          (r : Result Asset ResolutionError)
          → fetch_verify crypto keys json from_utf8_lossy config fetcher network name ≡ r
          → Outcome command w (
              store_asset crypto keys json from_utf8_lossy config fetcher network files process_id
                name r start)
      go (ok a) e =
          verified name start a named begin
            (fetch_verify-Verified crypto keys json from_utf8_lossy config fetcher network name a e)
      go (err x) e = refused name start x named begin e

  cached-Outcome :
      (command : ExternalCommand) (w : W) (name : Text) (o : Option CachedBinary)
      → to_str command.name ≡ some name
      → find files w config.cache_root name config.expected_version ≡ o
      → Outcome command w (
          resolve_cached crypto keys json from_utf8_lossy config fetcher network files process_id
            name o w)
  unfolding resolve_cached use_cached evict
  cached-Outcome command w name none named e =
      fetch-Outcome command w w name named (nothing_cached e)
  cached-Outcome command w name (some c) named e =
      go (reverify crypto keys json from_utf8_lossy config fetcher network files process_id w c)
        refl
    where
      go :
          (r : Result (Unit {0}) ResolutionError)
          → reverify crypto keys json from_utf8_lossy config fetcher network files process_id w c
            ≡ r
          → Outcome command w (
              use_cached crypto keys json from_utf8_lossy config fetcher network files process_id
                name c r w)
      go (ok _) good = hit name c named e good
      go (err x) bad = fetch-Outcome command w (evict files c w) name named (evicted c x e bad)

  -- A resolution ends in one of four ways: the name is not Unicode; a cached binary verified again
  -- and nothing changed; the fetch was refused; or a fetched binary was verified in full and
  -- then handed to the cache. A fetch starts where nothing is cached, in the state as it was, or
  -- where the cached binary did not verify, in the state that the calls to remove it and its
  -- signature left, whether they succeeded or not.
  pub resolve-Outcome :
      (command : ExternalCommand) (w : W)
      → Outcome command w (
          resolve crypto keys json from_utf8_lossy config fetcher network files process_id command
            w)
  unfolding resolve resolve_name
  resolve-Outcome command w = go (to_str command.name) refl
    where
      go :
          (n : Option Text)
          → to_str command.name ≡ n
          → Outcome command w (
              resolve_name crypto keys json from_utf8_lossy config fetcher network files process_id
                command.name n w)
      go none e = no_name e
      go (some name) e =
          cached-Outcome command w name
            (find files w config.cache_root name config.expected_version) e refl
