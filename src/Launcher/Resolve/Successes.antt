-- ===== src/Launcher/Resolve/Successes.antt =====
-- What a resolution that succeeded names.
use luminosity.Base.{
  ℕ, true, Text, List, some, Result, ok, err, >>=-eq-ok, map_err, map_err-ok, ◌≡◌, refl,
}
use luminosity.Platform.Path.{FilePath}
use luminosity.Launcher.External.{to_str, ExternalCommand, ResolutionError}
use luminosity.Launcher.Resolve.Fetch.{Bytes, Network, Fetcher}
use luminosity.Launcher.Resolve.Trust.{Crypto, Json, verifies, sha256_hex}
use luminosity.Launcher.Resolve.Cache.{
  CacheFiles, CachedBinary, cache_error, and_then, find, store, enforce_retention_cap,
}
use luminosity.Launcher.Resolve.{ResolverConfig, file_name, Asset, store_asset, reverify, resolve}
use luminosity.Launcher.Resolve.Authentic.{verify_binary-ok, Verified}
use luminosity.Launcher.Resolve.Outcomes.{Outcome, no_name, hit, refused, verified, resolve-Outcome}

module _ (crypto : Crypto) (keys : List crypto.PublicKey) (json : Json)
    (from_utf8_lossy : Bytes → Text) (config : ResolverConfig) (fetcher : Fetcher)
    (network : Network) {W : Type 0} (files : CacheFiles W) (process_id : ℕ) where
  -- A cached binary whose bytes on the disk have the checksum of its name and the signature of a
  -- trusted key in the file beside it.
  pub record CachedVerified (w : W) (c : CachedBinary) : Type 0 where
    pub bytes : Bytes
    pub signature : Text
    pub on_disk : files.read w c.path ≡ ok bytes
    pub signature_on_disk : files.read_to_string w c.signature_path ≡ ok signature
    pub checksum : sha256_hex crypto bytes ≡ c.sha256
    pub signed : verifies crypto keys bytes signature ≡ true

  reverify-CachedVerified :
      (w : W) (c : CachedBinary)
      → reverify crypto keys json from_utf8_lossy config fetcher network files process_id w c
        ≡ ok tt
      → CachedVerified w c
  unfolding reverify
  reverify-CachedVerified w c h =
      let (bytes, b, h1) = >>=-eq-ok (map_err (cache_error c.path) (files.read w c.path)) _ h in
      let (signature, s, h2) =
        >>=-eq-ok (map_err (cache_error c.signature_path) (files.read_to_string w c.signature_path))
          _ h1 in
      let (checksum, signed) =
        verify_binary-ok crypto keys json from_utf8_lossy config fetcher network (file_name c.path)
          bytes c.sha256 signature h2 in
      record {
        bytes = bytes;
        signature = signature;
        on_disk = map_err-ok _ _ b;
        signature_on_disk = map_err-ok _ _ s;
        checksum = checksum;
        signed = signed;
      }

  -- What a resolution that succeeded names.
  pub data Trusted (command : ExternalCommand) (w : W) (path : FilePath) : Type 0 where
    from_cache :
        (name : Text) (c : CachedBinary)
        → to_str command.name ≡ some name
        → find files w config.cache_root name config.expected_version ≡ some c
        → CachedVerified w c
        → path ≡ c.path
        → Trusted command w path
    from_release :
        (name : Text) (a : Asset) (c : CachedBinary) (before after : W)
        → to_str command.name ≡ some name
        → Verified crypto keys json from_utf8_lossy config fetcher network name a
        → store files process_id config.cache_root name config.expected_version a.entry.sha256
            a.bytes a.entry.signature before
          ≡ (ok c, after)
        → path ≡ c.path
        → Trusted command w path

  store_asset-Trusted :
      (command : ExternalCommand) (w start w' : W) (name : Text) (a : Asset) (path : FilePath)
      → to_str command.name ≡ some name
      → Verified crypto keys json from_utf8_lossy config fetcher network name a
      → store_asset crypto keys json from_utf8_lossy config fetcher network files process_id name
          (ok a)
          start
        ≡ (ok path, w')
      → Trusted command w path
  unfolding store_asset
  store_asset-Trusted command w start w' name a path named good h =
      go
        (store files process_id config.cache_root name config.expected_version a.entry.sha256
          a.bytes a.entry.signature start)
        refl h
    where
      go :
          (r : Result CachedBinary ResolutionError × W)
          → store files process_id config.cache_root name config.expected_version a.entry.sha256
              a.bytes a.entry.signature start
            ≡ r
          → and_then {B = FilePath} {E = ResolutionError} r (λ cached w1. (
            ok cached.path,
            enforce_retention_cap files config.cache_root name config.retained_versions w1,
          ))
            ≡ (ok path, w')
          → Trusted command w path
      go (ok c, after) e h = from_release name a c start after named good e (cc)
      go (err x, after) e h = cc

  -- A resolution that succeeded names a cached binary whose bytes on the disk verify, or the file
  -- that a fetched and fully verified binary was stored in.
  pub resolve-Trusted :
      (command : ExternalCommand) (w w' : W) (path : FilePath)
      → resolve crypto keys json from_utf8_lossy config fetcher network files process_id command w
        ≡ (ok path, w')
      → Trusted command w path
  resolve-Trusted command w w' path h =
      go _
        (resolve-Outcome crypto keys json from_utf8_lossy config fetcher network files process_id
          command w)
        h
    where
      go :
          (r : Result FilePath ResolutionError × W)
          → Outcome crypto keys json from_utf8_lossy config fetcher network files process_id command
              w r
          → r ≡ (ok path, w')
          → Trusted command w path
      go _ (no_name e) h = cc
      go _ (hit name c named there good) h =
          from_cache name c named there (reverify-CachedVerified w c good) (cc)
      go _ (refused name start e named begin bad) h = cc
      go _ (verified name start a named begin good) h =
          store_asset-Trusted command w start w' name a path named good h
