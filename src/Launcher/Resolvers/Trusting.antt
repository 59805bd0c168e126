-- ===== src/Launcher/Resolvers/Trusting.antt =====
-- The lazy resolver gives nothing that is not trusted.
use luminosity.Base.{List, Result, ok, err, >>=-eq-ok, map_err, ◌≡◌, ◌≢◌, refl, ap, ◌∙◌}
use luminosity.Platform.Path.{FilePath}
use luminosity.Adapters.Store.Operations.{Disk}
use luminosity.Launcher.External.{ExternalCommand, ResolutionError, cache_root_unavailable}
use luminosity.Launcher.Resolve
use luminosity.Launcher.Resolve.Fetch.{production}
use luminosity.Launcher.Resolve.Trust.{embedded}
use luminosity.Launcher.Resolve.CacheRoot
use luminosity.Launcher.Resolve.CacheRoot.{nonempty, from_env}
use luminosity.Launcher.Resolve.Successes.{Trusted, resolve-Trusted}
use luminosity.Launcher.System.{System}
use luminosity.Launcher.Resolvers.{
  config_at, new_fetcher, trusted_keys, resolve_with, resolve_at, production_resolver,
}

module _ {W : Type 0} (system : System W) where
  open system use {
    cache_files, status, env, path_of, process_id, network, is_macos, release_key, crypto, json,
    from_utf8_lossy, try_parse,
  }

  -- Where a program comes from: the cache directory that was chosen, the keys that the build put
  -- in, and a resolution under these keys that is trusted.
  pub record ComesTrusted (command : ExternalCommand) (disk : Disk W) (program : FilePath)
      : Type 0 where
    pub cache : FilePath
    pub w : W
    pub chosen :
        CacheRoot.resolve cache_files status process_id is_macos (from_env path_of env) disk.files
        ≡ (ok cache, w)
    pub keys : List crypto.PublicKey
    pub built_in : embedded crypto release_key ≡ ok keys
    pub trusted :
        Trusted crypto keys json from_utf8_lossy
          (config_at system cache)
          production
          network
          cache_files
          process_id
          command
          w
          program

  err-ne-ok :
      (e : ResolutionError) (program : FilePath)
      → ◌≢◌ {A = Result FilePath ResolutionError} (err e) (ok program)
  err-ne-ok e program h = cc

  resolve_with-err :
      (cache : FilePath) (command : ExternalCommand) (e : ResolutionError) (disk : Disk W)
      (program : FilePath)
      → (resolve_with system cache command (err e) disk).0 ≢ ok program
  unfolding resolve_with
  resolve_with-err cache command e disk program h = err-ne-ok e program h

  resolve_with-Trusted :
      (cache : FilePath) (command : ExternalCommand) (keys : List crypto.PublicKey) (disk : Disk W)
      (program : FilePath)
      → (resolve_with system cache command (ok keys) disk).0 ≡ ok program
      → Trusted crypto keys json from_utf8_lossy
          (config_at system cache)
          production
          network
          cache_files
          process_id
          command
          disk.files
          program
  unfolding resolve_with
  resolve_with-Trusted cache command keys disk program h =
      let r =
        Resolve.resolve crypto keys json from_utf8_lossy (config_at system cache) production network
          cache_files process_id command disk.files in
      resolve-Trusted crypto keys json from_utf8_lossy (config_at system cache) production network
        cache_files process_id command disk.files r.1 program
        (ap (λ (found : Result FilePath ResolutionError). (found, r.1)) h)

  trusted_keys-embedded :
      (keys : List crypto.PublicKey)
      → trusted_keys system ≡ ok keys
      → embedded crypto release_key ≡ ok keys
  unfolding trusted_keys
  trusted_keys-embedded keys h =
      let (found, built_in, later) = >>=-eq-ok (embedded crypto release_key) _ h in
      let (_, _, last) = >>=-eq-ok (map_err cache_root_unavailable (new_fetcher system)) _ later in
      built_in ∙ last

  resolve_at-ComesTrusted :
      (command : ExternalCommand) (disk : Disk W) (program : FilePath)
      (r : Result FilePath ResolutionError) (w : W)
      → CacheRoot.resolve cache_files status process_id is_macos (from_env path_of env) disk.files
        ≡ (r, w)
      → (resolve_at system command r (record disk { files = w })).0 ≡ ok program
      → ComesTrusted command disk program
  unfolding resolve_at
  resolve_at-ComesTrusted command disk program (err e) w same h = absurd (err-ne-ok e program h)
  resolve_at-ComesTrusted command disk program (ok cache) w same h = go (trusted_keys system) refl h
    where
      go :
          (r : Result (List crypto.PublicKey) ResolutionError)
          → trusted_keys system ≡ r
          → (resolve_with system cache command r (record disk { files = w })).0 ≡ ok program
          → ComesTrusted command disk program
      go (err e) named h =
          absurd (resolve_with-err cache command e (record disk { files = w }) program h)
      go (ok keys) named h = record {
        cache = cache;
        w = w;
        chosen = same;
        keys = keys;
        built_in = trusted_keys-embedded keys named;
        trusted = resolve_with-Trusted cache command keys (record disk { files = w }) program h;
      }

  pub production_resolver-ComesTrusted :
      (command : ExternalCommand) (disk : Disk W) (program : FilePath)
      → (production_resolver system command disk).0 ≡ ok program
      → ComesTrusted command disk program
  unfolding production_resolver
  production_resolver-ComesTrusted command disk program h =
      let r =
        CacheRoot.resolve cache_files status process_id is_macos (from_env path_of env)
          disk.files in
      resolve_at-ComesTrusted command disk program r.0 r.1 refl h
