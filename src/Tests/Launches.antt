-- ===== src/Tests/Launches.antt =====
-- The whole launcher, over the release and the cache of the tests.
use luminosity.Base.{
  true, false, Text, text_eq, codes, List, [], ◌∷◌, none, some, ok, err, decimal, if◌then◌else◌,
  ◌≡◌, ◌⊎◌, ◌↔◌, refl, split, is_whitespace,
}
use luminosity.Platform.Path.{FilePath, join, starts_with}
use luminosity.Adapters.Store.Operations.{Disk}
use luminosity.Launcher.Cli.{external, context}
use luminosity.Launcher.External.{OsText, to_str, from_raw}
use luminosity.Launcher.Dispatch.{launch, unix_exec, dispatch, dispatch_external}
use luminosity.Launcher.Help.{external_subcommands_section, width_of}
use luminosity.Launcher.Help.Table.{IsTable, section-IsTable}
use luminosity.Launcher.Resolve.{
  production_config, file_name, load_manifest, fetch_verify, store_asset, fetch_verify_store,
  resolve_cached, resolve_name, resolve,
}
use luminosity.Launcher.Resolve.Fetch.{
  is_https, of_response, of_reply, try_get, decide, attempts, get,
}
use luminosity.Launcher.Resolve.Trust.{
  lookup, platform_entry, validate, parse_and_validate, hex, any_verifies, verifies, sha256_hex,
  verify_binary, verify_manifest, embedded, from_public_key_files, key_of_file, nonempty_line,
  find_key_line,
}
use luminosity.Launcher.Resolve.Cache.{
  is_sha256_hex, stem, signature_name, as_bytes, at_path, counts, behind_last_dash, to_remove,
  find_in, find, or_remove, make_executable, write_then_rename, store_both, store, retained,
  remove_all, enforce_retention_cap,
}
use luminosity.Launcher.Resolve.CacheRoot
use luminosity.Launcher.Resolve.CacheRoot.{
  CacheRootConfig, Environment, nonempty, to_path, from_env, probe_path, run_probe, probe_written,
  probe_created, probe_writable_and_executable, resolve_override,
}
use luminosity.Launcher.Resolve.CacheRoot.Candidates.{
  candidates, first_usable, resolve-first_usable,
}
use luminosity.Launcher.Main.{
  exited, success, taken_over, main, installed, install_crypto_provider, parsed, ended, run,
  services, services_by, services_with,
}
use luminosity.Launcher.System.{System}
use luminosity.Launcher.Resolvers.{
  production_resolver, resolve_at, resolve_with, trusted_keys, new_fetcher, config_at,
  release_base_url,
}
use luminosity.Launcher.Main.Trusting.{main-ComesTrusted}
use luminosity.Launcher.Resolvers.Trusting.{ComesTrusted}
use luminosity.Launcher.Main.Degrading.{of_context, main-IsFailSafe}
use luminosity.Tests.Disks
use luminosity.Tests.Disks.{Files, disk, yaml, path_eq, there, removed, renamed}
use luminosity.Tests.Releases.{
  crypto, json, identity, served, cache_files, entries_of, tool, cached_path, test_manifest,
}

abbrev named : Text → OsText
named name = record { lossy = name; is_unicode = true }

-- The cache is overridden to `/c`, and the release is at `https://r`.
unfoldable environment : Environment
environment name =
    if text_eq name (codes "LUMINOSITY_CACHE_DIR")
    then some (named (codes "c"))
    else (if text_eq name (codes "LUMINOSITY_RELEASE_BASE_URL")
        then some (named (codes "https://r"))
        else none)

abbrev launcher : System Files
launcher = record {
  fs = disk;
  cache_files = cache_files;
  status = λ w p. some true;
  current_dir = λ w. err (codes "gone");
  env = environment;
  path_of = λ text. record { absolute = true; components = text.lossy ∷ [] };
  process_id = 7;
  system_exec = λ program args. none;
  network = served;
  client = ok tt;
  try_parse = λ args. ok (record { command = external args });
  help = λ section. [];
  build = record {
    cargo_pkg_version = codes "1.0";
    vergen_git_sha = none;
    vergen_build_timestamp = none;
    vergen_cargo_target_triple = none;
  };
  host_platform = codes "linux";
  is_macos = false;
  release_key = codes "key";
  crypto = crypto;
  json = json;
  from_utf8_lossy = identity;
  yaml = yaml;
  float_text = λ bits. [];
}

abbrev empty_disk : Disk Files
empty_disk = record { files = []; write_counter = 0 }

main-tool : (main launcher (tool.name ∷ []) empty_disk).1 ≡ taken_over cached_path []
unfolding main installed install_crypto_provider parsed ended run services services_by services_with
    dispatch dispatch_external from_raw launch unix_exec production_resolver resolve_at resolve_with
    trusted_keys new_fetcher config_at release_base_url production_config embedded
    from_public_key_files key_of_file nonempty_line find_key_line environment nonempty to_path
    from_env CacheRoot.resolve probe_path run_probe probe_written probe_created
    probe_writable_and_executable resolve_override resolve resolve_name resolve_cached find find_in
    fetch_verify_store fetch_verify load_manifest get is_https attempts decide try_get of_reply
    of_response served verify_manifest verifies any_verifies parse_and_validate validate lookup
    platform_entry verify_binary sha256_hex hex store_asset store store_both write_then_rename
    make_executable or_remove at_path stem signature_name as_bytes enforce_retention_cap retained
    counts behind_last_dash is_sha256_hex to_remove remove_all cache_files entries_of file_name
    renamed removed Disks.lookup path_eq Disks.names_eq Disks.bool_eq there starts_with join to_str
    text_eq decimal is_whitespace
main-tool = refl

no_fixture : nonempty (environment (codes "LUMINOSITY_RESOLVE_FIXTURE")) ≡ none
unfolding nonempty environment text_eq
no_fixture = refl

main-ComesTrusted_example :
    (name : OsText) × (launcher.try_parse (tool.name ∷ [])
      ≡ ok (record { command = external (name ∷ []) }))
    × ComesTrusted launcher (record { name = name; args = [] }) empty_disk cached_path
main-ComesTrusted_example =
    main-ComesTrusted launcher (tool.name ∷ []) empty_disk cached_path [] no_fixture main-tool

-- `context --skill plan --fail-safe` in a directory that is gone.
abbrev degrading : System Files
degrading = record launcher {
  try_parse = λ args. ok (record { command = context (some (codes "plan")) false true });
}

main-IsFailSafe_example :
    ((main degrading [] empty_disk).1 ≡ exited success)
    × ((main degrading [] empty_disk).2 ≡ empty_disk)
main-IsFailSafe_example =
    main-IsFailSafe degrading [] (record { command = context (some (codes "plan")) false true })
      empty_disk refl (of_context (some (codes "plan")) false)

abbrev only_home : CacheRootConfig
only_home = record {
  cache_dir_override = none;
  plugin_root = some cached_path;
  xdg_cache_home = none;
  home = some cached_path;
}

resolve-first_usable_example :
    ((CacheRoot.resolve cache_files (λ w p. some false) 7 true only_home []).1
      ≡ (first_usable cache_files (λ w p. some false) 7 true (candidates true only_home) []).1)
    × ((dir : FilePath)
        → ((CacheRoot.resolve cache_files (λ w p. some false) 7 true only_home []).0 ≡ ok dir) ↔ (
            (first_usable cache_files (λ w p. some false) 7 true (candidates true only_home) []).0
            ≡ some dir))
resolve-first_usable_example =
    resolve-first_usable cache_files (λ w p. some false) 7 true only_home []

section-IsTable_example :
    ((test_manifest.binaries ≡ []) × (external_subcommands_section test_manifest ≡ none))
    ⊎ ((text : Text) × (lines : List Text) × (external_subcommands_section test_manifest
          ≡ some text)
        × (split b'\n' text ≡ codes "External subcommands:" ∷ lines)
        × IsTable (width_of test_manifest.binaries) test_manifest.binaries lines)
section-IsTable_example = section-IsTable test_manifest
