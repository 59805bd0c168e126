-- ===== src/Tests/Releases.antt =====
-- A release with one binary, served after a first failed attempt, and a cache in memory.
use luminosity.Base.{
  ℕ, true, Text, text_eq, codes, List, [], ◌∷◌, ◌++◌, some, ok, err, decimal, ◌==◌, if◌then◌else◌,
  ◌≡◌, refl,
}
use luminosity.Platform.Path.{FilePath, join, starts_with}
use luminosity.Launcher.External.{to_str, ExternalCommand}
use luminosity.Launcher.Resolve.Fetch.{
  Bytes, Response, Network, production, is_https, of_response, of_reply, try_get, decide, attempts,
  get,
}
use luminosity.Launcher.Resolve.Fetch.Attempts.{Fetched, get-Fetched}
use luminosity.Launcher.Resolve.Trust.{
  Crypto, PlatformEntry, Manifest, Json, lookup, platform_entry, validate, parse_and_validate, hex,
  any_verifies, verifies, sha256_hex, verify_binary, verify_manifest,
}
use luminosity.Launcher.Resolve.Cache.{
  DirEntry, CacheFiles, is_sha256_hex, stem, signature_name, as_bytes, at_path, counts,
  behind_last_dash, to_remove, Retained, find_in, find, or_remove, make_executable,
  write_then_rename, store_both, store, retained, remove_all, enforce_retention_cap,
}
use luminosity.Launcher.Resolve.Cache.Retention.{Capped, to_remove-Capped}
use luminosity.Launcher.Resolve.Cache.Stems.{counts-stem}
use luminosity.Launcher.Resolve.{
  ResolverConfig, file_name, load_manifest, fetch_verify, store_asset, fetch_verify_store,
  resolve_cached, resolve_name, resolve,
}
use luminosity.Launcher.Resolve.Outcomes.{Outcome, resolve-Outcome}
use luminosity.Launcher.Resolve.Successes.{Trusted, resolve-Trusted}
use luminosity.Tests.Disks
use luminosity.Tests.Disks.{Files, path_eq, there, removed, renamed, missing}

-- Every binary has the same digest, and a signature is good if it says so.
abbrev pub crypto : Crypto
crypto = record {
  PublicKey = Text;
  Signature = Text;
  from_base64 = λ t. ok t;
  decode = λ t. some t;
  verify = λ key bytes signature. text_eq signature (codes "good");
  digest = λ bytes.
      255 ∷ 255 ∷ 255 ∷ 255 ∷ 255 ∷ 255 ∷ 255 ∷ 255 ∷ 255 ∷ 255 ∷ 255 ∷ 255 ∷ 255 ∷ 255 ∷ 255 ∷ 255
      ∷ 255 ∷ 255 ∷ 255 ∷ 255 ∷ 255 ∷ 255 ∷ 255 ∷ 255 ∷ 255 ∷ 255 ∷ 255 ∷ 255 ∷ 255 ∷ 255 ∷ 255
      ∷ 255 ∷ [];
}

abbrev pub sha : Text
sha = codes "ffffffffffffffffffffffffffffffffffffffffffffffffffffffffffffffff"

abbrev test_entry : PlatformEntry
test_entry = record { sha256 = sha; signature = codes "good" }

abbrev pub test_manifest : Manifest
test_manifest = record {
  schema_version = 1;
  version = codes "1.0";
  binaries =
      (codes "tool", record { description = []; platforms = (codes "linux", test_entry) ∷ [] })
      ∷ [];
}

abbrev pub json : Json
json = λ bytes. if text_eq bytes (codes "manifest") then ok test_manifest else err (codes "no JSON")

abbrev pub config : ResolverConfig
config = record {
  expected_version = codes "1.0";
  platform = codes "linux";
  base_url = codes "https://r";
  cache_root = record { absolute = true; components = codes "c" ∷ [] };
  retained_versions = 3;
}

abbrev answer : ℕ → Text → Response
answer status body = record { status = status; status_text = []; body = ok body }

-- The first attempt of each URL meets a server error.
unfoldable pub served : Network
served url attempt =
    if attempt == 0
    then ok (answer 503 [])
    else (if text_eq url (codes "https://r/manifest.json")
        then ok (answer 200 (codes "manifest"))
        else (if text_eq url (codes "https://r/manifest.minisig")
            then ok (answer 200 (codes "good"))
            else (if text_eq url (codes "https://r/tool-linux")
                then ok (answer 200 (codes "ELF"))
                else ok (answer 404 []))))

unfoldable pub entries_of : Files → List DirEntry
entries_of [] = []
entries_of ((p, t) ∷ w) =
    record { file_name = some (file_name p); path = p; modified = some 0 } ∷ entries_of w

unfoldable pub cache_files : CacheFiles Files
cache_files = record {
  read = Disks.lookup;
  read_to_string = Disks.lookup;
  read_dir = λ w p. some (entries_of w);
  exists = there;
  create_dir_all = λ w p. (ok tt, w);
  write = λ w p t. (ok tt, (p, t) ∷ w);
  set_executable = λ w p. (ok tt, w);
  rename = λ w from target. renamed w from target (Disks.lookup w from);
  remove_file = λ w p. (ok tt, removed w p);
}

abbrev pub tool : ExternalCommand
tool = record { name = record { lossy = codes "tool"; is_unicode = true }; args = [] }

abbrev pub keys : List Text
keys = codes "key" ∷ []

abbrev pub identity : Bytes → Text
identity bytes = bytes

abbrev pub cached_path : FilePath
cached_path = join config.cache_root (codes "tool-1.0-" ++ sha)

abbrev pub stored_files : Files
stored_files =
    (join config.cache_root (codes "tool-1.0-" ++ (sha ++ codes ".minisig")), codes "good")
    ∷ (cached_path, codes "ELF")
    ∷ []

resolve-tool :
    resolve crypto keys json identity config production served cache_files 7 tool []
    ≡ (ok cached_path, stored_files)
unfolding resolve resolve_name resolve_cached find find_in fetch_verify_store fetch_verify
    load_manifest get is_https attempts decide try_get of_reply of_response served verify_manifest
    verifies any_verifies parse_and_validate validate lookup platform_entry verify_binary sha256_hex
    hex store_asset store store_both write_then_rename make_executable or_remove at_path stem
    signature_name as_bytes enforce_retention_cap retained counts behind_last_dash is_sha256_hex
    to_remove remove_all cache_files entries_of file_name renamed removed Disks.lookup path_eq
    Disks.names_eq Disks.bool_eq there starts_with join to_str text_eq decimal
resolve-tool = refl

resolve-Trusted_example :
    Trusted crypto keys json identity config production served cache_files 7 tool [] cached_path
resolve-Trusted_example =
    resolve-Trusted crypto keys json identity config production served cache_files 7 tool []
      stored_files cached_path resolve-tool

resolve-Outcome_example :
    Outcome crypto keys json identity config production served cache_files 7 tool stored_files
      (resolve crypto keys json identity config production served cache_files 7 tool stored_files)
resolve-Outcome_example =
    resolve-Outcome crypto keys json identity config production served cache_files 7 tool
      stored_files

get-Fetched_example :
    Fetched production served
      (codes "https://r/tool-linux")
      (get production served (codes "https://r/tool-linux"))
get-Fetched_example = get-Fetched production served (codes "https://r/tool-linux")

abbrev aged : ℕ → Retained
aged time = record { modified = time; binary = cached_path; signature = cached_path }

to_remove-Capped_example :
    Capped 1 (aged 3 ∷ aged 1 ∷ aged 2 ∷ []) (to_remove 1 (aged 3 ∷ aged 1 ∷ aged 2 ∷ []))
to_remove-Capped_example = to_remove-Capped 1 (aged 3 ∷ aged 1 ∷ aged 2 ∷ [])

sha-is_sha256_hex : is_sha256_hex sha ≡ true
unfolding is_sha256_hex
sha-is_sha256_hex = refl

-- A binary of `tool-extra` counts as one of `tool`.
counts-stem_example :
    (counts (codes "tool" ++ codes "-") (stem (codes "tool") (codes "1.0") sha) ≡ true)
    × (counts
          (codes "tool" ++ codes "-")
          (stem (codes "tool" ++ (codes "-" ++ codes "extra")) (codes "1.0") sha)
        ≡ true)
counts-stem_example = counts-stem (codes "tool") (codes "extra") (codes "1.0") sha sha-is_sha256_hex
