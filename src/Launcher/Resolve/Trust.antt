-- ===== src/Launcher/Resolve/Trust.antt =====
-- cli/launcher/src/launch/outbound/resolve/keys.rs, verifier.rs and manifest.rs: what is believed.
-- The digest, the signature scheme and the JSON parser are parameters.
use luminosity.Base.{
  ℕ, ◌+◌, ◌-◌, ◌/◌, ◌%◌, Bool, true, false, not, ◌||◌, Text, text_eq, codes, List, [], ◌∷◌, ◌++◌,
  Option, none, some, is_empty, split_inclusive, strip_end, strip_prefix, trim, trim_start,
  ends_with, Result, ok, err, ◌>>=◌, map_err, ltb, if◌then◌else◌,
}
use luminosity.Platform.Path.{FilePath}
use luminosity.Launcher.External.{
  ResolutionError, checksum_mismatch, signature_mismatch, manifest_signature,
  manifest_version_mismatch, unsupported_schema, cache, cache_root_unavailable,
}
use luminosity.Launcher.Resolve.Fetch.{Bytes}

-- `minisign_verify` and `sha2`
pub record Crypto : Type 1 where
  pub PublicKey : Type 0
  pub Signature : Type 0
  pub from_base64 : Text → Result PublicKey Text
  pub decode : Text → Option Signature
  -- `key.verify(data, &signature, false).is_ok()`
  pub verify : PublicKey → Bytes → Signature → Bool
  pub digest : Bytes → Bytes

pub record PlatformEntry : Type 0 where
  pub sha256 : Text
  pub signature : Text

pub record BinaryEntry : Type 0 where
  pub description : Text
  pub platforms : List (Text × PlatformEntry)

-- A `BTreeMap` is the list of its entries.
pub record Manifest : Type 0 where
  pub schema_version : ℕ
  pub version : Text
  pub binaries : List (Text × BinaryEntry)

abbrev pub Json : Type 0
Json = Bytes → Result Manifest Text

unfoldable pub lookup {ℓ} : {A : Type ℓ} → Text → List (Text × A) → Option A
lookup name [] = none
lookup name ((existing, a) ∷ rest) =
    let found = lookup name rest in if text_eq existing name then some a else found

-- `self.binaries.get(binary)?.platforms.get(platform)`
unfoldable pub platform_entry : Manifest → Text → Text → Option PlatformEntry
platform_entry manifest binary platform = elim (lookup binary manifest.binaries) [
  | none ↦ none
  | some entry ↦ lookup platform entry.platforms
]

abbrev pub supported_schema_version : ℕ
supported_schema_version = 1

-- The two guards on a manifest that parsed.
unfoldable pub validate : Text → Manifest → Result Manifest ResolutionError
validate expected_version manifest =
    if ltb supported_schema_version manifest.schema_version
    then err (unsupported_schema manifest.schema_version supported_schema_version)
    else (if not (text_eq manifest.version expected_version)
        then err (manifest_version_mismatch expected_version manifest.version)
        else ok manifest)

abbrev manifest_path : FilePath
manifest_path = record { absolute = false; components = codes "manifest.json" ∷ [] }

unfoldable pub parse_and_validate : Json → Bytes → Text → Result Manifest ResolutionError
parse_and_validate json bytes expected_version = do
  manifest ←
      map_err (λ detail. cache manifest_path (codes "manifest is not valid JSON: " ++ detail))
        (json bytes)
  validate expected_version manifest

abbrev hex_digit : ℕ → ℕ
hex_digit d = if ltb d 10 then b'0' + d else b'a' + (d - 10)

-- `{byte:02x}` for each byte
unfoldable pub hex : Bytes → Text
hex [] = []
hex (byte ∷ rest) = hex_digit (byte / 16) ∷ hex_digit (byte % 16) ∷ hex rest

-- A line without its terminator: `\n`, or `\r\n`.
abbrev line_of : Text → Text
line_of segment =
    if ends_with b'\n' segment then strip_end b'\r' (strip_end b'\n' segment) else segment

-- `!line.trim_start().starts_with("untrusted comment")`
abbrev is_key_line : Text → Bool
is_key_line line = elim (strip_prefix (codes "untrusted comment") (trim_start line)) [
  | some _ ↦ false
  | none ↦ true
]

-- `.lines().find(…).map(str::trim)`
unfoldable pub find_key_line : List Text → Option Text
find_key_line [] = none
find_key_line (segment ∷ rest) =
    let later = find_key_line rest in
    if is_key_line (line_of segment) then some (trim (line_of segment)) else later

no_key_line : ResolutionError
no_key_line = cache_root_unavailable (codes "trusted public key has no key line")

-- `.filter(|line| !line.is_empty()).ok_or_else(…)`
unfoldable pub nonempty_line : Option Text → Result Text ResolutionError
unfolding no_key_line
nonempty_line none = err no_key_line
nonempty_line (some line) = if is_empty line then err no_key_line else ok line

module _ (crypto : Crypto) where
  open crypto use {PublicKey, Signature, from_base64, decode, verify, digest}

  unfoldable pub key_of_file : Text → Result PublicKey ResolutionError
  key_of_file content = do
    base64 ← nonempty_line (find_key_line (split_inclusive b'\n' content))
    map_err (λ detail. cache_root_unavailable (codes "invalid trusted public key: " ++ detail))
        (from_base64 base64)

  -- `TrustedKeys` is the list of its keys.
  unfoldable pub from_public_key_files : List Text → Result (List PublicKey) ResolutionError
  from_public_key_files [] = ok []
  from_public_key_files (content ∷ rest) = do
    key ← key_of_file content
    keys ← from_public_key_files rest
    ok (key ∷ keys)

  -- `TrustedKeys::embedded`, on the key that the build put in
  unfoldable pub embedded : Text → Result (List PublicKey) ResolutionError
  embedded release_key = from_public_key_files (release_key ∷ [])

  unfoldable pub any_verifies : List PublicKey → Bytes → Signature → Bool
  any_verifies [] data_bytes parsed = false
  any_verifies (key ∷ keys) data_bytes parsed =
      verify key data_bytes parsed || any_verifies keys data_bytes parsed

  unfoldable pub verifies : List PublicKey → Bytes → Text → Bool
  verifies keys data_bytes signature = elim (decode signature) [
    | none ↦ false
    | some parsed ↦ any_verifies keys data_bytes parsed
  ]

  unfoldable pub sha256_hex : Bytes → Text
  sha256_hex bytes = hex (digest bytes)

  unfoldable pub verify_binary :
      Text → Bytes → Text → Text → List PublicKey → Result (Unit {0}) ResolutionError
  verify_binary asset bytes expected signature keys =
      if not (text_eq (sha256_hex bytes) expected)
      then err (checksum_mismatch asset expected (sha256_hex bytes))
      else (if not (verifies keys bytes signature) then err (signature_mismatch asset) else ok tt)

  unfoldable pub verify_manifest : Bytes → Text → List PublicKey → Result (Unit {0}) ResolutionError
  verify_manifest bytes signature keys =
      if verifies keys bytes signature then ok tt else err manifest_signature
