-- ===== src/Launcher/Resolve/Authentic.antt =====
-- Nothing is run or cached that was not verified.
use luminosity.Base.{
  ◌≤◌, true, Bool-cases, Text, text_eq, text_eq_iff, codes, List, ◌++◌, Option, none, some, ok,
  >>=-eq-ok, map_err, map_err-ok, ◌≡◌, inl, inr, arith, ltb,
}
use luminosity.Launcher.Resolve.Fetch.{Bytes, Network, Fetcher, get}
use luminosity.Launcher.Resolve.Trust.{
  Crypto, Manifest, Json, platform_entry, validate, parse_and_validate, verifies, sha256_hex,
  verify_binary, verify_manifest,
}
use luminosity.Launcher.Resolve.{ResolverConfig, ok_or, Asset, load_manifest, fetch_verify}

ok_or-ok {ℓ κ} :
    {A : Type ℓ} {E : Type κ} (e : E) (o : Option A) (a : A) → ok_or e o ≡ ok a → o ≡ some a
ok_or-ok e none a h = cc
ok_or-ok e (some b) a h = cc

-- A manifest that the launcher believes.
pub record IsCurrent (m : Manifest) (expected_version : Text) : Type 0 where
  pub schema : m.schema_version ≤ 1
  pub version : m.version ≡ expected_version

validate-ok :
    (expected_version : Text) (m m' : Manifest)
    → validate expected_version m ≡ ok m'
    → (m' ≡ m) × IsCurrent m expected_version
unfolding validate
validate-ok expected_version m m' h = elim (Bool-cases (ltb 1 m.schema_version)) [
  | inl new ↦ cc (rw new at h)
  | inr old ↦ elim (Bool-cases (text_eq m.version expected_version)) [
    | inr other ↦ cc (rw other at (rw old at h))
    | inl same ↦ (
      cc (rw same at (rw old at h)),
      record { schema = ground arith; version = (text_eq_iff _ _).0 same },
    )
  ]
]

module _ (crypto : Crypto) (keys : List crypto.PublicKey) (json : Json)
    (from_utf8_lossy : Bytes → Text) (config : ResolverConfig) (fetcher : Fetcher)
    (network : Network) where
  pub verify_binary-ok :
      (asset : Text) (bytes : Bytes) (expected signature : Text)
      → verify_binary crypto asset bytes expected signature keys ≡ ok tt
      → (sha256_hex crypto bytes ≡ expected) × (verifies crypto keys bytes signature ≡ true)
  unfolding verify_binary
  verify_binary-ok asset bytes expected signature h =
      elim (Bool-cases (text_eq (sha256_hex crypto bytes) expected)) [
        | inr other ↦ cc (rw other at h)
        | inl same ↦ elim (Bool-cases (verifies crypto keys bytes signature)) [
          | inr bad ↦ cc (rw bad at (rw same at h))
          | inl good ↦ ((text_eq_iff _ _).0 same, good)
        ]
      ]

  verify_manifest-ok :
      (bytes : Bytes) (signature : Text)
      → verify_manifest crypto bytes signature keys ≡ ok tt
      → verifies crypto keys bytes signature ≡ true
  unfolding verify_manifest
  verify_manifest-ok bytes signature h = elim (Bool-cases (verifies crypto keys bytes signature)) [
    | inl good ↦ good
    | inr bad ↦ cc (rw bad at h)
  ]

  -- A manifest that was fetched, signed by a trusted key, and is of the launcher's own version and
  -- of a schema that it knows.
  pub record SignedManifest (m : Manifest) : Type 0 where
    pub manifest_bytes : Bytes
    pub signature_bytes : Bytes
    pub manifest_fetched :
        get fetcher network (config.base_url ++ codes "/manifest.json") ≡ ok manifest_bytes
    pub signature_fetched :
        get fetcher network (config.base_url ++ codes "/manifest.minisig") ≡ ok signature_bytes
    pub signed : verifies crypto keys manifest_bytes (from_utf8_lossy signature_bytes) ≡ true
    pub read : json manifest_bytes ≡ ok m
    pub current : IsCurrent m config.expected_version

  -- An asset that the signed manifest lists, whose bytes have the listed checksum and the listed
  -- signature of a trusted key.
  pub record Verified (name : Text) (a : Asset) : Type 0 where
    pub manifest : Manifest
    pub signed_manifest : SignedManifest manifest
    pub listed : platform_entry manifest name config.platform ≡ some a.entry
    pub fetched :
        get fetcher network
          (config.base_url ++ (codes "/" ++ (name ++ (codes "-" ++ config.platform))))
        ≡ ok a.bytes
    pub checksum : sha256_hex crypto a.bytes ≡ a.entry.sha256
    pub signed : verifies crypto keys a.bytes a.entry.signature ≡ true

  load_manifest-SignedManifest :
      (m : Manifest)
      → load_manifest crypto keys json from_utf8_lossy config fetcher network ≡ ok m
      → SignedManifest m
  unfolding load_manifest parse_and_validate
  load_manifest-SignedManifest m h =
      let (mb, m_ok, h1) =
        >>=-eq-ok (map_err _ (get fetcher network (config.base_url ++ codes "/manifest.json"))) _
          h in
      let (sb, s_ok, h2) =
        >>=-eq-ok (map_err _ (get fetcher network (config.base_url ++ codes "/manifest.minisig"))) _
          h1 in
      let (_, good, h3) = >>=-eq-ok (verify_manifest crypto mb (from_utf8_lossy sb) keys) _ h2 in
      let (m', parsed, h4) = >>=-eq-ok (map_err _ (json mb)) _ h3 in
      let (same, current) = validate-ok config.expected_version m' m h4 in
      record {
        manifest_bytes = mb;
        signature_bytes = sb;
        manifest_fetched = map_err-ok _ _ m_ok;
        signature_fetched = map_err-ok _ _ s_ok;
        signed = verify_manifest-ok mb (from_utf8_lossy sb) good;
        read = rw same (map_err-ok _ _ parsed);
        current = rw same current;
      }

  pub fetch_verify-Verified :
      (name : Text) (a : Asset)
      → fetch_verify crypto keys json from_utf8_lossy config fetcher network name ≡ ok a
      → Verified name a
  unfolding fetch_verify
  fetch_verify-Verified name a h =
      let (m, loaded, h1) =
        >>=-eq-ok (load_manifest crypto keys json from_utf8_lossy config fetcher network) _ h in
      let (entry, listed, h2) = >>=-eq-ok (ok_or _ (platform_entry m name config.platform)) _ h1 in
      let (bytes, got, h3) =
        >>=-eq-ok
          (map_err _ (
            get fetcher network
              (config.base_url ++ (codes "/" ++ (name ++ (codes "-" ++ config.platform))))))
          _ h2 in
      let (_, good, h4) =
        >>=-eq-ok
          (verify_binary crypto (name ++ (codes "-" ++ config.platform)) bytes entry.sha256
            entry.signature keys)
          _ h3 in
      let (checksum, signed) = verify_binary-ok _ bytes entry.sha256 entry.signature good in
      let same : record { entry = entry; bytes = bytes } ≡ a = cc in
      rw (← same) (record {
        manifest = m;
        signed_manifest = load_manifest-SignedManifest m loaded;
        listed = ok_or-ok _ _ entry listed;
        fetched = map_err-ok _ _ got;
        checksum = checksum;
        signed = signed;
      })
