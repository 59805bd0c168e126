-- ===== src/Verifier/Agreement.antt =====
-- The tool and the launcher trust the same.
use luminosity.Base.{
  true, Text, codes, List, [], ◌∷◌, Option, none, some, is_empty, is_ok, split_inclusive, Result,
  ok, err, Result-cases, Option-cases, Bool-cases, >>=-eq-ok, map_err-ok, ok-injective, ◌++◌,
  map_err, ◌≡◌, ◌↔◌, inl, inr, refl, arith,
}
use luminosity.Launcher.External.{OsText}
use luminosity.Launcher.Resolve.Fetch.{Bytes}
use luminosity.Launcher.Resolve.Trust.{
  Crypto, find_key_line, nonempty_line, key_of_file, from_public_key_files, any_verifies, verifies,
}
use luminosity.Verifier.{
  Minisign, Inputs, key_line, parse_public_key, read, cannot_read, check, run,
}

-- `.ok()`
abbrev pub ok_part {ℓ κ} : {A : Type ℓ} {E : Type κ} → Result A E → Option A
ok_part (ok a) = some a
ok_part (err _) = none

-- The library as the launcher uses it, with a digest.
abbrev pub as_crypto : Minisign → (Bytes → Bytes) → Crypto
as_crypto minisign digest = record {
  PublicKey = minisign.PublicKey;
  Signature = minisign.Signature;
  from_base64 = minisign.from_base64;
  decode = λ text. ok_part (minisign.decode text);
  verify = λ key bytes signature. is_ok (minisign.verify key bytes signature);
  digest = digest;
}

module _ (minisign : Minisign) (digest : Bytes → Bytes) (inputs : Inputs) where
  -- The arguments are a key file, a signature file and a target that can all be read, and the
  -- launcher, with the key of the first as its only trusted one, takes the signature for the target.
  pub record IsTrusted (args : List OsText) : Type 0 where
    pub key_file : OsText
    pub signature_file : OsText
    pub target_file : OsText
    pub three : args ≡ key_file ∷ signature_file ∷ target_file ∷ []
    pub key_text : Text
    pub key_read : inputs.read_to_string key_file ≡ ok key_text
    pub signature : Text
    pub signature_read : inputs.read_to_string signature_file ≡ ok signature
    pub target : Bytes
    pub target_read : inputs.read target_file ≡ ok target
    pub keys : List minisign.PublicKey
    pub trusted : from_public_key_files (as_crypto minisign digest) (key_text ∷ []) ≡ ok keys
    pub verified : verifies (as_crypto minisign digest) keys target signature ≡ true

  -- Both read the same key from a file.
  parse_public_key-key_of_file :
      (text : Text) (key : minisign.PublicKey)
      → (parse_public_key minisign text ≡ ok key)
        ↔ (key_of_file (as_crypto minisign digest) text ≡ ok key)
  unfolding parse_public_key key_of_file key_line nonempty_line
  parse_public_key-key_of_file text key =
      elim (Option-cases (find_key_line (split_inclusive b'\n' text))) [
        | inl missing ↦ rw missing (ground arith)
        | inr (line, there) ↦ elim (Bool-cases (is_empty line)) [
          | inl blank ↦ ground (arith, there, blank)
          | inr full ↦ elim (Result-cases (minisign.from_base64 line)) [
            | inl (k, good) ↦ ground (arith, there, full, good)
            | inr (e, bad) ↦ ground (arith, there, full, bad)
          ]
        ]
      ]

  -- One trusted key verifies what it verifies.
  verifies-one :
      (key : minisign.PublicKey) (target : Bytes) (text : Text)
      → (verifies (as_crypto minisign digest) (key ∷ []) target text ≡ true) ↔ (
          (signature : minisign.Signature) × (minisign.decode text ≡ ok signature)
          × (minisign.verify key target signature ≡ ok tt))
  unfolding verifies any_verifies
  verifies-one key target text = (there, λ (signature, good, valid). ground (arith, good, valid))
    where
      there :
          verifies (as_crypto minisign digest) (key ∷ []) target text ≡ true
          → (signature : minisign.Signature) × (minisign.decode text ≡ ok signature)
            × (minisign.verify key target signature ≡ ok tt)
      there h = elim (Result-cases (minisign.decode text)) [
        | inr (e, bad) ↦ ground (arith, bad, h)
        | inl (signature, good) ↦ elim (Result-cases (minisign.verify key target signature)) [
          | inl (_, valid) ↦ (signature, good, valid)
          | inr (e, bad) ↦ ground (arith, good, bad, h)
        ]
      ]

  check-IsTrusted :
      (k s t : OsText) → check minisign inputs k s t ≡ ok tt → IsTrusted (k ∷ s ∷ t ∷ [])
  unfolding check read from_public_key_files
  check-IsTrusted k s t h =
      let (key_text, key_read, h1) = >>=-eq-ok (read minisign inputs k) _ h in
      let (key, parsed, h2) = >>=-eq-ok (parse_public_key minisign key_text) _ h1 in
      let (signature, signature_read, h3) = >>=-eq-ok (read minisign inputs s) _ h2 in
      let (decoded, decoding, h4) =
        >>=-eq-ok
          (map_err (λ error. codes "invalid signature: " ++ error) (minisign.decode signature)) _
          h3 in
      let (target, target_read, h5) = >>=-eq-ok (map_err (cannot_read t) (inputs.read t)) _ h4 in
      record {
        key_file = k;
        signature_file = s;
        target_file = t;
        three = refl;
        key_text = key_text;
        key_read = map_err-ok _ (inputs.read_to_string k) key_read;
        signature = signature;
        signature_read = map_err-ok _ (inputs.read_to_string s) signature_read;
        target = target;
        target_read = map_err-ok _ (inputs.read t) target_read;
        keys = key ∷ [];
        trusted = rw ((parse_public_key-key_of_file key_text key).0 parsed) refl;
        verified = (verifies-one key target signature).1 (
          decoded,
          map_err-ok _ (minisign.decode signature) decoding,
          map_err-ok _ (minisign.verify key target decoded) h5,
        );
      }

  run-of-IsTrusted : (args : List OsText) → IsTrusted args → run minisign inputs args ≡ ok tt
  unfolding run check read from_public_key_files
  run-of-IsTrusted args g =
      let (key, parsed, h) =
        >>=-eq-ok (key_of_file (as_crypto minisign digest) g.key_text) _ g.trusted in
      let one : key ∷ [] ≡ g.keys = ok-injective h in
      let (signature, decoding, verified) =
        (verifies-one key g.target g.signature).0 (rw one g.verified) in
      rw
        (
          g.three,
          g.key_read,
          (parse_public_key-key_of_file g.key_text key).1 parsed,
          g.signature_read,
          decoding,
          g.target_read,
          verified,
        )
        refl

  -- The tool accepts exactly when it is given the files of a key, of a signature and of a target, all of them can be read, and the launcher with this key alone would take the
  -- signature for the target.
  pub run-IsTrusted_iff : (args : List OsText) → (run minisign inputs args ≡ ok tt) ↔ IsTrusted args
  unfolding run
  run-IsTrusted_iff args = (accepted args, run-of-IsTrusted args)
    where
      accepted : (args : List OsText) → run minisign inputs args ≡ ok tt → IsTrusted args
      accepted (k ∷ s ∷ t ∷ []) h = check-IsTrusted k s t h
      accepted [] h = cc
      accepted (k ∷ []) h = cc
      accepted (k ∷ s ∷ []) h = cc
      accepted (k ∷ s ∷ t ∷ u ∷ rest) h = cc
