-- ===== src/Tests/Verifications.antt =====
-- The verifying tool on three files.
use luminosity.Base.{true, Text, text_eq, codes, List, [], ◌∷◌, ok, err, if◌then◌else◌, ◌≡◌, ◌↔◌}
use luminosity.Launcher.External.{OsText}
use luminosity.Launcher.Resolve.Fetch.{Bytes}
use luminosity.Verifier.{Minisign, Inputs, run}
use luminosity.Verifier.Agreement.{IsTrusted, run-IsTrusted_iff}

-- A signature is good if it says so.
abbrev minisign : Minisign
minisign = record {
  PublicKey = Text;
  Signature = Text;
  from_base64 = λ t. ok t;
  decode = λ t. ok t;
  verify =
      λ key bytes signature. if text_eq signature (codes "good") then ok tt else err (codes "bad");
}

-- Every file holds its own name.
abbrev inputs : Inputs
inputs = record { read_to_string = λ path. ok path.lossy; read = λ path. ok path.lossy }

abbrev named : Text → OsText
named name = record { lossy = name; is_unicode = true }

abbrev args : List OsText
args = named (codes "key") ∷ named (codes "good") ∷ named (codes "target") ∷ []

run-IsTrusted_iff_example :
    (run minisign inputs args ≡ ok tt) ↔ IsTrusted minisign (λ (bytes : Bytes). bytes) inputs args
run-IsTrusted_iff_example = run-IsTrusted_iff minisign (λ (bytes : Bytes). bytes) inputs args
