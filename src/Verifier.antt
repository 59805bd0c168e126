-- ===== src/Verifier.antt =====
-- cli/verify/src/main.rs: `luminosity-verify`, with which the bootstrap verifies the launcher. The
-- files and the signature library are parameters.
pub mod Agreement
use luminosity.Base.{
  Text, codes, List, [], ◌∷◌, ◌++◌, Option, none, some, is_empty, split_inclusive, Result, ok, err,
  ◌>>=◌, map_err, if◌then◌else◌,
}
use luminosity.Launcher.External.{OsText}
use luminosity.Launcher.Support.{Printed}
use luminosity.Launcher.Resolve.Fetch.{Bytes}
use luminosity.Launcher.Resolve.Trust.{find_key_line}

-- `minisign_verify`, with the texts of its errors
pub record Minisign : Type 1 where
  pub PublicKey : Type 0
  pub Signature : Type 0
  pub from_base64 : Text → Result PublicKey Text
  pub decode : Text → Result Signature Text
  pub verify : PublicKey → Bytes → Signature → Result (Unit {0}) Text

-- What `std::fs` reads, or the text of its error
pub record Inputs : Type 0 where
  pub read_to_string : OsText → Result Text Text
  pub read : OsText → Result Bytes Text

pub data ExitCode : Type 0 where
  success failure : ExitCode

unfoldable pub display : OsText → Text
display path = path.lossy

unfoldable pub usage : Text
usage = codes "usage: luminosity-verify <pubkey> <signature> <target>"

unfoldable pub cannot_read : OsText → Text → Text
cannot_read path error = codes "cannot read " ++ (display path ++ (codes ": " ++ error))

-- `.filter(|line| !line.is_empty()).ok_or_else(…)`
unfoldable pub key_line : Option Text → Result Text Text
key_line none = err (codes "public key file has no key line")
key_line (some line) =
    if is_empty line then err (codes "public key file has no key line") else ok line

module _ (minisign : Minisign) where
  unfoldable pub parse_public_key : Text → Result minisign.PublicKey Text
  parse_public_key text = do
    base64 ← key_line (find_key_line (split_inclusive b'\n' text))
    map_err (λ error. codes "invalid public key: " ++ error) (minisign.from_base64 base64)

  module _ (inputs : Inputs) where
    unfoldable pub read : OsText → Result Text Text
    read path = map_err (cannot_read path) (inputs.read_to_string path)

    -- `run` on its three arguments
    unfoldable pub check : OsText → OsText → OsText → Result (Unit {0}) Text
    check public_key_file signature_file target_file = do
      public_key_text ← read public_key_file
      public_key ← parse_public_key public_key_text
      signature_text ← read signature_file
      signature ←
          map_err (λ error. codes "invalid signature: " ++ error) (minisign.decode signature_text)
      target ← map_err (cannot_read target_file) (inputs.read target_file)
      map_err (λ error. codes "signature verification failed: " ++ error)
          (minisign.verify public_key target signature)

    unfoldable pub run : List OsText → Result (Unit {0}) Text
    run (public_key_file ∷ signature_file ∷ target_file ∷ []) =
        check public_key_file signature_file target_file
    run _ = err usage

    -- What `main` prints and how it exits
    unfoldable pub report : Result (Unit {0}) Text → Printed × ExitCode
    report (ok _) = (record { stdout = []; stderr = [] }, success)
    report (err message) =
        (record { stdout = []; stderr = (codes "luminosity-verify: " ++ message) ∷ [] }, failure)

    -- `main` on the arguments behind the program's name
    unfoldable pub main : List OsText → Printed × ExitCode
    main args = report (run args)
