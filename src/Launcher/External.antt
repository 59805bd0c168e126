-- ===== src/Launcher/External.antt =====
-- cli/launcher/src/launch/core.rs: external subcommands, and what can go wrong on the way to one.
use luminosity.Base.{
  ℕ, Bool, Text, codes, decimal, List, [], ◌∷◌, ◌++◌, Option, none, some, Result, ok, err,
  if◌then◌else◌,
}
use luminosity.Config.Error.{KernelError, failed}
use luminosity.Platform.Path
use luminosity.Platform.Path.{FilePath}

-- `OsString`: what `to_string_lossy` gives, and whether that lost nothing.
pub record OsText : Type 0 where
  pub lossy : Text
  pub is_unicode : Bool

unfoldable pub to_str : OsText → Option Text
to_str text = if text.is_unicode then some text.lossy else none

pub record ExternalCommand : Type 0 where
  pub name : OsText
  pub args : List OsText

-- The `source` of `exec` is the text of the system's error.
pub data ResolutionError : Type 0 where
  empty_command : ResolutionError
  unresolved : OsText → ResolutionError
  fetch : Text → Text → ResolutionError
  asset_not_found : Text → Text → ResolutionError
  release_unavailable : Text → Text → ResolutionError
  checksum_mismatch : Text → Text → Text → ResolutionError
  signature_mismatch : Text → ResolutionError
  manifest_signature : ResolutionError
  manifest_version_mismatch : Text → Text → ResolutionError
  unsupported_schema : ℕ → ℕ → ResolutionError
  cache : FilePath → Text → ResolutionError
  cache_root_unavailable : Text → ResolutionError
  exec : FilePath → Text → ResolutionError

unfoldable pub from_raw : List OsText → Result ExternalCommand ResolutionError
from_raw [] = err empty_command
from_raw (name ∷ args) = ok (record { name = name; args = args })

-- `Display for ResolutionError`
unfoldable pub display : ResolutionError → Text
display empty_command = codes "no external subcommand was given"
display (unresolved name) =
    codes "could not resolve subcommand '" ++ (name.lossy ++ codes "' to a binary")
display (fetch target url) =
    codes "could not fetch the " ++ (target ++ (codes " asset from " ++ url))
display (asset_not_found target url) =
    codes "no " ++ (target ++ (codes " asset published at " ++ url))
display (release_unavailable target url) =
    codes "the release for the " ++ (target ++ (codes " asset is unavailable at " ++ url))
display (checksum_mismatch asset expected actual) =
    asset
    ++ (codes ": sha256 mismatch (expected "
        ++ (expected ++ (codes ", got " ++ (actual ++ codes ")"))))
display (signature_mismatch asset) =
    asset ++ codes ": minisign signature is not valid for any trusted key"
display manifest_signature = codes "the release manifest signature is not valid for any trusted key"
display (manifest_version_mismatch expected actual) =
    codes "manifest version " ++ (actual ++ (codes " does not match expected " ++ expected))
display (unsupported_schema found supported) =
    codes "unsupported manifest schema_version "
    ++ (decimal found ++ (codes " (supported up to " ++ (decimal supported ++ codes ")")))
display (cache path detail) =
    codes "cache error at " ++ (Path.display path ++ (codes ": " ++ detail))
display (cache_root_unavailable detail) = codes "no usable cache directory: " ++ detail
display (exec program source) =
    codes "failed to exec " ++ (Path.display program ++ (codes ": " ++ source))

-- `From<ResolutionError> for kernel::Error`
unfoldable pub to_kernel_error : ResolutionError → KernelError
to_kernel_error error = failed (display error)

-- What `run_external` gives when `exec` came back, and when the command was not resolved.
unfoldable pub run_resolved :
    (FilePath → List OsText → ResolutionError)
    → ExternalCommand
    → Result FilePath ResolutionError
    → ResolutionError
run_resolved executor command (ok program) = executor program command.args
run_resolved executor command (err error) = error

-- `resolver.resolve` and `executor.exec` are the two ports; `exec` comes back only to fail.
unfoldable pub run_external :
    (ExternalCommand → Result FilePath ResolutionError)
    → (FilePath → List OsText → ResolutionError)
    → ExternalCommand
    → ResolutionError
run_external resolver executor command = run_resolved executor command (resolver command)
