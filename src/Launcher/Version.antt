-- ===== src/Launcher/Version.antt =====
-- cli/launcher/src/version: what `version` prints. The facts that the build put in are a parameter.
use luminosity.Base.{Text, codes, ◌++◌, [], ◌∷◌, Option, none, some}
use luminosity.Launcher.Support.{Printed}

-- `BuildMetadata`
pub record BuildMetadata : Type 0 where
  pub crate_version : Text
  pub commit_sha : Text
  pub build_date : Text
  pub target_triple : Text

pub record VersionReport : Type 0 where
  pub version : Text
  pub commit_sha : Text
  pub build_date : Text
  pub target_triple : Text

-- `VersionReporter::report`
unfoldable pub report : BuildMetadata → VersionReport
report metadata = record {
  version = metadata.crate_version;
  commit_sha = metadata.commit_sha;
  build_date = metadata.build_date;
  target_triple = metadata.target_triple;
}

-- `option_env!(…).unwrap_or("unknown")`
unfoldable pub or_unknown : Option Text → Text
or_unknown none = codes "unknown"
or_unknown (some value) = value

-- The environment of the build: `CARGO_PKG_VERSION`, which cargo always sets, and what vergen
-- could find out.
pub record Build : Type 0 where
  pub cargo_pkg_version : Text
  pub vergen_git_sha : Option Text
  pub vergen_build_timestamp : Option Text
  pub vergen_cargo_target_triple : Option Text

-- `VergenBuildMetadata`
unfoldable pub vergen : Build → BuildMetadata
vergen build = record {
  crate_version = build.cargo_pkg_version;
  commit_sha = or_unknown build.vergen_git_sha;
  build_date = or_unknown build.vergen_build_timestamp;
  target_triple = or_unknown build.vergen_cargo_target_triple;
}

unfoldable pub render : VersionReport → Text
render r =
    codes "luminosity "
    ++ (r.version
        ++ (codes "\ncommit: "
            ++ (r.commit_sha
                ++ (codes "\nbuilt:  "
                    ++ (r.build_date ++ (codes "\ntarget: " ++ r.target_triple))))))

-- `report` of the inbound adapter
unfoldable pub print : BuildMetadata → Printed
print metadata = record { stdout = render (report metadata) ∷ []; stderr = [] }
