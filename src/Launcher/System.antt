-- ===== src/Launcher/System.antt =====
-- What cli/launcher/src/main.rs asks of the machine, of the build, of clap and of the libraries.
use luminosity.Base.{ℕ, Bool, Text, List, Option, Result}
use luminosity.Platform.Path.{FilePath}
use luminosity.Platform.Files.{FileSystem}
use luminosity.Adapters.Document.{Yaml}
use luminosity.Launcher.Support.{Printed}
use luminosity.Launcher.Cli.{Cli}
use luminosity.Launcher.Version.{Build}
use luminosity.Launcher.External.{OsText}
use luminosity.Launcher.Dispatch.{Exec}
use luminosity.Launcher.Resolve.Fetch.{Bytes, Network}
use luminosity.Launcher.Resolve.Trust.{Crypto, Json}
use luminosity.Launcher.Resolve.Cache.{CacheFiles}
use luminosity.Launcher.Resolve.CacheRoot.{Environment}

-- `clap::Error`: whether its kind is `DisplayHelp`, and what its `exit` prints and gives.
pub record ParseError : Type 0 where
  pub is_display_help : Bool
  pub printed : Printed
  pub exit_code : ℕ

pub record System (W : Type 0) : Type 1 where
  pub fs : FileSystem W
  pub cache_files : CacheFiles W
  -- what a program that is run in a child process gives, if it can be run
  pub status : W → FilePath → Option Bool
  -- `std::env::current_dir`, or the text of its error
  pub current_dir : W → Result FilePath Text
  pub env : Environment
  pub path_of : OsText → FilePath
  pub process_id : ℕ
  pub system_exec : Exec
  pub network : Network
  -- whether the HTTP client can be built
  pub client : Result (Unit {0}) Text
  -- `Cli::try_parse` on all arguments, and `print_help` with a section behind the help
  pub try_parse : List OsText → Result Cli ParseError
  pub help : Option Text → Text
  pub build : Build
  pub host_platform : Text
  pub is_macos : Bool
  pub release_key : Text
  pub crypto : Crypto
  pub json : Json
  pub from_utf8_lossy : Bytes → Text
  pub yaml : Yaml
  pub float_text : ℕ → Text
