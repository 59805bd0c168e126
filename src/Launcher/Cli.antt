-- ===== src/Launcher/Cli.antt =====
-- cli/launcher/src/launch/inbound/cli.rs: the command tree that clap fills. The help texts are
-- clap's own affair.
use luminosity.Base.{Bool, Text, List, Option}
use luminosity.Config.Level.{Level as CoreLevel, team as core_team, personal as core_personal}
use luminosity.Launcher.External.{OsText}

pub data Level : Type 0 where
  team personal : Level

-- `From<Level> for config::Level`
unfoldable pub config_level : Level → CoreLevel
config_level team = core_team
config_level personal = core_personal

pub data ConfigAction : Type 0 where
  get : Text → Option Level → ConfigAction
  set : Text → Text → Option Level → ConfigAction

-- `context` and `instructions` hold their options in the order of the source: `skill`, `explain`
-- and `fail_safe`.
pub data Command : Type 0 where
  version : Command
  config : ConfigAction → Command
  context : Option Text → Bool → Bool → Command
  instructions : Option Text → Bool → Bool → Command
  external : List OsText → Command

-- `Cli`
pub record Cli : Type 0 where
  pub command : Command
