-- ===== src/Launcher.antt =====
-- cli/launcher: the commands that print what the configuration core assembles. Support is the
-- fail-safe boundary that both commands share. External and Resolve are on the way to the binary of
-- a subcommand that the launcher does not have itself.
pub mod Support
pub mod Cli
pub mod ConfigCommand
pub mod Version
pub mod Context
pub mod Instructions
pub mod External
pub mod Resolve
pub mod Help
pub mod Dispatch
pub mod System
pub mod Resolvers
pub mod Main
