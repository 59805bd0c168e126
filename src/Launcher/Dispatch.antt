-- ===== src/Launcher/Dispatch.antt =====
-- cli/launcher/src/launch/mod.rs, and the executor of launch/outbound/exec.rs.
pub mod Takeovers
use luminosity.Base.{ℕ, Bool, true, false, Text, List, Option, none, some, Result, ok, err, map_err}
use luminosity.Platform.Path.{FilePath}
use luminosity.Config.Error
use luminosity.Config.Error.{KernelError}
use luminosity.Config.Fragment.{Assembler}
use luminosity.Config.Service.Driver.{ConfigAccess}
use luminosity.Launcher.Support.{OnFailure, fail, degrade, Printed}
use luminosity.Launcher.Cli.{Command, version, config, context, instructions, external}
use luminosity.Launcher.ConfigCommand
use luminosity.Launcher.ConfigCommand.{silent}
use luminosity.Launcher.Context
use luminosity.Launcher.Instructions
use luminosity.Launcher.Version
use luminosity.Launcher.Version.{BuildMetadata}
use luminosity.Launcher.External
use luminosity.Launcher.External.{OsText, ExternalCommand, ResolutionError, exec, from_raw}

unfoldable pub on_failure : Bool → OnFailure
on_failure true = degrade
on_failure false = fail

-- The system's `exec`: the text of its error, or nothing where the program took over the process.
abbrev pub Exec : Type 0
Exec = FilePath → List OsText → Option Text

-- How a command ends: `dispatch` comes back, or another program has taken over the process.
pub data Ending : Type 0 where
  returned : Result (Unit {0}) KernelError → Ending
  replaced : FilePath → List OsText → Ending

-- `UnixExec::exec`, which comes back with an error only
unfoldable pub unix_exec : FilePath → List OsText → Option Text → Ending
unix_exec program args none = replaced program args
unix_exec program args (some source) =
    returned (err (External.to_kernel_error (exec program source)))

-- `run_external` on what the resolver gave.
unfoldable pub launch : Exec → ExternalCommand → Result FilePath ResolutionError → Ending
launch system_exec command (ok program) =
    unix_exec program command.args (system_exec program command.args)
launch system_exec command (err error) = returned (err (External.to_kernel_error error))

-- What `dispatch` is given beside the command.
pub record Services (W : Type 0) : Type 0 where
  pub reporter : BuildMetadata
  pub access : ConfigAccess W
  pub assembler : W → Assembler
  pub resolver : ExternalCommand → W → Result FilePath ResolutionError × W
  pub system_exec : Exec
  pub float_text : ℕ → Text

module _ {W : Type 0} (services : Services W) where
  open services use {reporter, access, assembler, resolver, system_exec, float_text}

  -- `ExternalCommand::from_raw(…)?` and `run_external`
  unfoldable pub dispatch_external :
      Result ExternalCommand ResolutionError → W → Printed × Ending × W
  dispatch_external (err error) w = (silent, returned (err (External.to_kernel_error error)), w)
  dispatch_external (ok command) w =
      let (resolved, w') = resolver command w in (silent, launch system_exec command resolved, w')

  unfoldable pub dispatch : Command → W → Printed × Ending × W
  dispatch version w = (Version.print reporter, returned (ok tt), w)
  dispatch (config action) w =
      let (printed, result, w') = ConfigCommand.run float_text access w action in
      (printed, returned (map_err Error.to_kernel_error result), w')
  dispatch (context skill explain fail_safe) w =
      let (printed, result) =
        Context.run (assembler w)
          (record { skill = skill; explain = explain; on_failure = on_failure fail_safe }) in
      (printed, returned (map_err Error.to_kernel_error result), w)
  dispatch (instructions skill explain fail_safe) w =
      let (printed, result) =
        Instructions.run (assembler w)
          (record { skill = skill; explain = explain; on_failure = on_failure fail_safe }) in
      (printed, returned (map_err Error.to_kernel_error result), w)
  dispatch (external raw) w = dispatch_external (from_raw raw) w
