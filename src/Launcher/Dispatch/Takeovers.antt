-- ===== src/Launcher/Dispatch/Takeovers.antt =====
-- What a dispatch hands the process over to.
use luminosity.Base.{Text, List, [], ◌∷◌, Option, none, some, Result, ok, err, ◌≡◌, refl, ap}
use luminosity.Platform.Path.{FilePath}
use luminosity.Launcher.Cli.{Command, version, config, context, instructions, external}
use luminosity.Launcher.External.{OsText, ExternalCommand, ResolutionError, from_raw}
use luminosity.Launcher.Dispatch.{
  replaced, unix_exec, launch, Services, dispatch_external, dispatch,
}

module _ {W : Type 0} (services : Services W) where
  unix_exec-replaced :
      (program found : FilePath) (args rest : List OsText) (r : Option Text)
      → unix_exec found args r ≡ replaced program rest
      → (found ≡ program) × (args ≡ rest)
  unfolding unix_exec
  unix_exec-replaced program found args rest none h = (cc, cc)
  unix_exec-replaced program found args rest (some e) h = cc

  launch-replaced :
      (program : FilePath) (rest : List OsText) (command : ExternalCommand)
      (r : Result FilePath ResolutionError)
      → launch services.system_exec command r ≡ replaced program rest
      → (r ≡ ok program) × (command.args ≡ rest)
  unfolding launch
  launch-replaced program rest command (err e) h = cc
  launch-replaced program rest command (ok found) h =
      let (same, args) =
        unix_exec-replaced program found command.args rest (services.system_exec found command.args)
          h in
      (ap ok same, args)

  -- A dispatch that another program takes over was of an external command, whose resolution gave the
  -- program and whose arguments are forwarded as they are.
  pub dispatch-replaced :
      (command : Command) (w : W) (program : FilePath) (rest : List OsText)
      → (dispatch services command w).1 ≡ replaced program rest
      → (name : OsText) × (command ≡ external (name ∷ rest))
        × ((services.resolver (record { name = name; args = rest }) w).0 ≡ ok program)
  unfolding dispatch dispatch_external from_raw
  dispatch-replaced version w program rest h = cc
  dispatch-replaced (config action) w program rest h = cc
  dispatch-replaced (context skill explain fail_safe) w program rest h = cc
  dispatch-replaced (instructions skill explain fail_safe) w program rest h = cc
  dispatch-replaced (external []) w program rest h = cc
  dispatch-replaced (external (name ∷ args)) w program rest h =
      let command : ExternalCommand = record { name = name; args = args } in
      let (found, same) = launch-replaced program rest command (services.resolver command w).0 h in
      rw (← same) (name, refl, found)
