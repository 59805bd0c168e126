-- ===== src/Launcher/Main/Degrading.antt =====
-- The whole program under `--fail-safe`.
use luminosity.Base.{Bool, true, Text, List, Option, Result, ok, err, ◌≡◌, refl, ap, ◌∙◌, map_err}
use luminosity.Config.Error
use luminosity.Config.Error.{ConfigError, KernelError, failed}
use luminosity.Adapters.Store.Operations.{Disk}
use luminosity.Launcher.Support.{Printed, degrade}
use luminosity.Launcher.Cli.{Cli, Command, context, instructions}
use luminosity.Launcher.Context.FailSafe.{context-never_fails}
use luminosity.Launcher.Instructions.FailSafe.{instructions-never_fails}
use luminosity.Launcher.External.{OsText}
use luminosity.Launcher.Dispatch.{Ending, returned, replaced, Services, on_failure, dispatch}
use luminosity.Launcher.Main.{
  success, exited, services, run, ended, parsed, installed, install_crypto_provider, main,
}
use luminosity.Launcher.System.{System}

-- A command with `--fail-safe`.
pub data IsFailSafe : Command → Type 0 where
  of_context : (skill : Option Text) (explain : Bool) → IsFailSafe (context skill explain true)
  of_instructions :
      (skill : Option Text) (explain : Bool) → IsFailSafe (instructions skill explain true)

module _ {W : Type 0} (services : Services W) where
  dispatch-IsFailSafe :
      (command : Command) (w : W)
      → IsFailSafe command
      → ((dispatch services command w).1 ≡ returned (ok tt)) × ((dispatch services command w).2 ≡ w)
  unfolding dispatch on_failure
  dispatch-IsFailSafe _ w (of_context skill explain) = (
    ap (λ (r : Result (Unit {0}) ConfigError). returned (map_err Error.to_kernel_error r))
        (context-never_fails (services.assembler w)
          (record { skill = skill; explain = explain; on_failure = degrade }) refl),
    refl,
  )
  dispatch-IsFailSafe _ w (of_instructions skill explain) = (
    ap (λ (r : Result (Unit {0}) ConfigError). returned (map_err Error.to_kernel_error r))
        (instructions-never_fails (services.assembler w)
          (record { skill = skill; explain = explain; on_failure = degrade }) refl),
    refl,
  )

module _ {W : Type 0} (system : System W) where
  ended-ok :
      (r : Printed × Ending × Disk W)
      → r.1 ≡ returned (ok tt)
      → ((ended system r).1 ≡ exited success) × ((ended system r).2 ≡ r.2)
  unfolding ended
  ended-ok (printed, replaced program args, disk) h = cc
  ended-ok (printed, returned (ok _), disk) h = (refl, refl)
  ended-ok (printed, returned (err (failed message)), disk) h = cc

  -- Under `--fail-safe`, `context` and `instructions` exit with success and change nothing, whatever the working
  -- directory, the files and the other arguments are.
  pub main-IsFailSafe :
      (args : List OsText) (cli : Cli) (disk : Disk W)
      → system.try_parse args ≡ ok cli
      → IsFailSafe cli.command
      → ((main system args disk).1 ≡ exited success) × ((main system args disk).2 ≡ disk)
  unfolding main installed install_crypto_provider parsed run
  main-IsFailSafe args cli disk same safe =
      let (good, kept) = dispatch-IsFailSafe (services system) cli.command disk safe in
      let (out, after) = ended-ok (dispatch (services system) cli.command disk) good in
      rw same (out, after ∙ kept)
