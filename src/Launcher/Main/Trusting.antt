-- ===== src/Launcher/Main/Trusting.antt =====
-- The launcher hands the process over to nothing that it does not trust.
use luminosity.Base.{
  List, ◌∷◌, Option, none, Result, ok, err, Bool-cases, ◌≡◌, ◌≢◌, inl, inr, refl, ap, ◌∙◌, arith,
}
use luminosity.Platform.Path.{FilePath}
use luminosity.Config.Error.{failed}
use luminosity.Adapters.Store.Operations.{Disk}
use luminosity.Launcher.Support.{Printed}
use luminosity.Launcher.Cli.{Cli, Command, external}
use luminosity.Launcher.External.{OsText, ExternalCommand}
use luminosity.Launcher.Dispatch.{Ending, returned, replaced, dispatch}
use luminosity.Launcher.Resolve.CacheRoot.{nonempty}
use luminosity.Launcher.System.{ParseError, System}
use luminosity.Launcher.Resolvers.{fixture_env, production_resolver}
use luminosity.Launcher.Main.{
  taken_over, services_with, services_by, services, run, ended, parsed, is_root_help, installed,
  install_crypto_provider, main,
}
use luminosity.Launcher.Dispatch.Takeovers.{dispatch-replaced}
use luminosity.Launcher.Resolvers.Trusting.{ComesTrusted, production_resolver-ComesTrusted}

module _ {W : Type 0} (system : System W) where
  open system use {
    cache_files, status, env, path_of, process_id, network, is_macos, release_key, crypto, json,
    from_utf8_lossy, try_parse,
  }

  run-resolver :
      (cli : Cli) (disk : Disk W)
      → nonempty (env fixture_env) ≡ none
      → run system cli disk
        ≡ dispatch (services_with system (production_resolver system)) cli.command disk
  unfolding run services services_by
  run-resolver cli disk h =
      ap (λ (o : Option OsText). dispatch (services_by system o) cli.command disk) h

  ended-taken_over :
      (r : Printed × Ending × Disk W) (program : FilePath) (rest : List OsText)
      → (ended system r).1 ≡ taken_over program rest
      → r.1 ≡ replaced program rest
  unfolding ended
  ended-taken_over (printed, replaced p args, disk) program rest h = cc
  ended-taken_over (printed, returned (ok _), disk) program rest h = cc
  ended-taken_over (printed, returned (err (failed message)), disk) program rest h = cc

  services-resolver :
      (command : ExternalCommand) (disk : Disk W) (program : FilePath)
      → ((services_with system (production_resolver system)).resolver command disk).0 ≡ ok program
      → (production_resolver system command disk).0 ≡ ok program
  unfolding services_with
  services-resolver command disk program h = h

  parsed-err :
      (args : List OsText) (e : ParseError) (disk : Disk W) (program : FilePath)
      (rest : List OsText)
      → (parsed system args (err e) disk).1 ≢ taken_over program rest
  unfolding parsed
  parsed-err args e disk program rest h = elim (Bool-cases (is_root_help args e)) [
    | inl root ↦ ground (arith, root, h)
    | inr other ↦ ground (arith, other, h)
  ]

  parsed-ok :
      (args : List OsText) (cli : Cli) (disk : Disk W)
      → parsed system args (ok cli) disk ≡ ended system (run system cli disk)
  unfolding parsed
  parsed-ok args cli disk = refl

  -- Without the variable that names a fixture, the process is handed over only where the arguments
  -- are those of an external subcommand, to a program that a resolution under the built-in keys
  -- gave and that is trusted, with the remaining arguments as they came.
  pub main-ComesTrusted :
      (args : List OsText) (disk : Disk W) (program : FilePath) (rest : List OsText)
      → nonempty (env fixture_env) ≡ none
      → (main system args disk).1 ≡ taken_over program rest
      → (name : OsText) × (try_parse args ≡ ok (record { command = external (name ∷ rest) }))
        × ComesTrusted system (record { name = name; args = rest }) disk program
  unfolding main installed install_crypto_provider
  main-ComesTrusted args disk program rest fixture h = go (try_parse args) refl h
    where
      from_run :
          (cli : Cli)
          → try_parse args ≡ ok cli
          → (ended system (run system cli disk)).1 ≡ taken_over program rest
          → (name : OsText) × (try_parse args ≡ ok (record { command = external (name ∷ rest) }))
            × ComesTrusted system (record { name = name; args = rest }) disk program
      from_run cli same h =
          let over =
            rw (run-resolver cli disk fixture) at
              (ended-taken_over (run system cli disk) program rest h) in
          let (name, command, found) =
            dispatch-replaced (services_with system (production_resolver system)) cli.command disk
              program rest over in
          (
            name,
            same ∙ ap (λ (c : Command). ok (record { command = c })) command,
            production_resolver-ComesTrusted system (record { name = name; args = rest }) disk
                program (services-resolver _ disk program found),
          )

      go :
          (r : Result Cli ParseError)
          → try_parse args ≡ r
          → (parsed system args r disk).1 ≡ taken_over program rest
          → (name : OsText) × (try_parse args ≡ ok (record { command = external (name ∷ rest) }))
            × ComesTrusted system (record { name = name; args = rest }) disk program
      go (ok cli) same h = from_run cli same (rw (parsed-ok args cli disk) at h)
      go (err e) same h = absurd (parsed-err args e disk program rest h)
