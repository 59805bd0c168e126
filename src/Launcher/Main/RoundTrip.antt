-- ===== src/Launcher/Main/RoundTrip.antt =====
-- Two runs of the program: a `config set`, and the `config get` behind it.
use luminosity.Base.{
  Text, codes, List, Option, none, some, Result, ok, err, Result-cases, >>=-eq-ok, map_err,
  map_err-ok, ok-injective, ◌≡◌, ◌≢◌, inl, inr, refl, sym, ap, ◌∙◌,
}
use luminosity.Platform.Path.{FilePath}
use luminosity.Config.Error
use luminosity.Config.Error.{ConfigError, io, KernelError, failed}
use luminosity.Config.Key.{Key}
use luminosity.Config.Key.Parse.{parse}
use luminosity.Config.Level.{Level}
use luminosity.Config.Service.Access
use luminosity.Config.Service.Access.Laws.{set-Done}
use luminosity.Config.Node.{mapping}
use luminosity.Config.Service.Driver.{service}
use luminosity.Adapters.Document.Rendering.{YamlLaws}
use luminosity.Adapters.Store.Operations.{Disk, discover_root, ports}
use luminosity.Adapters.Store.Operations.Nearest.{IsReliable}
use luminosity.Adapters.Store.Operations.Lawful.{ports-IsStore}
use luminosity.Adapters.Store.Operations.Roots.{discover_root-write_level}
use luminosity.Launcher.Support.{Printed}
use luminosity.Launcher.Cli
use luminosity.Launcher.Cli.{Cli, Command, ConfigAction, config}
use luminosity.Launcher.External.{OsText}
use luminosity.Launcher.ConfigCommand
use luminosity.Launcher.ConfigCommand.{answer, print, set_parsed, asked_level, or_personal}
use luminosity.Launcher.ConfigCommand.RoundTrip.{run-Set, get-set_printed, one_line, or_default}
use luminosity.Launcher.Dispatch.{Ending, returned, dispatch}
use luminosity.Launcher.Resolve.CacheRoot.{nonempty}
use luminosity.Launcher.Main.{
  success, Ended, exited, discover_store, set_at, lazy_access, services_with, services_by, services,
  run, ended, parsed, installed, install_crypto_provider, main,
}
use luminosity.Launcher.System.{System}
use luminosity.Launcher.Resolvers.{fixture_env}

module _ {W : Type 0} (system : System W) where
  open system use {fs, current_dir, env, process_id, try_parse, yaml, float_text}

  -- What `dispatch` makes of the run of the config command.
  unfoldable pub reported :
      Printed × Result (Unit {0}) ConfigError × Disk W → Printed × Ending × Disk W
  reported (printed, result, disk) =
      (printed, returned (map_err Error.to_kernel_error result), disk)

  dispatch-config :
      (o : Option OsText) (action : ConfigAction) (disk : Disk W)
      → dispatch (services_by system o) (config action) disk
        ≡ reported (ConfigCommand.run float_text (lazy_access system) disk action)
  unfolding dispatch services_by services_with reported
  dispatch-config none action disk = refl
  dispatch-config (some _) action disk = refl

  pub main-config :
      (args : List OsText) (action : ConfigAction) (disk : Disk W)
      → try_parse args ≡ ok (record { command = config action })
      → main system args disk
        ≡ ended system (reported (ConfigCommand.run float_text (lazy_access system) disk action))
  unfolding main installed install_crypto_provider parsed run services
  main-config args action disk h = rw h (
      ap (λ (r : Printed × Ending × Disk W). ended system r)
        (dispatch-config (nonempty (env fixture_env)) action disk))

  -- On a store that was discovered, the lazy adapter is the service.
  pub run-discovered :
      (disk : Disk W) (action : ConfigAction) (root : FilePath)
      → discover_store system disk.files ≡ ok root
      → ConfigCommand.run float_text (lazy_access system) disk action
        ≡ ConfigCommand.run float_text (service (ports fs yaml process_id root)) disk action
  unfolding ConfigCommand.run ConfigCommand.get ConfigCommand.set answer set_parsed lazy_access
      set_at
  run-discovered disk (ConfigAction.get raw level) root h = elim (Result-cases (parse raw)) [
    | inr (e, bad) ↦ rw bad refl
    | inl (key, good) ↦ rw (good, h) refl
  ]
  run-discovered disk (ConfigAction.set raw v level) root h = elim (Result-cases (parse raw)) [
    | inr (e, bad) ↦ rw bad refl
    | inl (key, good) ↦ rw (good, h) refl
  ]

  run-undiscovered :
      (disk : Disk W) (raw v : Text) (level : Option Cli.Level) (e : ConfigError)
      → discover_store system disk.files ≡ err e
      → (ConfigCommand.run float_text (lazy_access system) disk (ConfigAction.set raw v level)).1
        ≢ ok tt
  unfolding ConfigCommand.run ConfigCommand.set set_parsed lazy_access set_at
  run-undiscovered disk raw v level e h good = elim (Result-cases (parse raw)) [
    | inr (e', bad) ↦ cc (rw bad at good)
    | inl (key, parsed_key) ↦ cc (rw h at (rw parsed_key at good))
  ]

  -- A run that exits with success has a result that is one, on the same state.
  ended-reported :
      (r : Printed × Result (Unit {0}) ConfigError × Disk W)
      → (ended system (reported r)).1 ≡ exited success
      → (r.1 ≡ ok tt) × (ended system (reported r) ≡ (r.0, exited success, r.2))
  unfolding ended reported Error.to_kernel_error
  ended-reported (printed, ok _, disk) h = (refl, refl)
  ended-reported (printed, err e, disk) h = cc

  -- A store that is discovered is rooted where the root is discovered from the working directory.
  pub discovered :
      (w : W) (root : FilePath)
      → discover_store system w ≡ ok root
      → (start : FilePath) × (current_dir w ≡ ok start) × (discover_root fs w start ≡ root)
  unfolding discover_store
  discovered w root found =
      let (start, here, same) = >>=-eq-ok (map_err (io (codes ".")) (current_dir w)) _ found in
      (start, map_err-ok _ (current_dir w) here, ok-injective same)

  module _ (disk : Disk W)
      (reliable : (root start : FilePath)
        → current_dir disk.files ≡ ok start
        → discover_root fs disk.files start ≡ root
        → IsReliable fs root start)
      (yaml_laws : YamlLaws yaml) where
    -- Behind a `set` that succeeded, the same root is discovered.
    discover_store-set :
        (disk' : Disk W) (root : FilePath) (key : Key) (v : Text) (level : Level)
        → discover_store system disk.files ≡ ok root
        → current_dir disk'.files ≡ current_dir disk.files
        → Access.set (ports fs yaml process_id root) disk key v level ≡ (ok tt, disk')
        → discover_store system disk'.files ≡ ok root
    unfolding discover_store ports
    discover_store-set disk' root key v level found stays h =
        let (start, here, same) = discovered disk.files root found in
        let sure = reliable root start here same in
        let d = set-Done (ports fs yaml process_id root) disk disk' key v level h in
        let again =
          discover_root-write_level fs root sure.laws yaml process_id disk level (mapping d.root)
            start sure.watched same
            (ap (λ (r : Result (Unit {0}) ConfigError × Disk W). r.0) d.wrote) in
        let after = ap (λ (r : Result (Unit {0}) ConfigError × Disk W). r.1) d.wrote in
        rw (stays, here) (ap ok (rw after at again))

    ended-line :
        (v : Text) (disk : Disk W)
        → ended system (reported (one_line v, ok tt, disk)) ≡ (one_line v, exited success, disk)
    unfolding ended reported
    ended-line v disk = refl

    get-behind :
        (get_args : List OsText) (disk' : Disk W) (raw v : Text) (level : Option Cli.Level)
        (printed : Printed)
        → try_parse get_args
          ≡ ok (record { command = config (ConfigAction.get raw (some (or_default level))) })
        → current_dir disk'.files ≡ current_dir disk.files
        → ConfigCommand.run float_text (lazy_access system) disk (ConfigAction.set raw v level)
          ≡ (printed, ok tt, disk')
        → main system get_args disk' ≡ (one_line v, exited success, disk')
    get-behind get_args disk' raw v level printed get_args_parsed stays r =
        elim (Result-cases (discover_store system disk.files)) [
          | inr (e, bad) ↦ absurd (
              run-undiscovered disk raw v level e bad
                (ap (λ (x : Printed × Result (Unit {0}) ConfigError × Disk W). x.1) r))
          | inl (root, found) ↦
              let (start, here, same) = discovered disk.files root found in
              let laws = (reliable root start here same).laws in
              let store = ports-IsStore fs root laws yaml process_id yaml_laws in
              let ran = sym (run-discovered disk (ConfigAction.set raw v level) root found) ∙ r in
              let s =
                run-Set (ports fs yaml process_id root) store float_text disk disk' raw v level
                  printed ran in
              let again =
                discover_store-set disk' root s.key v (or_personal (asked_level level)) found stays
                  s.wrote in
              let shown =
                get-set_printed (ports fs yaml process_id root) store float_text disk disk' raw v
                  level printed ran in
              main-config get_args (ConfigAction.get raw (some (or_default level))) disk'
                get_args_parsed
              ∙ ap
                  (λ (x : Printed × Result (Unit {0}) ConfigError × Disk W).
                    ended system (reported x))
                  (run-discovered disk' (ConfigAction.get raw (some (or_default level))) root again
                    ∙ shown)
              ∙ ended-line v disk'
        ]

    -- Over a file system that keeps its promises at the paths of the store, as it is discovered from the
    -- working directory, and a YAML library that keeps its promises, where a run of `config set`
    -- exits with success and leaves the working directory, a run of `config get` behind it, at the
    -- level that was written, finds the same project and prints what was set.
    pub main-get-set :
        (set_args get_args : List OsText) (raw v : Text) (level : Option Cli.Level)
        → try_parse set_args ≡ ok (record { command = config (ConfigAction.set raw v level) })
        → try_parse get_args
          ≡ ok (record { command = config (ConfigAction.get raw (some (or_default level))) })
        → current_dir (main system set_args disk).2.files ≡ current_dir disk.files
        → (main system set_args disk).1 ≡ exited success
        → main system get_args (main system set_args disk).2
          ≡ (one_line v, exited success, (main system set_args disk).2)
    main-get-set set_args get_args raw v level set_args_parsed get_args_parsed stays h =
        let r =
          ConfigCommand.run float_text (lazy_access system) disk (ConfigAction.set raw v level) in
        let ran = main-config set_args (ConfigAction.set raw v level) disk set_args_parsed in
        let (good, whole) = ended-reported r (rw ran at h) in
        let after : (main system set_args disk).2 ≡ r.2 =
          ap (λ (x : Printed × Ended × Disk W). x.2) (ran ∙ whole) in
        rw after (
          get-behind get_args r.2 raw v level r.0 get_args_parsed (rw after at stays)
            (ap (λ (x : Result (Unit {0}) ConfigError). (r.0, x, r.2)) good))
