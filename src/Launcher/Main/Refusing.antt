-- ===== src/Launcher/Main/Refusing.antt =====
-- Two runs of the program: a `config set` that fails, and a `config get` behind it.
use luminosity.Base.{
  Text, List, Option, Result, ok, err, Result-cases, true, ◌≡◌, ◌⊎◌, inl, inr, refl, sym, ap, ◌∙◌,
}
use luminosity.Platform.Path.{FilePath}
use luminosity.Config.Error
use luminosity.Config.Error.{ConfigError, io}
use luminosity.Config.Key.{Key}
use luminosity.Config.Key.Parse.{parse}
use luminosity.Config.Level.{Level}
use luminosity.Config.Service.Access
use luminosity.Config.Service.Access.{Ports}
use luminosity.Config.Service.Access.Laws.{set-unwritten, get-set_err}
use luminosity.Config.Service.Driver.{service}
use luminosity.Adapters.Document.Rendering.{YamlLaws}
use luminosity.Adapters.Store.Operations.Nearest.{IsReliable}
use luminosity.Adapters.Store.Operations.{Disk, discover_root, is_root, ports}
use luminosity.Adapters.Store.Operations.Lawful.{ports-IsStore}
use luminosity.Adapters.Store.Operations.Marked.{discover_root-any_write}
use luminosity.Launcher.Support.{Printed}
use luminosity.Launcher.Cli
use luminosity.Launcher.Cli.{Cli, ConfigAction, config}
use luminosity.Launcher.External.{OsText}
use luminosity.Launcher.ConfigCommand
use luminosity.Launcher.ConfigCommand.{silent, answer, print, set_parsed, asked_level, or_personal}
use luminosity.Launcher.System.{System}
use luminosity.Launcher.Main.{failure, Ended, exited, discover_store, ended, main}
use luminosity.Launcher.Main.RoundTrip.{discovered, reported, main-config, run-discovered}

-- What a run of the config command gives: what it prints, its result and the state.
abbrev Outcome : Type 0 → Type 0
Outcome W = Printed × Result (Unit {0}) ConfigError × W

module _ {W : Type 0} (system : System W) where
  open system use {fs, current_dir, process_id, try_parse, yaml, float_text}

  -- What is reported depends on what was printed and on the result, and the state is passed on.
  ended-state : (r : Outcome (Disk W)) → (ended system (reported system r)).2 ≡ r.2
  unfolding ended reported Error.to_kernel_error
  ended-state (printed, ok _, disk) = refl
  ended-state (printed, err e, disk) = refl

  ended-same :
      (printed : Printed) (result : Result (Unit {0}) ConfigError) (disk disk' : Disk W)
      → ((ended system (reported system (printed, result, disk'))).0
          ≡ (ended system (reported system (printed, result, disk))).0)
        × ((ended system (reported system (printed, result, disk'))).1
            ≡ (ended system (reported system (printed, result, disk))).1)
  unfolding ended reported Error.to_kernel_error
  ended-same printed (ok _) disk disk' = (refl, refl)
  ended-same printed (err e) disk disk' = (refl, refl)

  ended-failure :
      (r : Outcome (Disk W))
      → (ended system (reported system r)).1 ≡ exited failure
      → (e : ConfigError) × (r.1 ≡ err e)
  unfolding ended reported Error.to_kernel_error
  ended-failure (printed, ok _, disk) h = cc
  ended-failure (printed, err e, disk) h = (e, refl)

  module _ (p : Ports (Disk W)) where
    -- A `set` that failed has a key that does not parse, or one that the service could not set.
    run-refused :
        (disk disk' : Disk W) (raw v : Text) (level : Option Cli.Level) (e : ConfigError)
        (printed : Printed)
        → ConfigCommand.run float_text (service p) disk (ConfigAction.set raw v level)
          ≡ (printed, err e, disk')
        → (disk' ≡ disk)
          ⊎ ((key : Key) × (at_level : Level) × (Access.set p disk key v at_level ≡ (err e, disk')))
    unfolding ConfigCommand.run ConfigCommand.set set_parsed service
    run-refused disk disk' raw v level e printed h = elim (Result-cases (parse raw)) [
      | inr (bad_key, bad) ↦ inl (sym (ap (λ (r : Outcome (Disk W)). r.2) (rw bad at h)))
      | inl (key, good) ↦ inr (
        key,
        or_personal (asked_level level),
        ap (λ (r : Outcome (Disk W)). (r.1, r.2)) (rw good at h),
      )
    ]

    -- A `get` prints what the key resolves to.
    run-get_same :
        (disk disk' : Disk W) (raw : Text) (level : Option Cli.Level)
        → ((key : Key)
            → Access.get p disk' key (asked_level level)
              ≡ Access.get p disk key (asked_level level))
        → ConfigCommand.run float_text (service p) disk' (ConfigAction.get raw level) ≡ (
          (ConfigCommand.run float_text (service p) disk (ConfigAction.get raw level)).0,
          (ConfigCommand.run float_text (service p) disk (ConfigAction.get raw level)).1,
          disk',
        )
    unfolding ConfigCommand.run ConfigCommand.get answer service
    run-get_same disk disk' raw level same = elim (Result-cases (parse raw)) [
      | inr (e, bad) ↦ rw bad refl
      | inl (key, good) ↦ rw (good, same key) refl
    ]

  module _ (disk : Disk W)
      (reliable : (root start : FilePath)
        → current_dir disk.files ≡ ok start
        → discover_root fs disk.files start ≡ root
        → IsReliable fs root start)
      (yaml_laws : YamlLaws yaml) where
    -- Behind a `set` that failed the marked root is discovered again.
    discover_store-refused :
        (disk' : Disk W) (root : FilePath) (key : Key) (v : Text) (level : Level) (e : ConfigError)
        → discover_store system disk.files ≡ ok root
        → is_root fs disk.files root ≡ true
        → current_dir disk'.files ≡ current_dir disk.files
        → Access.set (ports fs yaml process_id root) disk key v level ≡ (err e, disk')
        → discover_store system disk'.files ≡ ok root
    unfolding discover_store ports
    discover_store-refused disk' root key v level e found marked stays h =
        elim (set-unwritten (ports fs yaml process_id root) disk disk' key v level e h) [
          | inl same ↦ rw same found
          | inr (n, wrote) ↦
              let (start, here, same) = discovered system disk.files root found in
              let sure = reliable root start here same in
              let again =
                discover_root-any_write fs root sure.laws yaml process_id disk level n start
                  sure.watched same marked in
              let after = ap (λ (r : Result (Unit {0}) ConfigError × Disk W). r.1) wrote in
              rw (stays, here) (ap ok (rw after at again))
        ]

    -- What is discovered and what every key resolves to are as before.
    record Unmoved (root : FilePath) (disk' : Disk W) : Type 0 where
      found_again : discover_store system disk'.files ≡ ok root
      resolved :
          (key : Key) (level : Option Level)
          → Access.get (ports fs yaml process_id root) disk' key level
            ≡ Access.get (ports fs yaml process_id root) disk key level

    refused-Unmoved :
        (disk' : Disk W) (root : FilePath) (raw v : Text) (level : Option Cli.Level)
        (e : ConfigError) (printed : Printed)
        → discover_store system disk.files ≡ ok root
        → is_root fs disk.files root ≡ true
        → current_dir disk'.files ≡ current_dir disk.files
        → ConfigCommand.run float_text
            (service (ports fs yaml process_id root))
            disk
            (ConfigAction.set raw v level)
          ≡ (printed, err e, disk')
        → Unmoved root disk'
    refused-Unmoved disk' root raw v level e printed found marked stays h =
        let p = ports fs yaml process_id root in
        let (start, here, at_root) = discovered system disk.files root found in
        let laws = (reliable root start here at_root).laws in
        elim (run-refused p disk disk' raw v level e printed h) [
          | inl same ↦ record { found_again = rw same found; resolved = λ key asked. rw same refl }
          | inr (key, at_level, refused) ↦ record {
            found_again =
                discover_store-refused disk' root key v at_level e found marked stays refused;
            resolved = λ other asked.
                get-set_err p (ports-IsStore fs root laws yaml process_id yaml_laws) disk disk' key
                  other v at_level asked e refused;
          }
        ]

    get-Unmoved :
        (get_args : List OsText) (disk' : Disk W) (root : FilePath) (raw : Text)
        (level : Option Cli.Level)
        → try_parse get_args ≡ ok (record { command = config (ConfigAction.get raw level) })
        → discover_store system disk.files ≡ ok root
        → Unmoved root disk'
        → ((main system get_args disk').0 ≡ (main system get_args disk).0)
          × ((main system get_args disk').1 ≡ (main system get_args disk).1)
    get-Unmoved get_args disk' root raw level parsed found still =
        let p = ports fs yaml process_id root in
        let r = ConfigCommand.run float_text (service p) disk (ConfigAction.get raw level) in
        let before =
          main-config system get_args (ConfigAction.get raw level) disk parsed
          ∙ ap (λ (x : Outcome (Disk W)). ended system (reported system x))
              (run-discovered system disk (ConfigAction.get raw level) root found) in
        let after =
          main-config system get_args (ConfigAction.get raw level) disk' parsed
          ∙ ap (λ (x : Outcome (Disk W)). ended system (reported system x))
              (run-discovered system disk' (ConfigAction.get raw level) root still.found_again
                ∙ run-get_same p disk disk' raw level
                    (λ key. still.resolved key (asked_level level))) in
        let (lines, exit) = ended-same r.0 r.1 r.2 disk' in
        (
          ap (λ (x : Printed × Ended × Disk W). x.0) after
              ∙ lines
              ∙ sym (ap (λ (x : Printed × Ended × Disk W). x.0) before),
          ap (λ (x : Printed × Ended × Disk W). x.1) after
              ∙ exit
              ∙ sym (ap (λ (x : Printed × Ended × Disk W). x.1) before),
        )

    -- Over a file system that keeps its promises at the paths of the store, as it is discovered from the
    -- working directory, and a YAML library that keeps its promises, in a project whose root is
    -- marked, where a run of `config set` exits with a failure and leaves the working directory, every
    -- run of `config get` behind it prints and exits as it would have before.
    pub main-get-set_err :
        (set_args get_args : List OsText) (root : FilePath) (raw v other : Text)
        (level asked : Option Cli.Level)
        → try_parse set_args ≡ ok (record { command = config (ConfigAction.set raw v level) })
        → try_parse get_args ≡ ok (record { command = config (ConfigAction.get other asked) })
        → discover_store system disk.files ≡ ok root
        → is_root fs disk.files root ≡ true
        → current_dir (main system set_args disk).2.files ≡ current_dir disk.files
        → (main system set_args disk).1 ≡ exited failure
        → ((main system get_args (main system set_args disk).2).0 ≡ (main system get_args disk).0)
          × ((main system get_args (main system set_args disk).2).1 ≡ (main system get_args disk).1)
    main-get-set_err set_args get_args root raw v other level asked set_args_parsed get_args_parsed
          found marked stays h =
        let p = ports fs yaml process_id root in
        let r = ConfigCommand.run float_text (service p) disk (ConfigAction.set raw v level) in
        let ran =
          main-config system set_args (ConfigAction.set raw v level) disk set_args_parsed
          ∙ ap (λ (x : Outcome (Disk W)). ended system (reported system x))
              (run-discovered system disk (ConfigAction.set raw v level) root found) in
        let (e, bad) = ended-failure r (rw ran at h) in
        let after : (main system set_args disk).2 ≡ r.2 =
          ap (λ (x : Printed × Ended × Disk W). x.2) ran ∙ ended-state r in
        rw after (
          get-Unmoved get_args r.2 root other asked get_args_parsed found (
            refused-Unmoved r.2 root raw v level e r.0 found marked (rw after at stays)
              (ap (λ (x : Result (Unit {0}) ConfigError). (r.0, x, r.2)) bad)))
