-- ===== src/Tests/Folders/Conflicts.antt =====
-- A `config set` below a key that holds a text, and the `config get` behind it.
use luminosity.Base.{
  true, text_eq, codes, decimal, List, [], ◌∷◌, Option, none, some, ok, is_whitespace, ◌≡◌, refl,
}
use luminosity.Platform.Path.{join, parent, starts_with, strip_prefix, behind}
use luminosity.Config.Error.{to_kernel_error}
use luminosity.Config.Level.{qualifier}
use luminosity.Config.Key.Parse.{parse}
use luminosity.Config.Node.Entries
use luminosity.Config.Service.{insert, set_leaf, set_leaf_at, descend_for_insert}
use luminosity.Config.Service.Access
use luminosity.Config.Service.Access.{set_read, write_back, root_of}
use luminosity.Config.Service.Driver.{service}
use luminosity.Adapters.Frontmatter.{is_fence, collect, close, split_segments, split}
use luminosity.Adapters.Document.{visit, to_node, parse_frontmatter}
use luminosity.Adapters.Store.{
  config_dir, file_name, config_path, unless_missing, malformed, canonical, is_symlink, escapes,
  refuse, check_parent, check_leaf, refuse_escaping_path, read_and_split,
}
use luminosity.Adapters.Store.Operations.{is_root, first_root, discover_root, Disk, read, ports}
use luminosity.Launcher.Cli.{ConfigAction, config}
use luminosity.Launcher.External.{OsText}
use luminosity.Launcher.ConfigCommand
use luminosity.Launcher.ConfigCommand.{set_parsed, asked_level, or_personal}
use luminosity.Launcher.Dispatch.{dispatch}
use luminosity.Launcher.Resolve.CacheRoot.{nonempty}
use luminosity.Launcher.System.{System}
use luminosity.Launcher.Main.{
  exited, failure, discover_store, set_at, lazy_access, services_with, services_by, services, run,
  ended, parsed, installed, install_crypto_provider, main,
}
use luminosity.Launcher.Main.Refusing.{main-get-set_err}
use luminosity.Tests.Disks
use luminosity.Tests.Disks.{Files, path_eq, lookup, yaml_from_str, yaml-YamlLaws}
use luminosity.Tests.Folders.{folders, in_directory, place, a_file, look}
use luminosity.Tests.Folders.Laws.{folders-IsReliable, root}
use luminosity.Tests.Folders.Sessions.{session, any_argument}

-- `config set a.c d` where there are no arguments, and else `config get a`.
unfoldable conflicting : List OsText → ConfigAction
conflicting [] = ConfigAction.set (codes "a.c") (codes "d") none
conflicting (_ ∷ _) = ConfigAction.get (codes "a") none

abbrev refusing : System (Option Files)
refusing = record session {
  try_parse = λ args. ok (record { command = config (conflicting args) });
}

-- The personal level has a text under `a`.
abbrev configured : Disk (Option Files)
configured = record {
  files = some (
      (
        record {
          absolute = true;
          components = codes "p" ∷ codes ".luminosity" ∷ codes "config.local.md" ∷ [];
        },
        codes "---\na: b\n---\n",
      )
      ∷ []);
  write_counter = 0;
}

configured-root : discover_store refusing configured.files ≡ ok root
unfolding discover_store discover_root first_root is_root parent folders place in_directory look
    a_file starts_with strip_prefix behind text_eq path_eq Disks.names_eq Disks.bool_eq join lookup
configured-root = refl

configured-is_root : is_root folders configured.files root ≡ true
unfolding is_root folders place in_directory look a_file starts_with strip_prefix behind text_eq
    path_eq Disks.names_eq Disks.bool_eq join lookup
configured-is_root = refl

set_fails : (main refusing [] configured).1 ≡ exited failure
unfolding main installed install_crypto_provider parsed ended run services services_by services_with
    dispatch ConfigCommand.run ConfigCommand.set set_parsed parse asked_level or_personal
    lazy_access set_at discover_store discover_root first_root is_root nonempty conflicting service
    Access.set set_read write_back root_of insert set_leaf set_leaf_at descend_for_insert
    Entries.get ports read refuse_escaping_path canonical check_parent check_leaf is_symlink escapes
    refuse unless_missing malformed read_and_split split split_segments collect close is_fence
    text_eq is_whitespace parse_frontmatter yaml_from_str visit to_node config_path config_dir join
    file_name qualifier parent starts_with strip_prefix behind folders in_directory place a_file
    look lookup path_eq Disks.names_eq Disks.bool_eq decimal to_kernel_error
set_fails = refl

set_is_parsed :
    refusing.try_parse []
    ≡ ok (record { command = config (ConfigAction.set (codes "a.c") (codes "d") none) })
unfolding conflicting
set_is_parsed = refl

get_is_parsed :
    refusing.try_parse any_argument
    ≡ ok (record { command = config (ConfigAction.get (codes "a") none) })
unfolding conflicting
get_is_parsed = refl

main-get-set_err_example :
    ((main refusing any_argument (main refusing [] configured).2).0
      ≡ (main refusing any_argument configured).0)
    × ((main refusing any_argument (main refusing [] configured).2).1
        ≡ (main refusing any_argument configured).1)
main-get-set_err_example =
    main-get-set_err refusing configured (λ r start here same. folders-IsReliable r start)
      yaml-YamlLaws [] any_argument root (codes "a.c") (codes "d") (codes "a") none none
      set_is_parsed get_is_parsed configured-root configured-is_root refl set_fails
