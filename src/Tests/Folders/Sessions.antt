-- ===== src/Tests/Folders/Sessions.antt =====
-- Two runs of the program in a project that has no configuration yet.
use luminosity.Base.{
  true, false, text_eq, codes, decimal, List, [], ◌∷◌, Option, none, some, ok, err, is_whitespace,
  ◌≡◌, refl,
}
use luminosity.Adapters.Store.Operations.Nearest.{IsReliable}
use luminosity.Platform.Path.{FilePath, join, parent, starts_with, strip_prefix, behind}
use luminosity.Config.Level.{qualifier}
use luminosity.Config.Key.Parse.{parse}
use luminosity.Config.Node.Entries
use luminosity.Config.Service.{insert, set_leaf, set_leaf_at}
use luminosity.Config.Service.Access
use luminosity.Config.Service.Access.{set_read, write_back, root_of}
use luminosity.Config.Service.Driver.{service}
use luminosity.Adapters.Frontmatter.{is_fence, collect, close, split_segments, split}
use luminosity.Adapters.Document.{
  visit, serialize, to_node, to_parsed, parse_frontmatter, kept_body, preserved_body, render, emit,
  with_newline,
}
use luminosity.Adapters.Store.{
  config_dir, file_name, config_path, unless_missing, malformed, canonical, is_symlink, escapes,
  refuse, check_parent, check_leaf, refuse_escaping_path, read_and_split,
}
use luminosity.Adapters.Store.Operations.{
  is_root, first_root, discover_root, Disk, read, rendered, temp_dir, temp_path, temp_name,
  atomic_write, write_level, ports,
}
use luminosity.Launcher.Cli
use luminosity.Launcher.Cli.{Cli, ConfigAction, config, config_level}
use luminosity.Launcher.External.{OsText}
use luminosity.Launcher.ConfigCommand
use luminosity.Launcher.ConfigCommand.{set_parsed, asked_level, or_personal}
use luminosity.Launcher.ConfigCommand.RoundTrip.{one_line, or_default}
use luminosity.Launcher.Dispatch.{dispatch}
use luminosity.Launcher.Resolve.Cache.{CacheFiles}
use luminosity.Launcher.Resolve.CacheRoot.{nonempty}
use luminosity.Launcher.Main.{
  exited, success, discover_store, set_at, lazy_access, services_with, services_by, services, run,
  ended, parsed, installed, install_crypto_provider, main,
}
use luminosity.Launcher.System.{System}
use luminosity.Launcher.Main.RoundTrip.{main-get-set}
use luminosity.Tests.Disks
use luminosity.Tests.Disks.{
  Files, path_eq, lookup, removed, renamed, yaml, yaml_from_str, yaml_to_string, yaml_map,
  yaml_entry, yaml-YamlLaws,
}
use luminosity.Tests.Releases.{crypto, json, identity, served}
use luminosity.Tests.Folders.{
  denied, folders, in_directory, place, a_file, look, create, put, kept_some, move, drop,
}
use luminosity.Tests.Folders.Laws.{folders-IsReliable, root}

-- No cache can be used.
abbrev pub no_cache : CacheFiles (Option Files)
no_cache = record {
  read = λ w p. err denied;
  read_to_string = λ w p. err denied;
  read_dir = λ w p. none;
  exists = λ w p. false;
  create_dir_all = λ w p. (err denied, w);
  write = λ w p t. (err denied, w);
  set_executable = λ w p. (err denied, w);
  rename = λ w from target. (err denied, w);
  remove_file = λ w p. (err denied, w);
}

-- `config set a b` where there are no arguments, and else `config get a --level personal`.
unfoldable pub command_of : List OsText → ConfigAction
command_of [] = ConfigAction.set (codes "a") (codes "b") none
command_of (_ ∷ _) = ConfigAction.get (codes "a") (some Cli.personal)

abbrev pub session : System (Option Files)
session = record {
  fs = folders;
  cache_files = no_cache;
  status = λ w p. none;
  current_dir = λ w. ok root;
  env = λ name. none;
  path_of = λ text. record { absolute = true; components = text.lossy ∷ [] };
  process_id = 7;
  system_exec = λ program args. none;
  network = served;
  client = ok tt;
  try_parse = λ args. ok (record { command = config (command_of args) });
  help = λ section. [];
  build = record {
    cargo_pkg_version = codes "1.0";
    vergen_git_sha = none;
    vergen_build_timestamp = none;
    vergen_cargo_target_triple = none;
  };
  host_platform = codes "linux";
  is_macos = false;
  release_key = codes "key";
  crypto = crypto;
  json = json;
  from_utf8_lossy = identity;
  yaml = yaml;
  float_text = λ bits. [];
}

abbrev new_project : Disk (Option Files)
new_project = record { files = none; write_counter = 0 }

abbrev pub any_argument : List OsText
any_argument = record { lossy = codes "get"; is_unicode = true } ∷ []

set_succeeds : (main session [] new_project).1 ≡ exited success
unfolding main installed install_crypto_provider parsed ended run services services_by services_with
    dispatch ConfigCommand.run ConfigCommand.set set_parsed parse asked_level or_personal
    lazy_access set_at discover_store discover_root first_root is_root nonempty command_of service
    Access.set set_read write_back root_of insert set_leaf set_leaf_at Entries.get Entries.put_found
    Entries.push Entries.upsert ports read rendered write_level atomic_write temp_dir temp_path
    temp_name render kept_body preserved_body emit with_newline yaml_to_string yaml_map yaml_entry
    to_parsed serialize refuse_escaping_path canonical check_parent check_leaf is_symlink escapes
    refuse unless_missing malformed read_and_split split split_segments collect close is_fence
    text_eq is_whitespace parse_frontmatter yaml_from_str visit to_node config_path config_dir join
    file_name qualifier parent starts_with strip_prefix behind folders in_directory place a_file
    look create put kept_some move drop lookup removed renamed path_eq Disks.names_eq Disks.bool_eq
    decimal
set_succeeds = refl

or_default-none : or_default none ≡ Cli.personal
unfolding or_default
or_default-none = refl

get_is_parsed :
    session.try_parse any_argument
    ≡ ok (record { command = config (ConfigAction.get (codes "a") (some (or_default none))) })
unfolding command_of
get_is_parsed = rw or_default-none refl

set_is_parsed :
    session.try_parse []
    ≡ ok (record { command = config (ConfigAction.set (codes "a") (codes "b") none) })
unfolding command_of
set_is_parsed = refl

root-IsReliable :
    (found start : FilePath)
    → session.current_dir new_project.files ≡ ok start
    → discover_root folders new_project.files start ≡ found
    → IsReliable folders found start
root-IsReliable found start here same = folders-IsReliable found start

main-get-set_example :
    main session any_argument (main session [] new_project).2
    ≡ (one_line (codes "b"), exited success, (main session [] new_project).2)
main-get-set_example =
    main-get-set session new_project root-IsReliable yaml-YamlLaws [] any_argument (codes "a")
      (codes "b") none set_is_parsed get_is_parsed refl set_succeeds
