-- ===== src/Tests/Files.antt =====
-- A project on the disk of the tests.
use luminosity.Base.{
  ◌⊎◌, true, Text, text_eq, codes, [], ◌∷◌, some, ok, err, ◌≡◌, refl, is_whitespace,
}
use luminosity.Platform.Path.{FilePath, join, parent, behind, strip_prefix, starts_with, display}
use luminosity.Config.Level.{team, qualifier}
use luminosity.Config.Error.{ConfigError}
use luminosity.Config.Source.{FragmentSource, project_context, skill_context}
use luminosity.Config.Node.{Node, mapping, scalar, string, empty, entry}
use luminosity.Config.Fragment.{LevelBody}
use luminosity.Config.Node.Entries.Clean.{IsClean}
use luminosity.Adapters.Document.Rendering.{IsDocument}
use luminosity.Adapters.Frontmatter.{Split, is_fence, collect, close, split_segments, split}
use luminosity.Adapters.Document.{
  visit, serialize, to_node, to_parsed, parse_frontmatter, kept_body, preserved_body, render, emit,
  with_newline,
}
use luminosity.Adapters.Store.{
  config_dir, file_name, config_path, fragment_path, relative, unless_missing, malformed, canonical,
  is_symlink, escapes, refuse, check_parent, check_leaf, refuse_escaping_path, read_and_split,
}
use luminosity.Adapters.Store.Operations.{
  is_root, first_root, discover_root, Disk, is_mapping, body_of, read_fragment_body, read,
  read_body, rendered, write_level,
}
use luminosity.Adapters.Store.Operations.Writing.{write_level-Replaced}
use luminosity.Adapters.Store.Containment.{
  IsContained, read_body-IsContained, write_level-IsContained,
}
use luminosity.Adapters.Store.Discovery.{Nearest, Unmarked, discover_root-Nearest}
use luminosity.Adapters.Store.Bodies.{BodyOf, read_fragment_body-BodyOf, prose_is_dropped}
use luminosity.Tests.Disks.{
  Files, disk, disk-FileLaws, lookup, there, path_eq, yaml, yaml-YamlLaws, yaml_from_str,
  yaml_to_string, yaml_map,
}

abbrev root : FilePath
root = record { absolute = true; components = codes "p" ∷ [] }

abbrev team_file : FilePath
team_file = record {
  absolute = true;
  components = codes "p" ∷ codes ".luminosity" ∷ codes "config.md" ∷ [];
}

-- A team file that opens with a mapping.
abbrev project : Files
project = (team_file, codes "---\na: b\n---\nbody\n") ∷ []

config_path-team : config_path root team ≡ team_file
unfolding config_path config_dir join file_name qualifier
config_path-team = refl

abbrev document : Node
document = mapping (entry (codes "a") (scalar (string (codes "b"))) empty)

read-project : read disk yaml 1 root project team ≡ ok (some document)
unfolding read refuse_escaping_path canonical check_parent check_leaf is_symlink escapes refuse
    read_and_split unless_missing malformed split split_segments collect close is_fence text_eq
    is_whitespace parse_frontmatter yaml_from_str visit to_node config_path config_dir join
    file_name qualifier parent starts_with strip_prefix behind disk there lookup path_eq
read-project = refl

read_fragment_body-project :
    read_fragment_body disk yaml 1 root project team_file ≡ ok (some (codes "body\n"))
unfolding read_fragment_body body_of is_mapping refuse_escaping_path canonical check_parent
    check_leaf is_symlink escapes refuse read_and_split unless_missing malformed split
    split_segments collect close is_fence text_eq is_whitespace parse_frontmatter yaml_from_str
    visit to_node config_dir join parent starts_with strip_prefix behind disk there lookup path_eq
read_fragment_body-project = refl

abbrev team_body : LevelBody
team_body = record { path = codes ".luminosity/config.md"; body = some (codes "body\n") }

read_body-project : read_body disk yaml 1 root project project_context team ≡ ok team_body
unfolding read_body relative fragment_path display read_fragment_body body_of is_mapping
    refuse_escaping_path canonical check_parent check_leaf is_symlink escapes refuse read_and_split
    unless_missing malformed split split_segments collect close is_fence text_eq is_whitespace
    parse_frontmatter yaml_from_str visit to_node config_path config_dir join file_name qualifier
    parent starts_with strip_prefix behind disk there lookup path_eq
read_body-project = refl

rendered-project :
    rendered disk yaml 1 root project team (mapping empty) ≡ ok (codes "---\n{}\n---\nbody\n")
unfolding rendered render kept_body preserved_body emit with_newline yaml_to_string yaml_map
    to_parsed serialize refuse_escaping_path canonical check_parent check_leaf is_symlink escapes
    refuse unless_missing malformed split split_segments collect close is_fence text_eq
    is_whitespace parse_frontmatter yaml_from_str visit to_node config_path config_dir join
    file_name qualifier parent starts_with strip_prefix behind disk there lookup path_eq
rendered-project = refl

read_body-IsContained_example :
    IsContained disk root project (fragment_path root project_context team)
read_body-IsContained_example =
    read_body-IsContained disk yaml 1 root project project_context team team_body read_body-project

write_level-IsContained_example :
    IsContained disk root project (config_path root team)
    ⊎ ((e : ConfigError) × (write_level disk yaml 1 root
            (record { files = project; write_counter = 0 })
            team
            (mapping empty)
          ≡ (err e, record { files = project; write_counter = 0 })))
write_level-IsContained_example =
    write_level-IsContained disk yaml 1 root (record { files = project; write_counter = 0 }) team
      (mapping empty)

read_fragment_body-BodyOf_example :
    (content : Text) × (disk.read_to_string project team_file ≡ ok content)
    × BodyOf yaml content (codes "body\n")
read_fragment_body-BodyOf_example =
    read_fragment_body-BodyOf disk yaml 1 root project team_file (codes "body\n")
      read_fragment_body-project

abbrev on_disk : Disk Files
on_disk = record { files = project; write_counter = 0 }

write_level-Replaced_example :
    ((write_level disk yaml 1 root on_disk team (mapping empty)).0 ≡ ok tt
      → (text : Text) × (rendered disk yaml 1 root project team (mapping empty) ≡ ok text)
        × (disk.read_to_string
              (write_level disk yaml 1 root on_disk team (mapping empty)).1.files
              (config_path root team)
            ≡ ok text))
    × ((e : ConfigError)
        → (write_level disk yaml 1 root on_disk team (mapping empty)).0 ≡ err e
        → disk.read_to_string
            (write_level disk yaml 1 root on_disk team (mapping empty)).1.files
            (config_path root team)
          ≡ disk.read_to_string project (config_path root team))
write_level-Replaced_example =
    write_level-Replaced disk root (disk-FileLaws root) yaml 1 on_disk team (mapping empty)

abbrev skill : FragmentSource
skill = skill_context (record { name = codes "plan" })

abbrev prose_file : Text
prose_file = codes "---\nprose\n---\nbody\n"

abbrev prose_parts : Split
prose_parts = record { frontmatter = codes "prose\n"; body = codes "body\n" }

abbrev prose : Node
prose = scalar (string (codes "prose"))

split-prose : split prose_file ≡ ok prose_parts
unfolding split split_segments collect close is_fence text_eq
split-prose = refl

parse_frontmatter-prose : parse_frontmatter yaml (codes "prose\n") ≡ ok prose
unfolding parse_frontmatter yaml_from_str visit to_node text_eq is_whitespace
parse_frontmatter-prose = refl

abbrev overwritten : Text
overwritten = codes "---\n{}\n---\nbody\n"

render-prose : render yaml (some prose_file) (mapping empty) ≡ ok overwritten
unfolding render kept_body preserved_body split split_segments collect close is_fence text_eq
    parse_frontmatter emit with_newline yaml_from_str yaml_to_string yaml_map is_whitespace visit
    to_node to_parsed serialize
render-prose = refl

empty-IsDocument : IsDocument yaml yaml-YamlLaws (mapping empty)
unfolding IsClean
empty-IsDocument = tt

-- The prose line is in the body before the write and gone after it.
prose_is_dropped_example :
    (body_of yaml prose_file prose_parts ≡ prose_file)
    × ((after : Split) × (split overwritten ≡ ok after)
        × (body_of yaml overwritten after ≡ codes "body\n"))
prose_is_dropped_example =
    prose_is_dropped yaml yaml-YamlLaws prose_file prose_parts prose empty overwritten split-prose
      parse_frontmatter-prose (λ m e. cc) empty-IsDocument render-prose

-- A directory below the project.
abbrev inside : FilePath
inside = record { absolute = true; components = codes "p" ∷ codes "src" ∷ [] }

discover_root-Nearest_example :
    Nearest disk project inside (discover_root disk project inside)
    ⊎ (Unmarked disk project inside × (discover_root disk project inside ≡ inside))
discover_root-Nearest_example = discover_root-Nearest disk project inside

-- A test: the project is found from below.
discover_root-inside : discover_root disk project inside ≡ root
unfolding discover_root first_root is_root parent disk there starts_with strip_prefix behind join
    text_eq
discover_root-inside = refl
