-- ===== src/Tests/Fragments.antt =====
-- Bodies, and a reader with one body at the team level.
use mathlib.Core.Option.{bind}
use luminosity.Base.{
  true, false, Text, codes, none, some, Result, ok, err, is_whitespace, split_inclusive, slice, ◌≡◌,
  refl,
}
use luminosity.Config.Error.{ConfigError, io}
use luminosity.Config.Level.{Level, team, personal}
use luminosity.Config.Source.{FragmentSource, project_context}
use luminosity.Config.Fragment.{
  LevelBody, Assembly, Reader, content, is_blank, scan, cut, trim_checked, trim_blank_lines,
  unwrap_or_default, join_parts, combine, contribution, to_fragment, assembled, assemble,
}
use luminosity.Config.Fragment.Trim.{without_blank_ends, trim_checked-without_blank_ends}
use luminosity.Config.Fragment.Assembling.{Assembled, assemble-Assembled}

abbrev padded : Text
padded = codes "\n \r\n  a\n\nb\r\n\n"

trim_checked-without_blank_ends_example :
    trim_checked padded ≡ some (without_blank_ends (split_inclusive b'\n' padded))
trim_checked-without_blank_ends_example = trim_checked-without_blank_ends padded

-- A test: indentation and inner blank lines stay.
without_blank_ends-padded : trim_checked padded ≡ some (codes "  a\n\nb")
unfolding trim_checked cut scan is_blank content is_whitespace slice bind
without_blank_ends-padded = refl

abbrev pub failure : ConfigError
failure = io (codes "f") (codes "denied")

-- The project has a team body; a skill's files cannot be read.
unfoldable pub test_read : FragmentSource → Level → Result LevelBody ConfigError
test_read project_context team = ok (record { path = codes "t"; body = some (codes "hi\n") })
test_read project_context personal = ok (record { path = codes "p"; body = none })
test_read _ _ = err failure

abbrev pub test_reader : Reader
test_reader = record {
  read_body = test_read;
  locate = λ source. ok (record { root = codes "/r"; paths = (codes "t", codes "p") });
}

abbrev pub test_assembly : Assembly
test_assembly = record {
  fragment = some (record { body = codes "hi" });
  levels = (
    record { level = team; path = codes "t"; discovered = true; has_body = true },
    record { level = personal; path = codes "p"; discovered = false; has_body = false },
  );
}

pub assemble-test : assemble test_reader project_context ≡ ok test_assembly
unfolding assemble assembled test_read to_fragment combine join_parts contribution unwrap_or_default
    trim_blank_lines trim_checked cut scan is_blank content is_whitespace slice bind
assemble-test = refl

assemble-Assembled_example :
    (shared : LevelBody) × (own : LevelBody) × (test_read project_context team ≡ ok shared)
    × (test_read project_context personal ≡ ok own)
    × Assembled shared own test_assembly
assemble-Assembled_example =
    assemble-Assembled test_reader project_context test_assembly assemble-test
