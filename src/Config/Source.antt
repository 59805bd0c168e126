-- ===== src/Config/Source.antt =====
-- cli/config/src/source.rs: which document a fragment comes from, and the validated skill name.
pub mod Names
use luminosity.Base.{
  ℕ, Bool, not, ◌&&◌, ◌||◌, Text, Result, ok, err, leb, ◌==◌, is_empty, all, if◌then◌else◌,
}
use luminosity.Config.Error.{ConfigError, invalid_skill_name}

pub record SkillName : Type 0 where
  pub name : Text

-- `char::is_ascii_alphanumeric`
abbrev is_ascii_alphanumeric : ℕ → Bool
is_ascii_alphanumeric c =
    (leb b'0' c && leb c b'9') || (leb b'A' c && leb c b'Z') || (leb b'a' c && leb c b'z')

unfoldable pub permitted : ℕ → Bool
permitted c = is_ascii_alphanumeric c || c == b'-' || c == b'_'

unfoldable pub parse : Text → Result SkillName ConfigError
parse raw =
    if is_empty raw || not (all permitted raw)
    then err (invalid_skill_name raw)
    else ok (record { name = raw })

unfoldable pub as_str : SkillName → Text
as_str skill = skill.name

-- `Display for SkillName`
unfoldable pub display : SkillName → Text
display skill = skill.name

pub data FragmentSource : Type 0 where
  project_context : FragmentSource
  skill_context : SkillName → FragmentSource
  skill_instructions : SkillName → FragmentSource
