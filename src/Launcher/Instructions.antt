-- ===== src/Launcher/Instructions.antt =====
-- cli/launcher/src/instructions_command/inbound/cli.rs
pub mod FailSafe
use luminosity.Base.{
  Bool, Text, codes, List, [], ◌∷◌, ◌++◌, Option, none, some, Result, ok, err, ◌>>=◌, if◌then◌else◌,
}
use luminosity.Config.Error
use luminosity.Config.Error.{ConfigError}
use luminosity.Config.Source
use luminosity.Config.Source.{SkillName, FragmentSource, skill_instructions}
use luminosity.Config.Fragment.{Fragment, Assembler}
use luminosity.Launcher.Support.{
  OnFailure, Outcome, assembled, degraded, SkillResolution, parsed, invalid, assemble,
  resolve_skill_name, degrade_explain, explain_lines, degraded_source_lines, invalid_skill_line,
  Printed, with_lines,
}

abbrev unavailable_prose : Text
unavailable_prose =
    codes
      "The additional instructions for this skill could not be read, so none have been\nprovided. Report the error below to the user and continue without them."

pub record Options : Type 0 where
  pub skill : Option Text
  pub explain : Bool
  pub on_failure : OnFailure

pub data Section : Type 0 where
  resolved : SkillName → Outcome → Section
  unresolved : ConfigError → Section

unfoldable pub instructions_prose : SkillName → Text
instructions_prose name =
    codes "The following additional instructions have been provided for the\n"
    ++ (Source.display name
        ++ codes " skill. Follow these instructions in addition to all\ninstructions above.")

unfoldable pub render_instructions : SkillName → Fragment → Text
render_instructions name fragment =
    codes "## Additional Instructions\n\n"
    ++ (instructions_prose name ++ (codes "\n\n" ++ fragment.body))

unfoldable pub render_instructions_unavailable : ConfigError → Text
render_instructions_unavailable error =
    codes "## Additional Instructions Unavailable\n\n"
    ++ (unavailable_prose ++ (codes "\n\n" ++ Error.display error))

unfoldable pub block : SkillName → Outcome → Option Text
block name (assembled assembly) = elim assembly.fragment [
  | none ↦ none
  | some fragment ↦ some (render_instructions name fragment)
]
block name (degraded error) = some (render_instructions_unavailable error)

unfoldable pub section_block : Section → Option Text
section_block (resolved name outcome) = block name outcome
section_block (unresolved error) = some (render_instructions_unavailable error)

abbrev pub println : Option Text → List Text
println none = []
println (some output) = output ∷ []

-- `if let Some(block) = section.as_ref().and_then(section_block) { println!("{block}"); }`
unfoldable pub output_of : Option Section → List Text
output_of none = []
output_of (some section) = println (section_block section)

module _ (assembler : Assembler) where
  -- The end of `resolve`, on the resolution of the name.
  unfoldable pub resolve_named : Options → SkillResolution → Result (Option Section) ConfigError
  resolve_named options (invalid error) = ok (some (unresolved error))
  resolve_named options (parsed name) = do
    outcome ← assemble assembler (skill_instructions name) options.on_failure
    ok (some (resolved name outcome))

  unfoldable pub resolve_at : Option Text → Options → Result (Option Section) ConfigError
  resolve_at none options = ok none
  resolve_at (some raw) options =
      resolve_skill_name raw options.on_failure >>= resolve_named options

  unfoldable pub resolve : Options → Result (Option Section) ConfigError
  resolve options = resolve_at options.skill options

  unfoldable pub source_lines : FragmentSource → Outcome → Result (List Text) ConfigError
  source_lines source (assembled assembly) = ok (explain_lines assembly.levels)
  source_lines source (degraded error) = do
    location ← assembler.locate source
    ok (degraded_source_lines error location.paths)

  unfoldable pub explain : Option Section → Result (List Text) ConfigError
  explain none = ok []
  explain (some (unresolved error)) = ok (invalid_skill_line error ∷ [])
  explain (some (resolved name outcome)) = do
    location ← assembler.locate (skill_instructions name)
    lines ← source_lines (skill_instructions name) outcome
    ok ((codes "root: " ++ location.root) ∷ lines)

  -- `run` behind `resolve`
  unfoldable pub present : Options → Option Section → Printed × Result (Unit {0}) ConfigError
  present options section =
      if options.explain
      then with_lines (output_of section) (degrade_explain (explain section) options.on_failure)
      else with_lines (output_of section) (ok [])

  unfoldable pub present_resolved :
      Options → Result (Option Section) ConfigError → Printed × Result (Unit {0}) ConfigError
  present_resolved options (ok section) = present options section
  present_resolved options (err e) = with_lines [] (err e)

  unfoldable pub run : Options → Printed × Result (Unit {0}) ConfigError
  run options = present_resolved options (resolve options)
