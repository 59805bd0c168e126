-- ===== src/Launcher/Context.antt =====
-- cli/launcher/src/context_command/inbound/cli.rs
pub mod FailSafe
pub mod Streams
use luminosity.Base.{
  Bool, Text, codes, List, [], ◌∷◌, ◌++◌, Option, none, some, Result, ok, err, ◌>>=◌, join,
  if◌then◌else◌,
}
use luminosity.Config.Error
use luminosity.Config.Error.{ConfigError}
use luminosity.Config.Source
use luminosity.Config.Source.{SkillName, FragmentSource, project_context, skill_context}
use luminosity.Config.Fragment.{Fragment, Assembler}
use luminosity.Launcher.Support.{
  OnFailure, Outcome, assembled, degraded, SkillResolution, parsed, invalid, assemble,
  resolve_skill_name, degrade_explain, explain_lines, degraded_source_lines, invalid_skill_line,
  Printed, with_lines,
}

abbrev prose : Text
prose =
    codes
      "The following project-specific context has been provided. Take this into\naccount when making decisions, selecting approaches, and generating output."

abbrev unavailable_prose : Text
unavailable_prose =
    codes
      "The project-specific context for this repository could not be read, so none has\nbeen provided. Report the error below to the user and continue without project\ncontext."

abbrev skill_unavailable_prose : Text
skill_unavailable_prose =
    codes
      "The context specific to this skill could not be read, so none has been provided.\nReport the error below to the user and continue without skill-specific context."

pub record Options : Type 0 where
  pub skill : Option Text
  pub explain : Bool
  pub on_failure : OnFailure

pub data ContextSource : Type 0 where
  project : ContextSource
  skill : SkillName → ContextSource

unfoldable pub fragment_source : ContextSource → FragmentSource
fragment_source project = project_context
fragment_source (skill name) = skill_context name

pub data Section : Type 0 where
  resolved : ContextSource → Outcome → Section
  unresolved : ConfigError → Section

pub record Resolution : Type 0 where
  pub project_section : Section
  pub skill_section : Option Section

unfoldable pub skill_prose : SkillName → Text
skill_prose name =
    codes "The following context is specific to the "
    ++ (Source.display name
        ++ codes " skill. Apply this\ncontext in addition to any project-wide context above.")

unfoldable pub render_project : Fragment → Text
render_project context = codes "## Project Context\n\n" ++ (prose ++ (codes "\n\n" ++ context.body))

unfoldable pub render_skill : SkillName → Fragment → Text
render_skill name context =
    codes "## Skill-Specific Context\n\n" ++ (skill_prose name ++ (codes "\n\n" ++ context.body))

unfoldable pub render_project_unavailable : ConfigError → Text
render_project_unavailable error =
    codes "## Project Context Unavailable\n\n"
    ++ (unavailable_prose ++ (codes "\n\n" ++ Error.display error))

unfoldable pub render_skill_unavailable : ConfigError → Text
render_skill_unavailable error =
    codes "## Skill-Specific Context Unavailable\n\n"
    ++ (skill_unavailable_prose ++ (codes "\n\n" ++ Error.display error))

-- `into_iter().flatten()`
abbrev pub flatten_onto : Option Text → List Text → List Text
flatten_onto none rest = rest
flatten_onto (some block) rest = block ∷ rest

-- `if blocks.is_empty() { None } else { Some(blocks.join("\n\n")) }`
unfoldable pub join_nonempty : List Text → Option Text
join_nonempty [] = none
join_nonempty (block ∷ blocks) = some (join (codes "\n\n") (block ∷ blocks))

unfoldable pub join_blocks : Option Text → Option Text → Option Text
join_blocks project_block skill_block =
    join_nonempty (flatten_onto project_block (flatten_onto skill_block []))

unfoldable pub render : ContextSource → Fragment → Text
render project context = render_project context
render (skill name) context = render_skill name context

unfoldable pub render_unavailable : ContextSource → ConfigError → Text
render_unavailable project error = render_project_unavailable error
render_unavailable (skill name) error = render_skill_unavailable error

unfoldable pub block : ContextSource → Outcome → Option Text
block source (assembled assembly) = elim assembly.fragment [
  | none ↦ none
  | some context ↦ some (render source context)
]
block source (degraded error) = some (render_unavailable source error)

unfoldable pub section_block : Section → Option Text
section_block (resolved source outcome) = block source outcome
section_block (unresolved error) = some (render_skill_unavailable error)

-- `println!` of the output, if there is any
abbrev pub println : Option Text → List Text
println none = []
println (some output) = output ∷ []

-- `skill.as_ref().and_then(section_block)`
abbrev pub skill_block_of : Option Section → Option Text
skill_block_of none = none
skill_block_of (some section) = section_block section

unfoldable pub output_of : Resolution → List Text
output_of r =
    println (join_blocks (section_block r.project_section) (skill_block_of r.skill_section))

module _ (assembler : Assembler) where
  unfoldable pub resolve_project : Options → Result Section ConfigError
  resolve_project options = do
    outcome ← assemble assembler (fragment_source project) options.on_failure
    ok (resolved project outcome)

  -- The end of `resolve_skill`, on the resolution of the name.
  unfoldable pub resolve_named : Options → SkillResolution → Result (Option Section) ConfigError
  resolve_named options (invalid error) = ok (some (unresolved error))
  resolve_named options (parsed name) = do
    outcome ← assemble assembler (fragment_source (skill name)) options.on_failure
    ok (some (resolved (skill name) outcome))

  unfoldable pub resolve_skill_at : Option Text → Options → Result (Option Section) ConfigError
  resolve_skill_at none options = ok none
  resolve_skill_at (some raw) options =
      resolve_skill_name raw options.on_failure >>= resolve_named options

  unfoldable pub resolve_skill : Options → Result (Option Section) ConfigError
  resolve_skill options = resolve_skill_at options.skill options

  unfoldable pub resolve : Options → Result Resolution ConfigError
  resolve options = do
    p ← resolve_project options
    s ← resolve_skill options
    ok (record { project_section = p; skill_section = s })

  unfoldable pub source_lines : ContextSource → Outcome → Result (List Text) ConfigError
  source_lines source (assembled assembly) = ok (explain_lines assembly.levels)
  source_lines source (degraded error) = do
    location ← assembler.locate (fragment_source source)
    ok (degraded_source_lines error location.paths)

  unfoldable pub section_lines : Section → Result (List Text) ConfigError
  section_lines (resolved source outcome) = source_lines source outcome
  section_lines (unresolved error) = ok (invalid_skill_line error ∷ [])

  unfoldable pub skill_lines : Option Section → Result (List Text) ConfigError
  skill_lines none = ok []
  skill_lines (some section) = section_lines section

  unfoldable pub explain : Section → Option Section → Result (List Text) ConfigError
  explain project_section skill_section = do
    location ← assembler.locate project_context
    lines ← section_lines project_section
    more ← skill_lines skill_section
    ok ((codes "root: " ++ location.root) ∷ (lines ++ more))

  -- `run` behind `resolve`
  unfoldable pub present : Options → Resolution → Printed × Result (Unit {0}) ConfigError
  present options r =
      if options.explain
      then with_lines (output_of r)
          (degrade_explain (explain r.project_section r.skill_section) options.on_failure)
      else with_lines (output_of r) (ok [])

  unfoldable pub present_resolved :
      Options → Result Resolution ConfigError → Printed × Result (Unit {0}) ConfigError
  present_resolved options (ok r) = present options r
  present_resolved options (err e) = with_lines [] (err e)

  unfoldable pub run : Options → Printed × Result (Unit {0}) ConfigError
  run options = present_resolved options (resolve options)
