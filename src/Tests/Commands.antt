-- ===== src/Tests/Commands.antt =====
-- The commands over a project whose own context can be read and whose skills' files cannot.
use luminosity.Base.{true, false, Text, codes, [], ◌∷◌, ◌++◌, some, ok, ◌≡◌, ◌↔◌, refl}
use luminosity.Config.Source.{project_context}
use luminosity.Config.Fragment.{Assembler, assemble}
use luminosity.Launcher.Support.{fail, degrade}
use luminosity.Launcher.Context
use luminosity.Launcher.Context.{render_project}
use luminosity.Launcher.Context.FailSafe.{
  context-never_fails, Follows, context-project_stands, HasNoFragment, SkillIsSilent,
  context-silent_iff,
}
use luminosity.Launcher.Instructions
use luminosity.Tests.Fragments.{test_reader, test_assembly, assemble-test}

abbrev test_assembler : Assembler
test_assembler = record { assemble = assemble test_reader; locate = test_reader.locate }

-- `context --skill plan --explain --fail-safe`
abbrev context_options : Context.Options
context_options = record { skill = some (codes "plan"); explain = true; on_failure = degrade }

-- `context --skill plan`
abbrev strict_options : Context.Options
strict_options = record { skill = some (codes "plan"); explain = false; on_failure = fail }

-- `instructions --skill ../x --explain --fail-safe`
abbrev instructions_options : Instructions.Options
instructions_options = record { skill = some (codes "../x"); explain = true; on_failure = degrade }

abbrev strict_instructions : Instructions.Options
strict_instructions = record { skill = some (codes "plan"); explain = false; on_failure = fail }

context-never_fails_example : (Context.run test_assembler context_options).1 ≡ ok tt
context-never_fails_example = context-never_fails test_assembler context_options refl

context-project_stands_example :
    (rest : Text) × ((Context.run test_assembler context_options).0.stdout
      ≡ (render_project (record { body = codes "hi" }) ++ rest) ∷ [])
    × Follows rest
context-project_stands_example =
    context-project_stands test_assembler context_options test_assembly
      (record { body = codes "hi" }) refl assemble-test refl

context-silent_iff_example : ((Context.run test_assembler context_options).0.stdout ≡ []) ↔ (
    HasNoFragment test_assembler project_context
    × SkillIsSilent test_assembler (some (codes "plan")))
context-silent_iff_example = context-silent_iff test_assembler context_options refl
