-- ===== src/Launcher/Support.antt =====
-- cli/launcher/src/command_support/mod.rs. What a command prints is a value, in the order in which
pub mod Policy
-- it reaches each stream.
use luminosity.Base.{Bool, true, false, Text, codes, List, [], ◌∷◌, ◌++◌, Result, ok, err}
use luminosity.Config.Error
use luminosity.Config.Error.{ConfigError, unsafe_path}
use luminosity.Config.Level
use luminosity.Config.Level.{Level, team, personal}
use luminosity.Config.Source
use luminosity.Config.Source.{SkillName, FragmentSource}
use luminosity.Config.Fragment.{Assembly, Assembler, LevelContribution}

pub data OnFailure : Type 0 where
  fail degrade : OnFailure

pub data Outcome : Type 0 where
  assembled : Assembly → Outcome
  degraded : ConfigError → Outcome

pub data SkillResolution : Type 0 where
  parsed : SkillName → SkillResolution
  invalid : ConfigError → SkillResolution

-- The three-way match on a result and the policy, which the next three functions share.
unfoldable pub absorb {ℓ k} :
    {A : Type ℓ} {B : Type k}
    → (A → B)
    → (ConfigError → B)
    → Result A ConfigError
    → OnFailure
    → Result B ConfigError
absorb good bad (ok a) on_failure = ok (good a)
absorb good bad (err e) degrade = ok (bad e)
absorb good bad (err e) fail = err e

unfoldable pub assemble : Assembler → FragmentSource → OnFailure → Result Outcome ConfigError
assemble assembler source on_failure =
    absorb assembled degraded (assembler.assemble source) on_failure

unfoldable pub resolve_skill_name : Text → OnFailure → Result SkillResolution ConfigError
resolve_skill_name raw on_failure = absorb parsed invalid (Source.parse raw) on_failure

unfoldable pub explain_unavailable : ConfigError → List Text
explain_unavailable error = (codes "explain unavailable: " ++ Error.display error) ∷ []

unfoldable pub degrade_explain :
    Result (List Text) ConfigError → OnFailure → Result (List Text) ConfigError
degrade_explain lines on_failure = absorb (λ l. l) explain_unavailable lines on_failure

unfoldable pub level_line : Level → Text → Text → Text
level_line level path state =
    Level.display level ++ (codes " (" ++ (path ++ (codes "): " ++ state)))

-- The text behind the path: `discovered` and `has_body` of the contribution.
unfoldable pub contribution_state : Bool → Bool → Text
contribution_state false has_body = codes "not found"
contribution_state true true = codes "discovered, body present"
contribution_state true false = codes "discovered, empty body"

unfoldable pub explain_line : LevelContribution → Text
explain_line c = level_line c.level c.path (contribution_state c.discovered c.has_body)

unfoldable pub explain_lines : LevelContribution × LevelContribution → List Text
explain_lines (shared, own) = explain_line shared ∷ explain_line own ∷ []

unfoldable pub degraded_state : ConfigError → Text
degraded_state (unsafe_path _) = codes "unsafe"
degraded_state _ = codes "unreadable"

unfoldable pub degraded_source_lines : ConfigError → Text × Text → List Text
degraded_source_lines error (shared, own) =
    level_line team shared (degraded_state error)
    ∷ level_line personal own (degraded_state error)
    ∷ []

unfoldable pub invalid_skill_line : ConfigError → Text
invalid_skill_line error = codes "skill: " ++ Error.display error

-- The lines that were printed to each stream.
pub record Printed : Type 0 where
  pub stdout : List Text
  pub stderr : List Text

-- The end of both `run`s: the explanation goes to stderr line by line, or its failure ends the run
-- with what is on stdout already.
unfoldable pub with_lines :
    List Text → Result (List Text) ConfigError → Printed × Result (Unit {0}) ConfigError
with_lines out (ok lines) = (record { stdout = out; stderr = lines }, ok tt)
with_lines out (err e) = (record { stdout = out; stderr = [] }, err e)
