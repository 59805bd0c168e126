-- ===== src/Launcher/Context/FailSafe.antt =====
-- The fail-safe boundary of the `context` command.
use luminosity.Base.{
  Bool-cases, Text, codes, [], ◌∷◌, ◌++◌, Option, none, some, Result, ok, err, ◌≡◌, ◌↔◌, inl, inr,
  refl, append-nil,
}
use luminosity.Config.Error.{ConfigError}
use luminosity.Config.Source
use luminosity.Config.Source.{SkillName, FragmentSource, project_context, skill_context}
use luminosity.Config.Fragment.{Fragment, Assembly, Assembler}
use luminosity.Launcher.Support.{degrade, parsed, invalid, resolve_skill_name, with_lines}
use luminosity.Launcher.Support.Policy.{
  settle, absorb-degrade, outcome_of, assemble-degrade, with_lines-degrade_explain,
  stdout-with_lines,
}
use luminosity.Launcher.Context.{
  Options, ContextSource, project, skill, Section, resolved, unresolved, Resolution,
  fragment_source, render_project, join_nonempty, join_blocks, render, block, section_block,
  println, output_of, skill_block_of, resolve_project, resolve_named, resolve_skill_at,
  resolve_skill, resolve, present, present_resolved, run,
}

-- The section of a requested skill: of its file, or of its name if that is invalid.
unfoldable pub skill_section_of : Assembler → Result SkillName ConfigError → Section
skill_section_of a (ok name) = resolved (skill name) (outcome_of (a.assemble (skill_context name)))
skill_section_of a (err e) = unresolved e

unfoldable pub skill_sections : Assembler → Option Text → Option Section
skill_sections a none = none
skill_sections a (some raw) = some (skill_section_of a (Source.parse raw))

unfoldable pub sections : Assembler → Options → Resolution
sections a options = record {
  project_section = resolved project (outcome_of (a.assemble project_context));
  skill_section = skill_sections a options.skill;
}

resolve_named-degrade :
    (a : Assembler) (options : Options) (r : Result SkillName ConfigError)
    → options.on_failure ≡ degrade
    → resolve_named a options (settle parsed invalid r) ≡ ok (some (skill_section_of a r))
unfolding resolve_named settle skill_section_of fragment_source
resolve_named-degrade a options (ok name) h =
    rw (assemble-degrade a (skill_context name) options.on_failure h)
resolve_named-degrade a options (err e) h = refl

resolve_skill_at-degrade :
    (a : Assembler) (options : Options) (raw : Option Text)
    → options.on_failure ≡ degrade
    → resolve_skill_at a raw options ≡ ok (skill_sections a raw)
unfolding resolve_skill_at resolve_skill_name skill_sections
resolve_skill_at-degrade a options none h = refl
resolve_skill_at-degrade a options (some raw) h =
    rw (absorb-degrade parsed invalid (Source.parse raw) options.on_failure h)
      (resolve_named-degrade a options (Source.parse raw) h)

pub resolve-degrade :
    (a : Assembler) (options : Options)
    → options.on_failure ≡ degrade
    → resolve a options ≡ ok (sections a options)
unfolding resolve resolve_project resolve_skill sections fragment_source
resolve-degrade a options h =
    rw (assemble-degrade a project_context options.on_failure h)
      (rw (resolve_skill_at-degrade a options options.skill h))

pub run-degrade :
    (a : Assembler) (options : Options)
    → options.on_failure ≡ degrade
    → run a options ≡ present a options (sections a options)
unfolding run present_resolved
run-degrade a options h = rw (resolve-degrade a options h)

-- Under `--fail-safe` the command succeeds, whatever the skill name, the assembler's errors and
-- the other options are.
pub context-never_fails :
    (a : Assembler) (options : Options) → options.on_failure ≡ degrade → (run a options).1 ≡ ok tt
unfolding present with_lines
context-never_fails a options h = rw (run-degrade a options h) (elim (Bool-cases options.explain) [
  | inl e ↦ rw e (with_lines-degrade_explain _ _ options.on_failure h)
  | inr e ↦ rw e
])

pub stdout-present :
    (a : Assembler) (options : Options) (r : Resolution)
    → (present a options r).0.stdout ≡ output_of r
unfolding present
stdout-present a options r = elim (Bool-cases options.explain) [
  | inl e ↦ rw e (stdout-with_lines _ _)
  | inr e ↦ rw e (stdout-with_lines _ _)
]

-- What follows a block that stands first.
pub data Follows : Text → Type 0 where
  nothing : Follows []
  another : (block : Text) → Follows (codes "\n\n" ++ block)

join_blocks-first :
    (first : Text) (second : Option Text)
    → (rest : Text) × (println (join_blocks (some first) second) ≡ (first ++ rest) ∷ [])
      × Follows rest
unfolding join_blocks join_nonempty
join_blocks-first first none = ([], rw append-nil, nothing)
join_blocks-first first (some second) = (codes "\n\n" ++ second, refl, another second)

-- Under `--fail-safe` a project context that was assembled is printed first and whole, whatever
-- becomes of the skill's; a blank line stands between the two.
pub context-project_stands :
    (a : Assembler) (options : Options) (x : Assembly) (f : Fragment)
    → options.on_failure ≡ degrade
    → a.assemble project_context ≡ ok x
    → x.fragment ≡ some f
    → (rest : Text) × ((run a options).0.stdout ≡ (render_project f ++ rest) ∷ []) × Follows rest
unfolding sections output_of section_block block outcome_of settle render
context-project_stands a options x f h good there =
    rw (run-degrade a options h, stdout-present)
      (rw (good) (
        rw there
          (join_blocks-first (render_project f) (skill_block_of (skill_sections a options.skill)))))

-- A source that was read and has no body at either level.
abbrev pub HasNoFragment : Assembler → FragmentSource → Type 0
HasNoFragment a source = (x : Assembly) × (a.assemble source ≡ ok x) × (x.fragment ≡ none)

unfoldable pub SkillIsSilent : Assembler → Option Text → Type 0
SkillIsSilent a none = Unit
SkillIsSilent a (some raw) =
    (name : SkillName) × (Source.parse raw ≡ ok name) × HasNoFragment a (skill_context name)

block-none_iff :
    (source : ContextSource) (r : Result Assembly ConfigError)
    → (block source (outcome_of r) ≡ none) ↔ ((x : Assembly) × (r ≡ ok x) × (x.fragment ≡ none))
unfolding block outcome_of settle
block-none_iff source (ok x) = go x.fragment refl
  where
    go :
        (f : Option Fragment)
        → x.fragment ≡ f
        → (◌≡◌ {A = Option Text} (elim f [ none ↦ none | some c ↦ some (render source c) ]) none)
          ↔ ((y : Assembly) × (◌≡◌ {A = Result Assembly ConfigError} (ok x) (ok y))
              × (y.fragment ≡ none))
    go none e = (λ h. (x, refl, e), λ h. refl)
    go (some f) e = (λ h. cc, λ (y, same, bare). cc)
block-none_iff source (err e) = (λ h. cc, λ (x, same, bare). cc)

skill_block-none_iff :
    (a : Assembler) (raw : Option Text)
    → (skill_block_of (skill_sections a raw) ≡ none) ↔ SkillIsSilent a raw
unfolding skill_sections SkillIsSilent skill_section_of section_block
skill_block-none_iff a none = (λ h. tt, λ h. refl)
skill_block-none_iff a (some raw) = go (Source.parse raw) refl
  where
    go :
        (r : Result SkillName ConfigError)
        → Source.parse raw ≡ r
        → (section_block (skill_section_of a r) ≡ none) ↔ (
            (name : SkillName) × (Source.parse raw ≡ ok name)
            × HasNoFragment a (skill_context name))
    go (ok name) e = (
      λ h. (name, e, (block-none_iff (skill name) (a.assemble (skill_context name))).0 h),
      λ (other, p, (x, q, bare)).
          (block-none_iff (skill name) (a.assemble (skill_context name))).1 (x, cc (e, p, q), bare),
    )
    go (err x) e = (λ h. cc, λ (name, p, q). cc)

println-nil_iff : (p s : Option Text) → (println (join_blocks p s) ≡ []) ↔ ((p ≡ none) × (s ≡ none))
unfolding join_blocks join_nonempty
println-nil_iff none none = (λ h. (refl, refl), λ h. refl)
println-nil_iff none (some s) = (λ h. cc, λ h. cc)
println-nil_iff (some p) none = (λ h. cc, λ h. cc)
println-nil_iff (some p) (some s) = (λ h. cc, λ h. cc)

-- Under `--fail-safe` nothing is on stdout exactly when the project has no context and either no
-- skill is asked for, or its name is valid and it has no context: every failure leaves a notice.
pub context-silent_iff :
    (a : Assembler) (options : Options)
    → options.on_failure ≡ degrade
    → ((run a options).0.stdout ≡ [])
      ↔ (HasNoFragment a project_context × SkillIsSilent a options.skill)
unfolding sections output_of section_block
context-silent_iff a options h =
    let both =
      println-nil_iff (block project (outcome_of (a.assemble project_context)))
        (skill_block_of (skill_sections a options.skill)) in
    let p = block-none_iff project (a.assemble project_context) in
    let s = skill_block-none_iff a options.skill in
    rw (run-degrade a options h, stdout-present)
      (λ quiet. let (x, y) = both.0 quiet in (p.0 x, s.0 y), λ (x, y). both.1 (p.1 x, s.1 y))
