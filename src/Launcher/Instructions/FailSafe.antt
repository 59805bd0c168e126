-- ===== src/Launcher/Instructions/FailSafe.antt =====
-- The `instructions` command under either policy.
use luminosity.Base.{
  false, Bool-cases, Text, [], Option, none, some, Result, ok, err, ◌>>=◌, >>=-eq-err, ◌≡◌, ◌↔◌,
  ◌⊎◌, inl, inr, refl,
}
use luminosity.Config.Error.{ConfigError}
use luminosity.Config.Source
use luminosity.Config.Source.{SkillName, FragmentSource, skill_instructions}
use luminosity.Config.Fragment.{Fragment, Assembly, Assembler}
use luminosity.Launcher.Support.{
  fail, degrade, assembled, degraded, parsed, invalid, assemble, resolve_skill_name, with_lines,
  absorb,
}
use luminosity.Launcher.Support.Policy.{
  settle, absorb-degrade, absorb-fail_err_iff, outcome_of, assemble-degrade,
  with_lines-degrade_explain, stdout-with_lines,
}
use luminosity.Launcher.Instructions.{
  Options, Section, resolved, unresolved, block, section_block, render_instructions, println,
  output_of, resolve_named, resolve_at, resolve, present, present_resolved, run,
}

-- The section of a requested skill: of its file, or of its name if that is invalid.
unfoldable pub section_of : Assembler → Result SkillName ConfigError → Section
section_of a (ok name) = resolved name (outcome_of (a.assemble (skill_instructions name)))
section_of a (err e) = unresolved e

unfoldable pub sections : Assembler → Option Text → Option Section
sections a none = none
sections a (some raw) = some (section_of a (Source.parse raw))

resolve_named-degrade :
    (a : Assembler) (options : Options) (r : Result SkillName ConfigError)
    → options.on_failure ≡ degrade
    → resolve_named a options (settle parsed invalid r) ≡ ok (some (section_of a r))
unfolding resolve_named settle section_of
resolve_named-degrade a options (ok name) h =
    rw (assemble-degrade a (skill_instructions name) options.on_failure h)
resolve_named-degrade a options (err e) h = refl

resolve_at-degrade :
    (a : Assembler) (options : Options) (raw : Option Text)
    → options.on_failure ≡ degrade
    → resolve_at a raw options ≡ ok (sections a raw)
unfolding resolve_at resolve_skill_name sections
resolve_at-degrade a options none h = refl
resolve_at-degrade a options (some raw) h =
    rw (absorb-degrade parsed invalid (Source.parse raw) options.on_failure h)
      (resolve_named-degrade a options (Source.parse raw) h)

run-degrade :
    (a : Assembler) (options : Options)
    → options.on_failure ≡ degrade
    → run a options ≡ present a options (sections a options.skill)
unfolding run resolve present_resolved
run-degrade a options h = rw (resolve_at-degrade a options options.skill h)

-- Under `--fail-safe` the command succeeds, whatever the skill name, the assembler's errors and
-- the other options are.
pub instructions-never_fails :
    (a : Assembler) (options : Options) → options.on_failure ≡ degrade → (run a options).1 ≡ ok tt
unfolding present with_lines
instructions-never_fails a options h =
    rw (run-degrade a options h) (elim (Bool-cases options.explain) [
      | inl e ↦ rw e (with_lines-degrade_explain _ _ options.on_failure h)
      | inr e ↦ rw e
    ])

stdout-present :
    (a : Assembler) (options : Options) (s : Option Section)
    → (present a options s).0.stdout ≡ output_of s
unfolding present
stdout-present a options s = elim (Bool-cases options.explain) [
  | inl e ↦ rw e (stdout-with_lines _ _)
  | inr e ↦ rw e (stdout-with_lines _ _)
]

-- A source that was read and has no body at either level.
abbrev pub HasNoBody : Assembler → SkillName → Type 0
HasNoBody a name =
    (x : Assembly) × (a.assemble (skill_instructions name) ≡ ok x) × (x.fragment ≡ none)

unfoldable pub HasNothingToSay : Assembler → Option Text → Type 0
HasNothingToSay a none = Unit
HasNothingToSay a (some raw) = (name : SkillName) × (Source.parse raw ≡ ok name) × HasNoBody a name

println-block-nil_iff :
    (name : SkillName) (r : Result Assembly ConfigError)
    → (println (block name (outcome_of r)) ≡ [])
      ↔ ((x : Assembly) × (r ≡ ok x) × (x.fragment ≡ none))
unfolding block outcome_of settle
println-block-nil_iff name (ok x) = go x.fragment refl
  where
    go :
        (f : Option Fragment)
        → x.fragment ≡ f
        → (println (elim f [ none ↦ none | some c ↦ some (render_instructions name c) ]) ≡ []) ↔ (
            (y : Assembly) × (◌≡◌ {A = Result Assembly ConfigError} (ok x) (ok y))
            × (y.fragment ≡ none))
    go none e = (λ h. (x, refl, e), λ h. refl)
    go (some f) e = (λ h. cc, λ (y, same, bare). cc)
println-block-nil_iff name (err e) = (λ h. cc, λ (x, same, bare). cc)

output_of-nil_iff :
    (a : Assembler) (raw : Option Text) → (output_of (sections a raw) ≡ []) ↔ HasNothingToSay a raw
unfolding output_of sections HasNothingToSay section_of section_block
output_of-nil_iff a none = (λ h. tt, λ h. refl)
output_of-nil_iff a (some raw) = go (Source.parse raw) refl
  where
    go :
        (r : Result SkillName ConfigError)
        → Source.parse raw ≡ r
        → (println (section_block (section_of a r)) ≡ [])
          ↔ ((name : SkillName) × (Source.parse raw ≡ ok name) × HasNoBody a name)
    go (ok name) e =
        let i = println-block-nil_iff name (a.assemble (skill_instructions name)) in
        (λ h. (name, e, i.0 h), λ (other, p, (x, q, bare)). i.1 (x, cc (e, p, q), bare))
    go (err x) e = (λ h. cc, λ (name, p, q). cc)

-- Under `--fail-safe` nothing is on stdout exactly when no skill is asked for, or its name is
-- valid and it has no instructions: every failure leaves a notice.
pub instructions-silent_iff :
    (a : Assembler) (options : Options)
    → options.on_failure ≡ degrade
    → ((run a options).0.stdout ≡ []) ↔ HasNothingToSay a options.skill
instructions-silent_iff a options h =
    rw (run-degrade a options h, stdout-present) (output_of-nil_iff a options.skill)

-- What stops the command: an invalid name, or files that cannot be read.
unfoldable pub Stops : Assembler → Option Text → ConfigError → Type 0
Stops a none e = ⊥
Stops a (some raw) e =
    (Source.parse raw ≡ err e)
    ⊎ ((name : SkillName) × (Source.parse raw ≡ ok name)
        × (a.assemble (skill_instructions name) ≡ err e))

resolve_named-err :
    (a : Assembler) (options : Options) (name : SkillName) (e : ConfigError)
    → options.on_failure ≡ fail
    → (resolve_named a options (parsed name) ≡ err e)
      ↔ (a.assemble (skill_instructions name) ≡ err e)
unfolding resolve_named assemble
resolve_named-err a options name e h =
    let i = absorb-fail_err_iff assembled degraded (a.assemble (skill_instructions name)) e in
    simp h (
      λ bad.
          elim (>>=-eq-err (absorb assembled degraded (a.assemble (skill_instructions name)) fail) _
            bad) [ inl x ↦ i.0 x | inr (o, _, never) ↦ cc ],
      λ bad. rw (i.1 bad),
    )

resolve_parsed-err :
    (a : Assembler) (options : Options) (r : Result SkillName ConfigError) (e : ConfigError)
    → options.on_failure ≡ fail
    → ((absorb parsed invalid r fail >>= resolve_named a options) ≡ err e) ↔ (
        (r ≡ err e)
        ⊎ ((name : SkillName) × (r ≡ ok name) × (a.assemble (skill_instructions name) ≡ err e)))
unfolding absorb
resolve_parsed-err a options (ok name) e h =
    let i = resolve_named-err a options name e h in
    (
      λ bad. inr (name, refl, i.0 bad),
      λ d. elim d [ inl x ↦ cc | inr (other, p, q) ↦ i.1 (cc (p, q)) ],
    )
resolve_parsed-err a options (err x) e h =
    (λ bad. inl (cc), λ d. elim d [ inl p ↦ cc | inr (other, p, q) ↦ cc ])

resolve_at-err :
    (a : Assembler) (options : Options) (raw : Option Text) (e : ConfigError)
    → options.on_failure ≡ fail
    → (resolve_at a raw options ≡ err e) ↔ Stops a raw e
unfolding resolve_at resolve_skill_name Stops
resolve_at-err a options none e h = (λ x. cc, λ x. absurd x)
resolve_at-err a options (some raw) e h =
    simp h (resolve_parsed-err a options (Source.parse raw) e h)

present-quiet :
    (a : Assembler) (options : Options) (s : Option Section)
    → options.explain ≡ false
    → (present a options s).1 ≡ ok tt
unfolding present with_lines
present-quiet a options s h = rw h

run-err_iff :
    (a : Assembler) (options : Options) (e : ConfigError)
    → options.explain ≡ false
    → ((run a options).1 ≡ err e) ↔ (resolve_at a options.skill options ≡ err e)
unfolding run resolve present_resolved with_lines
run-err_iff a options e quiet = go (resolve_at a options.skill options)
  where
    go :
        (r : Result (Option Section) ConfigError)
        → ((present_resolved a options r).1 ≡ err e) ↔ (r ≡ err e)
    go (ok s) = (λ h. cc (present-quiet a options s quiet), λ h. cc)
    go (err x) = (λ h. cc, λ h. cc)

-- Without `--fail-safe` and `--explain` the command fails exactly where a skill is asked for whose
-- name is invalid or whose instructions cannot be assembled, and with that error.
pub instructions-err_iff :
    (a : Assembler) (options : Options) (e : ConfigError)
    → options.on_failure ≡ fail
    → options.explain ≡ false
    → ((run a options).1 ≡ err e) ↔ Stops a options.skill e
instructions-err_iff a options e h quiet =
    let i = run-err_iff a options e quiet in
    let j = resolve_at-err a options options.skill e h in (λ bad. j.0 (i.0 bad), λ d. i.1 (j.1 d))
