-- ===== src/Launcher/Context/Streams.antt =====
-- The `context` command without `--fail-safe`, and with `--explain`.
use luminosity.Base.{
  Bool, false, Text, Option, none, some, Result, ok, err, Result-cases, ◌>>=◌, >>=-eq-err, ◌≡◌, ◌↔◌,
  ◌⊎◌, inl, inr, refl, sym, ap, ◌∙◌,
}
use luminosity.Config.Error.{ConfigError}
use luminosity.Config.Source
use luminosity.Config.Source.{SkillName, FragmentSource, project_context, skill_context}
use luminosity.Config.Fragment.{Assembly, Assembler}
use luminosity.Launcher.Support.{
  OnFailure, fail, assembled, degraded, SkillResolution, parsed, invalid, assemble,
  resolve_skill_name, with_lines, absorb,
}
use luminosity.Launcher.Support.Policy.{absorb-fail_err_iff}
use luminosity.Launcher.Context.{
  Options, Section, Resolution, fragment_source, resolve_project, resolve_named, resolve_skill_at,
  resolve_skill, resolve, present, present_resolved, run,
}
use luminosity.Launcher.Context.FailSafe.{stdout-present}

-- What stops the part of the skill: an invalid name, or files that cannot be read.
unfoldable pub SkillFails : Assembler → Option Text → ConfigError → Type 0
SkillFails a none e = ⊥
SkillFails a (some raw) e =
    (Source.parse raw ≡ err e)
    ⊎ ((name : SkillName) × (Source.parse raw ≡ ok name)
        × (a.assemble (skill_context name) ≡ err e))

assemble-err :
    (a : Assembler) (source : FragmentSource) (on_failure : OnFailure) (e : ConfigError)
    → on_failure ≡ fail
    → (assemble a source on_failure ≡ err e) ↔ (a.assemble source ≡ err e)
unfolding assemble
assemble-err a source on_failure e h =
    rw h (absorb-fail_err_iff assembled degraded (a.assemble source) e)

resolve_named-err :
    (a : Assembler) (options : Options) (name : SkillName) (e : ConfigError)
    → options.on_failure ≡ fail
    → (resolve_named a options (parsed name) ≡ err e) ↔ (a.assemble (skill_context name) ≡ err e)
unfolding resolve_named fragment_source
resolve_named-err a options name e h =
    let i = assemble-err a (skill_context name) options.on_failure e h in
    (
      λ bad. elim (>>=-eq-err (assemble a (skill_context name) options.on_failure) _ bad) [
        | inl x ↦ i.0 x
        | inr (o, _, never) ↦ cc
      ],
      λ bad. rw (i.1 bad),
    )

resolve_parsed-err :
    (a : Assembler) (options : Options) (r : Result SkillName ConfigError) (e : ConfigError)
    → options.on_failure ≡ fail
    → ((absorb parsed invalid r fail >>= resolve_named a options) ≡ err e) ↔ (
        (r ≡ err e)
        ⊎ ((name : SkillName) × (r ≡ ok name) × (a.assemble (skill_context name) ≡ err e)))
unfolding absorb
resolve_parsed-err a options (ok name) e h =
    let i = resolve_named-err a options name e h in
    (
      λ bad. inr (name, refl, i.0 bad),
      λ d. elim d [ inl x ↦ cc | inr (other, p, q) ↦ i.1 (cc (p, q)) ],
    )
resolve_parsed-err a options (err x) e h =
    (λ bad. inl (cc), λ d. elim d [ inl p ↦ cc | inr (other, p, q) ↦ cc ])

resolve_skill_at-err :
    (a : Assembler) (options : Options) (raw : Option Text) (e : ConfigError)
    → options.on_failure ≡ fail
    → (resolve_skill_at a raw options ≡ err e) ↔ SkillFails a raw e
unfolding resolve_skill_at resolve_skill_name SkillFails
resolve_skill_at-err a options none e h = (λ x. cc, λ x. absurd x)
resolve_skill_at-err a options (some raw) e h =
    simp h (resolve_parsed-err a options (Source.parse raw) e h)

assemble-ok :
    (a : Assembler) (source : FragmentSource) (on_failure : OnFailure) (x : Assembly)
    → a.assemble source ≡ ok x
    → assemble a source on_failure ≡ ok (assembled x)
unfolding assemble absorb
assemble-ok a source on_failure x h = rw h

-- `resolve` where the project was assembled, and where it was not.
resolve-ok_project :
    (a : Assembler) (options : Options) (x : Assembly) (e : ConfigError)
    → a.assemble project_context ≡ ok x
    → (resolve a options ≡ err e) ↔ (resolve_skill_at a options.skill options ≡ err e)
unfolding resolve resolve_project resolve_skill fragment_source
resolve-ok_project a options x e good =
    rw (assemble-ok a project_context options.on_failure x good) (
      λ h. elim (>>=-eq-err (resolve_skill_at a options.skill options) _ h) [
        | inl bad ↦ bad
        | inr (s, _, never) ↦ cc
      ],
      λ bad. rw bad,
    )

resolve-err_project :
    (a : Assembler) (options : Options) (e : ConfigError)
    → options.on_failure ≡ fail
    → a.assemble project_context ≡ err e
    → resolve a options ≡ err e
unfolding resolve resolve_project fragment_source
resolve-err_project a options e h bad =
    rw ((assemble-err a project_context options.on_failure e h).1 bad)

-- The two parts of `resolve` in their order.
resolve-err :
    (a : Assembler) (options : Options) (e : ConfigError)
    → options.on_failure ≡ fail
    → (resolve a options ≡ err e) ↔ (
        (a.assemble project_context ≡ err e)
        ⊎ ((x : Assembly) × (a.assemble project_context ≡ ok x) × SkillFails a options.skill e))
resolve-err a options e h = elim (Result-cases (a.assemble project_context)) [
  | inl (x, good) ↦
      let i = resolve-ok_project a options x e good in
      let j = resolve_skill_at-err a options options.skill e h in
      (
        λ bad. inr (x, good, j.0 (i.0 bad)),
        λ d. elim d [ inl bad ↦ cc | inr (y, _, fails) ↦ i.1 (j.1 fails) ],
      )
  | inr (e', bad) ↦
      let stop = resolve-err_project a options e' h bad in
      (λ r. inl (cc), λ d. elim d [ inl same ↦ cc | inr (x, good, _) ↦ cc ])
]

present-quiet :
    (a : Assembler) (options : Options) (r : Resolution)
    → options.explain ≡ false
    → (present a options r).1 ≡ ok tt
unfolding present with_lines
present-quiet a options r h = rw h

run-err_iff :
    (a : Assembler) (options : Options) (e : ConfigError)
    → options.explain ≡ false
    → ((run a options).1 ≡ err e) ↔ (resolve a options ≡ err e)
unfolding run present_resolved with_lines
run-err_iff a options e quiet = go (resolve a options)
  where
    go :
        (r : Result Resolution ConfigError)
        → ((present_resolved a options r).1 ≡ err e) ↔ (r ≡ err e)
    go (ok r) = (λ h. cc (present-quiet a options r quiet), λ h. cc)
    go (err x) = (λ h. cc, λ h. cc)

-- Without `--fail-safe` and `--explain` the command fails exactly where the project's context
-- cannot be assembled, or else the skill's name is invalid or its context cannot be assembled,
-- and with that error.
pub context-err_iff :
    (a : Assembler) (options : Options) (e : ConfigError)
    → options.on_failure ≡ fail
    → options.explain ≡ false
    → ((run a options).1 ≡ err e) ↔ (
        (a.assemble project_context ≡ err e)
        ⊎ ((x : Assembly) × (a.assemble project_context ≡ ok x) × SkillFails a options.skill e))
context-err_iff a options e h quiet =
    let i = run-err_iff a options e quiet in
    let j = resolve-err a options e h in (λ bad. j.0 (i.0 bad), λ d. i.1 (j.1 d))

resolve_named-explain :
    (a : Assembler) (options : Options) (b : Bool) (r : SkillResolution)
    → resolve_named a (record options { explain = b }) r ≡ resolve_named a options r
unfolding resolve_named
resolve_named-explain a options b (parsed name) = refl
resolve_named-explain a options b (invalid e) = refl

resolve_skill_at-explain :
    (a : Assembler) (options : Options) (b : Bool) (raw : Option Text)
    → resolve_skill_at a raw (record options { explain = b }) ≡ resolve_skill_at a raw options
unfolding resolve_skill_at
resolve_skill_at-explain a options b none = refl
resolve_skill_at-explain a options b (some raw) =
    ap
      (λ (k : SkillResolution → Result (Option Section) ConfigError).
        resolve_skill_name raw options.on_failure >>= k)
      (λ i r. resolve_named-explain a options b r i)

resolve-explain :
    (a : Assembler) (options : Options) (b : Bool)
    → resolve a (record options { explain = b }) ≡ resolve a options
unfolding resolve resolve_project resolve_skill
resolve-explain a options b = rw (resolve_skill_at-explain a options b options.skill)

stdout-present_resolved :
    (a : Assembler) (options other : Options) (r : Result Resolution ConfigError)
    → (present_resolved a options r).0.stdout ≡ (present_resolved a other r).0.stdout
unfolding present_resolved
stdout-present_resolved a options other (ok r) =
    stdout-present a options r ∙ sym (stdout-present a other r)
stdout-present_resolved a options other (err e) = refl

-- `--explain` changes nothing on stdout, under either policy.
pub context-explain_keeps_stdout :
    (a : Assembler) (options : Options) (b : Bool)
    → (run a (record options { explain = b })).0.stdout ≡ (run a options).0.stdout
unfolding run
context-explain_keeps_stdout a options b =
    rw (resolve-explain a options b)
      (stdout-present_resolved a (record options { explain = b }) options (resolve a options))
