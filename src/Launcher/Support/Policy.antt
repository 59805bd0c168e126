-- ===== src/Launcher/Support/Policy.antt =====
-- What the two policies make of a failure.
use luminosity.Base.{Text, List, Result, ok, err, ◌≡◌, ◌↔◌, refl}
use luminosity.Config.Error.{ConfigError}
use luminosity.Config.Source.{FragmentSource}
use luminosity.Config.Fragment.{Assembly, Assembler}
use luminosity.Launcher.Support.{
  OnFailure, fail, degrade, Outcome, assembled, degraded, absorb, assemble, degrade_explain,
  explain_unavailable, with_lines,
}

-- What an absorbed result becomes.
unfoldable pub settle {ℓ k} :
    {A : Type ℓ} {B : Type k} → (A → B) → (ConfigError → B) → Result A ConfigError → B
settle good bad (ok a) = good a
settle good bad (err e) = bad e

pub absorb-degrade {ℓ k} :
    {A : Type ℓ} {B : Type k} (good : A → B) (bad : ConfigError → B) (r : Result A ConfigError)
    (on_failure : OnFailure)
    → on_failure ≡ degrade
    → absorb good bad r on_failure ≡ ok (settle good bad r)
unfolding absorb settle
absorb-degrade good bad (ok a) on_failure h = refl
absorb-degrade good bad (err e) on_failure h = rw (h, absorb)

-- What succeeds under `fail` is the same under either policy.
pub absorb-fail_ok {ℓ k} :
    {A : Type ℓ} {B : Type k} (good : A → B) (bad : ConfigError → B) (r : Result A ConfigError)
    (b : B) (on_failure : OnFailure)
    → absorb good bad r fail ≡ ok b
    → absorb good bad r on_failure ≡ ok b
unfolding absorb
absorb-fail_ok good bad (ok a) b on_failure h = h
absorb-fail_ok good bad (err e) b on_failure h = cc

pub absorb-fail_err_iff {ℓ k} :
    {A : Type ℓ} {B : Type k} (good : A → B) (bad : ConfigError → B) (r : Result A ConfigError)
    (e : ConfigError)
    → (absorb good bad r fail ≡ err e) ↔ (r ≡ err e)
unfolding absorb
absorb-fail_err_iff good bad (ok a) e = (λ h. cc, λ h. cc)
absorb-fail_err_iff good bad (err x) e = (λ h. cc, λ h. cc)

unfoldable pub outcome_of : Result Assembly ConfigError → Outcome
outcome_of r = settle assembled degraded r

pub assemble-degrade :
    (a : Assembler) (source : FragmentSource) (on_failure : OnFailure)
    → on_failure ≡ degrade
    → assemble a source on_failure ≡ ok (outcome_of (a.assemble source))
unfolding assemble outcome_of
assemble-degrade a source on_failure h =
    absorb-degrade assembled degraded (a.assemble source) on_failure h

-- An explanation cannot fail a run that degrades, and it never reaches stdout.
pub with_lines-degrade_explain :
    (out : List Text) (lines : Result (List Text) ConfigError) (on_failure : OnFailure)
    → on_failure ≡ degrade
    → (with_lines out (degrade_explain lines on_failure)).1 ≡ ok tt
unfolding with_lines degrade_explain
with_lines-degrade_explain out lines on_failure h =
    rw (absorb-degrade (λ l. l) explain_unavailable lines on_failure h)

pub stdout-with_lines :
    (out : List Text) (lines : Result (List Text) ConfigError)
    → (with_lines out lines).0.stdout ≡ out
unfolding with_lines
stdout-with_lines out (ok lines) = refl
stdout-with_lines out (err e) = refl
