-- ===== src/Launcher/ConfigCommand/RoundTrip.antt =====
-- What `config set` wrote, `config get` prints.
use luminosity.Base.{
  ℕ, Text, [], ◌∷◌, Option, none, some, Result, ok, Result-cases, ◌≡◌, inl, inr, refl, ap, ◌∙◌,
  arith,
}
use luminosity.Config.Error.{ConfigError}
use luminosity.Config.Key.{Key}
use luminosity.Config.Key.Parse.{parse}
use luminosity.Config.Key.RoundTrip.{parse-IsValid}
use luminosity.Config.Level.{Level, team, personal}
use luminosity.Config.Node.{string, Node}
use luminosity.Config.Service.{found, resolve}
use luminosity.Config.Service.Access
use luminosity.Config.Service.Access.{Ports}
use luminosity.Config.Service.Access.Laws.{
  IsStore, get-set_self, get-prefer, prefer, get-set_other_level,
}
use luminosity.Config.Service.Driver.{service}
use luminosity.Launcher.Cli
use luminosity.Launcher.Cli.{ConfigAction}
use luminosity.Launcher.Support.{Printed}
use luminosity.Launcher.ConfigCommand.{
  render, asked_level, or_personal, line_of, answer, print, get, set_parsed, set, run,
}

abbrev pub one_line : Text → Printed
one_line line = record { stdout = line ∷ []; stderr = [] }

-- The level that a `set` writes to.
unfoldable pub or_default : Option Cli.Level → Cli.Level
or_default none = Cli.personal
or_default (some level) = level

asked_default :
    (level : Option Cli.Level)
    → asked_level (some (or_default level)) ≡ some (or_personal (asked_level level))
unfolding asked_level or_default or_personal Cli.config_level
asked_default none = refl
asked_default (some level) = refl

module _ {W : Type 0} (ports : Ports W) (store : IsStore ports) (float_text : ℕ → Text) where
  -- A `set` that succeeded parsed its key and had the service set it.
  pub record Set (w w' : W) (raw v : Text) (level : Option Cli.Level) : Type 0 where
    pub key : Key
    pub key_of_raw : parse raw ≡ ok key
    pub wrote : Access.set ports w key v (or_personal (asked_level level)) ≡ (ok tt, w')

  pub run-Set :
      (w w' : W) (raw v : Text) (level : Option Cli.Level) (printed : Printed)
      → run float_text (service ports) w (ConfigAction.set raw v level) ≡ (printed, ok tt, w')
      → Set w w' raw v level
  unfolding run set set_parsed service
  run-Set w w' raw v level printed h = elim (Result-cases (parse raw)) [
    | inr (e, bad) ↦ ground (arith, bad, h)
    | inl (key, good) ↦ record {
      key = key;
      key_of_raw = good;
      wrote = ap (λ (p : Printed × Result (Unit {0}) ConfigError × W). (p.1, p.2)) (rw good at h);
    }
  ]

  get-found :
      (w : W) (raw v : Text) (key : Key) (level : Option Cli.Level)
      → parse raw ≡ ok key
      → Access.get ports w key (asked_level level) ≡ ok (found (string v))
      → run float_text (service ports) w (ConfigAction.get raw level) ≡ (one_line v, ok tt, w)
  unfolding run get answer line_of print render service
  get-found w raw v key level parsed there = rw (parsed, there) refl

  -- Over a store, what `config set` wrote, `config get` prints at its level, or at the personal one
  -- if no level was named, and nothing else.
  pub get-set_printed :
      (w w' : W) (raw v : Text) (level : Option Cli.Level) (printed : Printed)
      → run float_text (service ports) w (ConfigAction.set raw v level) ≡ (printed, ok tt, w')
      → run float_text (service ports) w' (ConfigAction.get raw (some (or_default level)))
        ≡ (one_line v, ok tt, w')
  get-set_printed w w' raw v level printed h =
      let s = run-Set w w' raw v level printed h in
      get-found w' raw v s.key (some (or_default level)) s.key_of_raw (
        rw (asked_default level) (
          get-set_self ports store w w' s.key v (or_personal (asked_level level))
            (parse-IsValid raw s.key s.key_of_raw).0 s.wrote))

  get-read :
      (w : W) (key : Key) (level : Level) (document : Option Node)
      → ports.read w level ≡ ok document
      → Access.get ports w key (some level) ≡ ok (resolve document key)
  unfolding Access.get
  get-read w key level document readable = rw readable refl

  -- Over a store, what `config set` wrote without `--level`, `config get` without `--level` prints,
  -- if the team level can be read.
  pub get-set_preferred :
      (w w' : W) (raw v : Text) (printed : Printed) (document : Option Node)
      → run float_text (service ports) w (ConfigAction.set raw v none) ≡ (printed, ok tt, w')
      → ports.read w team ≡ ok document
      → run float_text (service ports) w' (ConfigAction.get raw none) ≡ (one_line v, ok tt, w')
  unfolding asked_level or_personal prefer
  get-set_preferred w w' raw v printed document h readable =
      let s = run-Set w w' raw v none printed h in
      let own =
        get-set_self ports store w w' s.key v personal (parse-IsValid raw s.key s.key_of_raw).0
          s.wrote in
      let shared = get-set_other_level ports store w s.key s.key v personal team (λ e. cc) in
      let after : (Access.set ports w s.key v personal).1 ≡ w' =
        ap (λ (p : Result (Unit {0}) ConfigError × W). p.1) s.wrote in
      let now : Access.get ports w' s.key (some team) ≡ ok (resolve document s.key) =
        rw after at (shared ∙ get-read w s.key team document readable) in
      get-found w' raw v s.key none s.key_of_raw (get-prefer ports w' s.key ∙ rw (own, now) refl)
