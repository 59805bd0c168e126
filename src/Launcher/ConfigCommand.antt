-- ===== src/Launcher/ConfigCommand.antt =====
-- cli/launcher/src/config_command/inbound/cli.rs. How an `f64` displays is a parameter.
pub mod RoundTrip
use luminosity.Base.{
  ℕ, ◌+◌, Bool, true, false, Text, codes, decimal, [], ◌∷◌, ◌++◌, Option, none, some, Result, ok,
  err, ◌>>=◌,
}
use luminosity.Base.Int.{ℤ, pos, negsuc}
use luminosity.Config.Error.{ConfigError, not_found}
use luminosity.Config.Key.{Key}
use luminosity.Config.Key.Parse.{parse}
use luminosity.Config.Level.{Level, personal}
use luminosity.Config.Node.{Scalar}
use luminosity.Config.Service.{Resolved, found, absent}
use luminosity.Config.Service.Driver.{ConfigAccess}
use luminosity.Launcher.Cli
use luminosity.Launcher.Cli.{ConfigAction, config_level}
use luminosity.Launcher.Support.{Printed}

-- `i64::to_string`
unfoldable pub decimal_int : ℤ → Text
decimal_int (pos n) = decimal n
decimal_int (negsuc n) = codes "-" ++ decimal (n + 1)

-- `bool::to_string`
unfoldable pub display_bool : Bool → Text
display_bool true = codes "true"
display_bool false = codes "false"

unfoldable pub render : (ℕ → Text) → Scalar → Text
render float_text (Scalar.string value) = value
render float_text (Scalar.bool value) = display_bool value
render float_text (Scalar.int value) = decimal_int value
render float_text (Scalar.float value) = float_text value
render float_text Scalar.null = []

-- `level.map(Into::into)`
unfoldable pub asked_level : Option Cli.Level → Option Level
asked_level none = none
asked_level (some level) = some (config_level level)

-- `level.unwrap_or(Level::Personal)`
unfoldable pub or_personal : Option Level → Level
or_personal none = personal
or_personal (some level) = level

-- Nothing is printed.
abbrev pub silent : Printed
silent = record { stdout = []; stderr = [] }

-- The match on what the key resolves to.
unfoldable pub line_of : (ℕ → Text) → Key → Option Level → Resolved → Result Text ConfigError
line_of float_text key level (found scalar) = ok (render float_text scalar)
line_of float_text key level absent = err (not_found key level)

-- A line goes to stdout; an error leaves it empty.
unfoldable pub print : Result Text ConfigError → Printed × Result (Unit {0}) ConfigError
print (ok line) = (record { stdout = line ∷ []; stderr = [] }, ok tt)
print (err error) = (silent, err error)

module _ {W : Type 0} (float_text : ℕ → Text) (access : ConfigAccess W) where
  -- What `get` prints, if it prints.
  unfoldable pub answer : W → Text → Option Level → Result Text ConfigError
  answer w raw_key level = do
    key ← parse raw_key
    resolved ← access.get w key level
    line_of float_text key level resolved

  unfoldable pub get : W → Text → Option Level → Printed × Result (Unit {0}) ConfigError
  get w raw_key level = print (answer w raw_key level)

  unfoldable pub set_parsed :
      W → Result Key ConfigError → Text → Option Level → Result (Unit {0}) ConfigError × W
  set_parsed w (err error) v level = (err error, w)
  set_parsed w (ok key) v level = access.set w key v (or_personal level)

  unfoldable pub set : W → Text → Text → Option Level → Result (Unit {0}) ConfigError × W
  set w raw_key v level = set_parsed w (parse raw_key) v level

  unfoldable pub run : W → ConfigAction → Printed × Result (Unit {0}) ConfigError × W
  run w (ConfigAction.get key level) =
      let (printed, result) = get w key (asked_level level) in (printed, result, w)
  run w (ConfigAction.set key v level) =
      let (result, w') = set w key v (asked_level level) in (silent, result, w')
