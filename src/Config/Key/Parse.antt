-- ===== src/Config/Key/Parse.antt =====
-- `Key::parse` of cli/config/src/key.rs
use luminosity.Base.{
  Text, List, [], ◌∷◌, Bool, false, ◌||◌, Result, ok, err, split, is_empty, if◌then◌else◌,
}
use luminosity.Config.Key.{Key}
use luminosity.Config.Error.{ConfigError, invalid_key}

-- `segments.iter().any(String::is_empty)`
abbrev pub any_is_empty : List Text → Bool
any_is_empty [] = false
any_is_empty (s ∷ ss) = is_empty s || any_is_empty ss

unfoldable pub parse : Text → Result Key ConfigError
parse raw =
    let segments = split b'.' raw in
    if any_is_empty segments then err (invalid_key raw) else ok (record { segments = segments })
