-- ===== src/Launcher/Help.antt =====
-- cli/launcher/src/launch/help.rs: the help section on the subcommands of the manifest.
pub mod Table
use luminosity.Base.{
  ℕ, zero, suc, ◌+◌, ◌-◌, Bool, ◌||◌, ◌&&◌, Text, codes, List, [], ◌∷◌, ◌++◌, Option, none, some,
  len, length, is_empty, ltb, leb, if◌then◌else◌,
}
use luminosity.Launcher.Resolve.Trust.{Manifest, BinaryEntry}

-- `char::is_control`: the Unicode category Cc
unfoldable pub is_control : ℕ → Bool
is_control c = ltb c 0x20 || (leb 0x7f c && leb c 0x9f)

unfoldable pub sanitize : Text → Text
sanitize [] = []
sanitize (c ∷ cs) = let rest = sanitize cs in if is_control c then rest else c ∷ rest

-- `.map(|name| sanitize(name).len()).max().unwrap_or(0)`, in bytes
unfoldable pub width_of : List (Text × BinaryEntry) → ℕ
width_of [] = 0
width_of ((name, _) ∷ rest) =
    if ltb (width_of rest) (len (sanitize name)) then len (sanitize name) else width_of rest

abbrev pub spaces : ℕ → Text
spaces zero = []
spaces (suc n) = b' ' ∷ spaces n

-- `{text:<width$}`, which counts characters
unfoldable pub pad : ℕ → Text → Text
pad width text = text ++ spaces (width - length text)

-- `write!(section, "\n  {name:<width$}  {description}")` for each binary
unfoldable pub rows : ℕ → List (Text × BinaryEntry) → Text
rows width [] = []
rows width ((name, entry) ∷ rest) =
    codes "\n  "
    ++ (pad width (sanitize name)
        ++ (codes "  " ++ (sanitize entry.description ++ rows width rest)))

unfoldable pub external_subcommands_section : Manifest → Option Text
external_subcommands_section manifest =
    if is_empty manifest.binaries
    then none
    else some (codes "External subcommands:" ++ rows (width_of manifest.binaries) manifest.binaries)
