-- ===== src/Config/Level.antt =====
-- cli/config/src/level.rs
use luminosity.Base.{Text, codes}

pub data Level : Type 0 where
  team personal : Level

unfoldable pub qualifier : Level → Text
qualifier team = codes ""
qualifier personal = codes ".local"

-- `Display for Level`
unfoldable pub display : Level → Text
display team = codes "team"
display personal = codes "personal"
