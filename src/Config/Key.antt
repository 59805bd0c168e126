-- ===== src/Config/Key.antt =====
-- cli/config/src/key.rs: the dotted key. Its constructor `parse` is in the child Parse, since it
-- answers with an error that names keys.
pub mod Parse
pub mod RoundTrip
use luminosity.Base.{Text, List, codes, join}

pub record Key : Type 0 where
  pub segments : List Text

-- `Display for Key`
unfoldable pub display : Key → Text
display key = join (codes ".") key.segments
