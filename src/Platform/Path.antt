-- ===== src/Platform/Path.antt =====
-- `std::path::Path`: whether it is absolute, and its components. A name that is joined is one
-- component: the program joins literals and validated names only.
pub mod Prefixes
pub mod Names
use luminosity.Base.{
  Bool, true, false, ◌&&◌, ◌||◌, not, Text, text_eq, codes, List, [], ◌∷◌, ◌++◌, Option, none, some,
  join as join_text, if◌then◌else◌,
}

pub record FilePath : Type 0 where
  pub absolute : Bool
  pub components : List Text

-- `path.join(name)`
unfoldable pub join : FilePath → Text → FilePath
join path name = record path { components = path.components ++ name ∷ [] }

without_last : List Text → List Text
without_last [] = []
without_last (c ∷ []) = []
without_last (c ∷ d ∷ ds) = c ∷ without_last (d ∷ ds)

parent_at : FilePath → List Text → Option FilePath
parent_at path [] = none
parent_at path (c ∷ cs) = some (record path { components = without_last (c ∷ cs) })

-- `path.parent()`: the root and the empty path have none.
unfoldable pub parent : FilePath → Option FilePath
unfolding without_last parent_at
parent path = parent_at path path.components

-- What is left of the components behind a prefix.
unfoldable pub behind : List Text → List Text → Option (List Text)
behind [] cs = some cs
behind (p ∷ ps) [] = none
behind (p ∷ ps) (c ∷ cs) = let rest = behind ps cs in if text_eq p c then rest else none

abbrev same_kind : Bool → Bool → Bool
same_kind true b = b
same_kind false b = not b

-- `path.strip_prefix(base)`: the rest is a relative path.
unfoldable pub strip_prefix : FilePath → FilePath → Option FilePath
strip_prefix path base =
    if same_kind path.absolute base.absolute
    then (elim (behind base.components path.components) [
      | none ↦ none
      | some rest ↦ some (record { absolute = false; components = rest })
    ])
    else none

-- `path.starts_with(base)`, component by component
unfoldable pub starts_with : FilePath → FilePath → Bool
starts_with path base = elim (strip_prefix path base) [ none ↦ false | some _ ↦ true ]

-- `path.display().to_string()`
unfoldable pub display : FilePath → Text
display path = (if path.absolute then codes "/" else []) ++ join_text (codes "/") path.components
