-- ===== src/Config/Fragment.antt =====
-- cli/config/src/fragment.rs: one fragment from the two levels of a document.
pub mod Segments
pub mod Trim
pub mod Assembling
use luminosity.Base.{
  ℕ, ◌+◌, Bool, true, false, not, Text, codes, List, [], ◌∷◌, Option, none, some, Result, ok, ◌>>=◌,
  is_empty, join, len, slice, split_inclusive, strip_end, trim, if◌then◌else◌,
}
use luminosity.Config.Error.{ConfigError}
use luminosity.Config.Level.{Level, team, personal}
use luminosity.Config.Source.{FragmentSource}

pub record Fragment : Type 0 where
  pub body : Text

pub record LevelContribution : Type 0 where
  pub level : Level
  pub path : Text
  pub discovered : Bool
  pub has_body : Bool

-- `levels: [LevelContribution; 2]` is the pair of both.
pub record Assembly : Type 0 where
  pub fragment : Option Fragment
  pub levels : LevelContribution × LevelContribution

pub record LevelBody : Type 0 where
  pub path : Text
  pub body : Option Text

pub record SourceLocation : Type 0 where
  pub root : Text
  pub paths : Text × Text

-- `ReadFragmentBody`
pub record Reader : Type 0 where
  pub read_body : FragmentSource → Level → Result LevelBody ConfigError
  pub locate : FragmentSource → Result SourceLocation ConfigError

-- `AssembleFragment`
pub record Assembler : Type 0 where
  pub assemble : FragmentSource → Result Assembly ConfigError
  pub locate : FragmentSource → Result SourceLocation ConfigError

-- A segment without its line terminator.
unfoldable pub content : Text → Text
content segment = strip_end b'\r' (strip_end b'\n' segment)

unfoldable pub is_blank : Text → Bool
is_blank segment = is_empty (trim (content segment))

-- `first.get_or_insert(offset)`
abbrev get_or_insert : Option ℕ → ℕ → Option ℕ
get_or_insert none offset = some offset
get_or_insert (some start) offset = some start

-- The loop of `trim_blank_lines` over `offset`, `first` and `last_end`.
unfoldable pub scan : List Text → ℕ → Option ℕ → ℕ → Option ℕ × ℕ
scan [] offset first last_end = (first, last_end)
scan (segment ∷ rest) offset first last_end =
    scan rest (offset + len segment)
      (if is_blank segment then first else get_or_insert first offset)
      (if is_blank segment then last_end else offset + len (content segment))

-- `first.map_or("", |start| &body[start..last_end])`, where `none` is the panic of the slice.
unfoldable pub cut : Text → Option ℕ × ℕ → Option Text
cut body (none, last_end) = some []
cut body (some start, last_end) = slice start last_end body

unfoldable pub trim_checked : Text → Option Text
trim_checked body = cut body (scan (split_inclusive b'\n' body) 0 none 0)

-- The slice never panics, by a theorem below, so its callers take the text.
unfoldable pub trim_blank_lines : Text → Text
trim_blank_lines body = elim (trim_checked body) [ some t ↦ t | none ↦ [] ]

-- `body.as_deref().unwrap_or_default()`
unfoldable pub unwrap_or_default : Option Text → Text
unwrap_or_default none = []
unwrap_or_default (some body) = body

abbrev keep_nonempty : Text → List Text → List Text
keep_nonempty part parts = if is_empty part then parts else part ∷ parts

-- The parts that are not empty, joined by a blank line.
unfoldable pub join_parts : Text → Text → Option Text
join_parts shared own =
    let parts = keep_nonempty shared (keep_nonempty own []) in
    if is_empty parts then none else some (join (codes "\n\n") parts)

unfoldable pub combine : Text → Text → Option Text
unfolding join_parts
combine shared own = join_parts (trim_blank_lines shared) (trim_blank_lines own)

unfoldable pub contribution : Level → LevelBody → LevelContribution
contribution level read = record {
  level = level;
  path = read.path;
  discovered = elim read.body [ none ↦ false | some _ ↦ true ];
  has_body = not (is_empty (trim_blank_lines (unwrap_or_default read.body)));
}

-- `map(|body| Fragment { body })`
unfoldable pub to_fragment : Option Text → Option Fragment
to_fragment none = none
to_fragment (some body) = some (record { body = body })

-- The assembly of the two reads.
unfoldable pub assembled : LevelBody → LevelBody → Assembly
unfolding to_fragment
assembled shared own = record {
  fragment = to_fragment (combine (unwrap_or_default shared.body) (unwrap_or_default own.body));
  levels = (contribution team shared, contribution personal own);
}

-- `FragmentAssembler::assemble` and `locate`
unfoldable pub assemble : Reader → FragmentSource → Result Assembly ConfigError
assemble reader source = do
  shared ← reader.read_body source team
  own ← reader.read_body source personal
  ok (assembled shared own)

unfoldable pub assembler : Reader → Assembler
assembler reader = record { assemble = assemble reader; locate = reader.locate }
