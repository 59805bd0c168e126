-- ===== src/Adapters/Frontmatter.antt =====
-- cli/config-adapters/src/frontmatter.rs
pub mod Lines
pub mod Splitting
use luminosity.Base.{
  Bool, true, false, Text, codes, text_eq, List, [], ◌∷◌, ◌++◌, Result, ok, err, split_inclusive,
  strip_end, if◌then◌else◌,
}

pub record Split : Type 0 where
  pub frontmatter : Text
  pub body : Text

unfoldable pub is_fence : Text → Bool
unfolding text_eq
is_fence segment =
    let line = strip_end b'\r' (strip_end b'\n' segment) in text_eq line (codes "---")

-- The loop over the segments behind the opening fence, with `frontmatter`, `body` and `closed`.
unfoldable pub collect : List Text → Text → Text → Bool → Split × Bool
collect [] frontmatter body closed = (record { frontmatter = frontmatter; body = body }, closed)
collect (segment ∷ rest) frontmatter body true = collect rest frontmatter (body ++ segment) true
collect (segment ∷ rest) frontmatter body false =
    let closing = collect rest frontmatter body true in
    let open_still = collect rest (frontmatter ++ segment) body false in
    if is_fence segment then closing else open_still

-- The test on `closed` behind the loop.
unfoldable pub close : Split × Bool → Result Split Text
close (s, closed) = if closed then ok s else err (codes "unterminated frontmatter block")

-- The two ways on from the first segment.
unfoldable pub split_segments : Text → List Text → Result Split Text
unfolding close
split_segments content [] = ok (record { frontmatter = []; body = content })
split_segments content (first ∷ segments) =
    if is_fence first
    then close (collect segments [] [] false)
    else ok (record { frontmatter = []; body = content })

unfoldable pub split : Text → Result Split Text
split content = split_segments content (split_inclusive b'\n' content)
