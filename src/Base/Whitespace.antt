-- ===== src/Base/Whitespace.antt =====
-- White space at the ends of a text, and line terminators.
use luminosity.Base.Tests.{◌==◌, if◌then◌else◌}
use luminosity.Base.Lists.{all, is_empty}
use luminosity.Base.Strings.{
  Text, is_whitespace, trim_start, trim_end, trim, strip_end, push_head, split_inclusive,
}
use Prim.Native.Nat.{ℕ}
use mathlib.Core.Path.{◌≡◌, refl, ap, ◌∙◌}
use mathlib.Core.Bool.{true}
use mathlib.Core.List.{List, [], ◌∷◌, ◌++◌}
use native.Mathlib.Omega.{arith}

is_empty-trim_end : (t : Text) → is_empty (trim_end t) ≡ all is_whitespace t
is_empty-trim_end [] = refl
is_empty-trim_end (c ∷ cs) = ground (arith, is_empty-trim_end cs)

all-trim_start : (t : Text) → all is_whitespace (trim_start t) ≡ all is_whitespace t
all-trim_start [] = refl
all-trim_start (c ∷ cs) = ground (arith, all-trim_start cs)

-- A text trims to nothing exactly when it is all white space.
pub is_empty-trim : (t : Text) → is_empty (trim t) ≡ all is_whitespace t
is_empty-trim t = is_empty-trim_end (trim_start t) ∙ all-trim_start t

-- What `strip_end` takes off.
pub record Ending (c : ℕ) (t : Text) : Type 0 where
  pub ending : Text
  pub whole : t ≡ strip_end c t ++ ending
  pub only : all (λ x. x == c) ending ≡ true

pub strip_end-Ending : (c : ℕ) (t : Text) → Ending c t
strip_end-Ending c [] = record { ending = []; whole = refl; only = refl }
strip_end-Ending c (x ∷ []) = record {
  ending = if x == c then x ∷ [] else [];
  whole = ground arith;
  only = ground arith;
}
strip_end-Ending c (x ∷ y ∷ ys) =
    let e = strip_end-Ending c (y ∷ ys) in
    record { ending = e.ending; whole = ap (◌∷◌ x) e.whole; only = e.only }

-- The pieces put back together.
abbrev pub concat : List Text → Text
concat [] = []
concat (t ∷ ts) = t ++ concat ts

concat-push_head : (c : ℕ) (ts : List Text) → concat (push_head c ts) ≡ c ∷ concat ts
concat-push_head c [] = refl
concat-push_head c (t ∷ ts) = refl

pub concat-split_inclusive : (sep : ℕ) (t : Text) → concat (split_inclusive sep t) ≡ t
concat-split_inclusive sep [] = refl
concat-split_inclusive sep (c ∷ cs) =
    ground (arith, concat-split_inclusive sep cs, concat-push_head c (split_inclusive sep cs))
