-- ===== src/Adapters/Frontmatter/Lines.antt =====
-- Texts made of whole lines, and their segments.
use luminosity.Base.{
  ℕ, Bool, true, not, Text, List, [], ◌∷◌, ◌++◌, all, push_head, split_inclusive, ◌==◌,
  if◌then◌else◌, ◌≡◌, ◌≢◌, refl, ap, ◌∙◌, arith,
}
use luminosity.Adapters.Frontmatter.{is_fence}

-- Nothing, or a text that ends with a newline.
abbrev pub ends_line : Text → Bool
ends_line [] = true
ends_line (c ∷ []) = c == b'\n'
ends_line (c ∷ d ∷ ds) = ends_line (d ∷ ds)

-- A frontmatter that no line of closes early.
pub record IsBlock (frontmatter : Text) : Type 0 where
  pub whole_lines : ends_line frontmatter ≡ true
  pub no_fence : all (λ s. not (is_fence s)) (split_inclusive b'\n' frontmatter) ≡ true

-- One character in front of the segments behind it.
abbrev in_front : ℕ → List Text → List Text
in_front c rest = if c == b'\n' then (c ∷ []) ∷ rest else push_head c rest

in_front-append :
    (c : ℕ) (ss ts : List Text) → ss ≢ [] → in_front c (ss ++ ts) ≡ in_front c ss ++ ts
in_front-append c [] ts h = absurd (h refl)
in_front-append c (s ∷ ss) ts h = ground arith

in_front-ne-nil : (c : ℕ) (ss : List Text) → in_front c ss ≢ []
in_front-ne-nil c [] = ground arith
in_front-ne-nil c (s ∷ ss) = ground arith

-- The segments of whole lines in front of a text are segments of the whole.
pub split_inclusive-append :
    (a b : Text)
    → ends_line a ≡ true
    → split_inclusive b'\n' (a ++ b) ≡ split_inclusive b'\n' a ++ split_inclusive b'\n' b
split_inclusive-append [] b h = refl
split_inclusive-append (c ∷ []) b h = ground arith
split_inclusive-append (c ∷ d ∷ ds) b h =
    ap (in_front c) (split_inclusive-append (d ∷ ds) b h)
    ∙ in_front-append c (split_inclusive b'\n' (d ∷ ds)) (split_inclusive b'\n' b)
        (in_front-ne-nil d (split_inclusive b'\n' ds))
