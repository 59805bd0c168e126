-- ===== src/Config/Fragment/Segments.antt =====
-- The segments of a body: their terminators, and when one is blank.
use luminosity.Base.{
  ℕ, Bool, true, ◌&&◌, Text, [], ◌∷◌, ◌++◌, all, is_whitespace, strip_end, is_empty-trim,
  strip_end-Ending, all-append, ◌==◌, append_assoc, ◌≡◌, refl, sym, ap, ◌∙◌, arith,
}
use luminosity.Config.Fragment.{content, is_blank}

abbrev pub all_white : Text → Bool
all_white = all is_whitespace

all-white :
    (c : ℕ) (t : Text) → is_whitespace c ≡ true → all (λ x. x == c) t ≡ true → all_white t ≡ true
all-white c [] w h = refl
all-white c (x ∷ t) w h = ground (arith, all-white c t w)

&&-true : (b : Bool) → (b && true) ≡ b
&&-true b = ground arith

-- What the terminator of a segment is.
pub record Terminated (s : Text) : Type 0 where
  pub terminator : Text
  pub whole : s ≡ content s ++ terminator
  pub white : all_white terminator ≡ true

pub content-Terminated : (s : Text) → Terminated s
unfolding content is_whitespace
content-Terminated s =
    let lf = strip_end-Ending b'\n' s in
    let cr = strip_end-Ending b'\r' (strip_end b'\n' s) in
    record {
      terminator = cr.ending ++ lf.ending;
      whole =
          lf.whole
          ∙ ap (λ (t : Text). t ++ lf.ending) cr.whole
          ∙ append_assoc _ cr.ending lf.ending;
      white =
          all-append is_whitespace cr.ending lf.ending
          ∙ rw (all-white b'\r' cr.ending refl cr.only, all-white b'\n' lf.ending refl lf.only);
    }

all_white-Terminated : (s : Text) → Terminated s → all_white (content s) ≡ all_white s
all_white-Terminated s t = sym (
    ap all_white t.whole
    ∙ all-append is_whitespace (content s) t.terminator
    ∙ rw t.white (&&-true (all_white (content s))))

-- A segment is blank exactly when it is all white space, its terminator included.
pub is_blank-all_white : (s : Text) → is_blank s ≡ all_white s
unfolding is_blank
is_blank-all_white s = is_empty-trim (content s) ∙ all_white-Terminated s (content-Terminated s)
