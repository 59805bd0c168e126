-- ===== src/Config/Fragment/Trim.antt =====
-- `trim_blank_lines` against a description by lines.
use luminosity.Base.{
  ℕ, ◌+◌, Bool, true, Text, List, [], ◌∷◌, ◌++◌, none, some, all, is_empty, len, len-append,
  slice-append, split_inclusive, concat, concat-split_inclusive, append_assoc, is_whitespace,
  all-append, ◌≡◌, ◌↔◌, refl, subst, zero-add, sym, ap, ◌∙◌, arith, if◌then◌else◌, Bool-cases, inl,
  inr, is_empty_iff,
}
use luminosity.Config.Fragment.{content, is_blank, scan, cut, trim_checked, trim_blank_lines}
use luminosity.Config.Fragment.Segments.{all_white, content-Terminated, is_blank-all_white}

abbrev all_blank : List Text → Bool
all_blank = all is_blank

-- The lines up to the last one that is not blank, which loses its terminator.
pub up_to_last : List Text → Text
up_to_last [] = []
up_to_last (s ∷ ss) =
    if all_blank ss then (if is_blank s then [] else content s) else s ++ up_to_last ss

-- The description: blank lines in front are dropped, then those at the end.
pub without_blank_ends : List Text → Text
unfolding up_to_last
without_blank_ends [] = []
without_blank_ends (s ∷ ss) =
    let rest = without_blank_ends ss in if is_blank s then rest else up_to_last (s ∷ ss)

-- The blank lines in front.
leading : List Text → Text
leading [] = []
leading (s ∷ ss) = let rest = leading ss in if is_blank s then s ++ rest else []

scan-some :
    (ss : List Text) (offset start e : ℕ)
    → scan ss offset (some start) e
      ≡ (some start, (if all_blank ss then e else offset + len (up_to_last ss)))
unfolding scan up_to_last
scan-some [] offset start e = refl
scan-some (s ∷ ss) offset start e = ground (
  arith,
  scan-some ss (offset + len s) start e,
  scan-some ss (offset + len s) start (offset + len (content s)),
  len-append s (up_to_last ss),
)

scan-none :
    (ss : List Text) (offset e : ℕ)
    → scan ss offset none e ≡ (
        if all_blank ss then (none, e) else (
          some (offset + len (leading ss)),
          offset + len (leading ss) + len (without_blank_ends ss),
        ))
unfolding scan without_blank_ends leading
scan-none [] offset e = refl
scan-none (s ∷ ss) offset e = ground (
  arith,
  scan-none ss (offset + len s) e,
  scan-some ss (offset + len s) offset (offset + len (content s)),
  len-append s (up_to_last ss),
  len-append s (leading ss),
)

-- What is left behind the last line that is not blank: white space.
record Behind (t : Text) (kept : Text) : Type 0 where
  rest : Text
  whole : t ≡ kept ++ rest
  white : all_white rest ≡ true

all_blank-white : (ss : List Text) → all_blank ss ≡ true → all_white (concat ss) ≡ true
all_blank-white [] h = refl
all_blank-white (s ∷ ss) h =
    all-append is_whitespace s (concat ss)
    ∙ ground (arith, is_blank-all_white s, all_blank-white ss)

up_to_last-Behind : (ss : List Text) → Behind (concat ss) (up_to_last ss)
unfolding up_to_last
up_to_last-Behind [] = record { rest = []; whole = refl; white = refl }
up_to_last-Behind (s ∷ ss) = elim (Bool-cases (all_blank ss)) [
  | inr more ↦
      let b = up_to_last-Behind ss in
      rw more (record {
        rest = b.rest;
        whole = ap (λ (t : Text). s ++ t) b.whole ∙ sym (append_assoc s (up_to_last ss) b.rest);
        white = b.white;
      })
  | inl last ↦ rw last (elim (Bool-cases (is_blank s)) [
    | inl blank ↦ rw blank (record {
      rest = s ++ concat ss;
      whole = refl;
      white = all_blank-white (s ∷ ss) (rw (blank, last));
    })
    | inr kept ↦
        let t = content-Terminated s in
        rw kept (record {
          rest = t.terminator ++ concat ss;
          whole =
              ap (λ (u : Text). u ++ concat ss) t.whole
              ∙ append_assoc (content s) t.terminator (concat ss);
          white =
              all-append is_whitespace t.terminator (concat ss)
              ∙ rw (t.white, all_blank-white ss last);
        })
  ])
]

leading-white : (ss : List Text) → all_white (leading ss) ≡ true
unfolding leading
leading-white [] = refl
leading-white (s ∷ ss) =
    ground (arith, all-append is_whitespace s (leading ss), is_blank-all_white s, leading-white ss)

without_blank_ends-Behind :
    (ss : List Text)
    → (rest : Text) × (concat ss ≡ leading ss ++ (without_blank_ends ss ++ rest))
      × (all_white rest ≡ true)
unfolding leading without_blank_ends
without_blank_ends-Behind [] = ([], refl, refl)
without_blank_ends-Behind (s ∷ ss) = elim (Bool-cases (is_blank s)) [
  | inl blank ↦
      let (rest, whole, white) = without_blank_ends-Behind ss in
      (
        rest,
        rw blank (ap (λ (t : Text). s ++ t) whole ∙ sym (append_assoc s (leading ss) _)),
        white,
      )
  | inr kept ↦ let b = up_to_last-Behind (s ∷ ss) in (b.rest, rw kept (rw kept at b.whole), b.white)
]

all_blank-without_blank_ends : (ss : List Text) → all_blank ss ≡ true → without_blank_ends ss ≡ []
unfolding without_blank_ends
all_blank-without_blank_ends [] h = refl
all_blank-without_blank_ends (s ∷ ss) h = ground (arith, all_blank-without_blank_ends ss)

cut-scan : (ss : List Text) → cut (concat ss) (scan ss 0 none 0) ≡ some (without_blank_ends ss)
unfolding cut
cut-scan ss = elim (Bool-cases (all_blank ss)) [
  | inl blank ↦ rw (scan-none ss 0 0, blank) (rw (all_blank-without_blank_ends ss blank))
  | inr some_kept ↦
      let (rest, whole, _) = without_blank_ends-Behind ss in
      rw (scan-none ss 0 0, some_kept, zero-add, whole)
        (slice-append (leading ss) (without_blank_ends ss) rest)
]

-- `trim_blank_lines` never panics. It drops the blank lines at both ends and the terminator of the
-- last line that is left, and nothing else.
pub trim_checked-without_blank_ends :
    (body : Text) → trim_checked body ≡ some (without_blank_ends (split_inclusive b'\n' body))
unfolding trim_checked
trim_checked-without_blank_ends body =
    let ss = split_inclusive b'\n' body in
    subst (λ (t : Text). cut t (scan ss 0 none 0) ≡ some (without_blank_ends ss))
      (concat-split_inclusive b'\n' body) (cut-scan ss)

trim_lem : (body : Text) → trim_blank_lines body ≡ without_blank_ends (split_inclusive b'\n' body)
unfolding trim_blank_lines
trim_lem body = rw (trim_checked-without_blank_ends body, trim_blank_lines)

-- What trimming takes off a body.
pub record Trimmed (body : Text) : Type 0 where
  pub before : Text
  pub after : Text
  pub whole : body ≡ before ++ (trim_blank_lines body ++ after)
  pub before_white : all_white before ≡ true
  pub after_white : all_white after ≡ true

-- The trimmed body is a piece of the body, with nothing but white space in front of it and behind
-- it.
pub trim_blank_lines-Trimmed : (body : Text) → Trimmed body
trim_blank_lines-Trimmed body =
    let ss = split_inclusive b'\n' body in
    let (rest, whole, white) = without_blank_ends-Behind ss in
    record {
      before = leading ss;
      after = rest;
      whole = rw (trim_lem body) (sym (concat-split_inclusive b'\n' body) ∙ whole);
      before_white = leading-white ss;
      after_white = white;
    }

all_white-all_blank : (ss : List Text) → all_white (concat ss) ≡ all_blank ss
all_white-all_blank [] = refl
all_white-all_blank (s ∷ ss) =
    all-append is_whitespace s (concat ss)
    ∙ ground (arith, is_blank-all_white s, all_white-all_blank ss)

-- A body trims to nothing exactly when it is all white space.
pub trim_blank_lines-nil_iff :
    (body : Text) → (is_empty (trim_blank_lines body) ≡ true) ↔ (all_white body ≡ true)
trim_blank_lines-nil_iff body = (
  λ e.
      let t = trim_blank_lines-Trimmed body in
      ap all_white t.whole
      ∙ all-append is_whitespace t.before _
      ∙ rw (t.before_white, (is_empty_iff (trim_blank_lines body)).0 e, t.after_white),
  λ w. rw (trim_lem body) (
      rw (
        all_blank-without_blank_ends (split_inclusive b'\n' body)
          (sym (all_white-all_blank _) ∙ rw (concat-split_inclusive b'\n' body) w))),
)
