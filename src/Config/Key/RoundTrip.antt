-- ===== src/Config/Key/RoundTrip.antt =====
-- The parser of keys against their printer.
use luminosity.Base.{
  Text, List, [], ◌∷◌, ◌++◌, Bool, true, false, ok, err, split, join, codes, is_empty, ◌≡◌, ◌≢◌,
  ◌↔◌, sym, refl, ap, ◌∙◌, ◌==◌, arith, push_head, Bool-cases, inl, inr, all, not, ◌&&◌, ℕ, ==_iff,
}
use luminosity.Config.Key.{Key, display}
use luminosity.Config.Key.Parse.{parse, any_is_empty}
use luminosity.Config.Error.{invalid_key}

join-push_head :
    (c : ℕ) (ps : List Text) → ps ≢ [] → join (codes ".") (push_head c ps) ≡ c ∷ join (codes ".") ps
join-push_head c [] h = absurd (h refl)
join-push_head c (p ∷ []) h = refl
join-push_head c (p ∷ q ∷ ps) h = refl

split-ne-nil : (sep : ℕ) (t : Text) → split sep t ≢ []
split-ne-nil sep [] = λ h. cc
split-ne-nil sep (c ∷ cs) = ground (arith, split-ne-nil sep cs)

join-nil : (ps : List Text) → ps ≢ [] → join (codes ".") ([] ∷ ps) ≡ b'.' ∷ join (codes ".") ps
join-nil [] h = absurd (h refl)
join-nil (p ∷ ps) h = refl

join-split : (t : Text) → join (codes ".") (split b'.' t) ≡ t
join-split [] = refl
join-split (c ∷ cs) = elim (Bool-cases (c == b'.')) [
  | inl dot ↦
      rw dot (
        join-nil (split b'.' cs) (split-ne-nil b'.' cs) ∙ cc (join-split cs, (==_iff c b'.').0 dot))
  | inr plain ↦
      rw plain
        (join-push_head c (split b'.' cs) (split-ne-nil b'.' cs) ∙ ap (◌∷◌ c) (join-split cs))
]

-- A character that may stand in a segment, and a segment.
abbrev is_plain : ℕ → Bool
is_plain c = not (c == b'.')

abbrev pub is_segment : Text → Bool
is_segment s = not (is_empty s) && all is_plain s

-- Keys with at least one segment, none of them empty, and no dot inside a segment.
pub record IsValid (key : Key) : Type 0 where
  pub has_segment : key.segments ≢ []
  pub all_segments : all is_segment key.segments ≡ true

split-plain : (s : Text) → all is_plain s ≡ true → split b'.' s ≡ s ∷ []
split-plain [] h = refl
split-plain (c ∷ cs) h = ground (arith, split-plain cs)

split-append :
    (s t : Text) → all is_plain s ≡ true → split b'.' (s ++ (codes "." ++ t)) ≡ s ∷ split b'.' t
split-append [] t h = refl
split-append (c ∷ cs) t h = ground (arith, split-append cs t)

split-join :
    (ps : List Text) → ps ≢ [] → all is_segment ps ≡ true → split b'.' (join (codes ".") ps) ≡ ps
split-join [] ne h = absurd (ne refl)
split-join (p ∷ []) ne h = split-plain p (ground arith)
split-join (p ∷ q ∷ ps) ne h =
    split-append p _ (ground arith) ∙ ap (◌∷◌ p) (split-join (q ∷ ps) (λ e. cc) (ground arith))

any_is_empty-segments : (ps : List Text) → all is_segment ps ≡ true → any_is_empty ps ≡ false
any_is_empty-segments [] h = refl
any_is_empty-segments (p ∷ ps) h = ground (arith, any_is_empty-segments ps)

-- The pieces of a split hold no separator.
split-all_plain : (t : Text) → all (all is_plain) (split b'.' t) ≡ true
split-all_plain [] = refl
split-all_plain (c ∷ cs) = ground (arith, split-all_plain cs)

segments-nonempty :
    (ps : List Text)
    → all (all is_plain) ps ≡ true
    → any_is_empty ps ≡ false
    → all is_segment ps ≡ true
segments-nonempty [] p e = refl
segments-nonempty (s ∷ ss) p e = ground (arith, segments-nonempty ss)

-- Every valid key is read back from its dotted form.
pub parse-display : (key : Key) → IsValid key → parse (display key) ≡ ok key
unfolding parse display
parse-display key v =
    rw (split-join key.segments v.has_segment v.all_segments)
      (rw (any_is_empty-segments key.segments v.all_segments))

parse-ok :
    (raw : Text) (key : Key)
    → parse raw ≡ ok key
    → (key.segments ≡ split b'.' raw) × (any_is_empty (split b'.' raw) ≡ false)
unfolding parse
parse-ok raw key h = ground arith

-- A parsed key is valid, and it prints as the text that it was parsed from.
pub parse-IsValid :
    (raw : Text) (key : Key) → parse raw ≡ ok key → IsValid key × (display key ≡ raw)
unfolding display
parse-IsValid raw key h =
    let (cut, full) = parse-ok raw key h in
    (
      record {
        has_segment = λ e. split-ne-nil b'.' raw (sym cut ∙ e);
        all_segments = rw cut (segments-nonempty (split b'.' raw) (split-all_plain raw) full);
      },
      rw cut (join-split raw),
    )

parse-refused :
    (raw : Text) → ((key : Key) → parse raw ≢ ok key) → parse raw ≡ err (invalid_key raw)
unfolding parse
parse-refused raw h = ground (arith, h (record { segments = split b'.' raw }))

-- A raw key is refused exactly when it is the dotted form of no valid key, and the error holds
-- the raw text.
pub parse-invalid_key_iff :
    (raw : Text)
    → ((key : Key) → IsValid key → display key ≢ raw) ↔ (parse raw ≡ err (invalid_key raw))
parse-invalid_key_iff raw = (
  λ h. parse-refused raw (λ key e. let (v, p) = parse-IsValid raw key e in h key v p),
  λ h key v p. cc (parse-display key v),
)
