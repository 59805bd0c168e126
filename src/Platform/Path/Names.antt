-- ===== src/Platform/Path/Names.antt =====
-- The last component of a joined path.
use luminosity.Base.{
  ◌≤◌, true, false, Text, text_eq, text_eq_iff, List, [], ◌∷◌, ◌++◌, length, length-append,
  append-nil, append_assoc, Option, none, some, Bool-cases, inl, inr, ◌≡◌, ◌≢◌, refl, sym, ap, ◌∙◌,
  arith,
}
use luminosity.Platform.Path.{FilePath, join, behind, starts_with}
use luminosity.Platform.Path.Prefixes.{behind-append, behind-of-starts_with, length-join}

last_of : List Text → Option Text
last_of [] = none
last_of (c ∷ []) = some c
last_of (c ∷ d ∷ ds) = last_of (d ∷ ds)

last_of-append : (cs : List Text) (c : Text) → last_of (cs ++ c ∷ []) ≡ some c
unfolding last_of
last_of-append [] c = refl
last_of-append (d ∷ []) c = refl
last_of-append (d ∷ e ∷ es) c = last_of-append (e ∷ es) c

last_of-join : (path : FilePath) (name : Text) → last_of (join path name).components ≡ some name
unfolding join
last_of-join path name = last_of-append path.components name

name_of_components :
    (a b : FilePath) (x y : Text) → (join a x).components ≡ (join b y).components → x ≡ y
name_of_components a b x y h =
    let same : some x ≡ some y = sym (last_of-join a x) ∙ ap last_of h ∙ last_of-join b y in cc

-- Joined paths that are one end in one name.
pub join-name : (a b : FilePath) (x y : Text) → join a x ≡ join b y → x ≡ y
join-name a b x y h = name_of_components a b x y (ap (λ (p : FilePath). p.components) h)

behind-whole : (ps cs rest : List Text) → behind ps cs ≡ some rest → cs ≡ ps ++ rest
unfolding behind
behind-whole [] cs rest h = cc
behind-whole (p ∷ ps) [] rest h = cc
behind-whole (p ∷ ps) (c ∷ cs) rest h = elim (Bool-cases (text_eq p c)) [
  | inr other ↦ cc (rw other at h)
  | inl same ↦ cc ((text_eq_iff p c).0 same, behind-whole ps cs rest (rw same at h))
]

nil_of_length : (cs : List Text) → length cs ≡ 0 → cs ≡ []
nil_of_length [] h = refl
nil_of_length (c ∷ cs) h = absurd (omega (arith, h))

-- A joined path that starts with another and is no longer ends in the other's name.
pub starts_with-name :
    (a b : FilePath) (x y : Text)
    → length a.components ≤ length b.components
    → starts_with (join a x) (join b y) ≡ true
    → x ≡ y
starts_with-name a b x y shorter h =
    let (_, rest, e) = behind-of-starts_with (join a x) (join b y) h in
    let whole = behind-whole (join b y).components (join a x).components rest e in
    let none_left = nil_of_length rest (
      omega (
        arith,
        shorter,
        ap (λ (cs : List Text). length cs) whole,
        length-append (join b y).components rest,
        length-join a x,
        length-join b y,
      )) in
    name_of_components a b x y (
      whole
      ∙ ap (λ (r : List Text). (join b y).components ++ r) none_left
      ∙ append-nil (join b y).components)

-- A path that starts with another is at least as long.
pub starts_with-length :
    (a b : FilePath) → starts_with a b ≡ true → length b.components ≤ length a.components
starts_with-length a b h =
    let (_, rest, e) = behind-of-starts_with a b h in
    omega (
      arith,
      ap (λ (cs : List Text). length cs) (behind-whole b.components a.components rest e),
      length-append b.components rest,
    )

deeper_components :
    (path : FilePath) (a c : Text)
    → (join (join path a) c).components ≡ path.components ++ a ∷ c ∷ []
unfolding join
deeper_components path a c = append_assoc path.components (a ∷ []) (c ∷ [])

behind-other : (a b c : Text) → text_eq b a ≡ false → behind (b ∷ []) (a ∷ c ∷ []) ≡ none
unfolding behind
behind-other a b c h = rw h refl

-- What is in a directory is not below another name beside that directory.
pub starts_with-join_other :
    (path : FilePath) (a b c : Text)
    → text_eq b a ≡ false
    → starts_with (join (join path a) c) (join path b) ≡ false
unfolding join
starts_with-join_other path a b c h =
    elim (Bool-cases (starts_with (join (join path a) c) (join path b))) [
      | inr apart ↦ apart
      | inl over ↦
          let (_, rest, e) = behind-of-starts_with (join (join path a) c) (join path b) over in
          absurd (go rest (rw (deeper_components path a c) at e))
    ]
  where
    go :
        (rest : List Text)
        → behind (join path b).components (path.components ++ a ∷ c ∷ []) ≢ some rest
    go rest e = cc (behind-append path.components (b ∷ []) (a ∷ c ∷ []), behind-other a b c h, e)
