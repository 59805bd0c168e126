-- ===== src/Platform/Path/Prefixes.antt =====
-- Components behind a shared prefix.
use luminosity.Base.{
  ◌+◌, Bool, true, false, Text, text_eq, text_eq_refl, List, [], ◌∷◌, ◌++◌, length, length-append,
  Option, none, some, Bool-cases, inl, inr, ◌≡◌, refl, ap, arith,
}
use luminosity.Platform.Path.{
  FilePath, join, parent, without_last, parent_at, same_kind, behind, strip_prefix, starts_with,
}

pub behind-append : (p a b : List Text) → behind (p ++ a) (p ++ b) ≡ behind a b
unfolding behind
behind-append [] a b = refl
behind-append (c ∷ p) a b = rw (text_eq_refl c, behind-append p a b)

without_last-append : (cs : List Text) (c : Text) → without_last (cs ++ c ∷ []) ≡ cs
unfolding without_last
without_last-append [] c = refl
without_last-append (d ∷ []) c = refl
without_last-append (d ∷ e ∷ es) c = ap (◌∷◌ d) (without_last-append (e ∷ es) c)

parent_at-append :
    (path : FilePath) (cs : List Text) (c : Text)
    → parent_at path (cs ++ c ∷ []) ≡ some (record path { components = cs })
unfolding parent_at without_last
parent_at-append path [] c = refl
parent_at-append path (d ∷ ds) c =
    ap (λ (ds : List Text). some (record path { components = ds })) (without_last-append (d ∷ ds) c)

same_kind_self : (b : Bool) → same_kind b b ≡ true
same_kind_self true = refl
same_kind_self false = refl

-- The parent of a joined path is the path that was joined to.
pub parent-join : (path : FilePath) (name : Text) → parent (join path name) ≡ some path
unfolding parent join
parent-join path name = parent_at-append (join path name) path.components name

pub length-join :
    (path : FilePath) (name : Text)
    → length (join path name).components ≡ length path.components + 1
unfolding join
length-join path name = length-append path.components (name ∷ [])

behind-ne : (a b : Text) → text_eq b a ≡ false → behind (b ∷ []) (a ∷ []) ≡ none
unfolding behind
behind-ne a b h = rw h

-- Two names joined to one path: neither is below the other.
pub starts_with-join :
    (path : FilePath) (a b : Text)
    → text_eq b a ≡ false
    → starts_with (join path a) (join path b) ≡ false
unfolding starts_with strip_prefix join
starts_with-join path a b h = ground (
  arith,
  same_kind_self path.absolute,
  behind-append path.components (b ∷ []) (a ∷ []),
  behind-ne a b h,
)

behind_self : (cs : List Text) → behind cs cs ≡ some []
unfolding behind
behind_self [] = refl
behind_self (c ∷ cs) = rw (text_eq_refl c, behind_self cs)

-- A path starts with itself.
pub starts_with_self : (path : FilePath) → starts_with path path ≡ true
unfolding starts_with strip_prefix
starts_with_self path = ground (arith, same_kind_self path.absolute, behind_self path.components)

behind-prefix : (cs ds : List Text) → behind cs (cs ++ ds) ≡ some ds
unfolding behind
behind-prefix [] ds = refl
behind-prefix (c ∷ cs) ds = rw (text_eq_refl c, behind-prefix cs ds) refl

-- A joined path starts with the path that was joined to.
pub starts_with-joined : (path : FilePath) (name : Text) → starts_with (join path name) path ≡ true
unfolding starts_with strip_prefix join
starts_with-joined path name =
    ground (arith, same_kind_self path.absolute, behind-prefix path.components (name ∷ []))

is_prefix-append :
    (cs ds : List Text) (c : Text) (rest : List Text)
    → behind (cs ++ c ∷ []) ds ≡ some rest
    → (more : List Text) × (behind cs ds ≡ some more)
unfolding behind
is_prefix-append [] ds c rest h = (ds, refl)
is_prefix-append (d ∷ cs) [] c rest h = cc
is_prefix-append (d ∷ cs) (e ∷ ds) c rest h = elim (Bool-cases (text_eq d e)) [
  | inl same ↦ rw same (is_prefix-append cs ds c rest (rw same at h))
  | inr other ↦ cc (rw other at h)
]

behind-append_right :
    (cs ds : List Text) (c : Text) (rest : List Text)
    → behind cs ds ≡ some rest
    → (more : List Text) × (behind cs (ds ++ c ∷ []) ≡ some more)
unfolding behind
behind-append_right [] ds c rest h = (ds ++ c ∷ [], refl)
behind-append_right (d ∷ cs) [] c rest h = cc
behind-append_right (d ∷ cs) (e ∷ ds) c rest h = elim (Bool-cases (text_eq d e)) [
  | inl same ↦ rw same (behind-append_right cs ds c rest (rw same at h))
  | inr other ↦ cc (rw other at h)
]

pub behind-of-starts_with :
    (path base : FilePath)
    → starts_with path base ≡ true
    → (same_kind path.absolute base.absolute ≡ true)
      × (rest : List Text) × (behind base.components path.components ≡ some rest)
unfolding starts_with strip_prefix
behind-of-starts_with path base h = elim (Bool-cases (same_kind path.absolute base.absolute)) [
  | inr other ↦ ground (arith, other, h)
  | inl same ↦ let (rest, e) = go (behind base.components path.components) refl in (same, rest, e)
]
  where
    go :
        (r : Option (List Text))
        → behind base.components path.components ≡ r
        → (rest : List Text) × (behind base.components path.components ≡ some rest)
    go none e = ground (arith, e, h)
    go (some rest) e = (rest, e)

starts_with-of-behind :
    (path base : FilePath) (rest : List Text)
    → same_kind path.absolute base.absolute ≡ true
    → behind base.components path.components ≡ some rest
    → starts_with path base ≡ true
unfolding starts_with strip_prefix
starts_with-of-behind path base rest kind e = ground (arith, kind, e)

-- What starts with a joined path starts with what was joined to.
pub starts_with-join_below :
    (path dir : FilePath) (name : Text)
    → starts_with path (join dir name) ≡ true
    → starts_with path dir ≡ true
unfolding join
starts_with-join_below path dir name h =
    let (kind, rest, e) = behind-of-starts_with path (join dir name) h in
    let (more, e') = is_prefix-append dir.components path.components name rest e in
    starts_with-of-behind path dir more kind e'

-- A joined path starts with what the path starts with.
pub starts_with-join_above :
    (path dir : FilePath) (name : Text)
    → starts_with path dir ≡ true
    → starts_with (join path name) dir ≡ true
unfolding join
starts_with-join_above path dir name h =
    let (kind, rest, e) = behind-of-starts_with path dir h in
    let (more, e') = behind-append_right dir.components path.components name rest e in
    starts_with-of-behind (join path name) dir more kind e'

length-without_last :
    (c : Text) (cs : List Text) → length (without_last (c ∷ cs)) + 1 ≡ length (c ∷ cs)
unfolding without_last
length-without_last c [] = ground arith
length-without_last c (d ∷ ds) = ground (arith, length-without_last d ds)

-- A parent is one component shorter.
pub length-parent :
    (path up : FilePath) → parent path ≡ some up → length up.components + 1 ≡ length path.components
unfolding parent parent_at
length-parent path up h = go path.components h
  where
    go : (cs : List Text) → parent_at path cs ≡ some up → length up.components + 1 ≡ length cs
    go [] h = cc
    go (c ∷ cs) h =
        let same : without_last (c ∷ cs) ≡ up.components = cc in
        rw (← same) (length-without_last c cs)
