-- ===== src/Launcher/Help/Table.antt =====
-- The help section is a table without control characters.
use luminosity.Base.{
  ℕ, zero, suc, ◌+◌, ◌-◌, ◌≤◌, Bool, true, false, not, ◌==◌, Text, codes, List, [], ◌∷◌, ◌++◌, none,
  some, len, all, all-append, split, length, ◌⊎◌, inl, inr, ◌≡◌, refl, ap, ◌∙◌, arith, Bool-cases,
  append_assoc, append-nil,
}
use luminosity.Launcher.Resolve.Trust.{Manifest, BinaryEntry}
use luminosity.Launcher.Help.{
  is_control, sanitize, width_of, spaces, pad, rows, external_subcommands_section,
}

abbrev pub printable : ℕ → Bool
printable c = not (is_control c)

all-sanitize : (t : Text) → all printable (sanitize t) ≡ true
unfolding sanitize
all-sanitize [] = refl
all-sanitize (c ∷ cs) = ground (arith, all-sanitize cs)

-- A text has at least as many bytes as characters.
length-le-len : (t : Text) → length t ≤ len t
length-le-len [] = omega arith
length-le-len (c ∷ cs) = ground (arith, length-le-len cs)

all-spaces : (n : ℕ) → all printable (spaces n) ≡ true
unfolding is_control
all-spaces zero = refl
all-spaces (suc n) = all-spaces n

-- The second text is the first without its control characters.
pub data IsCleaned : Text → Text → Type 0 where
  nothing : IsCleaned [] []
  kept :
      (c : ℕ) (cs ds : Text) → is_control c ≡ false → IsCleaned cs ds → IsCleaned (c ∷ cs) (c ∷ ds)
  dropped : (c : ℕ) (cs ds : Text) → is_control c ≡ true → IsCleaned cs ds → IsCleaned (c ∷ cs) ds

sanitize-IsCleaned : (t : Text) → IsCleaned t (sanitize t)
unfolding sanitize
sanitize-IsCleaned [] = nothing
sanitize-IsCleaned (c ∷ cs) = elim (Bool-cases (is_control c)) [
  | inl control ↦ rw control (dropped c cs (sanitize cs) control (sanitize-IsCleaned cs))
  | inr plain ↦ rw plain (kept c cs (sanitize cs) plain (sanitize-IsCleaned cs))
]

-- The row of an entry: two spaces, a field of the width that holds the name and is filled up with
-- spaces, two spaces and the description, the name and the description without their control
-- characters.
pub record IsRow (width : ℕ) (name : Text) (entry : BinaryEntry) (row : Text) : Type 0 where
  pub shown : Text
  pub is_name : IsCleaned name shown
  pub fill : ℕ
  pub wide : length shown + fill ≡ width
  pub description : Text
  pub is_description : IsCleaned entry.description description
  pub made : row ≡ codes "  " ++ ((shown ++ spaces fill) ++ (codes "  " ++ description))
  pub clean : all printable row ≡ true

pub data IsTable (width : ℕ) : List (Text × BinaryEntry) → List Text → Type 0 where
  end : IsTable width [] []
  row :
      (name t : Text) (entry : BinaryEntry) (rest : List (Text × BinaryEntry)) (more : List Text)
      → IsRow width name entry t
      → IsTable width rest more
      → IsTable width ((name, entry) ∷ rest) (t ∷ more)

printable-ne-newline : (c : ℕ) → printable c ≡ true → (c == b'\n') ≡ false
unfolding is_control
printable-ne-newline c h = ground (arith, h)

split-printable : (t : Text) → all printable t ≡ true → split b'\n' t ≡ t ∷ []
split-printable [] h = refl
split-printable (c ∷ cs) h = ground (arith, printable-ne-newline c, split-printable cs, h)

split-line :
    (t rest : Text)
    → all printable t ≡ true
    → split b'\n' (t ++ b'\n' ∷ rest) ≡ t ∷ split b'\n' rest
split-line [] rest h = refl
split-line (c ∷ cs) rest h = ground (arith, printable-ne-newline c, split-line cs rest, h)

abbrev row_text : ℕ → Text → BinaryEntry → Text
row_text width name entry =
    codes "  " ++ (pad width (sanitize name) ++ (codes "  " ++ sanitize entry.description))

row_text-IsRow :
    (width : ℕ) (name : Text) (entry : BinaryEntry)
    → len (sanitize name) ≤ width
    → IsRow width name entry (row_text width name entry)
unfolding pad is_control
row_text-IsRow width name entry fits = record {
  shown = sanitize name;
  is_name = sanitize-IsCleaned name;
  fill = width - length (sanitize name);
  wide = omega (arith, length-le-len (sanitize name), fits);
  description = sanitize entry.description;
  is_description = sanitize-IsCleaned entry.description;
  made = refl;
  clean = ground (
    arith,
    all-append printable (sanitize name ++ spaces (width - length (sanitize name)))
        (codes "  " ++ sanitize entry.description),
    all-append printable (sanitize name) (spaces (width - length (sanitize name))),
    all-spaces (width - length (sanitize name)),
    all-sanitize name,
    all-sanitize entry.description,
  );
}

row_text-append :
    (width : ℕ) (name : Text) (entry : BinaryEntry) (rest : Text)
    → codes "  "
        ++ (pad width (sanitize name) ++ (codes "  " ++ (sanitize entry.description ++ rest)))
      ≡ row_text width name entry ++ rest
row_text-append width name entry rest = simp append_assoc

split-rows :
    (width : ℕ) (first : Text) (binaries : List (Text × BinaryEntry))
    → all printable first ≡ true
    → width_of binaries ≤ width
    → (lines : List Text) × (split b'\n' (first ++ rows width binaries) ≡ first ∷ lines)
      × IsTable width binaries lines
unfolding rows width_of
split-rows width first [] clean fits =
    ([], rw (append-nil first) (split-printable first clean), end)
split-rows width first ((name, entry) ∷ rest) clean fits =
    let line = row_text-IsRow width name entry (ground (arith, fits)) in
    let (lines, cut, table) =
      split-rows width (row_text width name entry) rest line.clean (ground (arith, fits)) in
    let same = row_text-append width name entry (rows width rest) in
    (
      row_text width name entry ∷ lines,
      split-line first _ clean ∙ ap (◌∷◌ first) (ap (split b'\n') same ∙ cut),
      row name (row_text width name entry) entry rest lines line table,
    )

heading : all printable (codes "External subcommands:") ≡ true
unfolding is_control
heading = refl

-- Where the manifest lists binaries, the help section is a heading and one row for each of them in
-- their order, which shows its name, filled up to one width, and its description, both without their
-- control characters, and nothing is a control character but the line breaks between the rows; where
-- it lists none there is no section.
pub section-IsTable :
    (manifest : Manifest)
    → ((manifest.binaries ≡ []) × (external_subcommands_section manifest ≡ none))
      ⊎ ((text : Text) × (lines : List Text) × (external_subcommands_section manifest ≡ some text)
          × (split b'\n' text ≡ codes "External subcommands:" ∷ lines)
          × IsTable (width_of manifest.binaries) manifest.binaries lines)
unfolding external_subcommands_section
section-IsTable manifest = go manifest.binaries refl
  where
    listed :
        (b : Text × BinaryEntry) (bs : List (Text × BinaryEntry))
        → manifest.binaries ≡ b ∷ bs
        → external_subcommands_section manifest
          ≡ some
              (codes "External subcommands:" ++ rows (width_of manifest.binaries) manifest.binaries)
    listed b bs e = rw e refl

    go :
        (binaries : List (Text × BinaryEntry))
        → manifest.binaries ≡ binaries
        → ((manifest.binaries ≡ []) × (external_subcommands_section manifest ≡ none))
          ⊎ ((text : Text) × (lines : List Text) × (external_subcommands_section manifest
                ≡ some text)
              × (split b'\n' text ≡ codes "External subcommands:" ∷ lines)
              × IsTable (width_of manifest.binaries) manifest.binaries lines)
    go [] e = inl (e, rw e refl)
    go (b ∷ bs) e =
        let (lines, cut, table) =
          split-rows (width_of manifest.binaries) (codes "External subcommands:") manifest.binaries
            heading (omega arith) in
        inr (_, lines, listed b bs e, cut, table)
