-- ===== src/Adapters/Store/Discovery.antt =====
-- Which directory a store is rooted at.
use luminosity.Base.{
  ℕ, zero, suc, ◌<◌, true, false, Bool-cases, Option, none, some, Option-cases, length, ◌≡◌, ◌⊎◌,
  inl, inr, refl, arith,
}
use luminosity.Platform.Path.{FilePath, parent}
use luminosity.Platform.Path.Prefixes.{length-parent}
use luminosity.Platform.Files.{FileSystem}
use luminosity.Adapters.Store.Operations.{is_root, first_root, discover_root}

module _ {W : Type 0} (fs : FileSystem W) (w : W) where
  -- The second directory is the first, or the nearest one above it, that is marked.
  pub data Nearest : FilePath → FilePath → Type 0 where
    here : (dir : FilePath) → is_root fs w dir ≡ true → Nearest dir dir
    above :
        (dir up found : FilePath)
        → is_root fs w dir ≡ false
        → parent dir ≡ some up
        → Nearest up found
        → Nearest dir found

  -- Neither the directory nor one above it is marked.
  pub data Unmarked : FilePath → Type 0 where
    top : (dir : FilePath) → is_root fs w dir ≡ false → parent dir ≡ none → Unmarked dir
    below :
        (dir up : FilePath)
        → is_root fs w dir ≡ false
        → parent dir ≡ some up
        → Unmarked up
        → Unmarked dir

  data Search (dir : FilePath) : Option FilePath → Type 0 where
    at : (found : FilePath) → Nearest dir found → Search dir (some found)
    nowhere : Unmarked dir → Search dir none

  first_root-Search :
      (fuel : ℕ) (dir : FilePath)
      → length dir.components < fuel
      → Search dir (first_root fs fuel w dir)
  unfolding first_root
  first_root-Search zero dir h = absurd (omega (arith, h))
  first_root-Search (suc fuel) dir h = elim (Bool-cases (is_root fs w dir)) [
    | inl marked ↦ rw marked (at dir (here dir marked))
    | inr plain ↦ elim (Option-cases (parent dir)) [
      | inl last ↦ rw plain (rw last (nowhere (top dir plain last)))
      | inr (up, p) ↦ rw plain (
          rw p (
            further up plain p
              (first_root-Search fuel up (omega (arith, h, length-parent dir up p)))))
    ]
  ]
    where
      further :
          (up : FilePath)
          → is_root fs w dir ≡ false
          → parent dir ≡ some up
          → Search up (first_root fs fuel w up)
          → Search dir (first_root fs fuel w up)
      further up plain p s = go (first_root fs fuel w up) s
        where
          go : (o : Option FilePath) → Search up o → Search dir o
          go _ (at found n) = at found (above dir up found plain p n)
          go _ (nowhere u) = nowhere (below dir up plain p u)

  -- A store is rooted at the nearest directory, the start itself included, that holds a
  -- `.luminosity` directory or a `.git` entry, and at the start where none does.
  pub discover_root-Nearest :
      (start : FilePath)
      → Nearest start (discover_root fs w start)
        ⊎ (Unmarked start × (discover_root fs w start ≡ start))
  unfolding discover_root
  discover_root-Nearest start =
      go (first_root fs (suc (length start.components)) w start)
        (first_root-Search (suc (length start.components)) start (omega arith))
    where
      go :
          (o : Option FilePath)
          → Search start o
          → Nearest start (elim o [ some dir ↦ dir | none ↦ start ])
            ⊎ (Unmarked start
                × (◌≡◌ {A = FilePath} (elim o [ some dir ↦ dir | none ↦ start ]) start))
      go _ (at found n) = inl n
      go _ (nowhere u) = inr (u, refl)
