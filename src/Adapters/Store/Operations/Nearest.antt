-- ===== src/Adapters/Store/Operations/Nearest.antt =====
-- The nearest marked directory, in a state of the file system and in another.
use luminosity.Base.{codes, some, ◌≤◌, ◌<◌, true, length, inl, inr, ◌≡◌, refl, subst, ◌∙◌, arith}
use luminosity.Platform.Path.{FilePath, join, parent}
use luminosity.Platform.Path.Prefixes.{length-parent}
use luminosity.Adapters.Store.Operations.Contract.{SystemLaws}
use luminosity.Platform.Files.{FileSystem}
use luminosity.Adapters.Store.Discovery.{
  Nearest, here, above, Unmarked, top, below, discover_root-Nearest,
}
use luminosity.Adapters.Store.Operations.{is_root, discover_root}

-- The marks of a directory and of all above it are among the paths that are shown.
pub data Watched (shown : FilePath → Type 0) : FilePath → Type 0 where
  watch :
      (dir : FilePath)
      → shown (join dir (codes ".luminosity"))
      → shown (join dir (codes ".git"))
      → ((up : FilePath) → parent dir ≡ some up → Watched shown up)
      → Watched shown dir

-- What the store under `root` relies on, where the root is discovered from `start`.
pub record IsReliable {W : Type 0} (fs : FileSystem W) (root start : FilePath) : Type 1 where
  pub laws : SystemLaws fs root
  pub watched : Watched laws.shown start

module _ {W : Type 0} (fs : FileSystem W) where
  Nearest-length :
      (w : W) (dir found : FilePath)
      → Nearest fs w dir found
      → length found.components ≤ length dir.components
  Nearest-length w _ _ (here dir marked) = omega arith
  Nearest-length w _ _ (above dir up found plain p n) =
      omega (arith, length-parent dir up p, Nearest-length w up found n)

  Nearest-unique : (w : W) (dir a b : FilePath) → Nearest fs w dir a → Nearest fs w dir b → a ≡ b
  Nearest-unique w _ _ _ (here dir marked) (here _ _) = refl
  Nearest-unique w _ _ _ (here dir marked) (above _ up found plain p n) = cc
  Nearest-unique w _ _ _ (above dir up found plain p n) (here _ marked) = cc
  Nearest-unique w _ _ _ (above dir up found plain p n) (above _ up' found' plain' p' n') =
      let same : up ≡ up' = cc in Nearest-unique w up found found' n (rw same n')

  Nearest-Unmarked : (w : W) (dir a : FilePath) → Nearest fs w dir a → Unmarked fs w dir → ⊥
  Nearest-Unmarked w _ _ (here dir marked) (top _ plain last) = cc
  Nearest-Unmarked w _ _ (here dir marked) (below _ up plain p u) = cc
  Nearest-Unmarked w _ _ (above dir up found plain p n) (top _ _ last) = cc
  Nearest-Unmarked w _ _ (above dir up found plain p n) (below _ up' plain' p' u) =
      let same : up ≡ up' = cc in Nearest-Unmarked w up found n (rw same u)

  pub Nearest-self :
      (w : W) (start root : FilePath)
      → root ≡ start
      → is_root fs w root ≡ true
      → Nearest fs w start root
  Nearest-self w start root same marked =
      subst (λ (dir : FilePath). Nearest fs w dir root) same (here root marked)

  -- The root is where the nearest mark is.
  pub Nearest-discover_root :
      (w : W) (start root : FilePath) → Nearest fs w start root → discover_root fs w start ≡ root
  Nearest-discover_root w start root n = elim (discover_root-Nearest fs w start) [
    | inl m ↦ Nearest-unique w start (discover_root fs w start) root m n
    | inr (u, _) ↦ absurd (Nearest-Unmarked w start root n u)
  ]

  -- A root that is marked stays the nearest mark if nothing nearer is marked anew.
  pub Nearest-kept :
      (shown : FilePath → Type 0) (w w' : W) (start root : FilePath)
      → is_root fs w' root ≡ true
      → ((dir : FilePath)
          → length root.components < length dir.components
          → Watched shown dir
          → is_root fs w' dir ≡ is_root fs w dir)
      → Watched shown start
      → Nearest fs w start root
      → Nearest fs w' start root
  Nearest-kept shown w w' _ _ marked kept watched (here dir _) = here dir marked
  Nearest-kept shown w w' _ _ marked kept (watch _ l g ups) (above dir up found plain p n) =
      above dir up found
        (kept dir (omega (arith, length-parent dir up p, Nearest-length w up found n))
            (watch dir l g ups)
          ∙ plain)
        p (Nearest-kept shown w w' up found marked kept (ups up p) n)

  -- The root is above the start, so it is watched if the start is.
  pub Watched-root :
      (shown : FilePath → Type 0) (w : W) (start root : FilePath)
      → Watched shown start
      → Nearest fs w start root
      → Watched shown root
  Watched-root shown w _ _ watched (here dir _) = watched
  Watched-root shown w _ _ (watch _ l g ups) (above dir up found plain p n) =
      Watched-root shown w up found (ups up p) n
