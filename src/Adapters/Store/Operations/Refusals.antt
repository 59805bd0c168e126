-- ===== src/Adapters/Store/Operations/Refusals.antt =====
-- The containment test, before and after a write.
use luminosity.Base.{
  Bool, Bool-cases, true, false, codes, none, some, Result, ok, err, Result-cases, ◌≡◌, ◌⊎◌, inl,
  inr, refl, sym, ap, ◌∙◌,
}
use luminosity.Platform.Path.{FilePath, parent}
use luminosity.Platform.Path.Prefixes.{parent-join, starts_with_self}
use luminosity.Platform.Files.{FileSystem}
use luminosity.Config.Level.{Level}
use luminosity.Config.Error.{ConfigError}
use luminosity.Adapters.Store.{
  config_dir, file_name, config_path, unless_missing, canonical, is_symlink, escapes, refuse,
  check_parent, check_leaf, refuse_escaping_path,
}
use luminosity.Adapters.Store.Operations.Contract.{Seen, seen, IsMissing, IsFound}

module _ {W : Type 0} (fs : FileSystem W) (root : FilePath) where
  -- The directory is as it was, or was made.
  unfoldable pub DirKept : W → W → Type 0
  DirKept w w' =
      (fs.canonicalize w' (config_dir root) ≡ fs.canonicalize w (config_dir root))
      ⊎ (IsMissing (fs.canonicalize w (config_dir root))
          × IsFound (fs.canonicalize w' (config_dir root)))

  pub config_path-parent :
      (level : Level) → parent (config_path root level) ≡ some (config_dir root)
  unfolding config_path
  config_path-parent level = parent-join (config_dir root) (file_name (codes "config") level)

  -- A file in `.luminosity` passes the test of its directory.
  check_parent-config_dir :
      (w : W) (path base : FilePath)
      → parent path ≡ some (config_dir root)
      → fs.canonicalize w (config_dir root) ≡ ok base
      → check_parent fs root w path base ≡ ok tt
  unfolding check_parent canonical unless_missing escapes refuse
  check_parent-config_dir w path base above there =
      rw (above, check_parent, there, starts_with_self base) refl

  -- Where `.luminosity` resolves, a level's file in it that is no link is not refused.
  pub plain-refuse_escaping_path :
      (w : W) (path : FilePath)
      → parent path ≡ some (config_dir root)
      → IsFound (fs.canonicalize w (config_dir root))
      → is_symlink fs root w path ≡ ok false
      → refuse_escaping_path fs root w path ≡ ok tt
  unfolding refuse_escaping_path canonical unless_missing check_leaf
  plain-refuse_escaping_path w path above (base, there) plain =
      rw (there, check_parent-config_dir w path base above there, plain) refl

  missing-canonical :
      (w : W) (path : FilePath)
      → IsMissing (fs.canonicalize w path)
      → canonical fs root w path ≡ ok none
  unfolding canonical unless_missing
  missing-canonical w path m = rw (m.same, m.not_found) refl

  missing-is_symlink :
      (w : W) (path : FilePath)
      → IsMissing (fs.symlink_metadata w path)
      → is_symlink fs root w path ≡ ok false
  unfolding is_symlink unless_missing
  missing-is_symlink w path m = rw (m.same, m.not_found) refl

  missing-refuse_escaping_path :
      (w : W) (path : FilePath)
      → IsMissing (fs.canonicalize w (config_dir root))
      → refuse_escaping_path fs root w path ≡ ok tt
  unfolding refuse_escaping_path
  missing-refuse_escaping_path w path m = rw (missing-canonical w (config_dir root) m) refl

  check_leaf-same :
      (w w' : W) (path base : FilePath)
      → seen fs w' path ≡ seen fs w path
      → check_leaf fs root w' path base ≡ check_leaf fs root w path base
  unfolding check_leaf is_symlink canonical seen
  check_leaf-same w w' path base same = go (is_symlink fs root w path) refl
    where
      link : fs.symlink_metadata w' path ≡ fs.symlink_metadata w path
      link = ap (λ (s : Seen). s.link) same

      resolved : fs.canonicalize w' path ≡ fs.canonicalize w path
      resolved = ap (λ (s : Seen). s.resolved) same

      go :
          (r : Result Bool ConfigError)
          → is_symlink fs root w path ≡ r
          → check_leaf fs root w' path base ≡ check_leaf fs root w path base
      go (err e) h = rw (link, h) refl
      go (ok false) h = rw (link, h) refl
      go (ok true) h = rw (link, h, resolved) refl

  -- The containment test sees a path only through `.luminosity` and the path itself.
  refuse_escaping_path-same :
      (w w' : W) (path : FilePath)
      → parent path ≡ some (config_dir root)
      → seen fs w' path ≡ seen fs w path
      → fs.canonicalize w' (config_dir root) ≡ fs.canonicalize w (config_dir root)
      → refuse_escaping_path fs root w' path ≡ refuse_escaping_path fs root w path
  unfolding refuse_escaping_path canonical unless_missing
  refuse_escaping_path-same w w' path above same dir =
      elim (Result-cases (fs.canonicalize w (config_dir root))) [
        | inr (e, bad) ↦ elim (Bool-cases e.is_not_found) [
          | inl absent ↦ rw (dir, bad, absent) refl
          | inr other ↦ rw (dir, bad, other) refl
        ]
        | inl (base, there) ↦
            rw
              (
                dir,
                there,
                check_parent-config_dir w path base above there,
                check_parent-config_dir w' path base above (dir ∙ there),
              )
              (check_leaf-same w w' path base same)
      ]

  -- A path that is seen as it was is refused as it was, also when `.luminosity` was made.
  pub refuse_escaping_path-kept :
      (w w' : W) (path : FilePath)
      → parent path ≡ some (config_dir root)
      → (IsMissing (fs.canonicalize w (config_dir root)) → IsMissing (fs.symlink_metadata w path))
      → seen fs w' path ≡ seen fs w path
      → DirKept w w'
      → refuse_escaping_path fs root w' path ≡ refuse_escaping_path fs root w path
  unfolding DirKept seen
  refuse_escaping_path-kept w w' path above inside same (inl dir) =
      refuse_escaping_path-same w w' path above same dir
  refuse_escaping_path-kept w w' path above inside same (inr (before, made)) =
      let link : fs.symlink_metadata w' path ≡ fs.symlink_metadata w path =
        ap (λ (s : Seen). s.link) same in
      let absent : IsMissing (fs.symlink_metadata w' path) = rw link (inside before) in
      plain-refuse_escaping_path w' path above made (missing-is_symlink w' path absent)
      ∙ sym (missing-refuse_escaping_path w path before)
