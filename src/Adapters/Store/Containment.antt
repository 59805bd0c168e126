-- ===== src/Adapters/Store/Containment.antt =====
-- No file outside `.luminosity` is read or written: the containment rule.
use luminosity.Base.{
  ℕ, true, Text, Option, some, ok, err, >>=-eq-ok, Result-cases, ◌≡◌, ◌⊎◌, inl, inr, refl, arith,
}
use luminosity.Config.Error.{ConfigError}
use luminosity.Platform.Path.{FilePath, parent, starts_with}
use luminosity.Platform.Files.{FileSystem}
use luminosity.Config.Level.{Level}
use luminosity.Config.Source.{FragmentSource}
use luminosity.Config.Node.{Node}
use luminosity.Config.Fragment.{LevelBody}
use luminosity.Adapters.Document.{Yaml}
use luminosity.Adapters.Store.{
  config_dir, config_path, fragment_path, unless_missing, canonical, is_symlink, escapes, refuse,
  check_parent, check_leaf, refuse_escaping_path,
}
use luminosity.Adapters.Store.Operations.{
  Disk, read_fragment_body, read, read_body, rendered, write_rendered, write_level,
}

-- Where `.luminosity` resolves, the path's directory resolves into it if it resolves, and so does
-- the path itself if it is a symbolic link.
pub record IsContained {W : Type 0} (fs : FileSystem W) (root : FilePath) (w : W) (path : FilePath)
    : Type 0 where
  pub directory :
      (base dir resolved : FilePath)
      → fs.canonicalize w (config_dir root) ≡ ok base
      → parent path ≡ some dir
      → fs.canonicalize w dir ≡ ok resolved
      → starts_with resolved base ≡ true
  pub link :
      (base resolved : FilePath)
      → fs.canonicalize w (config_dir root) ≡ ok base
      → fs.symlink_metadata w path ≡ ok true
      → fs.canonicalize w path ≡ ok resolved
      → starts_with resolved base ≡ true

module _ {W : Type 0} (fs : FileSystem W) (root : FilePath) where
  refuse-ok :
      (path base resolved : FilePath)
      → refuse fs root path (escapes fs root base (some resolved)) ≡ ok tt
      → starts_with resolved base ≡ true
  unfolding refuse escapes
  refuse-ok path base resolved h = ground arith

  check_parent-ok :
      (w : W) (path base dir resolved : FilePath)
      → check_parent fs root w path base ≡ ok tt
      → parent path ≡ some dir
      → fs.canonicalize w dir ≡ ok resolved
      → starts_with resolved base ≡ true
  unfolding check_parent canonical unless_missing
  check_parent-ok w path base dir resolved h p r =
      refuse-ok path base resolved (rw r at (rw (p, check_parent) at h))

  check_leaf-ok :
      (w : W) (path base resolved : FilePath)
      → check_leaf fs root w path base ≡ ok tt
      → fs.symlink_metadata w path ≡ ok true
      → fs.canonicalize w path ≡ ok resolved
      → starts_with resolved base ≡ true
  unfolding check_leaf is_symlink canonical unless_missing
  check_leaf-ok w path base resolved h l r =
      refuse-ok path base resolved (rw r at (rw (l, check_leaf) at h))

  checks-ok :
      (w : W) (path base : FilePath)
      → refuse_escaping_path fs root w path ≡ ok tt
      → fs.canonicalize w (config_dir root) ≡ ok base
      → (check_parent fs root w path base ≡ ok tt) × (check_leaf fs root w path base ≡ ok tt)
  unfolding refuse_escaping_path canonical unless_missing
  checks-ok w path base h r =
      let (u, first, second) =
        >>=-eq-ok (check_parent fs root w path base) (λ _. check_leaf fs root w path base)
          (rw (r, refuse_escaping_path) at h) in
      (first, second)

  -- A path that is not refused is contained.
  pub refuse_escaping_path-IsContained :
      (w : W) (path : FilePath)
      → refuse_escaping_path fs root w path ≡ ok tt
      → IsContained fs root w path
  refuse_escaping_path-IsContained w path h = record {
    directory = λ base dir resolved r p q.
        check_parent-ok w path base dir resolved (checks-ok w path base h r).0 p q;
    link =
        λ base resolved r l q. check_leaf-ok w path base resolved (checks-ok w path base h r).1 l q;
  }

module _ {W : Type 0} (fs : FileSystem W) (yaml : Yaml) (process_id : ℕ) (root : FilePath) where
  -- A configuration level is read only where its path is contained.
  pub read-IsContained :
      (w : W) (level : Level) (n : Option Node)
      → read fs yaml process_id root w level ≡ ok n
      → IsContained fs root w (config_path root level)
  unfolding read
  read-IsContained w level n h =
      let (_, inside, _) =
        >>=-eq-ok (refuse_escaping_path fs root w (config_path root level)) _ h in
      refuse_escaping_path-IsContained fs root w _ inside

  -- A fragment's body is read only where the path of its file is contained.
  pub read_body-IsContained :
      (w : W) (source : FragmentSource) (level : Level) (b : LevelBody)
      → read_body fs yaml process_id root w source level ≡ ok b
      → IsContained fs root w (fragment_path root source level)
  unfolding read_body read_fragment_body
  read_body-IsContained w source level b h =
      let path = fragment_path root source level in
      let (body, done, _) = >>=-eq-ok (read_fragment_body fs yaml process_id root w path) _ h in
      let (_, inside, _) = >>=-eq-ok (refuse_escaping_path fs root w path) _ done in
      refuse_escaping_path-IsContained fs root w path inside

  rendered-IsContained :
      (w : W) (level : Level) (document : Node) (text : Text)
      → rendered fs yaml process_id root w level document ≡ ok text
      → IsContained fs root w (config_path root level)
  unfolding rendered
  rendered-IsContained w level document text h =
      let (_, inside, _) =
        >>=-eq-ok (refuse_escaping_path fs root w (config_path root level)) _ h in
      refuse_escaping_path-IsContained fs root w _ inside

  -- A write of a level is one of a file whose path is contained, or it fails and leaves the disk, the
  -- counter of the temporary names included, as it was.
  pub write_level-IsContained :
      (disk : Disk W) (level : Level) (document : Node)
      → IsContained fs root disk.files (config_path root level)
        ⊎ ((e : ConfigError) × (write_level fs yaml process_id root disk level document
              ≡ (err e, disk)))
  unfolding write_level write_rendered
  write_level-IsContained disk level document =
      elim (Result-cases (rendered fs yaml process_id root disk.files level document)) [
        | inl (text, made) ↦ inl (rendered-IsContained disk.files level document text made)
        | inr (e, bad) ↦ inr (e, rw bad refl)
      ]
