-- ===== src/Adapters/Store/Operations/Keeping.antt =====
-- What a write of a level leaves as it was, step by step.
use luminosity.Base.{ℕ, false, Text, Result, ok, err, ◌≡◌, ◌≢◌, ◌⊎◌, inl, inr, refl, ◌∙◌}
use luminosity.Platform.Path.{FilePath}
use luminosity.Platform.Files.{IoError, FileSystem}
use luminosity.Config.Error.{ConfigError}
use luminosity.Adapters.Document.{Yaml}
use luminosity.Adapters.Store.Operations.{abandon, after_rename, after_write, write_via}
use luminosity.Adapters.Store.Operations.Contract.{seen, SystemLaws}

module _ {W : Type 0} (fs : FileSystem W) (root : FilePath) (laws : SystemLaws fs root)
    (yaml : Yaml) (process_id : ℕ) where
  after_rename-seen :
      (temp target other : FilePath) (r : Result (Unit {0}) IoError) (w : W)
      → laws.files.file temp
      → laws.files.file target
      → laws.shown other
      → other ≢ temp
      → seen fs (after_rename fs yaml process_id root temp target r w).1 other ≡ seen fs w other
  unfolding after_rename abandon
  after_rename-seen temp target other (ok _) w ft fo so ne = refl
  after_rename-seen temp target other (err e) w ft fo so ne =
      laws.remove_others w temp other ft so ne

  after_rename-failed :
      (temp target : FilePath) (r : Result (Unit {0}) IoError) (w : W) (e : ConfigError)
      → (after_rename fs yaml process_id root temp target r w).0 ≡ err e
      → (error : IoError) × (r ≡ err error)
  unfolding after_rename
  after_rename-failed temp target (ok _) w e h = cc
  after_rename-failed temp target (err error) w e h = (error, refl)

  -- The steps on the temporary file keep every path but that file and, if they end well, the target.
  after_write-seen :
      (temp target other : FilePath) (r : Result (Unit {0}) IoError) (w : W)
      → laws.files.file temp
      → laws.files.file target
      → laws.shown other
      → other ≢ temp
      → (other ≢ target)
        ⊎ ((e : ConfigError) × ((after_write fs yaml process_id root temp target r w).0 ≡ err e))
      → seen fs (after_write fs yaml process_id root temp target r w).1 other ≡ seen fs w other
  unfolding after_write abandon
  after_write-seen temp target other (err e) w ft fo so ne how =
      laws.remove_others w temp other ft so ne
  after_write-seen temp target other (ok _) w ft fo so ne (inl apart) =
      after_rename-seen temp target other (fs.rename w temp target).0 (fs.rename w temp target).1 ft
        fo so ne
      ∙ laws.rename_others w temp target other ft fo so ne apart
  after_write-seen temp target other (ok _) w ft fo so ne (inr (e, bad)) =
      let (error, failed) =
        after_rename-failed temp target (fs.rename w temp target).0 (fs.rename w temp target).1 e
          bad in
      after_rename-seen temp target other (fs.rename w temp target).0 (fs.rename w temp target).1 ft
        fo so ne
      ∙ laws.rename_err w temp target other error failed

  pub write_via-seen :
      (temp target other : FilePath) (contents : Text) (w : W)
      → laws.files.file temp
      → laws.files.file target
      → laws.shown other
      → other ≢ temp
      → (other ≢ target)
        ⊎ ((e : ConfigError) × ((write_via fs yaml process_id root temp target contents w).0
              ≡ err e))
      → seen fs (write_via fs yaml process_id root temp target contents w).1 other ≡ seen fs w other
  unfolding write_via
  write_via-seen temp target other contents w ft fo so ne how =
      after_write-seen temp target other (fs.write w temp contents).0 (fs.write w temp contents).1
        ft fo so ne how
      ∙ laws.write_others w temp other contents ft so ne

  -- The target of a write that ended well is no link.
  pub write_via-link :
      (temp target : FilePath) (contents : Text) (w : W)
      → laws.files.file temp
      → laws.files.file target
      → (write_via fs yaml process_id root temp target contents w).0 ≡ ok tt
      → fs.symlink_metadata (write_via fs yaml process_id root temp target contents w).1 target
        ≡ ok false
  unfolding write_via
  write_via-link temp target contents w ft fo h =
      go (fs.write w temp contents).0 (fs.write w temp contents).1 h
        (laws.write_plain w temp contents ft)
    where
      renamed :
          (r : Result (Unit {0}) IoError) (v : W)
          → (after_rename fs yaml process_id root temp target r v).0 ≡ ok tt
          → (r ≡ ok tt → fs.symlink_metadata v target ≡ ok false)
          → fs.symlink_metadata (after_rename fs yaml process_id root temp target r v).1 target
            ≡ ok false
      renamed (ok _) v h plain = plain refl
      renamed (err e) v h plain = cc

      go :
          (r : Result (Unit {0}) IoError) (v : W)
          → (after_write fs yaml process_id root temp target r v).0 ≡ ok tt
          → (r ≡ ok tt → fs.symlink_metadata v temp ≡ ok false)
          → fs.symlink_metadata (after_write fs yaml process_id root temp target r v).1 target
            ≡ ok false
      go (ok _) v h plain =
          renamed (fs.rename v temp target).0 (fs.rename v temp target).1 h
            (λ done. laws.rename_link v temp target ft fo done ∙ plain refl)
      go (err e) v h plain = cc
