-- ===== src/Adapters/Store/Operations/Writers.antt =====
-- Writers of one file, in any order of their steps: what `atomic_write` of
-- cli/config-adapters/src/store.rs promises to other processes, and behind a crash.
use luminosity.Base.{
  ℕ, Text, codes, decimal, decimal_injective, all-decimal, digits_before, ◌∷◌, ◌++◌, Result, ok,
  err, ◌≡◌, ◌≢◌, refl,
}
use luminosity.Platform.Path.{FilePath}
use luminosity.Platform.Files.{IoError, FileSystem}
use luminosity.Adapters.Document.{Yaml}
use luminosity.Config.Error.{ConfigError}
use luminosity.Adapters.Store.Operations.{
  temp_name, temp_dir, temp_path, abandon, after_rename, after_write, write_via, with_counter,
  after_create, atomic_write,
}

-- The names of two temporary files are equal only where the process and the counter are.
pub temp_name_injective : (p q c d : ℕ) → temp_name p c ≡ temp_name q d → (p ≡ q) × (c ≡ d)
unfolding temp_name
temp_name_injective p q c d h =
    let behind : decimal p ++ b'-' ∷ (decimal c ++ codes ".tmp")
        ≡ decimal q ++ b'-' ∷ (decimal d ++ codes ".tmp") =
      cc in
    let (process, rest) =
      digits_before (decimal p) (decimal q) _ _ b'-' (all-decimal p) (all-decimal q) refl behind in
    let (counter, _) =
      digits_before (decimal c) (decimal d) (codes "tmp") (codes "tmp") b'.' (all-decimal c)
        (all-decimal d) refl rest in
    (decimal_injective p q process, decimal_injective c d counter)

-- Where a writer is: in front of each of the calls of `atomic_write`, or at its end.
pub data Phase : Type 0 where
  waiting created written failed done given_up : Phase

-- A writer: the process, the value of the counter, and what it writes.
pub record Writer : Type 0 where
  pub process : ℕ
  pub counter : ℕ
  pub contents : Text

-- The files, and where every writer is.
pub record World (W : Type 0) : Type 0 where
  pub files : W
  pub phase : ℕ → Phase

module _ {W : Type 0} (fs : FileSystem W) (yaml : Yaml) (root : FilePath) (target : FilePath)
    (writer : ℕ → Writer) where
  unfoldable pub temp_of : ℕ → FilePath
  temp_of i = temp_path fs yaml (writer i).process root (writer i).counter

  unfoldable pub dir_of : ℕ → FilePath
  dir_of i = temp_dir fs yaml (writer i).process root

  -- One call of `atomic_write`, with its outcome. A writer whose call on the temporary file failed
  -- removes it before it gives up.
  pub data Act (i : ℕ) (w : W) : Phase → W → Phase → Type 0 where
    make :
        (fs.create_dir_all w (dir_of i)).0 ≡ ok tt
        → Act i w waiting (fs.create_dir_all w (dir_of i)).1 created
    make_failed :
        (e : IoError)
        → (fs.create_dir_all w (dir_of i)).0 ≡ err e
        → Act i w waiting (fs.create_dir_all w (dir_of i)).1 given_up
    put :
        (fs.write w (temp_of i) (writer i).contents).0 ≡ ok tt
        → Act i w created (fs.write w (temp_of i) (writer i).contents).1 written
    put_failed :
        (e : IoError)
        → (fs.write w (temp_of i) (writer i).contents).0 ≡ err e
        → Act i w created (fs.write w (temp_of i) (writer i).contents).1 failed
    move :
        (fs.rename w (temp_of i) target).0 ≡ ok tt
        → Act i w written (fs.rename w (temp_of i) target).1 done
    move_failed :
        (e : IoError)
        → (fs.rename w (temp_of i) target).0 ≡ err e
        → Act i w written (fs.rename w (temp_of i) target).1 failed
    clean : Act i w failed (fs.remove_file w (temp_of i)).1 given_up

  -- A step of one of the writers, while all others stay where they are.
  pub record Step (before after : World W) : Type 0 where
    pub who : ℕ
    pub act : Act who before.files (before.phase who) after.files (after.phase who)
    pub others : (j : ℕ) → j ≢ who → after.phase j ≡ before.phase j

  pub data Reachable (start : World W) : World W → Type 0 where
    here : Reachable start start
    extend : (a b : World W) → Reachable start a → Step a b → Reachable start b

  -- The calls of one writer, one after the other.
  pub data Acts (i : ℕ) : W → Phase → W → Phase → Type 0 where
    none_left : (w : W) (p : Phase) → Acts i w p w p
    next : (w v u : W) (p q r : Phase) → Act i w p v q → Acts i v q u r → Acts i w p u r

  -- Where a call of `atomic_write` ends.
  abbrev pub end_of : Result (Unit {0}) ConfigError → Phase
  end_of (ok _) = done
  end_of (err _) = given_up

  after_rename-Acts :
      (i : ℕ) (w : W) (r : Result (Unit {0}) IoError)
      → (fs.rename w (temp_of i) target).0 ≡ r
      → Acts i w written
          (after_rename fs yaml
            (writer i).process
            root
            (temp_of i)
            target
            r
            (fs.rename w (temp_of i) target).1).1
          (end_of
            (after_rename fs yaml
              (writer i).process
              root
              (temp_of i)
              target
              r
              (fs.rename w (temp_of i) target).1).0)
  unfolding after_rename abandon
  after_rename-Acts i w (ok _) h = next w _ _ written done done (move h) (none_left _ done)
  after_rename-Acts i w (err e) h =
      next w _ _ written failed given_up (move_failed e h)
        (next _ _ _ failed given_up given_up clean (none_left _ given_up))

  after_write-Acts :
      (i : ℕ) (w : W) (r : Result (Unit {0}) IoError)
      → (fs.write w (temp_of i) (writer i).contents).0 ≡ r
      → Acts i w created
          (after_write fs yaml
            (writer i).process
            root
            (temp_of i)
            target
            r
            (fs.write w (temp_of i) (writer i).contents).1).1
          (end_of
            (after_write fs yaml
              (writer i).process
              root
              (temp_of i)
              target
              r
              (fs.write w (temp_of i) (writer i).contents).1).0)
  unfolding after_write abandon
  after_write-Acts i w (ok _) h =
      next w _ _ created written _ (put h)
        (after_rename-Acts i (fs.write w (temp_of i) (writer i).contents).1 _ refl)
  after_write-Acts i w (err e) h =
      next w _ _ created failed given_up (put_failed e h)
        (next _ _ _ failed given_up given_up clean (none_left _ given_up))

  after_create-Acts :
      (i : ℕ) (w : W) (r : Result (Unit {0}) IoError)
      → (fs.create_dir_all w (dir_of i)).0 ≡ r
      → Acts i w waiting
          (after_create fs yaml
            (writer i).process
            root
            (writer i).counter
            target
            (writer i).contents
            r
            (fs.create_dir_all w (dir_of i)).1).1.files
          (end_of
            (after_create fs yaml
              (writer i).process
              root
              (writer i).counter
              target
              (writer i).contents
              r
              (fs.create_dir_all w (dir_of i)).1).0)
  unfolding after_create with_counter write_via temp_of
  after_create-Acts i w (ok _) h =
      next w _ _ waiting created _ (make h)
        (after_write-Acts i (fs.create_dir_all w (dir_of i)).1 _ refl)
  after_create-Acts i w (err e) h =
      next w _ _ waiting given_up given_up (make_failed e h) (none_left _ given_up)

  -- The calls of a writer that nobody disturbs are those of `atomic_write`, from its start to its
  -- end.
  pub atomic_write-Acts :
      (i : ℕ) (w : W)
      → Acts i w waiting
          (atomic_write fs yaml
            (writer i).process
            root
            (record { files = w; write_counter = (writer i).counter })
            target
            (writer i).contents).1.files
          (end_of
            (atomic_write fs yaml
              (writer i).process
              root
              (record { files = w; write_counter = (writer i).counter })
              target
              (writer i).contents).0)
  unfolding atomic_write dir_of
  atomic_write-Acts i w = after_create-Acts i w (fs.create_dir_all w (dir_of i)).0 refl
