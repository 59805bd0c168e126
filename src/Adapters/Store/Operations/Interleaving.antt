-- ===== src/Adapters/Store/Operations/Interleaving.antt =====
-- No interleaving of writers, and no crash between their calls, leaves a file that is neither the
-- old one nor one that some writer wrote.
use luminosity.Base.{
  ℕ, false, Bool-cases, ◌==◌, ==_iff, ok, ◌≡◌, ◌≢◌, ◌⊎◌, inl, inr, refl, sym, ap, subst, ◌∙◌, arith,
}
use luminosity.Platform.Path.{FilePath, starts_with}
use luminosity.Platform.Path.Prefixes.{length-join}
use luminosity.Platform.Path.Names.{join-name, starts_with-length}
use luminosity.Platform.Files.{FileSystem}
use luminosity.Config.Level.{Level}
use luminosity.Adapters.Document.{Yaml}
use luminosity.Adapters.Store.{config_path}
use luminosity.Adapters.Store.Operations.{temp_name, temp_dir, temp_path}
use luminosity.Adapters.Store.Operations.Writing.{config_path-ne-temp_path, temp_dir-config_path}
use luminosity.Adapters.Store.Operations.Contract.{Seen, seen, SystemLaws}
use luminosity.Adapters.Store.Operations.Writers.{
  temp_name_injective, Phase, waiting, written, done, Writer, World, temp_of, dir_of, Act, make,
  make_failed, put, put_failed, move, move_failed, clean, Step, Reachable, here, extend,
}

module _ {W : Type 0} (fs : FileSystem W) (root : FilePath) (laws : SystemLaws fs root)
    (yaml : Yaml) (level : Level) (writer : ℕ → Writer) where
  abbrev pub target : FilePath
  target = config_path root level

  temp_of-apart :
      (i j : ℕ)
      → ((writer i).process ≢ (writer j).process) ⊎ ((writer i).counter ≢ (writer j).counter)
      → temp_of fs yaml root target writer i ≢ temp_of fs yaml root target writer j
  unfolding temp_of temp_path
  temp_of-apart i j how e =
      let names =
        join-name _ _ (temp_name (writer i).process (writer i).counter)
          (temp_name (writer j).process (writer j).counter) e in
      let (p, c) =
        temp_name_injective (writer i).process (writer j).process (writer i).counter
          (writer j).counter names in
      elim how [ inl ne ↦ absurd (ne p) | inr ne ↦ absurd (ne c) ]

  dir_of-temp_of :
      (i j : ℕ)
      → starts_with (dir_of fs yaml root target writer i) (temp_of fs yaml root target writer j)
        ≡ false
  unfolding dir_of temp_of temp_path temp_dir
  dir_of-temp_of i j =
      elim (Bool-cases (
        starts_with (dir_of fs yaml root target writer i) (temp_of fs yaml root target writer j))) [
          | inr apart ↦ apart
          | inl over ↦ absurd (
              omega (
                arith,
                starts_with-length (dir_of fs yaml root target writer i)
                    (temp_of fs yaml root target writer j) over,
                length-join (dir_of fs yaml root target writer i)
                    (temp_name (writer j).process (writer j).counter),
              ))
        ]

  temp_of-file : (i : ℕ) → laws.files.file (temp_of fs yaml root target writer i)
  unfolding temp_of
  temp_of-file i = laws.files.temp_file yaml (writer i).process (writer i).counter

  temp_of-shown : (i : ℕ) → laws.shown (temp_of fs yaml root target writer i)
  unfolding temp_of
  temp_of-shown i = laws.temp_shown yaml (writer i).process (writer i).counter

  target-file : laws.files.file target
  target-file = laws.files.config_file level

  -- A call changes no content but that of the writer's temporary file and of the target.
  Act-others :
      (i : ℕ) (w w' : W) (p p' : Phase) (path : FilePath)
      → Act fs yaml root target writer i w p w' p'
      → laws.files.file path
      → laws.shown path
      → path ≢ temp_of fs yaml root target writer i
      → path ≢ target
      → starts_with (dir_of fs yaml root target writer i) path ≡ false
      → fs.read_to_string w' path ≡ fs.read_to_string w path
  unfolding seen
  Act-others i w _ _ _ path (make h) fp sp nt n out =
      laws.files.create_dir_all_others w _ path fp out
  Act-others i w _ _ _ path (make_failed e h) fp sp nt n out =
      laws.files.create_dir_all_others w _ path fp out
  Act-others i w _ _ _ path (put h) fp sp nt n out =
      laws.files.write_others w _ path _ (temp_of-file i) fp nt
  Act-others i w _ _ _ path (put_failed e h) fp sp nt n out =
      laws.files.write_others w _ path _ (temp_of-file i) fp nt
  Act-others i w _ _ _ path (move h) fp sp nt n out =
      ap (λ (s : Seen). s.content)
        (laws.rename_others w _ target path (temp_of-file i) target-file sp nt n)
  Act-others i w _ _ _ path (move_failed e h) fp sp nt n out =
      laws.files.rename_err w _ target path e h
  Act-others i w _ _ _ path clean fp sp nt n out =
      laws.files.remove_others w _ path (temp_of-file i) fp nt

  -- A writer that has written its temporary file finds its contents there.
  pub Holds : W → ℕ → Phase → Type 0
  Holds w i p =
      p ≡ written
      → fs.read_to_string w (temp_of fs yaml root target writer i) ≡ ok (writer i).contents

  Act-Holds :
      (i : ℕ) (w w' : W) (p p' : Phase) → Act fs yaml root target writer i w p w' p' → Holds w' i p'
  unfolding Holds
  Act-Holds i w _ _ _ (make h) e = cc
  Act-Holds i w _ _ _ (make_failed x h) e = cc
  Act-Holds i w _ _ _ (put h) e = laws.files.write_ok w _ (writer i).contents (temp_of-file i) h
  Act-Holds i w _ _ _ (put_failed x h) e = cc
  Act-Holds i w _ _ _ (move h) e = cc
  Act-Holds i w _ _ _ (move_failed x h) e = cc
  Act-Holds i w _ _ _ clean e = cc

  target-ne-temp_of : (i : ℕ) → target ≢ temp_of fs yaml root target writer i
  unfolding temp_of
  target-ne-temp_of i =
      config_path-ne-temp_path fs root laws.files yaml (writer i).process level (writer i).counter

  dir_of-target : (i : ℕ) → starts_with (dir_of fs yaml root target writer i) target ≡ false
  unfolding dir_of
  dir_of-target i = temp_dir-config_path fs root laws.files yaml (writer i).process level

  -- Only the last call of a writer changes the target, and puts the writer's contents there.
  Act-target :
      (i : ℕ) (w w' : W) (p p' : Phase)
      → Act fs yaml root target writer i w p w' p'
      → Holds w i p
      → ((p' ≢ done) × (fs.read_to_string w' target ≡ fs.read_to_string w target))
        ⊎ ((p' ≡ done) × (fs.read_to_string w' target ≡ ok (writer i).contents))
  unfolding Holds
  Act-target i w _ _ _ (make h) held =
      inl (λ e. cc, laws.files.create_dir_all_others w _ target target-file (dir_of-target i))
  Act-target i w _ _ _ (make_failed x h) held =
      inl (λ e. cc, laws.files.create_dir_all_others w _ target target-file (dir_of-target i))
  Act-target i w _ _ _ (put h) held = inl (
    λ e. cc,
    laws.files.write_others w _ target _ (temp_of-file i) target-file (target-ne-temp_of i),
  )
  Act-target i w _ _ _ (put_failed x h) held = inl (
    λ e. cc,
    laws.files.write_others w _ target _ (temp_of-file i) target-file (target-ne-temp_of i),
  )
  Act-target i w _ _ _ (move h) held =
      inr (refl, laws.files.rename_ok w _ target (temp_of-file i) target-file h ∙ held refl)
  Act-target i w _ _ _ (move_failed x h) held =
      inl (λ e. cc, laws.files.rename_err w _ target target x h)
  Act-target i w _ _ _ clean held = inl (
    λ e. cc,
    laws.files.remove_others w _ target (temp_of-file i) target-file (target-ne-temp_of i),
  )

  Act-not_done :
      (i : ℕ) (w w' : W) (p p' : Phase) → Act fs yaml root target writer i w p w' p' → p ≢ done
  Act-not_done i w _ _ _ (make h) e = cc
  Act-not_done i w _ _ _ (make_failed x h) e = cc
  Act-not_done i w _ _ _ (put h) e = cc
  Act-not_done i w _ _ _ (put_failed x h) e = cc
  Act-not_done i w _ _ _ (move h) e = cc
  Act-not_done i w _ _ _ (move_failed x h) e = cc
  Act-not_done i w _ _ _ clean e = cc

  -- The target holds what it held before as long as no writer is done, and then the contents of a
  -- writer that is; and every writer finds its temporary file as it left it.
  pub record IsIntact (before : W) (world : World W) : Type 0 where
    pub holds : (i : ℕ) → Holds world.files i (world.phase i)
    pub intact :
        (((i : ℕ) → world.phase i ≢ done)
          × (fs.read_to_string world.files target ≡ fs.read_to_string before target))
        ⊎ ((i : ℕ) × (world.phase i ≡ done)
            × (fs.read_to_string world.files target ≡ ok (writer i).contents))

  module _
      (apart : (i j : ℕ)
        → i ≢ j
        → ((writer i).process ≢ (writer j).process)
          ⊎ ((writer i).counter ≢ (writer j).counter)) where
    Step-Holds :
        (a b : World W)
        → Step fs yaml root target writer a b
        → ((i : ℕ) → Holds a.files i (a.phase i))
        → (i : ℕ) → Holds b.files i (b.phase i)
    unfolding Holds
    Step-Holds a b s held i = elim (Bool-cases (i == s.who)) [
      | inl same ↦
          subst (λ (k : ℕ). Holds b.files k (b.phase k)) (sym ((==_iff i s.who).0 same))
            (Act-Holds s.who a.files b.files (a.phase s.who) (b.phase s.who) s.act)
      | inr other ↦ λ e.
          let ne : i ≢ s.who = λ same. cc ((==_iff i s.who).1 same, other) in
          Act-others s.who a.files b.files (a.phase s.who) (b.phase s.who)
            (temp_of fs yaml root target writer i) s.act (temp_of-file i) (temp_of-shown i)
            (temp_of-apart i s.who (apart i s.who ne)) (λ same. target-ne-temp_of i (sym same))
            (dir_of-temp_of s.who i)
          ∙ held i (sym (s.others i ne) ∙ e)
    ]

    phase-kept :
        (a b : World W) (s : Step fs yaml root target writer a b) (i : ℕ)
        → a.phase i ≡ done
        → b.phase i ≡ done
    phase-kept a b s i e = elim (Bool-cases (i == s.who)) [
      | inl same ↦ absurd (
          Act-not_done s.who a.files b.files (a.phase s.who) (b.phase s.who) s.act
            (subst (λ (k : ℕ). a.phase k ≡ done) ((==_iff i s.who).0 same) e))
      | inr other ↦ s.others i (λ same. cc ((==_iff i s.who).1 same, other)) ∙ e
    ]

    none_done :
        (a b : World W) (s : Step fs yaml root target writer a b)
        → b.phase s.who ≢ done
        → ((i : ℕ) → a.phase i ≢ done)
        → (i : ℕ) → b.phase i ≢ done
    none_done a b s this all_else i e = elim (Bool-cases (i == s.who)) [
      | inl same ↦ this (subst (λ (k : ℕ). b.phase k ≡ done) ((==_iff i s.who).0 same) e)
      | inr other ↦ all_else i (sym (s.others i (λ same. cc ((==_iff i s.who).1 same, other))) ∙ e)
    ]

    Step-IsIntact :
        (before : W) (a b : World W)
        → Step fs yaml root target writer a b
        → IsIntact before a
        → IsIntact before b
    Step-IsIntact before a b s was = record {
      holds = Step-Holds a b s was.holds;
      intact =
          elim (Act-target s.who a.files b.files (a.phase s.who) (b.phase s.who) s.act
            (was.holds s.who)) [
              | inr (ended, new) ↦ inr (s.who, ended, new)
              | inl (running, same) ↦ elim was.intact [
                | inl (none_yet, old) ↦ inl (none_done a b s running none_yet, same ∙ old)
                | inr (i, ended, by_i) ↦ inr (i, phase-kept a b s i ended, same ∙ by_i)
              ]
            ];
    }

    -- Over a file system that keeps its promises at the paths of the store, where writers of one level, in any number of processes, no two of which share both the process
    -- and the counter, make the calls of their writes in any order, each of them failing or not, the
    -- file of the level holds at every moment what it held before, as long as no writer has ended
    -- well, and then the whole of what one that has ended well wrote.
    pub Reachable-IsIntact :
        (start end : World W)
        → ((i : ℕ) → start.phase i ≡ waiting)
        → Reachable fs yaml root target writer start end
        → IsIntact start.files end
    unfolding Holds
    Reachable-IsIntact start _ fresh here = record {
      holds = λ i e. cc (fresh i);
      intact = inl (λ i e. cc (fresh i), refl);
    }
    Reachable-IsIntact start _ fresh (extend a b r s) =
        Step-IsIntact start.files a b s (Reachable-IsIntact start a fresh r)
