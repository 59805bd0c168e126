-- ===== src/Tests/Folders/Races.antt =====
-- A writer among others on the disk of the project.
use luminosity.Base.{
  ℕ, text_eq, decimal, [], ◌∷◌, Option, none, ok, ◌==◌, ==_iff, Bool-cases, if◌then◌else◌, ◌≡◌, ◌≢◌,
  ◌⊎◌, inl, inr, refl,
}
use luminosity.Platform.Path.{join, parent, starts_with, strip_prefix, behind}
use luminosity.Config.Level.{team}
use luminosity.Adapters.Store.{config_dir, config_path}
use luminosity.Adapters.Store.Operations.{temp_name, temp_dir, temp_path, atomic_write}
use luminosity.Adapters.Store.Operations.Writers.{
  Phase, waiting, created, written, Writer, World, temp_of, dir_of, Act, make, put, Step, Reachable,
  here, extend, Acts, end_of, atomic_write-Acts,
}
use luminosity.Adapters.Store.Operations.Interleaving.{IsIntact, Reachable-IsIntact}
use luminosity.Tests.Disks
use luminosity.Tests.Disks.{Files, path_eq, lookup, removed, renamed, yaml}
use luminosity.Tests.Folders.{folders, in_directory, place, a_file, look, create, drop, kept_some}
use luminosity.Tests.Folders
use luminosity.Tests.Folders.Laws.{folders-SystemLaws, root}

-- Every writer is a process of its own.
abbrev writers : ℕ → Writer
writers i = record { process = i; counter = 0; contents = i ∷ [] }

writers-apart :
    (i j : ℕ)
    → i ≢ j
    → ((writers i).process ≢ (writers j).process) ⊎ ((writers i).counter ≢ (writers j).counter)
writers-apart i j ne = inl ne

-- The first writer is in a phase, and all others wait.
abbrev phase_of_first : Phase → ℕ → Phase
phase_of_first p j = if j == 1 then p else waiting

abbrev world_at : Option Files → Phase → World (Option Files)
world_at w p = record { files = w; phase = phase_of_first p }

first-Step :
    (w w' : Option Files) (p p' : Phase)
    → Act folders yaml root (config_path root team) writers 1 w p w' p'
    → Step folders yaml root (config_path root team) writers (world_at w p) (world_at w' p')
first-Step w w' p p' act = record {
  who = 1;
  act = act;
  others = λ j ne. elim (Bool-cases (j == 1)) [
    | inl same ↦ absurd (ne ((==_iff j 1).0 same))
    | inr other ↦ rw other refl
  ];
}

abbrev made : Option Files
made = (folders.create_dir_all none (dir_of folders yaml root (config_path root team) writers 1)).1

abbrev put_there : Option Files
put_there =
    (folders.write made (temp_of folders yaml root (config_path root team) writers 1) (1 ∷ [])).1

make_succeeds :
    (folders.create_dir_all none (dir_of folders yaml root (config_path root team) writers 1)).0
    ≡ ok tt
unfolding folders create dir_of temp_dir config_dir join path_eq Disks.names_eq Disks.bool_eq
    text_eq
make_succeeds = refl

put_succeeds :
    (folders.write made (temp_of folders yaml root (config_path root team) writers 1) (1 ∷ [])).0
    ≡ ok tt
unfolding folders create Folders.put dir_of temp_of temp_path temp_name temp_dir config_dir join
    parent place in_directory path_eq Disks.names_eq Disks.bool_eq text_eq starts_with strip_prefix
    behind decimal
put_succeeds = refl

-- Between the write of the temporary file and the rename.
halfway :
    Reachable folders yaml root
      (config_path root team)
      writers
      (world_at none waiting)
      (world_at put_there written)
halfway =
    extend (world_at made created) (world_at put_there written)
      (extend (world_at none waiting) (world_at made created) here
        (first-Step none made waiting created (make make_succeeds)))
      (first-Step made put_there created written (put put_succeeds))

all_waiting : (i : ℕ) → phase_of_first waiting i ≡ waiting
all_waiting i = elim (Bool-cases (i == 1)) [ inl same ↦ rw same refl | inr other ↦ rw other refl ]

Reachable-IsIntact_example :
    IsIntact folders root
      (folders-SystemLaws root)
      yaml
      team
      writers
      none
      (world_at put_there written)
Reachable-IsIntact_example =
    Reachable-IsIntact folders root (folders-SystemLaws root) yaml team writers writers-apart
      (world_at none waiting) (world_at put_there written) all_waiting halfway

atomic_write-Acts_example :
    Acts folders yaml root
      (config_path root team)
      writers
      1
      none
      waiting
      (atomic_write folders yaml 1 root
        (record { files = none; write_counter = 0 })
        (config_path root team)
        (1 ∷ [])).1.files
      (end_of folders yaml root
        (config_path root team)
        writers
        (atomic_write folders yaml 1 root
          (record { files = none; write_counter = 0 })
          (config_path root team)
          (1 ∷ [])).0)
atomic_write-Acts_example =
    atomic_write-Acts folders yaml root (config_path root team) writers 1 none
