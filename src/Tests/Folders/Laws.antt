-- ===== src/Tests/Folders/Laws.antt =====
-- The disk of the project keeps what `std::fs` promises, so `FileConfigStore` over it is a store.
use luminosity.Base.{
  ℕ, zero, suc, length, Bool, true, false, Text, codes, [], ◌∷◌, Option, none, some, err, text_eq,
  ◌≡◌, ◌≢◌, ◌⊎◌, inl, inr, refl, ap, arith, Bool-cases,
}
use luminosity.Platform.Path.{FilePath, join, starts_with, strip_prefix, behind}
use luminosity.Adapters.Store.Operations.Nearest.{Watched, watch, IsReliable}
use luminosity.Platform.Path.Prefixes.{
  length-parent, parent-join, starts_with-join_below, starts_with-join_above,
}
use luminosity.Adapters.Store.Operations.Writing.{FileLaws}
use luminosity.Adapters.Store.Operations.Contract.{Seen, seen, IsMissing, SystemLaws}
use luminosity.Tests.Disks.{Files, missing, path_eq, path_eq_iff, yaml}
use luminosity.Tests.Folders.{
  config, tmp, Place, above, directory, slot, nowhere, in_directory, place, look, create, folders,
  place-below_tmp, put-others, put-slot, drop-others,
}
use luminosity.Tests.Folders.Calls.{
  move-others, move-ok, move-err, create-others, create-above, create-IsFound, create-is_dir,
  create-keeps,
}

place-not_below : (p : FilePath) → starts_with tmp p ≡ false → place p ≢ directory
unfolding place
place-not_below p h e = ground (arith, h, e)

place-tmp : place tmp ≡ directory
unfolding place starts_with strip_prefix behind text_eq
place-tmp = refl

place-config : place config ≡ directory
unfolding place starts_with strip_prefix behind text_eq
place-config = refl

below : (p : FilePath) → (place p ≡ above) ⊎ (place p ≡ directory) → starts_with tmp p ≡ true
unfolding place
below p (inl h) = ground (arith, h)
below p (inr h) = ground (arith, h)

at_tmp :
    (dir up : FilePath)
    → starts_with dir up ≡ true
    → path_eq dir tmp ≡ true
    → (place up ≡ above) ⊎ (place up ≡ directory)
at_tmp dir up h e = place-below_tmp up (rw ((path_eq_iff dir tmp).0 e) at h)

create_dir-others :
    (w : Option Files) (dir other : FilePath)
    → starts_with dir other ≡ false
    → look (place other) (create (path_eq dir tmp) w).1 other ≡ look (place other) w other
create_dir-others w dir other h =
    create-others (path_eq dir tmp) (place other) w other
      (λ e. place-not_below other (rw ((path_eq_iff dir tmp).0 e) at h))

abbrev gone : IsMissing {A = Bool} (err missing)
gone = record { error = missing; same = refl; not_found = refl }

-- Where the paths stand that are joined to a directory.
place-slot : (dir : FilePath) (name : Text) → place (join dir name) ≡ slot → place dir ≡ directory
unfolding place in_directory
place-slot dir name h = elim (Bool-cases (starts_with tmp (join dir name))) [
  | inl below ↦ ground (arith, below, h)
  | inr apart ↦ elim (Bool-cases (path_eq dir config)) [
    | inl at_config ↦ rw ((path_eq_iff dir config).0 at_config) place-config
    | inr other ↦ elim (Bool-cases (path_eq dir tmp)) [
      | inl at_tmp ↦ rw ((path_eq_iff dir tmp).0 at_tmp) place-tmp
      | inr neither ↦ ground (arith, apart, other, neither, parent-join dir name, h)
    ]
  ]
]

place-below :
    (dir : FilePath) (name : Text)
    → (place (join dir name) ≡ above) ⊎ (place (join dir name) ≡ directory)
    → (place dir ≡ above) ⊎ (place dir ≡ directory)
place-below dir name h =
    place-below_tmp dir (starts_with-join_below tmp dir name (below (join dir name) h))

place-above : (dir : FilePath) (name : Text) → place dir ≡ directory → place (join dir name) ≢ above
unfolding place
place-above dir name h e = ground (arith, h, e, starts_with-join_above dir config name)

missing-join :
    (dir : FilePath) (name : Text) (w : Option Files) (k j : Place)
    → place dir ≡ k
    → place (join dir name) ≡ j
    → IsMissing (look k w dir).resolved
    → IsMissing (look j w (join dir name)).link
unfolding look
missing-join dir name w above j e f m = cc m.same
missing-join dir name (some files) directory j e f m = cc m.same
missing-join dir name none directory above e f m = absurd (place-above dir name e f)
missing-join dir name none directory directory e f m = gone
missing-join dir name none directory slot e f m = gone
missing-join dir name none directory nowhere e f m = gone
missing-join dir name w slot nowhere e f m = gone
missing-join dir name w nowhere nowhere e f m = gone
missing-join dir name w slot slot e f m = cc (place-slot dir name f)
missing-join dir name w nowhere slot e f m = cc (place-slot dir name f)
missing-join dir name w slot above e f m = elim (place-below dir name (inl f)) [
  | inl x ↦ cc
  | inr x ↦ cc
]
missing-join dir name w slot directory e f m = elim (place-below dir name (inr f)) [
  | inl x ↦ cc
  | inr x ↦ cc
]
missing-join dir name w nowhere above e f m = elim (place-below dir name (inl f)) [
  | inl x ↦ cc
  | inr x ↦ cc
]
missing-join dir name w nowhere directory e f m = elim (place-below dir name (inr f)) [
  | inl x ↦ cc
  | inr x ↦ cc
]

folders-FileLaws : (root : FilePath) → FileLaws folders root
unfolding folders
folders-FileLaws root = record {
  file = λ p. Unit {0};
  config_file = λ level. tt;
  temp_file = λ yaml process_id counter. tt;
  create_dir_all_others =
      λ w dir other fo h. ap (λ (s : Seen). s.content) (create_dir-others w dir other h);
  write_ok = λ w p t fp h. ap (λ (s : Seen). s.content) (put-slot (place p) w p t h);
  write_others =
      λ w p q t fp fq ne. ap (λ (s : Seen). s.content) (put-others (place q) (place p) w p q t ne);
  rename_ok = λ w p t fp ft h. (move-ok (place p) (place t) w p t h).0;
  rename_err = λ w p t q e h.
      ap (λ (s : Seen). s.content) (move-err (place q) (place p) (place t) w p t q e h);
  remove_others =
      λ w p q fp fq ne. ap (λ (s : Seen). s.content) (drop-others (place q) (place p) w p q ne);
}

pub folders-SystemLaws : (root : FilePath) → SystemLaws folders root
unfolding folders seen
folders-SystemLaws root = record {
  files = folders-FileLaws root;
  shown = λ p. Unit {0};
  config_dir_shown = tt;
  config_shown = λ level. tt;
  temp_shown = λ yaml process_id counter. tt;
  create_dir_all_others = λ w dir other so h. create_dir-others w dir other h;
  create_dir_all_above =
      λ w dir up h. create-above (path_eq dir tmp) (place up) w up (at_tmp dir up h);
  create_dir_all_ok =
      λ w dir up h e. create-IsFound (path_eq dir tmp) (place up) w up (at_tmp dir up h) e;
  create_dir_all_is_dir =
      λ w dir up h e. create-is_dir (path_eq dir tmp) (place up) w up (at_tmp dir up h) e;
  create_dir_all_keeps = λ w dir up h. create-keeps (path_eq dir tmp) (place up) w up h;
  write_others = λ w p q t fp sq ne. put-others (place q) (place p) w p q t ne;
  write_plain = λ w p t fp h. ap (λ (s : Seen). s.link) (put-slot (place p) w p t h);
  rename_others = λ w p t q fp ft sq np nt. move-others (place q) (place p) (place t) w p t q np nt;
  rename_link = λ w p t fp ft h. (move-ok (place p) (place t) w p t h).1;
  rename_err = λ w p t q e h. move-err (place q) (place p) (place t) w p t q e h;
  remove_others = λ w p q fp sq ne. drop-others (place q) (place p) w p q ne;
  missing_dir =
      λ w dir name m. missing-join dir name w (place dir) (place (join dir name)) refl refl m;
}

-- Every path is shown, and so are the marks of every directory.
every-Watched : (n : ℕ) (dir : FilePath) → length dir.components ≡ n → Watched (λ p. Unit {0}) dir
every-Watched zero dir h =
    watch dir tt tt (λ up p. absurd (omega (arith, length-parent dir up p, h)))
every-Watched (suc n) dir h =
    watch dir tt tt (λ up p. every-Watched n up (omega (arith, length-parent dir up p, h)))

pub folders-IsReliable : (place_of start : FilePath) → IsReliable folders place_of start
unfolding folders-SystemLaws
folders-IsReliable place_of start = record {
  laws = folders-SystemLaws place_of;
  watched = every-Watched (length start.components) start refl;
}

abbrev pub root : FilePath
root = record { absolute = true; components = codes "p" ∷ [] }
