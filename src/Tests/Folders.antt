-- ===== src/Tests/Folders.antt =====
-- A disk with one project, in which `.luminosity` is not there at first, and the files in it.
mod Calls
mod Laws
mod Races
mod Sessions
mod Conflicts
use luminosity.Base.{
  Bool, true, false, ◌&&◌, ◌||◌, Text, codes, List, [], ◌∷◌, ◌++◌, Option, none, some, Result, ok,
  err, if◌then◌else◌, text_eq, ◌≡◌, ◌≢◌, ◌⊎◌, inl, inr, refl, sym, ap, ◌∙◌, arith, Bool-cases,
}
use luminosity.Platform.Path.{FilePath, join, parent, starts_with, strip_prefix, behind}
use luminosity.Platform.Path.Prefixes.{
  parent-join, starts_with-joined, starts_with-join_below, starts_with-join_above,
}
use luminosity.Platform.Files.{IoError, FileSystem}
use luminosity.Adapters.Store.Operations.Writing.{FileLaws}
use luminosity.Adapters.Store.Operations.Contract.{Seen, seen, IsMissing, IsFound, SystemLaws}
use luminosity.Tests.Disks.{
  Files, missing, lookup, removed, renamed, path_eq, path_eq_iff, lookup-removed, lookup-written,
  lookup-written_other, renamed-ok, renamed-err,
}

abbrev config : FilePath
config = record { absolute = true; components = codes "p" ∷ codes ".luminosity" ∷ [] }

abbrev tmp : FilePath
tmp = record { absolute = true; components = codes "p" ∷ codes ".luminosity" ∷ codes "tmp" ∷ [] }

-- What a path is: above `.luminosity`, one of the two directories, a file in one of them, or none
-- of these.
data Place : Type 0 where
  above directory slot nowhere : Place

unfoldable in_directory : Option FilePath → Bool
in_directory none = false
in_directory (some dir) = path_eq dir config || path_eq dir tmp

unfoldable place : FilePath → Place
unfolding in_directory
place p =
    if starts_with tmp p
    then (if starts_with p config then directory else above)
    else (if in_directory (parent p) then slot else nowhere)

abbrev denied : IoError
denied = record { is_not_found = false; detail = codes "denied" }

abbrev absent : Seen
absent = record {
  content = err missing;
  link = err missing;
  resolved = err missing;
  directory = false;
  there = false;
}

abbrev a_directory : FilePath → Seen
a_directory p = record {
  content = err denied;
  link = ok false;
  resolved = ok p;
  directory = true;
  there = true;
}

unfoldable a_file : FilePath → Result Text IoError → Seen
a_file p (ok t) = record {
  content = ok t;
  link = ok false;
  resolved = ok p;
  directory = false;
  there = true;
}
a_file p (err _) = absent

-- The world is the files, once the directories are there.
unfoldable look : Place → Option Files → FilePath → Seen
unfolding a_file
look above w p = a_directory p
look directory none p = absent
look directory (some f) p = a_directory p
look slot none p = absent
look slot (some f) p = a_file p (lookup f p)
look nowhere w p = absent

unfoldable create : Bool → Option Files → Result (Unit {0}) IoError × Option Files
create true none = (ok tt, some [])
create true (some f) = (ok tt, some f)
create false w = (err denied, w)

unfoldable put : Place → Option Files → FilePath → Text → Result (Unit {0}) IoError × Option Files
put slot (some f) p t = (ok tt, some ((p, t) ∷ f))
put _ w p t = (err denied, w)

unfoldable kept_some : Result (Unit {0}) IoError × Files → Result (Unit {0}) IoError × Option Files
kept_some (r, f) = (r, some f)

unfoldable move :
    Place → Place → Option Files → FilePath → FilePath → Result (Unit {0}) IoError × Option Files
unfolding kept_some
move slot slot (some f) from target = kept_some (renamed f from target (lookup f from))
move _ _ w from target = (err denied, w)

unfoldable drop : Place → Option Files → FilePath → Result (Unit {0}) IoError × Option Files
drop slot (some f) p = (ok tt, some (removed f p))
drop _ w p = (err denied, w)

unfoldable folders : FileSystem (Option Files)
unfolding place look create put move drop
folders = record {
  read_to_string = λ w p. (look (place p) w p).content;
  canonicalize = λ w p. (look (place p) w p).resolved;
  symlink_metadata = λ w p. (look (place p) w p).link;
  is_dir = λ w p. (look (place p) w p).directory;
  exists = λ w p. (look (place p) w p).there;
  create_dir_all = λ w p. create (path_eq p tmp) w;
  write = λ w p t. put (place p) w p t;
  rename = λ w from target. move (place from) (place target) w from target;
  remove_file = λ w p. drop (place p) w p;
}

place-below_tmp :
    (p : FilePath) → starts_with tmp p ≡ true → (place p ≡ above) ⊎ (place p ≡ directory)
unfolding place
place-below_tmp p h = ground (arith, h)

look-same :
    (k : Place) (f g : Files) (p : FilePath)
    → lookup f p ≡ lookup g p
    → look k (some f) p ≡ look k (some g) p
unfolding look
look-same above f g p h = refl
look-same directory f g p h = refl
look-same slot f g p h = rw h refl
look-same nowhere f g p h = refl

put-others :
    (k j : Place) (w : Option Files) (p q : FilePath) (t : Text)
    → q ≢ p
    → look k (put j w p t).1 q ≡ look k w q
unfolding put
put-others k slot (some f) p q t ne = look-same k _ f q (lookup-written_other f p q t ne)
put-others k slot none p q t ne = refl
put-others k above w p q t ne = refl
put-others k directory w p q t ne = refl
put-others k nowhere w p q t ne = refl

put-slot :
    (k : Place) (w : Option Files) (p : FilePath) (t : Text)
    → (put k w p t).0 ≡ ok tt
    → look k (put k w p t).1 p
      ≡ record { content = ok t; link = ok false; resolved = ok p; directory = false; there = true }
unfolding put look
put-slot slot (some f) p t h = rw (lookup-written f p t) refl
put-slot slot none p t h = cc
put-slot above w p t h = cc
put-slot directory w p t h = cc
put-slot nowhere w p t h = cc

drop-others :
    (k j : Place) (w : Option Files) (p q : FilePath) → q ≢ p → look k (drop j w p).1 q ≡ look k w q
unfolding drop
drop-others k slot (some f) p q ne = look-same k _ f q (lookup-removed f p q ne)
drop-others k slot none p q ne = refl
drop-others k above w p q ne = refl
drop-others k directory w p q ne = refl
drop-others k nowhere w p q ne = refl

renamed-others :
    (f : Files) (p t q : FilePath) (r : Result Text IoError)
    → q ≢ p
    → q ≢ t
    → lookup (renamed f p t r).1 q ≡ lookup f q
unfolding renamed
renamed-others f p t q (ok x) np nt =
    lookup-written_other (removed f p) t q x nt ∙ lookup-removed f p q np
renamed-others f p t q (err e) np nt = refl
