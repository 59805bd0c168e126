-- ===== src/Tests/Folders/Calls.antt =====
-- What the calls that change the disk of the project leave as it was.
use luminosity.Base.{
  Bool, true, false, Text, Option, none, some, Result, ok, err, ◌≡◌, ◌≢◌, ◌⊎◌, inl, inr, refl, ap,
}
use luminosity.Platform.Path.{FilePath}
use luminosity.Platform.Files.{IoError}
use luminosity.Adapters.Store.Operations.Contract.{IsMissing, IsFound}
use luminosity.Tests.Disks.{Files, missing, lookup, renamed, renamed-ok, renamed-err}
use luminosity.Tests.Folders.{
  Place, above, directory, slot, nowhere, a_file, look, create, kept_some, move, look-same,
  renamed-others,
}

pub move-others :
    (k i j : Place) (w : Option Files) (p t q : FilePath)
    → q ≢ p
    → q ≢ t
    → look k (move i j w p t).1 q ≡ look k w q
unfolding move kept_some
move-others k slot slot (some f) p t q np nt =
    look-same k _ f q (renamed-others f p t q (lookup f p) np nt)
move-others k slot slot none p t q np nt = refl
move-others k slot above w p t q np nt = refl
move-others k slot directory w p t q np nt = refl
move-others k slot nowhere w p t q np nt = refl
move-others k above j w p t q np nt = refl
move-others k directory j w p t q np nt = refl
move-others k nowhere j w p t q np nt = refl

-- A rename that ends well moves what was seen at its source, but for the path it resolves to.
pub move-ok :
    (i j : Place) (w : Option Files) (p t : FilePath)
    → (move i j w p t).0 ≡ ok tt
    → ((look j (move i j w p t).1 t).content ≡ (look i w p).content)
      × ((look j (move i j w p t).1 t).link ≡ (look i w p).link)
unfolding move look kept_some
move-ok slot slot (some f) p t h = go (lookup f p) h (renamed-ok f p t (lookup f p) h)
  where
    go :
        (r : Result Text IoError)
        → (renamed f p t r).0 ≡ ok tt
        → lookup (renamed f p t r).1 t ≡ r
        → ((a_file t (lookup (renamed f p t r).1 t)).content ≡ (a_file p r).content)
          × ((a_file t (lookup (renamed f p t r).1 t)).link ≡ (a_file p r).link)
    go (ok x) h e = rw e (refl, refl)
    go (err x) h e = rw e (refl, refl)
move-ok slot slot none p t h = cc
move-ok slot above w p t h = cc
move-ok slot directory w p t h = cc
move-ok slot nowhere w p t h = cc
move-ok above j w p t h = cc
move-ok directory j w p t h = cc
move-ok nowhere j w p t h = cc

pub move-err :
    (k i j : Place) (w : Option Files) (p t q : FilePath) (e : IoError)
    → (move i j w p t).0 ≡ err e
    → look k (move i j w p t).1 q ≡ look k w q
unfolding move kept_some
move-err k slot slot (some f) p t q e h =
    look-same k _ f q (ap (λ (g : Files). lookup g q) (renamed-err f p t (lookup f p) e h))
move-err k slot slot none p t q e h = refl
move-err k slot above w p t q e h = refl
move-err k slot directory w p t q e h = refl
move-err k slot nowhere w p t q e h = refl
move-err k above j w p t q e h = refl
move-err k directory j w p t q e h = refl
move-err k nowhere j w p t q e h = refl

pub create-others :
    (b : Bool) (k : Place) (w : Option Files) (q : FilePath)
    → (b ≡ true → k ≢ directory)
    → look k (create b w).1 q ≡ look k w q
unfolding create look lookup
create-others false k w q h = refl
create-others true k (some f) q h = refl
create-others true above none q h = refl
create-others true directory none q h = absurd (h refl refl)
create-others true slot none q h = refl
create-others true nowhere none q h = refl

pub create-above :
    (b : Bool) (k : Place) (w : Option Files) (q : FilePath)
    → (b ≡ true → (k ≡ above) ⊎ (k ≡ directory))
    → ((look k (create b w).1 q).resolved ≡ (look k w q).resolved)
      ⊎ (IsMissing (look k w q).resolved × IsFound (look k (create b w).1 q).resolved)
unfolding create look
create-above false k w q h = inl refl
create-above true k (some f) q h = inl refl
create-above true above none q h = inl refl
create-above true directory none q h =
    inr (record { error = missing; same = refl; not_found = refl }, (q, refl))
create-above true slot none q h = elim (h refl) [ inl e ↦ cc | inr e ↦ cc ]
create-above true nowhere none q h = inl refl

pub create-IsFound :
    (b : Bool) (k : Place) (w : Option Files) (q : FilePath)
    → (b ≡ true → (k ≡ above) ⊎ (k ≡ directory))
    → (create b w).0 ≡ ok tt
    → IsFound (look k (create b w).1 q).resolved
unfolding create look
create-IsFound false k w q h e = cc
create-IsFound true above (some f) q h e = (q, refl)
create-IsFound true above none q h e = (q, refl)
create-IsFound true directory (some f) q h e = (q, refl)
create-IsFound true directory none q h e = (q, refl)
create-IsFound true slot w q h e = elim (h refl) [ inl e' ↦ cc | inr e' ↦ cc ]
create-IsFound true nowhere w q h e = elim (h refl) [ inl e' ↦ cc | inr e' ↦ cc ]

pub create-is_dir :
    (b : Bool) (k : Place) (w : Option Files) (q : FilePath)
    → (b ≡ true → (k ≡ above) ⊎ (k ≡ directory))
    → (create b w).0 ≡ ok tt
    → (look k (create b w).1 q).directory ≡ true
unfolding create look
create-is_dir false k w q h e = cc
create-is_dir true above w q h e = refl
create-is_dir true directory (some f) q h e = refl
create-is_dir true directory none q h e = refl
create-is_dir true slot w q h e = elim (h refl) [ inl e' ↦ cc | inr e' ↦ cc ]
create-is_dir true nowhere w q h e = elim (h refl) [ inl e' ↦ cc | inr e' ↦ cc ]

pub create-keeps :
    (b : Bool) (k : Place) (w : Option Files) (q : FilePath)
    → (look k w q).directory ≡ true
    → (look k (create b w).1 q).directory ≡ true
unfolding create look
create-keeps false k w q h = h
create-keeps true k (some f) q h = h
create-keeps true above none q h = refl
create-keeps true directory none q h = refl
create-keeps true slot none q h = cc
create-keeps true nowhere none q h = cc
