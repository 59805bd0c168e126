-- ===== src/Config/Node/Entries/Laws.antt =====
-- The laws of a `Mapping` as an ordered dictionary.
use luminosity.Base.{
  Text, text_eq, text_eq_iff, List, [], ◌∷◌, ◌++◌, none, some, Option-cases, if◌then◌else◌, ◌≡◌,
  refl, arith, inl, inr,
}
use luminosity.Config.Node.{Node, Mapping, empty, entry}
use luminosity.Config.Node.Entries.{get, put_found, push, upsert, entries, from_iter}

-- The names of the entries, in order.
pub names : Mapping → List Text
names empty = []
names (entry key node rest) = key ∷ names rest

pub get-put_found :
    (m : Mapping) (k j : Text) (n old : Node)
    → get m k ≡ some old
    → get (put_found m k n) j ≡ (if text_eq k j then some n else get m j)
unfolding get put_found
get-put_found empty k j n old h = cc
get-put_found (entry i x m) k j n old h =
    ground (arith, text_eq_iff i k, text_eq_iff i j, text_eq_iff k j, get-put_found m k j n old)

pub get-push :
    (m : Mapping) (k j : Text) (n : Node)
    → get m k ≡ none
    → get (push m k n) j ≡ (if text_eq k j then some n else get m j)
unfolding get push
get-push empty k j n h = refl
get-push (entry i x m) k j n h =
    ground (arith, text_eq_iff i k, text_eq_iff i j, text_eq_iff k j, get-push m k j n)

-- After `upsert`, the key has the new value, and every other key what it had.
pub get-upsert :
    (m : Mapping) (k j : Text) (n : Node)
    → get (upsert m k n) j ≡ (if text_eq k j then some n else get m j)
unfolding upsert
get-upsert m k j n = elim (Option-cases (get m k)) [
  | inl absent ↦ rw (absent, upsert) (get-push m k j n absent)
  | inr (old, found) ↦ rw (found, upsert) (get-put_found m k j n old found)
]

pub names-put_found : (m : Mapping) (k : Text) (n : Node) → names (put_found m k n) ≡ names m
unfolding names put_found
names-put_found empty k n = refl
names-put_found (entry i x m) k n = ground (arith, names-put_found m k n)

pub names-push : (m : Mapping) (k : Text) (n : Node) → names (push m k n) ≡ names m ++ k ∷ []
unfolding names push
names-push empty k n = refl
names-push (entry i x m) k n = ground (arith, names-push m k n)

pub names-upsert :
    (m : Mapping) (k : Text) (n : Node)
    → names (upsert m k n) ≡ (elim (get m k) [ some _ ↦ names m | none ↦ names m ++ k ∷ [] ])
unfolding upsert
names-upsert m k n = elim (Option-cases (get m k)) [
  | inl absent ↦ rw (absent, upsert) (names-push m k n)
  | inr (old, found) ↦ rw (found, upsert) (names-put_found m k n)
]

pub entries-from_iter : (l : List (Text × Node)) → entries (from_iter l) ≡ l
unfolding entries from_iter
entries-from_iter [] = refl
entries-from_iter ((k, n) ∷ l) = ground (arith, entries-from_iter l)
