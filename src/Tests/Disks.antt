-- ===== src/Tests/Disks.antt =====
-- A file system in memory without links, and a YAML library that knows three documents.
use luminosity.Base.{
  Bool, true, false, ◌&&◌, Text, codes, text_eq, text_eq_iff, List, [], ◌∷◌, Result, ok, err,
  is_whitespace, if◌then◌else◌, ok-injective, subst, Bool-cases, inl, inr, split_inclusive, trim,
  is_empty, ◌≡◌, ◌≢◌, ◌↔◌, refl, sym, ap, arith,
}
use luminosity.Platform.Path.{FilePath, starts_with}
use luminosity.Config.Node.Entries.{get}
use luminosity.Config.Node.Entries.Clean.{IsClean}
use luminosity.Platform.Files.{IoError, FileSystem}
use luminosity.Adapters.Document.{
  Calls, call_str, call_map, EntryCalls, no_entry, key_value, Yaml, with_newline, visit, to_node,
  to_parsed, serialize,
}
use luminosity.Adapters.Frontmatter.{is_fence}
use luminosity.Adapters.Frontmatter.Splitting.{no_fences}
use luminosity.Adapters.Document.Rendering.{YamlLaws, IsKeptScalar}
use luminosity.Adapters.Store.Operations.Writing.{FileLaws}

unfoldable pub names_eq : List Text → List Text → Bool
names_eq [] [] = true
names_eq [] (_ ∷ _) = false
names_eq (_ ∷ _) [] = false
names_eq (a ∷ xs) (b ∷ ys) = text_eq a b && names_eq xs ys

unfoldable pub bool_eq : Bool → Bool → Bool
bool_eq true b = b
bool_eq false true = false
bool_eq false false = true

unfoldable pub path_eq : FilePath → FilePath → Bool
unfolding names_eq bool_eq
path_eq p q = bool_eq p.absolute q.absolute && names_eq p.components q.components

names_eq_iff : (xs ys : List Text) → (names_eq xs ys ≡ true) ↔ (xs ≡ ys)
unfolding names_eq
names_eq_iff [] [] = ground arith
names_eq_iff [] (b ∷ ys) = ground arith
names_eq_iff (a ∷ xs) [] = ground arith
names_eq_iff (a ∷ xs) (b ∷ ys) = ground (arith, text_eq_iff a b, names_eq_iff xs ys)

bool_eq_iff : (a b : Bool) → (bool_eq a b ≡ true) ↔ (a ≡ b)
unfolding bool_eq
bool_eq_iff true true = ground arith
bool_eq_iff true false = ground arith
bool_eq_iff false true = ground arith
bool_eq_iff false false = ground arith

pub path_eq_iff : (p q : FilePath) → (path_eq p q ≡ true) ↔ (p ≡ q)
unfolding path_eq
path_eq_iff p q =
    ground (arith, bool_eq_iff p.absolute q.absolute, names_eq_iff p.components q.components)

-- The files, with the directories above them.
abbrev pub Files : Type 0
Files = List (FilePath × Text)

abbrev pub missing : IoError
missing = record { is_not_found = true; detail = codes "not found" }

unfoldable pub lookup : Files → FilePath → Result Text IoError
lookup [] q = err missing
lookup ((p, t) ∷ w) q = let found = lookup w q in if path_eq p q then ok t else found

unfoldable pub removed : Files → FilePath → Files
removed [] q = []
removed ((p, t) ∷ w) q = let rest = removed w q in if path_eq p q then rest else (p, t) ∷ rest

unfoldable pub there : Files → FilePath → Bool
there [] q = false
there ((p, t) ∷ w) q = let rest = there w q in if starts_with p q then true else rest

unfoldable pub renamed :
    Files → FilePath → FilePath → Result Text IoError → Result (Unit {0}) IoError × Files
renamed w from target (ok t) = (ok tt, (target, t) ∷ removed w from)
renamed w from target (err e) = (err e, w)

unfoldable pub disk : FileSystem Files
unfolding renamed
disk = record {
  read_to_string = lookup;
  canonicalize = λ w p. if there w p then ok p else err missing;
  symlink_metadata = λ w p. if there w p then ok false else err missing;
  is_dir = there;
  exists = there;
  create_dir_all = λ w p. (ok tt, w);
  write = λ w p t. (ok tt, (p, t) ∷ w);
  rename = λ w from target. renamed w from target (lookup w from);
  remove_file = λ w p. (ok tt, removed w p);
}

path_eq_refl : (p : FilePath) → path_eq p p ≡ true
path_eq_refl p = (path_eq_iff p p).1 refl

pub lookup-removed : (w : Files) (p q : FilePath) → q ≢ p → lookup (removed w p) q ≡ lookup w q
unfolding lookup removed
lookup-removed [] p q h = refl
lookup-removed ((r, t) ∷ w) p q h =
    ground (arith, lookup-removed w p q h, path_eq_iff r p, path_eq_iff r q)

pub lookup-written_other :
    (w : Files) (p q : FilePath) (t : Text) → q ≢ p → lookup ((p, t) ∷ w) q ≡ lookup w q
unfolding lookup
lookup-written_other w p q t h = ground (arith, path_eq_iff p q)

pub lookup-written : (w : Files) (p : FilePath) (t : Text) → lookup ((p, t) ∷ w) p ≡ ok t
unfolding lookup
lookup-written w p t = rw (path_eq_refl p)

pub renamed-ok :
    (w : Files) (from target : FilePath) (r : Result Text IoError)
    → (renamed w from target r).0 ≡ ok tt
    → lookup (renamed w from target r).1 target ≡ r
unfolding renamed
renamed-ok w from target (ok t) h = lookup-written (removed w from) target t
renamed-ok w from target (err e) h = cc

pub renamed-err :
    (w : Files) (from target : FilePath) (r : Result Text IoError) (e : IoError)
    → (renamed w from target r).0 ≡ err e
    → (renamed w from target r).1 ≡ w
unfolding renamed
renamed-err w from target (ok t) e h = cc
renamed-err w from target (err e') e h = refl

pub disk-FileLaws : (root : FilePath) → FileLaws disk root
unfolding disk
disk-FileLaws root = record {
  file = λ p. Unit {0};
  config_file = λ level. tt;
  temp_file = λ yaml process_id counter. tt;
  create_dir_all_others = λ w dir other fo h. refl;
  write_ok = λ w path contents fp h. lookup-written w path contents;
  write_others = λ w path other contents fp fo h. lookup-written_other w path other contents h;
  rename_ok = λ w from target ff ft h. renamed-ok w from target (lookup w from) h;
  rename_err = λ w from target other e h.
      ap (λ (v : Files). lookup v other) (renamed-err w from target (lookup w from) e h);
  remove_others = λ w path other fp fo h. lookup-removed w path other h;
}

-- The library writes the empty mapping, and reads it, a mapping of one entry and a plain text.
unfoldable pub yaml_from_str : Text → Result Calls Text
yaml_from_str t =
    if text_eq t (codes "{}\n")
    then ok (call_map no_entry)
    else (if text_eq t (codes "a: b\n")
        then ok (call_map (key_value (codes "a") (call_str (codes "b")) no_entry))
        else (if text_eq t (codes "prose\n")
            then ok (call_str (codes "prose"))
            else err (codes "unknown")))

-- The calls of the mapping of one entry.
abbrev pub one_entry : Calls
one_entry = call_map (key_value (codes "a") (call_str (codes "b")) no_entry)

unfoldable pub yaml_entry : Text → Text → Result Text Text
yaml_entry k v =
    if text_eq k (codes "a") && text_eq v (codes "b")
    then ok (codes "a: b\n")
    else err (codes "unknown")

unfoldable pub yaml_map : EntryCalls → Result Text Text
unfolding yaml_entry
yaml_map no_entry = ok (codes "{}\n")
yaml_map (key_value k (call_str v) no_entry) = yaml_entry k v
yaml_map _ = err (codes "unknown")

unfoldable pub yaml_to_string : Calls → Result Text Text
unfolding yaml_map
yaml_to_string (call_map entries) = yaml_map entries
yaml_to_string _ = err (codes "unknown")

abbrev pub yaml : Yaml
yaml = record { from_str = yaml_from_str; to_string = yaml_to_string }

-- What the library writes.
data Written : Calls → Text → Type 0 where
  wrote_empty : Written (call_map no_entry) (codes "{}\n")
  wrote_entry : Written one_entry (codes "a: b\n")

entry-Written :
    (k v t : Text)
    → yaml_entry k v ≡ ok t
    → Written (call_map (key_value k (call_str v) no_entry)) t
unfolding yaml_entry
entry-Written k v t h = elim (Bool-cases (text_eq k (codes "a"))) [
  | inr other ↦ cc (rw other at h)
  | inl a ↦ elim (Bool-cases (text_eq v (codes "b"))) [
    | inr other ↦ cc (rw (a, other) at h)
    | inl b ↦
        let key : codes "a" ≡ k = sym ((text_eq_iff k (codes "a")).0 a) in
        let value : codes "b" ≡ v = sym ((text_eq_iff v (codes "b")).0 b) in
        let text : codes "a: b\n" ≡ t = ok-injective (rw (a, b) at h) in
        rw (← key, ← value, ← text) wrote_entry
  ]
]

yaml-Written : (c : Calls) (t : Text) → yaml_to_string c ≡ ok t → Written c t
unfolding yaml_to_string yaml_map
yaml-Written (call_map no_entry) t h =
    subst (λ (u : Text). Written (call_map no_entry) u) (ok-injective h) wrote_empty
yaml-Written (call_map (key_value k (call_str v) no_entry)) t h = entry-Written k v t h
yaml-Written c t h = cc

with_newline-empty : with_newline (codes "{}\n") ≡ codes "{}\n"
unfolding with_newline
with_newline-empty = refl

with_newline-entry : with_newline (codes "a: b\n") ≡ codes "a: b\n"
unfolding with_newline
with_newline-entry = refl

yaml_from_str-empty : yaml_from_str (codes "{}\n") ≡ ok (call_map no_entry)
unfolding yaml_from_str text_eq
yaml_from_str-empty = refl

yaml_from_str-entry : yaml_from_str (codes "a: b\n") ≡ ok one_entry
unfolding yaml_from_str text_eq
yaml_from_str-entry = refl

Written-read :
    (c : Calls) (t : Text)
    → Written c t
    → (c' : Calls) × (yaml_from_str (with_newline t) ≡ ok c') × (visit c' ≡ visit c)
Written-read _ _ wrote_empty = rw with_newline-empty (call_map no_entry, yaml_from_str-empty, refl)
Written-read _ _ wrote_entry = rw with_newline-entry (one_entry, yaml_from_str-entry, refl)

Written-clean :
    (c : Calls) (t : Text)
    → Written c t
    → (no_fences (split_inclusive b'\n' (with_newline t)) ≡ true)
      × (is_empty (trim (with_newline t)) ≡ false)
unfolding is_fence is_whitespace
Written-clean _ _ wrote_empty = rw with_newline-empty (refl, refl)
Written-clean _ _ wrote_entry = rw with_newline-entry (refl, refl)

-- What the library reads has at most one entry.
yaml_from_str-clean :
    (t : Text) (c : Calls)
    → yaml_from_str t ≡ ok c
    → IsClean (IsKeptScalar (λ bits. Unit {0})) (to_node (visit c))
unfolding yaml_from_str IsClean visit to_node get
yaml_from_str-clean t c h = elim (Bool-cases (text_eq t (codes "{}\n"))) [
  | inl e ↦ subst Clean (ok-injective (rw e at h)) tt
  | inr e ↦ elim (Bool-cases (text_eq t (codes "a: b\n"))) [
    | inl e' ↦ subst Clean (ok-injective (rw (e, e') at h)) (refl, tt, tt)
    | inr e' ↦ elim (Bool-cases (text_eq t (codes "prose\n"))) [
      | inl p ↦ subst Clean (ok-injective (rw (e, e', p) at h)) tt
      | inr p ↦ cc (rw (e, e', p) at h)
    ]
  ]
]
  where
    Clean : Calls → Type 0
    Clean c = IsClean (IsKeptScalar (λ bits. Unit {0})) (to_node (visit c))

pub yaml-YamlLaws : YamlLaws yaml
yaml-YamlLaws = record {
  kept_float = λ bits. Unit {0};
  reads_clean = yaml_from_str-clean;
  reads_back = λ n t clean h.
      Written-read (serialize (to_parsed n)) t (yaml-Written (serialize (to_parsed n)) t h);
  no_fence = λ c t h. (Written-clean c t (yaml-Written c t h)).0;
  not_blank = λ c t h. (Written-clean c t (yaml-Written c t h)).1;
}
