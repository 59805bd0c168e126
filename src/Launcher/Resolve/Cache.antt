-- ===== src/Launcher/Resolve/Cache.antt =====
-- cli/launcher/src/launch/outbound/resolve/cache.rs, over the calls of `std::fs` that it makes.
pub mod Retention
pub mod Stems
use luminosity.Base.{
  ℕ, ◌+◌, ◌-◌, ◌/◌, ◌%◌, Bool, true, false, ◌&&◌, ◌||◌, Text, codes, decimal, List, [], ◌∷◌, ◌++◌,
  Option, none, some, all, len, length, take, strip_prefix, Result, ok, err, map_err, leb, ltb,
  ◌==◌, if◌then◌else◌,
}
use luminosity.Platform.Path.{FilePath, join}
use luminosity.Platform.Files.{IoError}
use luminosity.Launcher.External.{ResolutionError, cache}
use luminosity.Launcher.Resolve.Fetch.{Bytes}

-- An entry of a directory: its name if that is Unicode, its path, and its time of modification if
-- it can be read.
pub record DirEntry : Type 0 where
  pub file_name : Option Text
  pub path : FilePath
  pub modified : Option ℕ

-- `read_dir` gives the entries that it could read, in its order.
pub record CacheFiles (W : Type 0) : Type 0 where
  pub read : W → FilePath → Result Bytes IoError
  pub read_to_string : W → FilePath → Result Text IoError
  pub read_dir : W → FilePath → Option (List DirEntry)
  pub exists : W → FilePath → Bool
  pub create_dir_all : W → FilePath → Result (Unit {0}) IoError × W
  pub write : W → FilePath → Bytes → Result (Unit {0}) IoError × W
  pub set_executable : W → FilePath → Result (Unit {0}) IoError × W
  pub rename : W → FilePath → FilePath → Result (Unit {0}) IoError × W
  pub remove_file : W → FilePath → Result (Unit {0}) IoError × W

pub record CachedBinary : Type 0 where
  pub path : FilePath
  pub sha256 : Text
  pub signature_path : FilePath

abbrev is_ascii_hexdigit : ℕ → Bool
is_ascii_hexdigit b =
    (leb b'0' b && leb b b'9') || (leb b'A' b && leb b b'F') || (leb b'a' b && leb b b'f')

unfoldable pub is_sha256_hex : Text → Bool
is_sha256_hex candidate = len candidate == 64 && all is_ascii_hexdigit candidate

unfoldable pub stem : Text → Text → Text → Text
stem name version sha256 = name ++ (codes "-" ++ (version ++ (codes "-" ++ sha256)))

unfoldable pub signature_name : Text → Text
signature_name file_stem = file_stem ++ codes ".minisig"

unfoldable pub cache_error : FilePath → IoError → ResolutionError
cache_error path error = cache path error.detail

-- `signature.as_bytes()`: UTF-8
abbrev utf8 : ℕ → Bytes
utf8 c =
    if ltb c 128
    then c ∷ []
    else (if ltb c 2048
        then (192 + c / 64) ∷ (128 + c % 64) ∷ []
        else (if ltb c 65536
            then (224 + c / 4096) ∷ (128 + (c / 64) % 64) ∷ (128 + c % 64) ∷ []
            else (240 + c / 262144)
              ∷ (128 + (c / 4096) % 64)
              ∷ (128 + (c / 64) % 64)
              ∷ (128 + c % 64)
              ∷ []))

unfoldable pub as_bytes : Text → Bytes
as_bytes [] = []
as_bytes (c ∷ cs) = utf8 c ++ as_bytes cs

-- `?` on an effect: what comes next runs on a success, in the state behind it.
abbrev pub and_then {ℓ κ} :
    {W : Type 0} {A : Type ℓ} {B : Type κ} {E : Type 0}
    → Result A E × W
    → (A → W → Result B E × W)
    → Result B E × W
and_then (ok a, w) next = next a w
and_then (err e, w) next = (err e, w)

unfoldable pub at_path :
    {W : Type 0} → FilePath → Result (Unit {0}) IoError × W → Result (Unit {0}) ResolutionError × W
at_path path (r, w) = (map_err (cache_error path) r, w)

-- What a file must be called for `find`: the checksum behind the prefix.
unfoldable pub checksum_of : Text → Text → Option Text
checksum_of prefix file = elim (strip_prefix prefix file) [
  | none ↦ none
  | some sha ↦ if is_sha256_hex sha then some sha else none
]

-- The text behind the last `-`, if there is one: the second part of `rsplit_once('-')`.
unfoldable pub behind_last_dash : Text → Option Text
behind_last_dash [] = none
behind_last_dash (c ∷ cs) = elim (behind_last_dash cs) [
  | some sha ↦ some sha
  | none ↦ if c == b'-' then some cs else none
]

-- Whether `enforce_retention_cap` counts a file.
unfoldable pub counts : Text → Text → Bool
counts prefix file = elim (strip_prefix prefix file) [
  | none ↦ false
  | some rest ↦ (elim (behind_last_dash rest) [ none ↦ false | some sha ↦ is_sha256_hex sha ])
]

-- A binary that the retention cap counts: its time, its file and its signature's file.
pub record Retained : Type 0 where
  pub modified : ℕ
  pub binary : FilePath
  pub signature : FilePath

-- `unwrap_or(UNIX_EPOCH)`
abbrev or_epoch : Option ℕ → ℕ
or_epoch none = 0
or_epoch (some time) = time

-- `sort_by_key`, which is stable
unfoldable pub insert_by_key : Retained → List Retained → List Retained
insert_by_key x [] = x ∷ []
insert_by_key x (y ∷ ys) =
    let later = y ∷ insert_by_key x ys in if leb x.modified y.modified then x ∷ y ∷ ys else later

unfoldable pub sort_by_key : List Retained → List Retained
sort_by_key [] = []
sort_by_key (x ∷ xs) = insert_by_key x (sort_by_key xs)

-- The binaries that go: the oldest beyond the cap.
unfoldable pub to_remove : ℕ → List Retained → List Retained
to_remove cap binaries =
    if leb (length binaries) cap then [] else take (length binaries - cap) (sort_by_key binaries)

module _ {W : Type 0} (files : CacheFiles W) where
  open files use {read_dir, exists, create_dir_all, write, set_executable, rename, remove_file}

  -- The loop of `find` over the entries. A name that is not Unicode ends the search.
  unfoldable pub find_in : W → FilePath → Text → List DirEntry → Option CachedBinary
  find_in w root prefix [] = none
  find_in w root prefix (entry ∷ rest) =
      let later = find_in w root prefix rest in
      elim entry.file_name [
        | none ↦ none
        | some file ↦ (elim (checksum_of prefix file) [
          | none ↦ later
          | some sha ↦
              if exists w (join root (signature_name file))
              then some (record {
                path = entry.path;
                sha256 = sha;
                signature_path = join root (signature_name file);
              })
              else later
        ])
      ]

  unfoldable pub find : W → FilePath → Text → Text → Option CachedBinary
  find w root name version = elim (read_dir w root) [
    | none ↦ none
    | some entries ↦ find_in w root (name ++ (codes "-" ++ (version ++ codes "-"))) entries
  ]

  -- A failed rename removes the temporary file.
  unfoldable pub or_remove :
      FilePath → Result (Unit {0}) ResolutionError × W → Result (Unit {0}) ResolutionError × W
  or_remove temp (ok _, w) = (ok tt, w)
  or_remove temp (err e, w) = (err e, (remove_file w temp).1)

  unfoldable pub make_executable : Bool → FilePath → W → Result (Unit {0}) ResolutionError × W
  make_executable true temp w = at_path temp (set_executable w temp)
  make_executable false temp w = (ok tt, w)

  unfoldable pub write_then_rename :
      FilePath → FilePath → Bytes → Bool → W → Result (Unit {0}) ResolutionError × W
  write_then_rename temp final bytes executable w =
      and_then (at_path temp (write w temp bytes)) λ _ w1.
        and_then (make_executable executable temp w1)
          λ _ w2. or_remove temp (at_path final (rename w2 temp final))

  -- The two writes of `store`, behind the creation of the directory.
  unfoldable pub store_both :
      FilePath → Text → CachedBinary → Bytes → Text → W → Result CachedBinary ResolutionError × W
  store_both root temp cached bytes signature w =
      and_then (write_then_rename (join root temp) cached.path bytes true w) λ _ w1.
        and_then
          (write_then_rename (join root (signature_name temp)) cached.signature_path
            (as_bytes signature) false w1)
          λ _ w2. (ok cached, w2)

  unfoldable pub store :
      ℕ → FilePath → Text → Text → Text → Bytes → Text → W → Result CachedBinary ResolutionError × W
  store process_id root name version sha256 bytes signature w =
      let file = stem name version sha256 in
      let temp = codes ".tmp-" ++ (file ++ (codes "-" ++ decimal process_id)) in
      let cached : CachedBinary = record {
        path = join root file;
        sha256 = sha256;
        signature_path = join root (signature_name file);
      } in
      and_then (at_path root (create_dir_all w root))
        λ _ w1. store_both root temp cached bytes signature w1

  unfoldable pub evict : CachedBinary → W → W
  evict binary w = (remove_file (remove_file w binary.path).1 binary.signature_path).1

  -- The first loop of `enforce_retention_cap`.
  unfoldable pub retained : FilePath → Text → List DirEntry → List Retained
  retained root prefix [] = []
  retained root prefix (entry ∷ rest) =
      let later = retained root prefix rest in
      elim entry.file_name [
        | none ↦ later
        | some file ↦
            if counts prefix file
            then record {
              modified = or_epoch entry.modified;
              binary = entry.path;
              signature = join root (signature_name file);
            }
              ∷ later
            else later
      ]

  unfoldable pub remove_all : List Retained → W → W
  remove_all [] w = w
  remove_all (r ∷ rest) w = remove_all rest (remove_file (remove_file w r.binary).1 r.signature).1

  unfoldable pub enforce_retention_cap : FilePath → Text → ℕ → W → W
  enforce_retention_cap root name cap w = elim (read_dir w root) [
    | none ↦ w
    | some entries ↦ remove_all (to_remove cap (retained root (name ++ codes "-") entries)) w
  ]
