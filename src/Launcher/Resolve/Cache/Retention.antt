-- ===== src/Launcher/Resolve/Cache/Retention.antt =====
-- What the retention cap removes.
use luminosity.Base.{
  ℕ, zero, suc, ◌-◌, ◌≤◌, Bool-cases, List, [], ◌∷◌, ◌++◌, length, take, drop, leb, ◌≡◌, ◌⊎◌, inl,
  inr, refl, ap, ◌∙◌, arith,
}
use luminosity.Launcher.Resolve.Cache.{Retained, insert_by_key, sort_by_key, to_remove}

-- Every binary of a list is at least as new as `t`.
unfoldable pub AllNewer : ℕ → List Retained → Type 0
AllNewer t [] = Unit
AllNewer t (x ∷ xs) = (t ≤ x.modified) × AllNewer t xs

unfoldable pub IsSorted : List Retained → Type 0
IsSorted [] = Unit
IsSorted (x ∷ xs) = AllNewer x.modified xs × IsSorted xs

AllNewer-trans : (s t : ℕ) (xs : List Retained) → s ≤ t → AllNewer t xs → AllNewer s xs
unfolding AllNewer
AllNewer-trans s t [] h a = tt
AllNewer-trans s t (x ∷ xs) h (a, rest) = (ground arith, AllNewer-trans s t xs h rest)

AllNewer-insert_by_key :
    (t : ℕ) (x : Retained) (xs : List Retained)
    → t ≤ x.modified
    → AllNewer t xs
    → AllNewer t (insert_by_key x xs)
unfolding AllNewer insert_by_key
AllNewer-insert_by_key t x [] h a = (h, tt)
AllNewer-insert_by_key t x (y ∷ ys) h (a, rest) = elim (Bool-cases (leb x.modified y.modified)) [
  | inl e ↦ rw e (h, (a, rest))
  | inr e ↦ rw e (a, AllNewer-insert_by_key t x ys h rest)
]

insert_by_key-IsSorted :
    (x : Retained) (xs : List Retained) → IsSorted xs → IsSorted (insert_by_key x xs)
unfolding IsSorted insert_by_key AllNewer
insert_by_key-IsSorted x [] s = (tt, tt)
insert_by_key-IsSorted x (y ∷ ys) (a, s) = elim (Bool-cases (leb x.modified y.modified)) [
  | inl e ↦
      let le : x.modified ≤ y.modified = ground arith in
      rw e ((le, AllNewer-trans x.modified y.modified ys le a), (a, s))
  | inr e ↦
      rw e (AllNewer-insert_by_key y.modified x ys (ground arith) a, insert_by_key-IsSorted x ys s)
]

sort_by_key-IsSorted : (xs : List Retained) → IsSorted (sort_by_key xs)
unfolding IsSorted sort_by_key
sort_by_key-IsSorted [] = tt
sort_by_key-IsSorted (x ∷ xs) = insert_by_key-IsSorted x (sort_by_key xs) (sort_by_key-IsSorted xs)

length-insert_by_key :
    (x : Retained) (xs : List Retained) → length (insert_by_key x xs) ≡ suc (length xs)
unfolding insert_by_key
length-insert_by_key x [] = refl
length-insert_by_key x (y ∷ ys) = ground (arith, length-insert_by_key x ys)

length-sort_by_key : (xs : List Retained) → length (sort_by_key xs) ≡ length xs
unfolding sort_by_key
length-sort_by_key [] = refl
length-sort_by_key (x ∷ xs) =
    length-insert_by_key x (sort_by_key xs) ∙ ap (λ (n : ℕ). suc n) (length-sort_by_key xs)

-- The same binaries, in another order.
pub data Permuted : List Retained → List Retained → Type 0 where
  done : Permuted [] []
  placed :
      (x : Retained) (xs before after : List Retained)
      → Permuted xs (before ++ after)
      → Permuted (x ∷ xs) (before ++ x ∷ after)

insert_by_key-split :
    (x : Retained) (xs : List Retained)
    → (ys : List Retained) × (zs : List Retained) × (xs ≡ ys ++ zs)
      × (insert_by_key x xs ≡ ys ++ x ∷ zs)
unfolding insert_by_key
insert_by_key-split x [] = ([], [], refl, refl)
insert_by_key-split x (y ∷ ys) = elim (Bool-cases (leb x.modified y.modified)) [
  | inl e ↦ ([], y ∷ ys, refl, rw e)
  | inr e ↦
      let (before, after, p, q) = insert_by_key-split x ys in
      (y ∷ before, after, ap (◌∷◌ y) p, rw e (ap (◌∷◌ y) q))
]

sort_by_key-Permuted : (xs : List Retained) → Permuted xs (sort_by_key xs)
unfolding sort_by_key
sort_by_key-Permuted [] = done
sort_by_key-Permuted (x ∷ xs) =
    let (before, after, p, q) = insert_by_key-split x (sort_by_key xs) in
    rw q (placed x xs before after (rw (← p) (sort_by_key-Permuted xs)))

-- Every binary of the first list is at most as new as every one of the second.
unfoldable pub Older : List Retained → List Retained → Type 0
Older [] kept = Unit
Older (x ∷ xs) kept = AllNewer x.modified kept × Older xs kept

AllNewer-drop : (t n : ℕ) (xs : List Retained) → AllNewer t xs → AllNewer t (drop n xs)
unfolding AllNewer
AllNewer-drop t zero xs a = a
AllNewer-drop t (suc n) [] a = tt
AllNewer-drop t (suc n) (x ∷ xs) (_, a) = AllNewer-drop t n xs a

take-Older : (n : ℕ) (xs : List Retained) → IsSorted xs → Older (take n xs) (drop n xs)
unfolding Older IsSorted
take-Older zero xs s = tt
take-Older (suc n) [] s = tt
take-Older (suc n) (x ∷ xs) (a, s) = (AllNewer-drop x.modified n xs a, take-Older n xs s)

take-drop : (n : ℕ) (xs : List Retained) → take n xs ++ drop n xs ≡ xs
take-drop zero xs = refl
take-drop (suc n) [] = refl
take-drop (suc n) (x ∷ xs) = ap (◌∷◌ x) (take-drop n xs)

length-drop : (n : ℕ) (xs : List Retained) → length (drop n xs) ≡ length xs - n
length-drop zero xs = ground arith
length-drop (suc n) [] = ground arith
length-drop (suc n) (x ∷ xs) = length-drop n xs ∙ ground arith

-- What a cap does to the binaries that it counts.
pub record Capped (cap : ℕ) (binaries removed : List Retained) : Type 0 where
  pub kept : List Retained
  pub all_there : Permuted binaries (removed ++ kept)
  pub within : length kept ≤ cap
  pub full : (removed ≡ []) ⊎ (length kept ≡ cap)
  pub oldest : Older removed kept

-- The retention cap removes some of the binaries that it counts and keeps the others: at most as
-- many as the cap, exactly as many where it removes any, and none of them older than a binary that
-- is removed.
pub to_remove-Capped :
    (cap : ℕ) (binaries : List Retained) → Capped cap binaries (to_remove cap binaries)
unfolding to_remove Older
to_remove-Capped cap binaries = elim (Bool-cases (leb (length binaries) cap)) [
  | inl few ↦ rw few (record {
    kept = sort_by_key binaries;
    all_there = sort_by_key-Permuted binaries;
    within = rw (length-sort_by_key binaries) (ground arith);
    full = inl refl;
    oldest = tt;
  })
  | inr many ↦
      let n = length binaries - cap in
      let sorted = sort_by_key binaries in
      rw many (record {
        kept = drop n sorted;
        all_there = rw (take-drop n sorted) (sort_by_key-Permuted binaries);
        within = rw (length-drop n sorted, length-sort_by_key binaries) (ground arith);
        full = inr (rw (length-drop n sorted, length-sort_by_key binaries) (ground arith));
        oldest = take-Older n sorted (sort_by_key-IsSorted binaries);
      })
]
