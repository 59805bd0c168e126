-- ===== src/Config/Node/Entries/Clean.antt =====
-- Documents in which no mapping has a name twice.
use luminosity.Base.{
  Text, text_eq, text_eq_iff, none, some, Option-cases, Bool-cases, false, ◌≡◌, refl, inl, inr,
  arith, subst, ◌∙◌,
}
use luminosity.Config.Node.{
  Scalar, Node, scalar, sequence, mapping, Nodes, nil, cons, Mapping, empty, entry,
}
use luminosity.Config.Node.Entries.{get, put_found, push, upsert}
use luminosity.Config.Node.Entries.Laws.{get-push}

-- A document of scalars that are kept, with no name twice in a mapping.
unfoldable mutual
  pub IsClean : (Scalar → Type 0) → Node → Type 0
  IsClean kept (scalar s) = kept s
  IsClean kept (sequence ns) = AreClean kept ns
  IsClean kept (mapping m) = HasClean kept m

  pub AreClean : (Scalar → Type 0) → Nodes → Type 0
  AreClean kept nil = Unit {0}
  AreClean kept (cons n ns) = IsClean kept n × AreClean kept ns

  pub HasClean : (Scalar → Type 0) → Mapping → Type 0
  HasClean kept empty = Unit {0}
  HasClean kept (entry key n m) = (get m key ≡ none) × IsClean kept n × HasClean kept m

module _ (kept : Scalar → Type 0) where
  pub get-IsClean :
      (m : Mapping) (key : Text) (n : Node) → HasClean kept m → get m key ≡ some n → IsClean kept n
  unfolding get IsClean AreClean HasClean
  get-IsClean empty key n c h = cc
  get-IsClean (entry name x m) key n (fresh, cx, cm) h = elim (Bool-cases (text_eq name key)) [
    | inl here ↦
        let same : x ≡ n = cc (rw here at h) in subst (λ (y : Node). IsClean kept y) same cx
    | inr other ↦ get-IsClean m key n cm (rw other at h)
  ]

  get-put_found_absent :
      (m : Mapping) (key name : Text) (n : Node)
      → get m name ≡ none
      → get (put_found m key n) name ≡ none
  unfolding get put_found
  get-put_found_absent empty key name n h = refl
  get-put_found_absent (entry i x m) key name n h =
      ground (arith, get-put_found_absent m key name n, h)

  pub put_found-HasClean :
      (m : Mapping) (key : Text) (n : Node)
      → HasClean kept m
      → IsClean kept n
      → HasClean kept (put_found m key n)
  unfolding put_found IsClean AreClean HasClean
  put_found-HasClean empty key n c cn = tt
  put_found-HasClean (entry i x m) key n (fresh, cx, cm) cn = elim (Bool-cases (text_eq i key)) [
    | inl here ↦ rw here (fresh, cn, cm)
    | inr other ↦
        rw other (get-put_found_absent m key i n fresh, cx, put_found-HasClean m key n cm cn)
  ]

  pub push-HasClean :
      (m : Mapping) (key : Text) (n : Node)
      → get m key ≡ none
      → HasClean kept m
      → IsClean kept n
      → HasClean kept (push m key n)
  unfolding get push IsClean AreClean HasClean
  push-HasClean empty key n h c cn = (refl, cn, tt)
  push-HasClean (entry i x m) key n h (fresh, cx, cm) cn = elim (Bool-cases (text_eq i key)) [
    | inl here ↦ cc (rw here at h)
    | inr other ↦
        let later : get m key ≡ none = rw other at h in
        let apart : text_eq key i ≡ false =
          ground (arith, text_eq_iff i key, text_eq_iff key i, other) in
        (get-push m key i n later ∙ rw apart fresh, cx, push-HasClean m key n later cm cn)
  ]

  pub upsert-HasClean :
      (m : Mapping) (key : Text) (n : Node)
      → HasClean kept m
      → IsClean kept n
      → HasClean kept (upsert m key n)
  unfolding upsert
  upsert-HasClean m key n c cn = elim (Option-cases (get m key)) [
    | inl absent ↦ rw (absent, upsert) (push-HasClean m key n absent c cn)
    | inr (old, found) ↦ rw (found, upsert) (put_found-HasClean m key n c cn)
  ]
