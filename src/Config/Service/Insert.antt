-- ===== src/Config/Service/Insert.antt =====
-- What an insertion does to every key of the document.
use luminosity.Base.{
  Text, text_eq, text_eq_iff, List, [], ◌∷◌, ◌++◌, Option, none, some, Option-cases, ok, Bool-cases,
  false, ◌≡◌, ◌≢◌, ◌⊎◌, inl, inr, refl, sym, ap, ◌∙◌,
}
use luminosity.Config.Key.{Key}
use luminosity.Config.Node.{Scalar, string, Node, scalar, sequence, mapping, Nodes, Mapping, empty}
use luminosity.Config.Node.Entries.{get, upsert}
use luminosity.Config.Node.Entries.Laws.{names, names-put_found, names-upsert}
use luminosity.Config.Service.Steps.{
  Free, nothing, value, Descended, Written, set_leaf-ok, insert-cons, leaf-Written,
  Descended-Written,
}
use luminosity.Config.Service.{found, absent, walk, insert}

pub walk-empty : (segments : List Text) → walk segments (mapping empty) ≡ absent
unfolding walk get
walk-empty [] = refl
walk-empty (s ∷ ss) = refl

walk-head :
    (m : Mapping) (head : Text) (rest : List Text) {n : Node}
    → get m head ≡ some n
    → walk (head ∷ rest) (mapping m) ≡ walk rest n
unfolding walk
walk-head m head rest e = rw (e, walk)

walk-absent :
    (m : Mapping) (head : Text) (rest : List Text)
    → get m head ≡ none
    → walk (head ∷ rest) (mapping m) ≡ absent
unfolding walk
walk-absent m head rest e = rw (e, walk)

walk-others :
    {m m' : Mapping} {head : Text} {n : Node} (j : Text) (rest : List Text)
    → Written m m' head n
    → text_eq head j ≡ false
    → walk (j ∷ rest) (mapping m') ≡ walk (j ∷ rest) (mapping m)
unfolding walk
walk-others j rest w ne = rw (w.others j ne, walk)

walk-nil : (m : Mapping) → walk [] (mapping m) ≡ absent
unfolding walk
walk-nil m = refl

pub walk-scalar :
    (s : Scalar) (next : Text) (rest : List Text) → walk (next ∷ rest) (scalar s) ≡ absent
unfolding walk
walk-scalar s next rest = refl

pub walk-sequence :
    (ns : Nodes) (next : Text) (rest : List Text) → walk (next ∷ rest) (sequence ns) ≡ absent
unfolding walk
walk-sequence ns next rest = refl

insert-nil : (m m' : Mapping) (v : Text) (key : Key) → insert m [] v key ≡ ok m' → m' ≡ m
unfolding insert
insert-nil m m' v key h = cc

walk-insert_head :
    (m m' : Mapping) (head : Text) (rest : List Text) (v : Text) (key : Key)
    → insert m (head ∷ rest) v key ≡ ok m'
    → walk (head ∷ rest) (mapping m') ≡ found (string v)
walk-insert_head m m' head [] v key h =
    let (free, same) = set_leaf-ok m m' head v key (unfold insert in h) in
    rw same
      (walk-head _ head [] (leaf-Written m head (scalar (string v))).at_head ∙ unfold walk in refl)
walk-insert_head m m' head (next ∷ rest) v key h =
    let (parent, child, child', d, below, same) = insert-cons m m' head next rest v key h in
    rw same (
      walk-head _ head (next ∷ rest) (Descended-Written (mapping child') d).at_head
      ∙ walk-insert_head child child' next rest v key below)

-- A key that was inserted resolves to the text that was written.
pub walk-insert_self :
    (m m' : Mapping) (written : List Text) (v : Text) (key : Key)
    → written ≢ []
    → insert m written v key ≡ ok m'
    → walk written (mapping m') ≡ found (string v)
walk-insert_self m m' [] v key ne h = absurd (ne refl)
walk-insert_self m m' (head ∷ rest) v key ne h = walk-insert_head m m' head rest v key h

-- Behind a leaf that may be written nothing resolves but the leaf.
walk-Free :
    (m : Mapping) (head next : Text) (rest : List Text) {o : Option Node}
    → Free o
    → get m head ≡ o
    → walk (head ∷ next ∷ rest) (mapping m) ≡ absent
unfolding walk
walk-Free m head next rest nothing e = walk-absent m head (next ∷ rest) e
walk-Free m head next rest (value s) e = walk-head m head (next ∷ rest) e

-- What stood behind the name that a descent goes through.
walk-Descended :
    (m parent child : Mapping) (head : Text) (rest : List Text)
    → Descended m parent child head
    → walk (head ∷ rest) (mapping m) ≡ walk rest (mapping child)
walk-Descended m parent child head rest d = elim d.before [
  | inl (e, fresh, _) ↦ walk-absent m head rest e ∙ sym (rw fresh (walk-empty rest))
  | inr (e, _) ↦ walk-head m head rest e
]

leaf_ne :
    (m : Mapping) (head : Text) (js : List Text) (v : Text)
    → Free (get m head)
    → js ≢ []
    → walk (head ∷ js) (mapping (upsert m head (scalar (string v)))) ≡ walk (head ∷ js) (mapping m)
leaf_ne m head [] v free ne = absurd (ne refl)
leaf_ne m head (next ∷ rest) v free ne =
    walk-head _ head (next ∷ rest) (leaf-Written m head (scalar (string v))).at_head
    ∙ walk-scalar (string v) next rest
    ∙ sym (walk-Free m head next rest free refl)

-- Every other key resolves to what it resolved to before, the prefixes of the written key and the
-- keys that extend it included.
pub walk-insert_ne :
    (m m' : Mapping) (written other : List Text) (v : Text) (key : Key)
    → insert m written v key ≡ ok m'
    → other ≢ written
    → walk other (mapping m') ≡ walk other (mapping m)
walk-insert_ne m m' written [] v key h ne = walk-nil m' ∙ sym (walk-nil m)
walk-insert_ne m m' [] (j ∷ js) v key h ne = rw (insert-nil m m' v key h)
walk-insert_ne m m' (head ∷ []) (j ∷ js) v key h ne =
    let (free, same) = set_leaf-ok m m' head v key (unfold insert in h) in
    elim (Bool-cases (text_eq head j)) [
      | inl e ↦
          let p = (text_eq_iff head j).0 e in
          rw (same, ← p) (leaf_ne m head js v free (λ q. ne (cc)))
      | inr other ↦ rw same (walk-others j js (leaf-Written m head (scalar (string v))) other)
    ]
walk-insert_ne m m' (head ∷ next ∷ rest) (j ∷ js) v key h ne =
    let (parent, child, child', d, below, same) = insert-cons m m' head next rest v key h in
    elim (Bool-cases (text_eq head j)) [
      | inl e ↦
          let p = (text_eq_iff head j).0 e in
          rw (same, ← p)
            (walk-head _ head js (Descended-Written (mapping child') d).at_head
              ∙ walk-insert_ne child child' (next ∷ rest) js v key below (λ q. ne (cc))
              ∙ sym (walk-Descended m parent child head js d))
      | inr other ↦ rw same (walk-others j js (Descended-Written (mapping child') d) other)
    ]

-- After an insertion that succeeded the names of the document keep their order: it adds at most
-- its first segment, if that was missing, and that at the end.
pub names-insert :
    (m m' : Mapping) (head : Text) (rest : List Text) (v : Text) (key : Key)
    → insert m (head ∷ rest) v key ≡ ok m'
    → (names m' ≡ names m) ⊎ ((get m head ≡ none) × (names m' ≡ names m ++ head ∷ []))
names-insert m m' head [] v key h =
    let (free, same) = set_leaf-ok m m' head v key (unfold insert in h) in
    elim (Option-cases (get m head)) [
      | inl e ↦ inr (e, rw same (names-upsert m head _ ∙ rw e))
      | inr (n, e) ↦ inl (rw same (names-upsert m head _ ∙ rw e))
    ]
names-insert m m' head (next ∷ rest) v key h =
    let (parent, child, child', d, below, same) = insert-cons m m' head next rest v key h in
    let kept = names-put_found parent head (mapping child') in
    elim d.before [
      | inl (e, _, added) ↦ inr (e, rw same (kept ∙ added))
      | inr (_, p) ↦ inl (rw same (kept ∙ ap names p))
    ]
