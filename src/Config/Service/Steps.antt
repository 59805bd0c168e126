-- ===== src/Config/Service/Steps.antt =====
-- What the two steps of an insertion do to a mapping: the write of a leaf, and the descent into a
-- child.
use luminosity.Base.{
  Text, text_eq, text_eq_refl, List, [], ◌∷◌, ◌++◌, Option, none, some, Option-cases, ok, >>=-eq-ok,
  false, ◌≡◌, ◌⊎◌, inl, inr, ◌∙◌, arith,
}
use luminosity.Config.Key.{Key}
use luminosity.Config.Node.{Scalar, string, Node, scalar, sequence, mapping, Mapping, empty}
use luminosity.Config.Node.Entries.{get, put_found, upsert}
use luminosity.Config.Node.Entries.Laws.{get-upsert, get-push, get-put_found, names, names-push}
use luminosity.Config.Service.{set_leaf_at, set_leaf, ensure, child_of, descend_for_insert, insert}

-- What a write may land on: nothing, or a value.
pub data Free : Option Node → Type 0 where
  nothing : Free none
  value : (s : Scalar) → Free (some (scalar s))

pub set_leaf-ok :
    (m m' : Mapping) (head v : Text) (key : Key)
    → set_leaf m head v key ≡ ok m'
    → Free (get m head) × (m' ≡ upsert m head (scalar (string v)))
unfolding set_leaf
set_leaf-ok m m' head v key h = go (get m head) h
  where
    go :
        (o : Option Node)
        → set_leaf_at o m head v key ≡ ok m'
        → Free o × (m' ≡ upsert m head (scalar (string v)))
    go none h = (nothing, cc)
    go (some (scalar s)) h = (value s, cc)
    go (some (sequence ns)) h = cc
    go (some (mapping c)) h = cc

-- The child of a descent, before and after it.
pub record Descended (m parent child : Mapping) (head : Text) : Type 0 where
  pub child_there : get parent head ≡ some (mapping child)
  pub others : (j : Text) → text_eq head j ≡ false → get parent j ≡ get m j
  pub before :
      ((get m head ≡ none) × (child ≡ empty) × (names parent ≡ names m ++ head ∷ []))
      ⊎ ((get m head ≡ some (mapping child)) × (parent ≡ m))

pub child_of-ok :
    (o : Option Node) (m parent child : Mapping) (head : Text) (key : Key)
    → child_of o m head key ≡ ok (parent, child)
    → (o ≡ some (mapping child)) × (parent ≡ m)
unfolding child_of
child_of-ok none m parent child head key h = cc
child_of-ok (some (scalar s)) m parent child head key h = cc
child_of-ok (some (sequence ns)) m parent child head key h = cc
child_of-ok (some (mapping c)) m parent child head key h = ground arith

descend-ok :
    (m parent child : Mapping) (head : Text) (key : Key)
    → descend_for_insert m head key ≡ ok (parent, child)
    → Descended m parent child head
unfolding descend_for_insert
descend-ok m parent child head key h = elim (Option-cases (get m head)) [
  | inl none_there ↦
      let (there, same) = child_of-ok _ _ parent child head key (rw (none_there, ensure) at h) in
      record {
        child_there = rw same there;
        others = λ j ne. rw same (get-push m head j (mapping empty) none_there ∙ rw ne);
        before = inl (
          none_there,
          cc (there, get-push m head head (mapping empty) none_there, text_eq_refl head),
          rw same (names-push m head (mapping empty)),
        );
      }
  | inr (n, some_there) ↦
      let (there, same) = child_of-ok _ _ parent child head key (rw (some_there, ensure) at h) in
      record { child_there = rw same there; others = λ j ne. rw same; before = inr (there, same) }
]

pub insert-cons :
    (m m' : Mapping) (head next : Text) (rest : List Text) (v : Text) (key : Key)
    → insert m (head ∷ next ∷ rest) v key ≡ ok m'
    → (parent : Mapping) × (child : Mapping) × (child' : Mapping) × Descended m parent child head
      × (insert child (next ∷ rest) v key ≡ ok child')
      × (m' ≡ put_found parent head (mapping child'))
unfolding insert
insert-cons m m' head next rest v key h =
    let ((parent, child), down, later) = >>=-eq-ok (descend_for_insert m head key) _ h in
    let (child', below, same) = >>=-eq-ok (insert child (next ∷ rest) v key) _ later in
    (parent, child, child', descend-ok m parent child head key down, below, cc)

-- The mapping after an insertion, entry by entry: `head` holds `n`, all else is as before.
pub record Written (m m' : Mapping) (head : Text) (n : Node) : Type 0 where
  pub at_head : get m' head ≡ some n
  pub others : (j : Text) → text_eq head j ≡ false → get m' j ≡ get m j

pub leaf-Written : (m : Mapping) (head : Text) (n : Node) → Written m (upsert m head n) head n
leaf-Written m head n = record {
  at_head = get-upsert m head head n ∙ rw (text_eq_refl head);
  others = λ j ne. get-upsert m head j n ∙ rw ne;
}

pub Descended-Written :
    {m parent child : Mapping} {head : Text} (n : Node)
    → Descended m parent child head
    → Written m (put_found parent head n) head n
Descended-Written {m} {parent} {child} {head} n d = record {
  at_head = get-put_found parent head head n (mapping child) d.child_there ∙ rw (text_eq_refl head);
  others =
      λ j ne. get-put_found parent head j n (mapping child) d.child_there ∙ rw ne (d.others j ne);
}
