-- ===== src/Config/Service/Access/Laws.antt =====
-- What the service promises over any store that keeps what is written to it.
use luminosity.Base.{
  Text, List, [], ◌∷◌, Option, none, some, ok, err, Result-cases, ◌>>=◌, ◌≡◌, ◌≢◌, ◌⊎◌, inl, inr,
  refl, sym, ap, ◌∙◌, arith,
}
use luminosity.Config.Error.{ConfigError}
use luminosity.Config.Key.{Key}
use luminosity.Config.Key.RoundTrip.{IsValid}
use luminosity.Config.Level.{Level, team, personal}
use luminosity.Config.Node.{string, Node, scalar, sequence, mapping, Mapping}
use luminosity.Config.Service.{Resolved, found, absent, walk, resolve, insert}
use luminosity.Config.Service.Insert.{
  walk-empty, walk-scalar, walk-sequence, walk-insert_self, walk-insert_ne,
}
use luminosity.Config.Service.Access.{Ports, root_of, get, set}

-- The personal value if there is one, and else the team's.
unfoldable pub prefer : Resolved → Resolved → Resolved
prefer (found s) shared = found s
prefer absent shared = shared

prefer-elim :
    (a b : Resolved) → ◌≡◌ {A = Resolved} (elim a [ found s ↦ found s | absent ↦ b ]) (prefer a b)
unfolding prefer
prefer-elim (found s) b = refl
prefer-elim absent b = refl

-- What a store owes to the service: a document that it can keep is read back once it was written,
-- and those that `set` makes of what was read are such; a failed write changes nothing that is
-- read, and no write changes what the other level reads.
pub record IsStore {W : Type 0} (ports : Ports W) : Type 1 where
  pub IsKept : Node → Type 0
  pub set_kept :
      (w : W) (level : Level) (document : Option Node) (segments : List Text) (v : Text) (key : Key)
      (root : Mapping)
      → ports.read w level ≡ ok document
      → insert (root_of document) segments v key ≡ ok root
      → IsKept (mapping root)
  pub read_back :
      (w w' : W) (level : Level) (n : Node)
      → IsKept n
      → ports.write w level n ≡ (ok tt, w')
      → ports.read w' level ≡ ok (some n)
  pub failed_write :
      (w w' : W) (level : Level) (n : Node) (e : ConfigError)
      → ports.write w level n ≡ (err e, w')
      → (other : Level) → ports.read w' other ≡ ports.read w other
  pub other_level :
      (w : W) (level other : Level) (n : Node)
      → other ≢ level
      → ports.read (ports.write w level n).1 other ≡ ports.read w other

-- A key resolves in the mapping that `set` starts from as it does in the document.
resolve-root_of :
    (document : Option Node) (key : Key)
    → key.segments ≢ []
    → walk key.segments (mapping (root_of document)) ≡ resolve document key
unfolding resolve root_of
resolve-root_of document key h = go document key.segments h
  where
    go :
        (document : Option Node) (segments : List Text)
        → segments ≢ []
        → walk segments (mapping (root_of document))
          ≡ resolve document (record { segments = segments })
    go document [] h = absurd (h refl)
    go none (s ∷ ss) h = walk-empty (s ∷ ss)
    go (some (scalar x)) (s ∷ ss) h = walk-empty (s ∷ ss) ∙ sym (walk-scalar x s ss)
    go (some (sequence ns)) (s ∷ ss) h = walk-empty (s ∷ ss) ∙ sym (walk-sequence ns s ss)
    go (some (mapping m)) (s ∷ ss) h = refl

module _ {W : Type 0} (ports : Ports W) where
  open ports use {read, write}

  -- Without a level, both levels are read and either's failure is the result; the personal value
  -- is preferred.
  pub get-prefer :
      (w : W) (key : Key)
      → get ports w key none ≡ (do
        own ← get ports w key (some personal)
        shared ← get ports w key (some team)
        ok (prefer own shared))
  unfolding get prefer
  get-prefer w key = ground arith

  -- A `set` that succeeded has read the level, inserted into its mapping and written the result.
  pub record Done (w w' : W) (key : Key) (v : Text) (level : Level) : Type 0 where
    pub document : Option Node
    pub was : read w level ≡ ok document
    pub root : Mapping
    pub inserted : insert (root_of document) key.segments v key ≡ ok root
    pub wrote : write w level (mapping root) ≡ (ok tt, w')

  pub set-Done :
      (w w' : W) (key : Key) (v : Text) (level : Level)
      → set ports w key v level ≡ (ok tt, w')
      → Done w w' key v level
  unfolding set
  set-Done w w' key v level h = elim (Result-cases (read w level)) [
    | inr (e, bad) ↦ ground arith
    | inl (document, was) ↦ elim (Result-cases (insert (root_of document) key.segments v key)) [
      | inr (e, bad) ↦ ground arith
      | inl (root, inserted) ↦ record {
        document = document;
        was = was;
        root = root;
        inserted = inserted;
        wrote = ground arith;
      }
    ]
  ]

  -- A `set` that failed has written nothing, or its write failed.
  pub set-unwritten :
      (w w' : W) (key : Key) (v : Text) (level : Level) (e : ConfigError)
      → set ports w key v level ≡ (err e, w')
      → (w' ≡ w) ⊎ ((n : Node) × (write w level n ≡ (err e, w')))
  unfolding set
  set-unwritten w w' key v level e h = elim (Result-cases (read w level)) [
    | inr (e', bad) ↦ inl (ground arith)
    | inl (document, was) ↦ elim (Result-cases (insert (root_of document) key.segments v key)) [
      | inr (e', bad) ↦ inl (ground arith)
      | inl (root, inserted) ↦ inr (mapping root, ground arith)
    ]
  ]

  module _ (store : IsStore ports) where
    -- Over a store, after a `set` of a valid key that succeeded, the key resolves at that level to
    -- the text that was written.
    pub get-set_self :
        (w w' : W) (key : Key) (v : Text) (level : Level)
        → IsValid key
        → set ports w key v level ≡ (ok tt, w')
        → get ports w' key (some level) ≡ ok (found (string v))
    unfolding get resolve
    get-set_self w w' key v level valid h =
        let d = set-Done w w' key v level h in
        rw
          (store.read_back w w' level (mapping d.root)
            (store.set_kept w level d.document key.segments v key d.root d.was d.inserted) d.wrote)
          (ap ok (walk-insert_self _ d.root key.segments v key valid.has_segment d.inserted))

    -- Over a store, after a `set` that succeeded, every other valid key resolves at that level to
    -- what it resolved to before.
    pub get-set_ne :
        (w w' : W) (key other : Key) (v : Text) (level : Level)
        → IsValid other
        → other.segments ≢ key.segments
        → set ports w key v level ≡ (ok tt, w')
        → get ports w' other (some level) ≡ get ports w other (some level)
    unfolding get resolve
    get-set_ne w w' key other v level valid ne h =
        let d = set-Done w w' key v level h in
        rw
          (
            store.read_back w w' level (mapping d.root)
                (store.set_kept w level d.document key.segments v key d.root d.was d.inserted)
                d.wrote,
            d.was,
          )
          (ap ok (
            walk-insert_ne _ d.root key.segments other.segments v key d.inserted ne
            ∙ resolve-root_of d.document other valid.has_segment))

    -- Over a store, a `set` at one level changes nothing that a key resolves to at the other level.
    pub get-set_other_level :
        (w : W) (key other : Key) (v : Text) (level asked : Level)
        → asked ≢ level
        → get ports (set ports w key v level).1 other (some asked) ≡ get ports w other (some asked)
    unfolding get set
    get-set_other_level w key other v level asked ne = elim (Result-cases (read w level)) [
      | inr (e, bad) ↦ rw bad
      | inl (document, was) ↦ elim (Result-cases (insert (root_of document) key.segments v key)) [
        | inr (e, bad) ↦ rw was (rw bad)
        | inl (root, inserted) ↦
            rw was (rw inserted (rw (store.other_level w level asked (mapping root) ne)))
      ]
    ]

    set-err :
        (w w' : W) (key : Key) (v : Text) (level : Level) (e : ConfigError)
        → set ports w key v level ≡ (err e, w')
        → (asked : Level) → read w' asked ≡ read w asked
    unfolding set
    set-err w w' key v level e h asked = elim (Result-cases (read w level)) [
      | inr (e', bad) ↦ ground arith
      | inl (document, was) ↦ elim (Result-cases (insert (root_of document) key.segments v key)) [
        | inr (e', bad) ↦ ground arith
        | inl (root, inserted) ↦ store.failed_write w w' level (mapping root) e (ground arith) asked
      ]
    ]

    -- Over a store, a `set` that failed leaves every key as it was, at each level and across both.
    pub get-set_err :
        (w w' : W) (key other : Key) (v : Text) (level : Level) (asked : Option Level)
        (e : ConfigError)
        → set ports w key v level ≡ (err e, w')
        → get ports w' other asked ≡ get ports w other asked
    unfolding get
    get-set_err w w' key other v level (some asked) e h = rw (set-err w w' key v level e h asked)
    get-set_err w w' key other v level none e h =
        rw (set-err w w' key v level e h personal, set-err w w' key v level e h team)
