-- ===== src/Config/Fragment/Assembling.antt =====
-- What an assembly holds, level by level.
use luminosity.Base.{
  true, false, not, Text, codes, [], ◌∷◌, ◌++◌, Option, none, some, ok, err, >>=-eq-ok, >>=-eq-err,
  subst, is_empty, ◌≡◌, ◌↔◌, ◌⊎◌, inl, inr, refl, arith,
}
use luminosity.Config.Error.{ConfigError}
use luminosity.Config.Level.{team, personal}
use luminosity.Config.Source.{FragmentSource}
use luminosity.Config.Fragment.{
  Fragment, Assembly, LevelBody, Reader, trim_blank_lines, unwrap_or_default, combine, contribution,
  join_parts, to_fragment, assembled, assemble,
}

-- The text that a level adds.
abbrev pub trimmed : LevelBody → Text
trimmed read = trim_blank_lines (unwrap_or_default read.body)

-- The four cases of two levels, team first, with one blank line between them.
pub joined : Text → Text → Option Fragment
joined [] [] = none
joined (c ∷ cs) [] = some (record { body = c ∷ cs })
joined [] (c ∷ cs) = some (record { body = c ∷ cs })
joined (c ∷ cs) (d ∷ ds) = some (record { body = (c ∷ cs) ++ (codes "\n\n" ++ (d ∷ ds)) })

-- What an assembly of two reads is: the joined bodies, and for each level its path, whether its
-- file was there, and whether it adds to the fragment.
pub record Assembled (shared own : LevelBody) (a : Assembly) : Type 0 where
  pub fragment : a.fragment ≡ joined (trimmed shared) (trimmed own)
  pub team_level : a.levels.0 ≡ record {
    level = team;
    path = shared.path;
    discovered = elim shared.body [ none ↦ false | some _ ↦ true ];
    has_body = not (is_empty (trimmed shared));
  }
  pub personal_level : a.levels.1 ≡ record {
    level = personal;
    path = own.path;
    discovered = elim own.body [ none ↦ false | some _ ↦ true ];
    has_body = not (is_empty (trimmed own));
  }

joined-join_parts : (s o : Text) → to_fragment (join_parts s o) ≡ joined s o
unfolding to_fragment join_parts joined
joined-join_parts [] [] = refl
joined-join_parts (c ∷ cs) [] = refl
joined-join_parts [] (d ∷ ds) = refl
joined-join_parts (c ∷ cs) (d ∷ ds) = refl

assembled-Assembled : (shared own : LevelBody) → Assembled shared own (assembled shared own)
unfolding assembled contribution combine
assembled-Assembled shared own = record {
  fragment = joined-join_parts (trimmed shared) (trimmed own);
  team_level = refl;
  personal_level = refl;
}

-- An assembly that succeeded has read the team level and then the personal one, and is made of
-- these two reads.
pub assemble-Assembled :
    (reader : Reader) (source : FragmentSource) (a : Assembly)
    → assemble reader source ≡ ok a
    → (shared : LevelBody) × (own : LevelBody) × (reader.read_body source team ≡ ok shared)
      × (reader.read_body source personal ≡ ok own)
      × Assembled shared own a
unfolding assemble
assemble-Assembled reader source a h =
    let (shared, s, later) = >>=-eq-ok (reader.read_body source team) _ h in
    let (own, o, done) = >>=-eq-ok (reader.read_body source personal) _ later in
    let same : assembled shared own ≡ a = cc in
    (shared, own, s, o, subst (Assembled shared own) same (assembled-Assembled shared own))

joined-none_iff :
    (s o : Text) → (joined s o ≡ none) ↔ ((not (is_empty s) ≡ false) × (not (is_empty o) ≡ false))
unfolding joined
joined-none_iff [] [] = ground arith
joined-none_iff (c ∷ cs) [] = ground arith
joined-none_iff [] (d ∷ ds) = ground arith
joined-none_iff (c ∷ cs) (d ∷ ds) = ground arith

-- There is no fragment exactly when neither level reports a body.
pub no_fragment_iff :
    (reader : Reader) (source : FragmentSource) (a : Assembly)
    → assemble reader source ≡ ok a
    → (a.fragment ≡ none) ↔ ((a.levels.0.has_body ≡ false) × (a.levels.1.has_body ≡ false))
no_fragment_iff reader source a h =
    let (shared, own, _, _, r) = assemble-Assembled reader source a h in
    rw (r.fragment, r.team_level, r.personal_level) (joined-none_iff (trimmed shared) (trimmed own))

-- An error of either read is the error of the assembly, the team's first.
pub assemble-err_iff :
    (reader : Reader) (source : FragmentSource) (e : ConfigError)
    → (assemble reader source ≡ err e) ↔ (
        (reader.read_body source team ≡ err e)
        ⊎ ((shared : LevelBody) × (reader.read_body source team ≡ ok shared)
            × (reader.read_body source personal ≡ err e)))
unfolding assemble
assemble-err_iff reader source e = (
  λ h. elim (>>=-eq-err (reader.read_body source team) _ h) [
    | inl bad ↦ inl bad
    | inr (shared, read, later) ↦ elim (>>=-eq-err (reader.read_body source personal) _ later) [
      | inl bad ↦ inr (shared, read, bad)
      | inr (own, _, never) ↦ cc
    ]
  ],
  λ d. elim d [ inl bad ↦ rw bad | inr (shared, read, bad) ↦ rw read (rw bad) ],
)
