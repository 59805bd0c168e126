-- ===== src/Adapters/Store/Paths.antt =====
-- The path rule gives every document a file of its own.
use luminosity.Base.{
  ℕ, Text, codes, List, [], ◌∷◌, ◌++◌, ◌≡◌, ◌≢◌, refl, sym, ap, ◌∙◌, arith, append_assoc,
}
use luminosity.Platform.Path.{FilePath, join}
use luminosity.Config.Level.{Level, team, personal}
use luminosity.Config.Source.{
  as_str, FragmentSource, project_context, skill_context, skill_instructions,
}
use luminosity.Adapters.Store.{config_dir, file_name, config_path, skill_dir, fragment_path}

append-cancel {ℓ} : {A : Type ℓ} (p a b : List A) → p ++ a ≡ p ++ b → a ≡ b
append-cancel [] a b h = h
append-cancel (c ∷ p) a b h = append-cancel p a b (cc)

-- The components of a document's path below the root.
below_root : FragmentSource → Level → List Text
below_root project_context level = codes ".luminosity" ∷ file_name (codes "config") level ∷ []
below_root (skill_context s) level =
    codes ".luminosity" ∷ codes "skills" ∷ s.name ∷ file_name (codes "context") level ∷ []
below_root (skill_instructions s) level =
    codes ".luminosity" ∷ codes "skills" ∷ s.name ∷ file_name (codes "instructions") level ∷ []

fragment_path-below_root :
    (root : FilePath) (source : FragmentSource) (level : Level)
    → (fragment_path root source level).components ≡ root.components ++ below_root source level
unfolding fragment_path config_path skill_dir config_dir join below_root as_str
fragment_path-below_root root project_context level = simp append_assoc
fragment_path-below_root root (skill_context s) level = simp append_assoc
fragment_path-below_root root (skill_instructions s) level = simp append_assoc

level_of_file : (base : Text) (l k : Level) → file_name base l ≡ file_name base k → l ≡ k
unfolding file_name
level_of_file base team team h = refl
level_of_file base personal personal h = refl
level_of_file base team personal h = cc (append-cancel base (codes ".md") (codes ".local.md") h)
level_of_file base personal team h = cc (append-cancel base (codes ".local.md") (codes ".md") h)

abbrev first_char : Text → ℕ
first_char [] = 0
first_char (c ∷ _) = c

-- The two files of a skill differ at their first letter.
context-ne-instructions :
    (l k : Level) → file_name (codes "context") l ≢ file_name (codes "instructions") k
unfolding file_name
context-ne-instructions l k h = absurd (omega (arith, ap first_char h))

below_root-injective :
    (s t : FragmentSource) (l k : Level) → below_root s l ≡ below_root t k → (s ≡ t) × (l ≡ k)
unfolding below_root
below_root-injective project_context project_context l k h =
    (refl, level_of_file (codes "config") l k (cc))
below_root-injective project_context (skill_context t) l k h = cc
below_root-injective project_context (skill_instructions t) l k h = cc
below_root-injective (skill_context s) project_context l k h = cc
below_root-injective (skill_instructions s) project_context l k h = cc
below_root-injective (skill_context s) (skill_context t) l k h =
    let named : s.name ≡ t.name = cc in
    (
      ap (λ (n : Text). skill_context (record { name = n })) named,
      level_of_file (codes "context") l k (cc),
    )
below_root-injective (skill_instructions s) (skill_instructions t) l k h =
    let named : s.name ≡ t.name = cc in
    (
      ap (λ (n : Text). skill_instructions (record { name = n })) named,
      level_of_file (codes "instructions") l k (cc),
    )
below_root-injective (skill_context s) (skill_instructions t) l k h =
    absurd (context-ne-instructions l k (cc))
below_root-injective (skill_instructions s) (skill_context t) l k h =
    absurd (context-ne-instructions k l (cc))

-- Two documents with one path are one document, at one level.
pub fragment_path-injective :
    (root : FilePath) (s t : FragmentSource) (l k : Level)
    → fragment_path root s l ≡ fragment_path root t k
    → (s ≡ t) × (l ≡ k)
fragment_path-injective root s t l k h = below_root-injective s t l k (
    append-cancel root.components _ _ (
      sym (fragment_path-below_root root s l)
      ∙ ap (λ (p : FilePath). p.components) h
      ∙ fragment_path-below_root root t k))
