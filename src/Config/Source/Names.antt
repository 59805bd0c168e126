-- ===== src/Config/Source/Names.antt =====
-- What a skill name can be.
use luminosity.Base.{
  ℕ, ◌<◌, true, false, Text, [], ◌∷◌, ok, err, all, is_empty_iff, &&-eq-true, ◌≡◌, ◌≢◌, ◌⊎◌, inl,
  inr, refl, Bool-cases, arith,
}
use luminosity.Config.Error.{invalid_skill_name}
use luminosity.Config.Source.{SkillName, permitted, parse, as_str}

-- A character that a file system gives no meaning to within one path component: an ASCII letter,
-- a digit, `-` or `_`.
pub record IsSafe (c : ℕ) : Type 0 where
  pub ascii : c < 128
  pub not_nul : c ≢ 0
  pub not_slash : c ≢ b'/'
  pub not_backslash : c ≢ b'\\'
  pub not_dot : c ≢ b'.'
  pub not_white : (c ≢ b' ') × (c ≢ b'\n') × (c ≢ b'\t')
  pub not_brace : (c ≢ b'{') × (c ≢ b'}')

permitted-IsSafe : (c : ℕ) → permitted c ≡ true → IsSafe c
unfolding permitted
permitted-IsSafe c h = ground arith

abbrev pub All {ℓ} : (ℕ → Type ℓ) → Text → Type ℓ
All P [] = Unit
All P (c ∷ cs) = P c × All P cs

all-permitted-All-IsSafe : (t : Text) → all permitted t ≡ true → All IsSafe t
all-permitted-All-IsSafe [] h = tt
all-permitted-All-IsSafe (c ∷ cs) h =
    (permitted-IsSafe c (&&-eq-true _ _ h).0, all-permitted-All-IsSafe cs (&&-eq-true _ _ h).1)

parse-permitted :
    (raw : Text) (name : SkillName)
    → parse raw ≡ ok name
    → (as_str name ≡ raw) × (raw ≢ []) × (all permitted raw ≡ true)
unfolding parse as_str
parse-permitted raw name h = ground (arith, is_empty_iff raw)

-- A name that parses is the raw text itself, is not empty, and has only safe characters: no
-- separator, no dot, no white space, no NUL and nothing outside ASCII.
pub parse-IsSafe :
    (raw : Text) (name : SkillName)
    → parse raw ≡ ok name
    → (as_str name ≡ raw) × (raw ≢ []) × All IsSafe raw
parse-IsSafe raw name h =
    let (same, full, fine) = parse-permitted raw name h in
    (same, full, all-permitted-All-IsSafe raw fine)

-- Every non-empty text of permitted characters is a name; every other text is refused, and the
-- error holds it.
pub parse_total :
    (raw : Text)
    → ((raw ≢ []) × (all permitted raw ≡ true) × (parse raw ≡ ok (record { name = raw })))
      ⊎ (((raw ≡ []) ⊎ (all permitted raw ≡ false)) × (parse raw ≡ err (invalid_skill_name raw)))
unfolding parse
parse_total [] = inr (inl refl, refl)
parse_total (c ∷ cs) = elim (Bool-cases (all permitted (c ∷ cs))) [
  | inl fine ↦ inl (λ e. cc, fine, rw fine)
  | inr bad ↦ inr (inr bad, rw bad)
]
