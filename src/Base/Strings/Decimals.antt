-- ===== src/Base/Strings/Decimals.antt =====
-- Decimal numerals: a number is read back from its own, which has digits only.
use luminosity.Base.Tests.{leb, ltb, Bool-cases, &&-eq-true}
use luminosity.Base.Lists.{all, all-append}
use luminosity.Base.Strings.{Text, decimal_from, decimal}
use Prim.Native.Nat.{ℕ, zero, suc, ◌+◌, ◌-◌, ◌*◌, ◌/◌, ◌%◌, ◌<◌}
use mathlib.Core.Path.{◌≡◌, refl, sym, ap, ◌∙◌}
use mathlib.Core.Logic.{inl, inr}
use mathlib.Core.Bool.{Bool, true, false, ◌&&◌}
use mathlib.Core.List.{[], ◌∷◌, ◌++◌}
use native.Mathlib.Omega.{arith}

-- The number that a numeral continues to.
value_from : ℕ → Text → ℕ
value_from n [] = n
value_from n (c ∷ cs) = value_from (n * 10 + (c - b'0')) cs

value_from-append :
    (n : ℕ) (cs : Text) (c : ℕ) → value_from n (cs ++ c ∷ []) ≡ value_from n cs * 10 + (c - b'0')
unfolding value_from
value_from-append n [] c = refl
value_from-append n (d ∷ ds) c = value_from-append (n * 10 + (d - b'0')) ds c

value-decimal_from : (fuel n : ℕ) → n < fuel → value_from 0 (decimal_from fuel n) ≡ n
unfolding decimal_from value_from
value-decimal_from zero n h = absurd (omega (arith, h))
value-decimal_from (suc fuel) n h = elim (Bool-cases (ltb n 10)) [
  | inl small ↦ rw small (omega arith)
  | inr large ↦ rw large (
      value_from-append 0 (decimal_from fuel (n / 10)) (b'0' + n % 10)
      ∙ rw (value-decimal_from fuel (n / 10) (ground arith)) (omega arith))
]

-- Two numbers with one numeral are one number.
pub decimal_injective : (m n : ℕ) → decimal m ≡ decimal n → m ≡ n
unfolding decimal
decimal_injective m n h =
    sym (value-decimal_from (suc m) m (omega arith))
    ∙ ap (value_from 0) h
    ∙ value-decimal_from (suc n) n (omega arith)

abbrev pub is_digit : ℕ → Bool
is_digit c = leb b'0' c && leb c b'9'

all-decimal_from : (fuel n : ℕ) → all is_digit (decimal_from fuel n) ≡ true
unfolding decimal_from
all-decimal_from zero n = refl
all-decimal_from (suc fuel) n = elim (Bool-cases (ltb n 10)) [
  | inl small ↦ rw small (ground arith)
  | inr large ↦ rw large (
      all-append is_digit (decimal_from fuel (n / 10)) ((b'0' + n % 10) ∷ [])
      ∙ rw (all-decimal_from fuel (n / 10)) (ground arith))
]

pub all-decimal : (n : ℕ) → all is_digit (decimal n) ≡ true
unfolding decimal
all-decimal n = all-decimal_from (suc n) n

not_digit : (c : ℕ) → is_digit c ≡ false → is_digit c ≡ true → ⊥
not_digit c n p = cc

-- Numerals end where the first other character stands.
pub digits_before :
    (a b r s : Text) (sep : ℕ)
    → all is_digit a ≡ true
    → all is_digit b ≡ true
    → is_digit sep ≡ false
    → a ++ sep ∷ r ≡ b ++ sep ∷ s
    → (a ≡ b) × (r ≡ s)
digits_before [] [] r s sep p q n h = (refl, cc)
digits_before [] (c ∷ b) r s sep p q n h =
    let same : sep ≡ c = cc in
    absurd (not_digit c (ap is_digit (sym same) ∙ n) (&&-eq-true (is_digit c) _ q).0)
digits_before (c ∷ a) [] r s sep p q n h =
    let same : c ≡ sep = cc in
    absurd (not_digit c (ap is_digit same ∙ n) (&&-eq-true (is_digit c) _ p).0)
digits_before (c ∷ a) (d ∷ b) r s sep p q n h =
    let (same, rest) =
      digits_before a b r s sep (&&-eq-true (is_digit c) _ p).1 (&&-eq-true (is_digit d) _ q).1 n
        (cc) in
    let first : c ≡ d = cc in (cc (first, same), rest)
