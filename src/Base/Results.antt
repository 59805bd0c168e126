-- ===== src/Base/Results.antt =====
-- Rust's `Result<A, E>`, with `?` as the bind of a `do` block.
use mathlib.Core.Path.{◌≡◌, refl}
use mathlib.Core.Logic.{◌⊎◌, inl, inr}
use mathlib.Core.Bool.{Bool, true, false}

pub data Result {ℓ κ} (A : Type ℓ) (E : Type κ) : Type (ℓ ⊔ κ) where
  ok : A → Result A E
  err : E → Result A E

-- `?` and the code behind it
infixl 5 ◌>>=◌
abbrev pub ◌>>=◌ {ℓ κ μ} :
    {E : Type μ} {A : Type ℓ} {B : Type κ} → Result A E → (A → Result B E) → Result B E
err error >>= next = err error
ok x >>= next = next x

infixl 5 ◌>>◌
abbrev pub ◌>>◌ {ℓ κ μ} :
    {E : Type μ} {A : Type ℓ} {B : Type κ} → Result A E → Result B E → Result B E
first >> next = first >>= λ _. next

-- `map_err`
abbrev pub map_err {ℓ κ μ} :
    {A : Type ℓ} {E : Type κ} {F : Type μ} → (E → F) → Result A E → Result A F
map_err f (ok a) = ok a
map_err f (err e) = err (f e)

abbrev pub is_ok {ℓ κ} : {A : Type ℓ} {E : Type κ} → Result A E → Bool
is_ok (ok _) = true
is_ok (err _) = false

pub Result-cases {ℓ κ} :
    {A : Type ℓ} {E : Type κ} (r : Result A E) → ((a : A) × (r ≡ ok a)) ⊎ ((e : E) × (r ≡ err e))
Result-cases (ok a) = inl (a, refl)
Result-cases (err e) = inr (e, refl)

-- What a `do` block that returned went through.
pub >>=-eq-ok {ℓ κ μ} :
    {E : Type μ} {A : Type ℓ} {B : Type κ} {b : B} (r : Result A E) (next : A → Result B E)
    → ◌≡◌ {A = Result B E} (r >>= next) (ok b)
    → (x : A) × (r ≡ ok x) × (next x ≡ ok b)
>>=-eq-ok (err e) next done = cc
>>=-eq-ok (ok x) next done = (x, refl, done)

-- Where a `do` block failed: in its first part, or after that returned.
pub >>=-eq-err {ℓ κ μ} :
    {E : Type μ} {A : Type ℓ} {B : Type κ} {e : E} (r : Result A E) (next : A → Result B E)
    → ◌≡◌ {A = Result B E} (r >>= next) (err e)
    → (r ≡ err e) ⊎ ((x : A) × (r ≡ ok x) × (next x ≡ err e))
>>=-eq-err (err e) next failed = inl cc
>>=-eq-err (ok x) next failed = inr (x, refl, failed)

pub ok-injective {ℓ κ} :
    {A : Type ℓ} {E : Type κ} {a b : A} → ◌≡◌ {A = Result A E} (ok a) (ok b) → a ≡ b
ok-injective h = cc

-- An error that is mapped was there before.
pub map_err-ok {ℓ κ μ} :
    {A : Type ℓ} {E : Type κ} {F : Type μ} {a : A} (f : E → F) (r : Result A E)
    → ◌≡◌ {A = Result A F} (map_err f r) (ok a)
    → r ≡ ok a
map_err-ok f (ok b) h = cc
map_err-ok f (err e) h = cc
