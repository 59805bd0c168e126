-- ===== src/Base/Slices.antt =====
-- Byte offsets: a slice between the ends of two pieces is the piece between them.
use luminosity.Base.Tests.{leb, if◌then◌else◌}
use luminosity.Base.Strings.{Text, len, len_utf8, drop_bytes, take_bytes, slice}
use Prim.Native.Nat.{ℕ, zero, suc, ◌+◌, ◌-◌, ◌<◌}
use mathlib.Core.Path.{◌≡◌, refl, ◌∙◌}
use mathlib.Core.Bool.{true}
use mathlib.Core.Option
use mathlib.Core.Option.{Option, none, some}
use mathlib.Core.List.{[], ◌∷◌, ◌++◌}
use native.Mathlib.Omega.{arith}

pub len-append : (a b : Text) → len (a ++ b) ≡ len a + len b
len-append [] b = omega arith
len-append (c ∷ cs) b = omega (arith, len-append cs b)

len_utf8-pos : (c : ℕ) → 0 < len_utf8 c
len_utf8-pos c = ground arith

drop_bytes-cons :
    (n c : ℕ) (cs : Text)
    → 0 < n
    → drop_bytes n (c ∷ cs) ≡ (if leb (len_utf8 c) n then drop_bytes (n - len_utf8 c) cs else none)
drop_bytes-cons zero c cs h = elim h [ ]
drop_bytes-cons (suc n) c cs h = refl

take_bytes-cons :
    (n c : ℕ) (cs : Text)
    → 0 < n
    → take_bytes n (c ∷ cs)
      ≡ (if leb (len_utf8 c) n then Option.map (◌∷◌ c) (take_bytes (n - len_utf8 c) cs) else none)
take_bytes-cons zero c cs h = elim h [ ]
take_bytes-cons (suc n) c cs h = refl

leb_add : (a b : ℕ) → leb a (a + b) ≡ true
leb_add a b = ground arith

add-sub_left : (a b : ℕ) → a + b - a ≡ b
add-sub_left a b = omega arith

pub drop_bytes-append : (a b : Text) → drop_bytes (len a) (a ++ b) ≡ some b
drop_bytes-append [] b = refl
drop_bytes-append (c ∷ cs) b =
    drop_bytes-cons (len (c ∷ cs)) c (cs ++ b) (omega (arith, len_utf8-pos c))
    ∙ rw (leb_add (len_utf8 c) (len cs), add-sub_left (len_utf8 c) (len cs))
        (drop_bytes-append cs b)

pub take_bytes-append : (a b : Text) → take_bytes (len a) (a ++ b) ≡ some a
take_bytes-append [] b = refl
take_bytes-append (c ∷ cs) b =
    take_bytes-cons (len (c ∷ cs)) c (cs ++ b) (omega (arith, len_utf8-pos c))
    ∙ rw (leb_add (len_utf8 c) (len cs), add-sub_left (len_utf8 c) (len cs))
        (rw (take_bytes-append cs b))

pub slice-append : (a b c : Text) → slice (len a) (len a + len b) (a ++ (b ++ c)) ≡ some b
unfolding slice Option.bind
slice-append a b c =
    rw (leb_add (len a) (len b), add-sub_left (len a) (len b), drop_bytes-append a (b ++ c))
      (take_bytes-append b c)
