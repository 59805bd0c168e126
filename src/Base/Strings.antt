-- ===== src/Base/Strings.antt =====
-- `str` as the list of its Unicode scalar values, with the operations of the standard library
-- that the program calls. Offsets and lengths are in bytes of UTF-8, as in Rust.
pub mod Decimals
use luminosity.Base.Tests.{◌==◌, leb, ltb, if◌then◌else◌}
use luminosity.Base.Lists.{is_empty}
use Prim.Native.Nat.{ℕ, zero, suc, ◌+◌, ◌-◌, ◌/◌, ◌%◌}
use Prim.Native.Char.{code}
use Prim.Native.String.{String}
use mathlib.Core.Path.{◌≡◌, refl}
use mathlib.Core.Logic.{◌↔◌}
use mathlib.Core.Bool.{Bool, true, false, ◌&&◌, ◌||◌}
use mathlib.Core.Option
use mathlib.Core.Option.{Option, none, some}
use mathlib.Core.List.{List, [], ◌∷◌, ◌++◌}
use native.Mathlib.Omega.{arith}

abbrev pub Text : Type 0
Text = List ℕ

-- A text literal.
abbrev pub codes : String → Text
codes String.[] = []
codes (String.◌∷◌ c s) = code c ∷ codes s

-- `a == b`
unfoldable pub text_eq : Text → Text → Bool
text_eq [] [] = true
text_eq (x ∷ xs) (y ∷ ys) = x == y && text_eq xs ys
text_eq _ _ = false

pub text_eq_iff : (a b : Text) → (text_eq a b ≡ true) ↔ (a ≡ b)
unfolding text_eq
text_eq_iff (x ∷ a) (y ∷ b) = ground (arith, text_eq_iff a b)
text_eq_iff _ _ = ground arith

pub text_eq_refl : (a : Text) → text_eq a a ≡ true
text_eq_refl a = (text_eq_iff a a).1 refl

-- `parts.join(sep)`
abbrev pub join : Text → List Text → Text
join sep [] = []
join sep (p ∷ []) = p
join sep (p ∷ q ∷ ps) = p ++ (sep ++ join sep (q ∷ ps))

-- A character put in front of the first piece; with no piece, a piece of its own.
abbrev pub push_head : ℕ → List Text → List Text
push_head c [] = (c ∷ []) ∷ []
push_head c (p ∷ ps) = (c ∷ p) ∷ ps

-- `text.split(sep)` for one character
abbrev pub split : ℕ → Text → List Text
split sep [] = [] ∷ []
split sep (c ∷ cs) = let rest = split sep cs in if c == sep then [] ∷ rest else push_head c rest

-- `text.split_inclusive(sep)` for one character
abbrev pub split_inclusive : ℕ → Text → List Text
split_inclusive sep [] = []
split_inclusive sep (c ∷ cs) =
    let rest = split_inclusive sep cs in if c == sep then (c ∷ []) ∷ rest else push_head c rest

-- `text.strip_suffix(c).unwrap_or(text)` for one character
abbrev pub strip_end : ℕ → Text → Text
strip_end c [] = []
strip_end c (x ∷ []) = if x == c then [] else x ∷ []
strip_end c (x ∷ y ∷ ys) = x ∷ strip_end c (y ∷ ys)

-- `text.strip_prefix(prefix)`
abbrev pub strip_prefix : Text → Text → Option Text
strip_prefix [] t = some t
strip_prefix (p ∷ ps) [] = none
strip_prefix (p ∷ ps) (c ∷ cs) = let rest = strip_prefix ps cs in if p == c then rest else none

-- `char::is_whitespace`: the Unicode property White_Space
unfoldable pub is_whitespace : ℕ → Bool
is_whitespace c =
    (leb 9 c && leb c 13)
    || c == 0x20
    || c == 0x85
    || c == 0xa0
    || c == 0x1680
    || (leb 0x2000 c && leb c 0x200a)
    || c == 0x2028
    || c == 0x2029
    || c == 0x202f
    || c == 0x205f
    || c == 0x3000

abbrev pub trim_start : Text → Text
trim_start [] = []
trim_start (c ∷ cs) = let rest = trim_start cs in if is_whitespace c then rest else c ∷ cs

-- The white space at the end is dropped from the inside out.
abbrev pub trim_end : Text → Text
trim_end [] = []
trim_end (c ∷ cs) =
    let rest = trim_end cs in if is_empty rest && is_whitespace c then [] else c ∷ rest

-- `text.trim()`
abbrev pub trim : Text → Text
trim t = trim_end (trim_start t)

-- `char::len_utf8`
abbrev pub len_utf8 : ℕ → ℕ
len_utf8 c = if ltb c 0x80 then 1 else if ltb c 0x800 then 2 else if ltb c 0x10000 then 3 else 4

-- `text.len()`
abbrev pub len : Text → ℕ
len [] = 0
len (c ∷ cs) = len_utf8 c + len cs

-- `text[start..]` and `text[..end]`: `none` is the panic, past the end or inside a character.
abbrev pub drop_bytes : ℕ → Text → Option Text
drop_bytes zero t = some t
drop_bytes (suc n) [] = none
drop_bytes (suc n) (c ∷ cs) =
    let rest = drop_bytes (suc n - len_utf8 c) cs in if leb (len_utf8 c) (suc n) then rest else none

abbrev pub take_bytes : ℕ → Text → Option Text
take_bytes zero t = some []
take_bytes (suc n) [] = none
take_bytes (suc n) (c ∷ cs) =
    let rest = take_bytes (suc n - len_utf8 c) cs in
    if leb (len_utf8 c) (suc n) then Option.map (◌∷◌ c) rest else none

-- `text[start..end]`
unfoldable pub slice : ℕ → ℕ → Text → Option Text
slice start end t =
    if leb start end then Option.bind (drop_bytes start t) (take_bytes (end - start)) else none

-- `text.ends_with(c)` for one character
abbrev pub ends_with : ℕ → Text → Bool
ends_with c [] = false
ends_with c (x ∷ []) = x == c
ends_with c (x ∷ y ∷ ys) = ends_with c (y ∷ ys)

-- The decimal digits of a number, least significant last, on enough fuel.
decimal_from : ℕ → ℕ → Text
decimal_from zero n = []
decimal_from (suc fuel) n =
    let rest = decimal_from fuel (n / 10) in
    if ltb n 10 then (b'0' + n) ∷ [] else rest ++ (b'0' + n % 10) ∷ []

-- `u64::to_string`. A number has fewer digits than its successor counts.
unfoldable pub decimal : ℕ → Text
unfolding decimal_from
decimal n = decimal_from (suc n) n
