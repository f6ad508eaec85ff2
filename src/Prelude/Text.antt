-- ===== src/Prelude/Text.antt =====
-- Rust strings as lists of code points.
use Prim.Native.Nat.{ℕ, ◌+◌, ◌-◌, ◌<◌}
use Prim.Native.Char.{code}
use Prim.Native.String.{String}
use mathlib.Core.Path.{◌≡◌, refl}
use mathlib.Core.Bool.{false}
use mathlib.Core.Option
use mathlib.Core.Option.{Option, none, some}
use native.Mathlib.Omega.{arith}
use serpentine.Prelude.Tests.{ltb, ◌==◌, nat_eq, if◌then◌else◌}
use serpentine.Prelude.Lists.{length}
use mathlib.Core.List.{List, [], ◌∷◌, ◌++◌}

abbrev pub Text : Type 0
Text = List ℕ

abbrev pub codes : String → Text
codes String.[] = []
codes (String.◌∷◌ c s) = code c ∷ codes s

-- `char::len_utf8`
unfoldable pub len_utf8 : ℕ → ℕ
len_utf8 c = if ltb c 0x80 then 1 else if ltb c 0x800 then 2 else if ltb c 0x10000 then 3 else 4

-- `str::len`
unfoldable pub bytes : Text → ℕ
bytes [] = 0
bytes (c ∷ cs) = len_utf8 c + bytes cs

-- `str::get(byte..)`: none past the end and inside a character.
unfoldable pub get_from : Text → ℕ → Option Text
get_from [] byte = if byte == 0 then some [] else none
get_from (c ∷ cs) byte =
    if byte == 0
    then some (c ∷ cs)
    else if ltb byte (len_utf8 c)
    then none
    else get_from cs (byte - len_utf8 c)

-- `str::get(..byte)`
unfoldable pub get_to : Text → ℕ → Option Text
get_to [] byte = if byte == 0 then some [] else none
get_to (c ∷ cs) byte =
    if byte == 0
    then some []
    else if ltb byte (len_utf8 c)
    then none
    else Option.map (λ rest. c ∷ rest) (get_to cs (byte - len_utf8 c))

abbrev pub to_end : Option Text → ℕ → Option Text
to_end none byte = none
to_end (some rest) byte = get_to rest byte

-- `str::get(start..end)`
unfoldable pub get_range : Text → ℕ → ℕ → Option Text
get_range cs start end = if ltb end start then none else to_end (get_from cs start) (end - start)

pub len_utf8_pos : (c : ℕ) → 0 < len_utf8 c
unfolding len_utf8
len_utf8_pos c = ground arith

pub bytes-append : (xs ys : Text) → bytes (xs ++ ys) ≡ bytes xs + bytes ys
unfolding bytes
bytes-append [] ys = omega arith
bytes-append (c ∷ xs) ys = omega (arith, bytes-append xs ys)

add_sub : (a b : ℕ) → a + b - a ≡ b
add_sub a b = omega arith

ltb_add : (a b : ℕ) → ltb (a + b) a ≡ false
ltb_add a b = ground arith

-- The offset of a suffix is on a character boundary.
pub get_from-append : (xs ys : Text) → get_from (xs ++ ys) (bytes xs) ≡ some ys
unfolding get_from bytes
get_from-append [] [] = refl
get_from-append [] (y ∷ ys) = refl
get_from-append (c ∷ xs) ys =
    rw (add_sub (len_utf8 c) (bytes xs)) (ground (arith, len_utf8_pos c, get_from-append xs ys))

pub get_to-append : (xs ys : Text) → get_to (xs ++ ys) (bytes xs) ≡ some xs
unfolding get_to bytes
get_to-append [] [] = refl
get_to-append [] (y ∷ ys) = refl
get_to-append (c ∷ xs) ys =
    rw (add_sub (len_utf8 c) (bytes xs)) (ground (arith, len_utf8_pos c, get_to-append xs ys))

-- A range between two boundaries is what stands there.
pub get_range-append :
    (xs ys zs : Text) (start end : ℕ)
    → start ≡ bytes xs
    → end ≡ bytes xs + bytes ys
    → get_range (xs ++ (ys ++ zs)) start end ≡ some ys
unfolding get_range
get_range-append xs ys zs start end p q =
    rw (p, q, ltb_add (bytes xs) (bytes ys), get_from-append, add_sub (bytes xs) (bytes ys))
      (get_to-append ys zs)

pub bytes-cons : (c : ℕ) (cs : Text) → bytes (c ∷ cs) ≡ len_utf8 c + bytes cs
unfolding bytes
bytes-cons c cs = refl

pub bytes-nil : bytes [] ≡ 0
unfolding bytes
bytes-nil = refl

pub length_pos : (cs : Text) → 0 < bytes cs → 0 < length cs
unfolding bytes
length_pos [] h = absurd (omega arith)
length_pos (c ∷ cs) h = omega arith

pub len_utf8_ascii : (c : ℕ) → c < 128 → len_utf8 c ≡ 1
unfolding len_utf8
len_utf8_ascii c h = ground arith
