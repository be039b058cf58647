-- ===== src/Prelude/Bytes.antt =====
-- Text as its bytes: what `str` gives a validator, and the ASCII classes of `u8`.
use Prim.Native.Nat.{suc, zero, ℕ}
use Prim.Native.Char.{code}
use Prim.Native.String.{String}
use mathlib.Core.Bool.{Bool, true, false, ◌&&◌, ◌||◌}
use mathlib.Core.Option.{Option, none, some}
use mathlib.Core.List.{List, [], ◌∷◌}
use manapds.Prelude.Tests.{leb, ◌==◌, ltb, if◌then◌else◌}

abbrev pub Str : Type 0
Str = List ℕ

-- The bytes of an ASCII literal.
abbrev pub codes : String → Str
codes String.[] = []
codes (String.◌∷◌ c s) = code c ∷ codes s

abbrev pub is_ascii_digit : ℕ → Bool
is_ascii_digit c = leb b'0' c && leb c b'9'

abbrev pub is_ascii_lowercase : ℕ → Bool
is_ascii_lowercase c = leb b'a' c && leb c b'z'

abbrev pub is_ascii_uppercase : ℕ → Bool
is_ascii_uppercase c = leb b'A' c && leb c b'Z'

abbrev pub is_ascii_alphabetic : ℕ → Bool
is_ascii_alphabetic c = is_ascii_lowercase c || is_ascii_uppercase c

abbrev pub is_ascii_alphanumeric : ℕ → Bool
is_ascii_alphanumeric c = is_ascii_alphabetic c || is_ascii_digit c

abbrev pub is_empty {ℓ} : {A : Type ℓ} → List A → Bool
is_empty [] = true
is_empty (_ ∷ _) = false

-- `==` on `str`
abbrev pub str_eq : Str → Str → Bool
str_eq [] [] = true
str_eq (x ∷ xs) (y ∷ ys) = x == y && str_eq xs ys
str_eq _ _ = false

-- `<` on `str`: by bytes, a prefix first
abbrev pub str_lt : Str → Str → Bool
str_lt [] [] = false
str_lt [] (y ∷ ys) = true
str_lt (x ∷ xs) [] = false
str_lt (x ∷ xs) (y ∷ ys) = ltb x y || (x == y && str_lt xs ys)

abbrev pub contains : ℕ → Str → Bool
contains c [] = false
contains c (x ∷ xs) = x == c || contains c xs

-- `starts_with` and `ends_with` of one byte
abbrev pub starts_with_byte : (ℕ → Bool) → Str → Bool
starts_with_byte p [] = false
starts_with_byte p (x ∷ xs) = p x

abbrev pub ends_with_byte : ℕ → Str → Bool
ends_with_byte c [] = false
ends_with_byte c (x ∷ []) = x == c
ends_with_byte c (x ∷ y ∷ ys) = ends_with_byte c (y ∷ ys)

abbrev pub strip_prefix : Str → Str → Option Str
strip_prefix [] s = some s
strip_prefix (p ∷ ps) [] = none
strip_prefix (p ∷ ps) (c ∷ s) = if p == c then strip_prefix ps s else none

abbrev prepend_to_first : ℕ → Option (Str × Str) → Option (Str × Str)
prepend_to_first c none = none
prepend_to_first c (some (a, b)) = some (c ∷ a, b)

-- `split_once`: what stands before the first `sep`, and what stands after it
abbrev pub split_once : ℕ → Str → Option (Str × Str)
split_once sep [] = none
split_once sep (c ∷ s) = if c == sep then some ([], s) else prepend_to_first c (split_once sep s)

abbrev pub prepend_to_head : ℕ → List Str → List Str
prepend_to_head c [] = (c ∷ []) ∷ []
prepend_to_head c (p ∷ ps) = (c ∷ p) ∷ ps

-- `split`: never empty, one part more than there are separators
abbrev pub split : ℕ → Str → List Str
split sep [] = [] ∷ []
split sep (c ∷ s) = if c == sep then [] ∷ split sep s else prepend_to_head c (split sep s)

abbrev in_range : ℕ → ℕ → ℕ → Bool
in_range lo hi b = leb lo b && leb b hi

-- What may follow a first byte: how many more bytes, and the range of the second.
abbrev utf8_second : ℕ → Option (ℕ × ℕ × ℕ)
utf8_second a =
    if in_range 0xC2 0xDF a
    then some (1, 0x80, 0xBF)
    else if a == 0xE0
    then some (2, 0xA0, 0xBF)
    else if a == 0xED
    then some (2, 0x80, 0x9F)
    else if in_range 0xE1 0xEF a
    then some (2, 0x80, 0xBF)
    else if a == 0xF0
    then some (3, 0x90, 0xBF)
    else if in_range 0xF1 0xF3 a
    then some (3, 0x80, 0xBF)
    else if a == 0xF4
    then some (3, 0x80, 0x8F)
    else none

-- `str::from_utf8` as a loop: the bytes still owed, and the range of the next of them.
unfoldable pub utf8_from : ℕ → ℕ → ℕ → Str → Bool
utf8_from zero lo hi [] = true
utf8_from (suc owed) lo hi [] = false
utf8_from (suc owed) lo hi (b ∷ s) = in_range lo hi b && utf8_from owed 0x80 0xBF s
utf8_from zero lo hi (b ∷ s) =
    if ltb b 0x80
    then utf8_from 0 0x80 0xBF s
    else elim (utf8_second b) [ none ↦ false | some (owed, lo', hi') ↦ utf8_from owed lo' hi' s ]

unfoldable pub is_utf8 : Str → Bool
unfolding utf8_from
is_utf8 s = utf8_from 0 0x80 0xBF s
