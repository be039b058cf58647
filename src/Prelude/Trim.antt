-- ===== src/Prelude/Trim.antt =====
-- `str::trim`: the white space of Unicode in UTF-8, taken off both ends.
use manapds.Prelude.{
  Bool, Str, [], drop, get_elem?, if◌then◌else◌, leb, length, none, some, suc, zero, ℕ, ◌&&◌, ◌==◌,
  ◌∷◌, ◌||◌,
}
use mathlib.Core.List.{reverse}

-- What stands at a place, or 256, which is no byte.
byte_at : Str → ℕ → ℕ
byte_at s i = elim (get_elem? s i) [ some b ↦ b | none ↦ 256 ]

space_1 : ℕ → Bool
space_1 a = a == b' ' || (leb 9 a && leb a 13)

space_2 : ℕ → ℕ → Bool
space_2 a b = a == 0xC2 && (b == 0x85 || b == 0xA0)

space_3 : ℕ → ℕ → ℕ → Bool
space_3 a b c =
    (a == 0xE1 && (b == 0x9A && c == 0x80))
    || ((a == 0xE2
          && (b == 0x80 && ((leb 0x80 c && leb c 0x8A) || (c == 0xA8 || (c == 0xA9 || c == 0xAF)))))
        || ((a == 0xE2 && (b == 0x81 && c == 0x9F)) || (a == 0xE3 && (b == 0x80 && c == 0x80))))

-- How many bytes of white space a text starts with, and a text read backward.
space_at_front : Str → ℕ
unfolding byte_at space_1 space_2 space_3
space_at_front s =
    if space_1 (byte_at s 0)
    then 1
    else if space_2 (byte_at s 0) (byte_at s 1)
    then 2
    else if space_3 (byte_at s 0) (byte_at s 1) (byte_at s 2)
    then 3
    else 0

space_at_back : Str → ℕ
unfolding byte_at space_1 space_2 space_3
space_at_back s =
    if space_1 (byte_at s 0)
    then 1
    else if space_2 (byte_at s 1) (byte_at s 0)
    then 2
    else if space_3 (byte_at s 2) (byte_at s 1) (byte_at s 0)
    then 3
    else 0

trim_by : (Str → ℕ) → ℕ → Str → Str
trim_by space zero s = s
trim_by space (suc rounds) s =
    let rest = trim_by space rounds (drop (space s) s) in if space s == 0 then s else rest

unfoldable pub trim : Str → Str
unfolding trim_by space_at_front space_at_back
trim s =
    let back = reverse (trim_by space_at_front (length s) s) in
    reverse (trim_by space_at_back (length back) back)

-- `str::trim_end_matches`, of one byte.
abbrev pub trim_end_matches : ℕ → Str → Str
trim_end_matches c [] = []
trim_end_matches c (x ∷ s) = elim (trim_end_matches c s) [
  | [] ↦ if x == c then [] else x ∷ []
  | y ∷ ys ↦ x ∷ y ∷ ys
]
