-- ===== src/Crypto.antt =====
-- src/crypto.rs: the comparison of secrets, and base32. Hexadecimal and the curves are left out.
pub mod Same
pub mod Base32
mod Tests
use manapds.Prelude.{
  Bool, Str, [], get_elem?, if◌then◌else◌, leb, length, ltb, none, some, suc, zero, ℕ, ◌%◌, ◌&&◌,
  ◌*◌, ◌++◌, ◌+◌, ◌-◌, ◌/◌, ◌==◌, ◌^◌, ◌∷◌,
}
use Prim.Native.Nat.{bit_or, bit_xor}
use manapds.Prelude.Bytes.{codes}

-- `Error`
pub data Error : Type 0 where
  not_did_key : Error
  unsupported_key : Error
  malformed_key : Error
  malformed_signature : Error
  high_s : Error
  bad_signature : Error

-- The fold of `same` over the pairs of bytes.
unfoldable pub difference : ℕ → Str → Str → ℕ
difference d (l ∷ left) (r ∷ right) = difference (bit_or d (bit_xor l r)) left right
difference d [] (r ∷ right) = d
difference d [] [] = d
difference d (l ∷ left) [] = d

unfoldable pub same : Str → Str → Bool
unfolding difference
same left right = length left == length right && difference 0 left right == 0

abbrev pub alphabet : Str
alphabet = codes "abcdefghijklmnopqrstuvwxyz234567"

abbrev pub u32 : ℕ
u32 = 2 ^ 32

unfoldable pub letter : ℕ → ℕ
letter n = elim (get_elem? alphabet n) [ some c ↦ c | none ↦ 0 ]

-- The inner loop of `base32`: what it pushes, and the bits it leaves. A byte adds 8 to at most 4 bits, so
-- there are two rounds at most.
unfoldable pub push_letters : ℕ → ℕ → ℕ → Str × ℕ
unfolding letter
push_letters zero buffer bits = ([], bits)
push_letters (suc rounds) buffer bits =
    let (pushed, left) = push_letters rounds buffer (bits - 5) in
    if leb 5 bits then (letter ((buffer / 2 ^ (bits - 5)) % 32) ∷ pushed, left) else ([], bits)

-- The outer loop. A shift of a u32 drops what goes past its width.
unfoldable pub base32_from : ℕ → ℕ → Str → Str
unfolding push_letters letter
base32_from buffer bits [] =
    if ltb 0 bits then letter (((buffer * 2 ^ (5 - bits)) % u32) % 32) ∷ [] else []
base32_from buffer bits (byte ∷ bytes) =
    let buffer' = (buffer * 256) % u32 + byte in
    let (pushed, left) = push_letters 3 buffer' (bits + 8) in
    pushed ++ base32_from buffer' left bytes

unfoldable pub base32 : Str → Str
unfolding base32_from
base32 bytes = base32_from 0 0 bytes
