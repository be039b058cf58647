-- ===== src/Crypto/Base32.antt =====
-- What base32 spells: letters of the alphabet, eight bits in five.
use manapds.Prelude.{
  Bool, Bool-cases, List, Str, [], all, arith, inl, inr, leb, length, length-append, ltb, refl, suc,
  true, zero, ℕ, ◌%◌, ◌&&◌, ◌*◌, ◌++◌, ◌+◌, ◌-◌, ◌/◌, ◌<◌, ◌^◌, ◌||◌, ◌∷◌, ◌≡◌,
}
use manapds.Crypto.{letter, push_letters, base32_from, base32, u32}

-- A letter of the alphabet.
unfoldable pub is_base32 : ℕ → Bool
is_base32 c = (leb b'a' c && leb c b'z') || (leb b'2' c && leb c b'7')

all_letters : ℕ → Bool
all_letters zero = true
all_letters (suc n) = is_base32 (letter n) && all_letters n

all_letters-letter : (n i : ℕ) → all_letters n ≡ true → i < n → is_base32 (letter i) ≡ true
unfolding all_letters
all_letters-letter zero i h lt = absurd (omega arith)
all_letters-letter (suc n) i h lt = ground (arith, all_letters-letter n i)

letters_table : all_letters 32 ≡ true
unfolding all_letters is_base32 letter
letters_table = refl

letter-is_base32 : (i : ℕ) → i < 32 → is_base32 (letter i) ≡ true
letter-is_base32 i h = all_letters-letter 32 i letters_table h

all-append {ℓ} :
    {A : Type ℓ} (p : A → Bool) (xs ys : List A)
    → all p xs ≡ true
    → all p ys ≡ true
    → all p (xs ++ ys) ≡ true
all-append p [] ys h k = k
all-append p (x ∷ xs) ys h k = ground (arith, all-append p xs ys)

push_letters-all :
    (rounds buffer bits : ℕ) → all is_base32 (push_letters rounds buffer bits).0 ≡ true
unfolding push_letters
push_letters-all zero buffer bits = refl
push_letters-all (suc rounds) buffer bits = elim (Bool-cases (leb 5 bits)) [
  | inr few ↦ rw few refl
  | inl enough ↦
      rw
        (
          enough,
          letter-is_base32 ((buffer / 2 ^ (bits - 5)) % 32) (omega arith),
          push_letters-all rounds buffer (bits - 5),
        )
        refl
]

base32_from-all :
    (buffer bits : ℕ) (bytes : Str) → all is_base32 (base32_from buffer bits bytes) ≡ true
unfolding base32_from
base32_from-all buffer bits [] = elim (Bool-cases (ltb 0 bits)) [
  | inr whole ↦ rw whole refl
  | inl part ↦
      rw (part, letter-is_base32 (((buffer * 2 ^ (5 - bits)) % u32) % 32) (omega arith)) refl
]
base32_from-all buffer bits (byte ∷ bytes) =
    let buffer' = (buffer * 256) % u32 + byte in
    all-append is_base32 (push_letters 3 buffer' (bits + 8)).0 _
      (push_letters-all 3 buffer' (bits + 8))
      (base32_from-all buffer' (push_letters 3 buffer' (bits + 8)).1 bytes)

-- Two rounds are enough for a byte on top of at most four bits.
push_letters-counts :
    (buffer bits : ℕ)
    → bits < 5
    → (5 * length (push_letters 3 buffer (bits + 8)).0 + (push_letters 3 buffer (bits + 8)).1
        ≡ bits + 8)
      × ((push_letters 3 buffer (bits + 8)).1 < 5)
unfolding push_letters
push_letters-counts buffer bits h = ground arith

length-base32_from :
    (buffer bits : ℕ) (bytes : Str)
    → bits < 5
    → length (base32_from buffer bits bytes) ≡ (bits + 8 * length bytes + 4) / 5
unfolding base32_from
length-base32_from buffer bits [] h = ground arith
length-base32_from buffer bits (byte ∷ bytes) h =
    let buffer' = (buffer * 256) % u32 + byte in
    let (count, left) = push_letters-counts buffer' bits h in
    let (pushed, rest) = push_letters 3 buffer' (bits + 8) in
    omega (
      arith,
      length-append {0} (push_letters 3 buffer' (bits + 8)).0
          (base32_from buffer' (push_letters 3 buffer' (bits + 8)).1 bytes),
      length-base32_from buffer' (push_letters 3 buffer' (bits + 8)).1 bytes left,
      count,
    )

-- The base32 of some bytes is letters of the alphabet, five bits to each and the last one filled up.
pub base32-IsSpelled :
    (bytes : Str)
    → (all is_base32 (base32 bytes) ≡ true) × (length (base32 bytes) ≡ (8 * length bytes + 4) / 5)
unfolding base32
base32-IsSpelled bytes =
    (base32_from-all 0 0 bytes, omega (arith, length-base32_from 0 0 bytes (omega arith)))
