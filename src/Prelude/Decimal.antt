-- ===== src/Prelude/Decimal.antt =====
-- Numbers in decimal, as `to_string` writes a u64 or an i64.
use manapds.Prelude.{
  Bool, Bool-cases, Str, [], all, arith, if◌then◌else◌, inl, inr, leb, ltb, refl, suc, true, zero,
  ℕ, ◌%◌, ◌&&◌, ◌++◌, ◌+◌, ◌/◌, ◌∷◌, ◌≡◌,
}
use manapds.Prelude.Int.{ℤ, pos, negsuc}

-- The digits of a number, the last of as many as there is fuel for.
unfoldable pub digits_of : ℕ → ℕ → Str
digits_of zero n = []
digits_of (suc fuel) n =
    let before = digits_of fuel (n / 10) in
    if ltb n 10 then (b'0' + n) ∷ [] else before ++ ((b'0' + n % 10) ∷ [])

-- A u64 has at most 20 digits.
unfoldable pub decimal : ℕ → Str
unfolding digits_of
decimal n = digits_of 20 n

unfoldable pub decimal_ℤ : ℤ → Str
unfolding decimal
decimal_ℤ (pos n) = decimal n
decimal_ℤ (negsuc n) = b'-' ∷ decimal (n + 1)

abbrev pub is_decimal : ℕ → Bool
is_decimal c = leb b'0' c && leb c b'9'

all-snoc :
    (s : Str) (c : ℕ)
    → all is_decimal s ≡ true
    → is_decimal c ≡ true
    → all is_decimal (s ++ (c ∷ [])) ≡ true
all-snoc [] c h k = rw k refl
all-snoc (d ∷ s) c h k = ground (arith, all-snoc s c)

digits_of-decimal : (fuel n : ℕ) → all is_decimal (digits_of fuel n) ≡ true
unfolding digits_of
digits_of-decimal zero n = refl
digits_of-decimal (suc fuel) n = elim (Bool-cases (ltb n 10)) [
  | inl small ↦ rw small (ground arith)
  | inr large ↦ rw large (
      all-snoc (digits_of fuel (n / 10)) (b'0' + n % 10) (digits_of-decimal fuel (n / 10))
        (ground arith))
]

pub all-decimal : (n : ℕ) → all is_decimal (decimal n) ≡ true
unfolding decimal
all-decimal n = digits_of-decimal 20 n
