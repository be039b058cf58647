-- ===== src/Crypto/Same.antt =====
-- The comparison that takes the same time wherever two secrets differ is equality.
use manapds.Prelude.{
  Str, [], arith, length, max, refl, suc, sym, true, zero, ℕ, ◌%◌, ◌/◌, ◌↔◌, ◌∙◌, ◌∷◌, ◌≡◌, ◌≤◌,
}
use Prim.Native.Nat.{bit_or, bit_xor, digits, differ, bit_or-bitwise, bit_xor-bitwise}
use manapds.Crypto.{difference, same}

differ-zero : (x y : ℕ) → differ x y ≡ 0 → x ≡ y
differ-zero zero y h = sym h
differ-zero (suc x) zero h = absurd (omega arith)
differ-zero (suc x) (suc y) h = omega (arith, differ-zero x y h)

differ_self : (x : ℕ) → differ x x ≡ 0
differ_self zero = refl
differ_self (suc x) = differ_self x

xor_digits-zero : (n a b : ℕ) → a ≤ n → digits (λ z. z) differ n a b ≡ 0 → a ≡ b
xor_digits-zero zero zero b le h = sym h
xor_digits-zero zero (suc a) b le h = absurd (omega arith)
xor_digits-zero (suc n) zero b le h = sym h
xor_digits-zero (suc n) (suc a) b le h =
    let high = xor_digits-zero n (suc a / 2) (b / 2) (omega arith) (omega arith) in
    let low = differ-zero (suc a % 2) (b % 2) (omega arith) in omega arith

xor_digits_self : (n a : ℕ) → a ≤ n → digits (λ z. z) differ n a a ≡ 0
xor_digits_self zero zero le = refl
xor_digits_self zero (suc a) le = absurd (omega arith)
xor_digits_self (suc n) zero le = refl
xor_digits_self (suc n) (suc a) le =
    omega (arith, xor_digits_self n (suc a / 2) (omega arith), differ_self (suc a % 2))

or_digits-zero : (n a b : ℕ) → a ≤ n → digits (λ z. z) max n a b ≡ 0 → (a ≡ 0) × (b ≡ 0)
or_digits-zero zero zero b le h = (refl, h)
or_digits-zero zero (suc a) b le h = absurd (omega arith)
or_digits-zero (suc n) zero b le h = (refl, h)
or_digits-zero (suc n) (suc a) b le h =
    let (high, high') = or_digits-zero n (suc a / 2) (b / 2) (omega arith) (omega arith) in
    (omega arith, omega arith)

bit_xor-zero : (a b : ℕ) → (bit_xor a b ≡ 0) ↔ (a ≡ b)
bit_xor-zero a b = (
  λ h. xor_digits-zero a a b (omega arith) (sym (bit_xor-bitwise a b) ∙ h),
  λ e. rw e (bit_xor-bitwise b b ∙ xor_digits_self b b (omega arith)),
)

bit_or-zero : (a b : ℕ) → bit_or a b ≡ 0 → (a ≡ 0) × (b ≡ 0)
bit_or-zero a b h = or_digits-zero a a b (omega arith) (sym (bit_or-bitwise a b) ∙ h)

difference-zero :
    (d : ℕ) (left right : Str)
    → length left ≡ length right
    → difference d left right ≡ 0
    → (d ≡ 0) × (left ≡ right)
unfolding difference
difference-zero d [] [] len h = (h, refl)
difference-zero d [] (r ∷ right) len h = absurd (omega arith)
difference-zero d (l ∷ left) [] len h = absurd (omega arith)
difference-zero d (l ∷ left) (r ∷ right) len h =
    let (none_so_far, rest) = difference-zero (bit_or d (bit_xor l r)) left right (omega arith) h in
    let (before, here) = bit_or-zero d (bit_xor l r) none_so_far in
    (before, rw ((bit_xor-zero l r).0 here, rest) refl)

difference_self : (s : Str) → difference 0 s s ≡ 0
unfolding difference
difference_self [] = refl
difference_self (c ∷ s) =
    let no_bit : bit_xor c c ≡ 0 = (bit_xor-zero c c).1 refl in rw no_bit (difference_self s)

-- `same` tells two byte strings apart exactly where they differ.
pub same_iff : (left right : Str) → (same left right ≡ true) ↔ (left ≡ right)
unfolding same
same_iff left right = (
  λ h.
      let len : length left ≡ length right = ground arith in
      let no_bit : difference 0 left right ≡ 0 = ground arith in
      (difference-zero 0 left right len no_bit).1,
  λ e. rw (e, difference_self right) (ground arith),
)
