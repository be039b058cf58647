-- ===== src/Syntax/Tid/Digits.antt =====
-- The 32 digits: `digit_char` and `digit` undo one another, and ASCII order is their order.
use manapds.Prelude.{
  ℕ, zero, suc, ◌+◌, ◌<◌, ◌≡◌, refl, Bool, true, ◌&&◌, arith, ltb, ◌==◌, if◌then◌else◌, ◌≤◌,
  Bool-cases, inl, inr,
}
use manapds.Syntax.Tid.{is_digit, is_first_digit, digit, digit_char}

-- A test that holds of 0 and on through `top`.
holds_through : (ℕ → Bool) → ℕ → Bool
holds_through test zero = test 0
holds_through test (suc top) = holds_through test top && test (suc top)

holds_through_lem :
    (test : ℕ → Bool) (top d : ℕ) → d ≤ top → holds_through test top ≡ true → test d ≡ true
unfolding holds_through
holds_through_lem test zero d le held = let e : d ≡ 0 = omega arith in rw e held
holds_through_lem test (suc top) d le held = elim (Bool-cases (d == suc top)) [
  | inl at_top ↦ let e : d ≡ suc top = ground arith in rw e (ground (arith, held))
  | inr under ↦
      let lower : d ≤ top = ground arith in
      holds_through_lem test top d lower (ground (arith, held))
]

abbrev digit_code : ℕ → ℕ
digit_code d = if ltb d 6 then d + 50 else d + 91

digit_char_table : holds_through (λ d. digit_char d == digit_code d) 31 ≡ true
unfolding holds_through digit_char
digit_char_table = refl

pub digit_char_lem : (d : ℕ) → d < 32 → digit_char d ≡ digit_code d
digit_char_lem d h =
    let t =
      holds_through_lem (λ d. digit_char d == digit_code d) 31 d (omega arith) digit_char_table in
    ground arith

pub digit-digit_char : (d : ℕ) → d < 32 → digit (digit_char d) ≡ d
unfolding digit
digit-digit_char d h = rw (digit_char_lem d h) (ground arith)

pub is_digit-digit_char : (d : ℕ) → d < 32 → is_digit (digit_char d) ≡ true
unfolding is_digit
is_digit-digit_char d h = rw (digit_char_lem d h) (ground arith)

pub is_first_digit-digit_char : (d : ℕ) → d < 16 → is_first_digit (digit_char d) ≡ true
unfolding is_first_digit
is_first_digit-digit_char d h = rw (digit_char_lem d (omega arith)) (ground arith)

ltb-digit_char : (d e : ℕ) → d < 32 → e < 32 → ltb (digit_char d) (digit_char e) ≡ ltb d e
ltb-digit_char d e h k = rw (digit_char_lem d h, digit_char_lem e k) (ground arith)

pub digit-lt : (c : ℕ) → is_digit c ≡ true → digit c < 32
unfolding is_digit digit
digit-lt c h = ground arith

pub first_digit-lt : (c : ℕ) → is_first_digit c ≡ true → digit c < 16
unfolding is_first_digit digit
first_digit-lt c h = ground arith

pub digit_char-digit : (c : ℕ) → is_digit c ≡ true → digit_char (digit c) ≡ c
digit_char-digit c h = rw (digit_char_lem (digit c) (digit-lt c h)) (by_code c h)
  where
    by_code : (c : ℕ) → is_digit c ≡ true → digit_code (digit c) ≡ c
    by_code c h = unfold is_digit digit in ground arith
