-- ===== src/Syntax/Tid/Codec.antt =====
-- `from_parts` and `to_parts` undo one another, and no step of the fold leaves the range of `u64`.
use manapds.Prelude.{
  Str, [], ap, arith, refl, suc, zero, ℕ, ◌%◌, ◌*◌, ◌+◌, ◌/◌, ◌<◌, ◌^◌, ◌∷◌, ◌≡◌, ◌≤◌, all, length,
  true, ◌∙◌,
}
use native.Mathlib.Nat.{
  mul-add-div_right, div-eq_of_lt, div-add-mod, mod-add-div, div-div-eq-div-mul, pow-suc,
  mod-eq_of_lt, mod-lt,
}
use mathlib.Core.List.{foldl}
use manapds.Syntax.Tid.{
  digit_char, clock_ids, encode, from_parts, is_digit, micros_end, to_parts, digit, encode_from,
  push_digit,
}
use manapds.Syntax.Tid.Digits.{digit_char-digit, digit-lt, is_digit-digit_char, digit-digit_char}

abbrev pub base : ℕ → ℕ
base k = 2 ^ (k * 5)

pub base-suc : (k : ℕ) → base (suc k) ≡ base k * 32
base-suc k =
    let e : suc k * 5 ≡ suc (suc (suc (suc (suc (k * 5))))) = omega arith in
    rw e (simp pow-suc (omega arith))

pub base-pos : (k : ℕ) → 0 < base k
base-pos zero = omega arith
base-pos (suc k) = rw (base-suc k) (omega (arith, base-pos k))

-- The lowest digits of a number: one more digit, and the ones below it.
pub mod-digit : (v p : ℕ) → v % (p * 32) ≡ v / p % 32 * p + v % p
mod-digit v p = omega (
  arith,
  div-add-mod v p,
  mod-add-div v (p * 32),
  div-div-eq-div-mul v p 32,
  ap (λ (t : ℕ). p * 32 * t) (div-div-eq-div-mul v p 32),
  ap (λ (t : ℕ). p * t) (div-add-mod (v / p) 32),
)

-- The fold without the wrap of `u64`.
unfoldable pub dec : ℕ → Str → ℕ
dec acc [] = acc
dec acc (c ∷ s) = dec (acc * 32 + digit c) s

pub dec-encode_from : (k acc v : ℕ) → dec acc (encode_from k v) ≡ acc * base k + v % base k
unfolding dec encode_from
dec-encode_from zero acc v = omega arith
dec-encode_from (suc k) acc v =
    let d : ℕ = v / base k % 32 in
    ap (λ (x : ℕ). dec (acc * 32 + x) (encode_from k v))
      (digit-digit_char d (mod-lt (v / base k) (omega arith)))
    ∙ omega (
      arith,
      dec-encode_from k (acc * 32 + d) v,
      base-suc k,
      mod-digit v (base k),
      ap (λ (t : ℕ). acc * t) (base-suc k),
      ap (λ (t : ℕ). v % t) (base-suc k),
    )

pub le-dec : (acc : ℕ) (s : Str) → acc ≤ dec acc s
unfolding dec
le-dec acc [] = omega arith
le-dec acc (c ∷ s) = omega (arith, le-dec (acc * 32 + digit c) s)

pub foldl-dec : (acc : ℕ) (s : Str) → dec acc s < 2 ^ 64 → foldl push_digit acc s ≡ dec acc s
unfolding dec push_digit
foldl-dec acc [] h = refl
foldl-dec acc (c ∷ s) h =
    rw
      (mod-eq_of_lt {n = acc * 32 + digit c} {m = 2 ^ 64}
        (omega (arith, le-dec (acc * 32 + digit c) s)))
      (foldl-dec (acc * 32 + digit c) s h)

pub length-encode_from : (k v : ℕ) → length (encode_from k v) ≡ k
unfolding encode_from
length-encode_from zero v = refl
length-encode_from (suc k) v = omega (arith, length-encode_from k v)

pub all-encode_from : (k v : ℕ) → all is_digit (encode_from k v) ≡ true
unfolding encode_from
all-encode_from zero v = refl
all-encode_from (suc k) v =
    rw (is_digit-digit_char (v / base k % 32) (mod-lt (v / base k) (omega arith)))
      (all-encode_from k v)

dec-encode : (v : ℕ) → dec 0 (encode v) ≡ v % base 13
unfolding encode
dec-encode v = omega (arith, dec-encode_from 13 0 v)

abbrev pub packed : ℕ → ℕ → ℕ
packed micros clock_id = micros % micros_end * clock_ids + clock_id % clock_ids

pub text-from_parts :
    (micros clock_id : ℕ) → (from_parts micros clock_id).text ≡ encode (packed micros clock_id)
unfolding from_parts
text-from_parts micros clock_id = ap encode (omega arith)

-- The parts of a TID made from a timestamp and a clock id are those two, truncated to their widths.
pub to_parts-from_parts :
    (micros clock_id : ℕ)
    → to_parts (from_parts micros clock_id) ≡ (micros % micros_end, clock_id % clock_ids)
unfolding to_parts
to_parts-from_parts micros clock_id =
    let e : dec 0 (encode (packed micros clock_id)) ≡ packed micros clock_id =
      dec-encode (packed micros clock_id) ∙ omega arith in
    rw
      (
        text-from_parts micros clock_id,
        foldl-dec 0 (encode (packed micros clock_id)) (rw e (omega arith)),
        e,
      )
      (λ i. (p i, q i))
  where
    p : packed micros clock_id / clock_ids ≡ micros % micros_end
    p = omega arith

    q : packed micros clock_id % clock_ids ≡ clock_id % clock_ids
    q = omega arith

pub dec_split : (acc : ℕ) (s : Str) → dec acc s ≡ acc * base (length s) + dec 0 s
unfolding dec
dec_split acc [] = omega arith
dec_split acc (c ∷ s) = omega (
  arith,
  dec_split (acc * 32 + digit c) s,
  dec_split (0 * 32 + digit c) s,
  base-suc (length s),
  ap (λ (t : ℕ). acc * t) (base-suc (length s)),
)

pub digit_bound : (d p r : ℕ) → d < 32 → r < p → d * p + r < p * 32
digit_bound d p r h k = grind arith

pub dec-lt : (s : Str) → all is_digit s ≡ true → dec 0 s < base (length s)
unfolding dec
dec-lt [] h = omega arith
dec-lt (c ∷ s) h = omega (
  arith,
  dec_split (0 * 32 + digit c) s,
  base-suc (length s),
  digit_bound (digit c) (base (length s)) (dec 0 s) (digit-lt c (ground arith))
      (dec-lt s (ground arith)),
)

div-base : (a r p : ℕ) → r < p → (a * p + r) / p ≡ a
div-base a r p h = mul-add-div_right (omega arith) a r ∙ omega (arith, div-eq_of_lt h)

pub encode_from-dec :
    (acc : ℕ) (s : Str) → all is_digit s ≡ true → encode_from (length s) (dec acc s) ≡ s
unfolding encode_from dec
encode_from-dec acc [] h = refl
encode_from-dec acc (c ∷ s) h = cc (encode_from-dec (acc * 32 + digit c) s hs, head)
  where
    hc : is_digit c ≡ true
    hc = ground arith

    hs : all is_digit s ≡ true
    hs = ground arith

    a : ℕ
    a = acc * 32 + digit c

    quotient : dec a s / base (length s) ≡ a
    quotient =
        ap (λ (t : ℕ). t / base (length s)) (dec_split a s)
        ∙ div-base a (dec 0 s) (base (length s)) (dec-lt s hs)

    head : digit_char (dec a s / base (length s) % 32) ≡ c
    head = ap digit_char (omega (arith, quotient, digit-lt c hc)) ∙ digit_char-digit c hc
