-- ===== src/Syntax/Tid/Valid.antt =====
-- What `from_parts` makes is a TID by the validator, and a parsed TID is made from its parts.
use manapds.Prelude.{
  Str, [], all, ap, arith, length, true, ℕ, ◌%◌, ◌*◌, ◌+◌, ◌/◌, ◌<◌, ◌^◌, ◌∙◌, ◌∷◌, ◌≡◌,
}
use mathlib.Core.Path.{subst}
use manapds.Prelude.Bytes.{starts_with_byte}
use manapds.Prelude.Result.{bind-ok, ok}
use manapds.Syntax.Tid.{
  Tid, is_digit, is_first_digit, digit, validate, parse, from_parts, to_parts, encode, encode_from,
  micros_end,
}
use manapds.Syntax.Tid.Digits.{is_first_digit-digit_char, first_digit-lt}
use manapds.Syntax.Tid.Codec.{
  base, dec, dec_split, dec-lt, foldl-dec, packed, text-from_parts, length-encode_from,
  all-encode_from, encode_from-dec,
}

-- The three rules of `validate`.
pub record IsValid (s : Str) : Type 0 where
  pub len_ok : length s ≡ 13
  pub digits_ok : all is_digit s ≡ true
  pub first_ok : starts_with_byte is_first_digit s ≡ true

pub validate-IsValid : (s : Str) → validate s ≡ ok tt → IsValid s
unfolding validate
validate-IsValid s h = record {
  len_ok = ground arith;
  digits_ok = ground arith;
  first_ok = ground arith;
}

pub IsValid-validate : (s : Str) → IsValid s → validate s ≡ ok tt
unfolding validate
IsValid-validate s v = rw (v.len_ok, v.digits_ok, v.first_ok)

pub parse-text : {s : Str} {t : Tid} → parse s ≡ ok t → (t.text ≡ s) × IsValid s
unfolding parse
parse-text {s} {t} h =
    let (_, v, e) = bind-ok (validate s) (λ _. ok (record { text = s })) h in
    (cc e, validate-IsValid s v)

encode-IsValid : (v : ℕ) → v < 2 ^ 63 → IsValid (encode v)
unfolding encode
encode-IsValid v h = record {
  len_ok = length-encode_from 13 v;
  digits_ok = all-encode_from 13 v;
  first_ok = first v h;
}
  where
    first : (v : ℕ) → v < 2 ^ 63 → starts_with_byte is_first_digit (encode_from 13 v) ≡ true
    first v h = unfold encode_from in is_first_digit-digit_char (v / 2 ^ 60 % 32) (omega arith)

-- Whatever the two numbers, the TID made from them parses.
pub parse-from_parts :
    (micros clock_id : ℕ)
    → parse (from_parts micros clock_id).text ≡ ok (from_parts micros clock_id)
unfolding parse
parse-from_parts micros clock_id = rw (
  text-from_parts micros clock_id,
  IsValid-validate (encode (packed micros clock_id))
      (encode-IsValid (packed micros clock_id) (omega arith)),
)

-- The value of a TID that parsed is a `u64`.
pub dec-lt_two_pow : (s : Str) → IsValid s → dec 0 s < 2 ^ 64
unfolding dec
dec-lt_two_pow [] v = omega arith
dec-lt_two_pow (c ∷ s) v =
    let e : length s ≡ 12 = omega (arith, v.len_ok) in
    let p : base (length s) ≡ 2 ^ 60 = ap base e in
    omega (
      arith,
      p,
      dec_split (0 * 32 + digit c) s,
      ap (λ (t : ℕ). digit c * t) p,
      dec-lt s (ground (arith, v.digits_ok)),
      first_digit-lt c v.first_ok,
    )

pub to_parts-dec :
    (t : Tid) → IsValid t.text → (to_parts t).0 * 1024 + (to_parts t).1 ≡ dec 0 t.text
unfolding to_parts
to_parts-dec t v = rw (foldl-dec 0 t.text (dec-lt_two_pow t.text v)) (omega arith)

encode-dec : (s : Str) → IsValid s → encode (dec 0 s) ≡ s
unfolding encode
encode-dec s v =
    subst (λ (n : ℕ). encode_from n (dec 0 s) ≡ s) v.len_ok (encode_from-dec 0 s v.digits_ok)

pub to_parts_lt : (t : Tid) → (to_parts t).1 < 1024
unfolding to_parts
to_parts_lt t = omega arith

-- A TID that parses, with a timestamp inside its 53 bits, is the one made from its parts.
pub from_parts-to_parts :
    (s : Str) {t : Tid}
    → parse s ≡ ok t
    → (to_parts t).0 < micros_end
    → from_parts (to_parts t).0 (to_parts t).1 ≡ t
from_parts-to_parts s {t} h small = λ i. record { text = whole i }
  where
    v : IsValid t.text
    v = let (e, v) = parse-text h in rw e v

    whole : (from_parts (to_parts t).0 (to_parts t).1).text ≡ t.text
    whole =
        text-from_parts (to_parts t).0 (to_parts t).1
        ∙ ap encode (omega (arith, to_parts-dec t v, to_parts_lt t))
        ∙ encode-dec t.text v
