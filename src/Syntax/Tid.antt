-- ===== src/Syntax/Tid.antt =====
-- src/syntax/tid.rs: the validator, the base32-sortable encoding, and the clock that mints TIDs.
-- The wall clock is an argument: microseconds since the epoch, none before it.
pub mod Digits
pub mod Codec
pub mod Order
pub mod Mint
pub mod Valid
use mathlib.Core.List.{foldl}
use manapds.Prelude.{
  ℕ, zero, suc, ◌+◌, ◌-◌, ◌*◌, ◌/◌, ◌%◌, ◌^◌, min, max, Bool, not, ◌&&◌, ◌||◌, Option, none, some,
  [], ◌∷◌, all, length, get_elem?, ltb, leb, ◌==◌, if◌then◌else◌, Str,
}
use manapds.Prelude.Bytes.{codes, starts_with_byte}
use manapds.Prelude.Result.{Result, ok, ◌>>=◌, ◌>>◌, fail_if}
use manapds.Syntax.{Error}

abbrev pub len : ℕ
len = 13

abbrev pub micros_end : ℕ
micros_end = 2 ^ 53

abbrev pub clock_ids : ℕ
clock_ids = 2 ^ 10

unfoldable pub is_digit : ℕ → Bool
is_digit byte = leb b'2' byte && leb byte b'7' || leb b'a' byte && leb byte b'z'

-- The first digit is at most 15.
unfoldable pub is_first_digit : ℕ → Bool
is_first_digit byte = leb b'2' byte && leb byte b'7' || leb b'a' byte && leb byte b'j'

unfoldable pub validate : Str → Result Error (Unit {0})
validate input = do
  fail_if (not (length input == len)) (Error.tid "not 13 characters")
  fail_if (not (all is_digit input)) (Error.tid "character outside base32-sortable")
  fail_if (not (starts_with_byte is_first_digit input)) (Error.tid "high bit set")
  ok tt

pub record Tid : Type 0 where
  pub text : Str

unfoldable pub parse : Str → Result Error Tid
parse input = do validate input; ok (record { text = input })

unfoldable pub digit : ℕ → ℕ
digit byte = if leb b'2' byte && leb byte b'7' then byte - b'2' else byte - b'a' + 6

abbrev pub digits : Str
digits = codes "234567abcdefghijklmnopqrstuvwxyz"

abbrev or_zero : Option ℕ → ℕ
or_zero none = 0
or_zero (some c) = c

-- An index here is below 32, so the default is never read.
unfoldable pub digit_char : ℕ → ℕ
digit_char d = or_zero (get_elem? digits d)

-- The digits `k - 1` down to 0.
unfoldable pub encode_from : ℕ → ℕ → Str
encode_from zero value = []
encode_from (suc k) value = digit_char (value / 2 ^ (k * 5) % 32) ∷ encode_from k value

unfoldable pub encode : ℕ → Str
encode value = encode_from len value

-- The product and the sum are those of `u64`.
unfoldable pub from_parts : ℕ → ℕ → Tid
from_parts micros clock_id = record {
  text = encode ((micros % micros_end * clock_ids + clock_id % clock_ids) % 2 ^ 64);
}

unfoldable pub push_digit : ℕ → ℕ → ℕ
push_digit value byte = (value * 32 + digit byte) % 2 ^ 64

unfoldable pub to_parts : Tid → ℕ × ℕ
to_parts t = let value = foldl push_digit 0 t.text in (value / clock_ids, value % clock_ids)

pub record Clock : Type 0 where
  pub clock_id : ℕ
  pub last : ℕ

-- `now` as `mint` reads it: 0 before the epoch, and the most a `u64` holds past its range.
unfoldable pub now_micros : Option ℕ → ℕ
now_micros none = 0
now_micros (some micros) = if ltb micros (2 ^ 64) then micros else 2 ^ 64 - 1

unfoldable pub saturating_add64 : ℕ → ℕ → ℕ
saturating_add64 a b = min (a + b) (2 ^ 64 - 1)

unfoldable pub mint : Option ℕ → Clock → Clock × Tid
unfolding now_micros saturating_add64
mint wall c =
    let last : ℕ = min (max (now_micros wall) (saturating_add64 c.last 1)) (micros_end - 1) in
    (record c { last = last }, from_parts last c.clock_id)

some_tid : Clock × Tid → Clock × Option Tid
some_tid (c, t) = (c, some t)

-- The raised floor stays also where nothing is minted.
unfoldable pub mint_after : Option ℕ → Clock → Tid → Clock × Option Tid
unfolding some_tid
mint_after wall c previous =
    let raised : Clock = record c { last = max c.last (to_parts previous).0 } in
    if ltb raised.last (micros_end - 1) then some_tid (mint wall raised) else (raised, none)
