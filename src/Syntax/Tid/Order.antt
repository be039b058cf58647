-- ===== src/Syntax/Tid/Order.antt =====
-- TIDs sort, as text, in the order of their timestamps and then of their clock ids.
use manapds.Prelude.{
  Bool, Bool-cases, Str, [], all, arith, inl, inr, length, ltb, ltb→lt, lt→ltb, refl, sym, true, ℕ,
  ◌&&◌, ◌*◌, ◌+◌, ◌<◌, ◌==◌, ◌||◌, ◌∙◌, ◌∷◌, ◌≡◌,
}
use manapds.Prelude.Bytes.{str_lt}
use manapds.Prelude.Result.{ok}
use manapds.Syntax.Tid.{Tid, is_digit, digit, to_parts, parse}
use manapds.Syntax.Tid.Codec.{base, dec, dec_split, dec-lt}
use manapds.Syntax.Tid.Valid.{IsValid, parse-text, to_parts-dec}

-- One digit and what is below it, compared.
lex_lt : (x y p r q : ℕ) → x < y → r < p → x * p + r < y * p + q
lex_lt x y p r q h k = grind arith

ltb_lex :
    (x y p r q : ℕ) → r < p → q < p → ltb (x * p + r) (y * p + q) ≡ (ltb x y || (x == y && ltb r q))
ltb_lex x y p r q h k = elim (Bool-cases (ltb x y)) [
  | inl e ↦ rw (e, lt→ltb _ _ (lex_lt x y p r q (ltb→lt x y e) h))
  | inr e ↦ elim (Bool-cases (ltb y x)) [
    | inl e' ↦ ground (arith, lex_lt y x p q r (ltb→lt y x e') k)
    | inr e' ↦ let same : x ≡ y = ground arith in rw same (ground arith)
  ]
]

ltb-digit : (c d : ℕ) → is_digit c ≡ true → is_digit d ≡ true → ltb (digit c) (digit d) ≡ ltb c d
unfolding is_digit digit
ltb-digit c d h k = ground arith

eq-digit : (c d : ℕ) → is_digit c ≡ true → is_digit d ≡ true → (digit c == digit d) ≡ (c == d)
unfolding is_digit digit
eq-digit c d h k = ground arith

and_left : (a b : Bool) → (a && b) ≡ true → a ≡ true
and_left a b h = ground arith

and_right : (a b : Bool) → (a && b) ≡ true → b ≡ true
and_right a b h = ground arith

-- Between texts of one length over the 32 digits, the order of bytes is the order of values.
pub str_lt-dec :
    (s t : Str)
    → length s ≡ length t
    → all is_digit s ≡ true
    → all is_digit t ≡ true
    → str_lt s t ≡ ltb (dec 0 s) (dec 0 t)
unfolding dec
str_lt-dec [] [] e h k = refl
str_lt-dec [] (d ∷ t) e h k = absurd (omega arith)
str_lt-dec (c ∷ s) [] e h k = absurd (omega arith)
str_lt-dec (c ∷ s) (d ∷ t) e h k =
    let hs = and_right (is_digit c) (all is_digit s) h in
    let kt = and_right (is_digit d) (all is_digit t) k in
    let hc = and_left (is_digit c) (all is_digit s) h in
    let kd = and_left (is_digit d) (all is_digit t) k in
    let l : length s ≡ length t = omega arith in
    rw (dec_split (0 * 32 + digit c) s, dec_split (0 * 32 + digit d) t)
      (rw (← l) (
        rw
          (
            ltb_lex (0 * 32 + digit c) (0 * 32 + digit d) (base (length s)) (dec 0 s) (dec 0 t)
                (dec-lt s hs) (rw l (dec-lt t kt)),
            ← str_lt-dec s t l hs kt,
          )
          (ground (arith, ltb-digit c d hc kd, eq-digit c d hc kd))))

-- What a TID stands for: its timestamp, with the clock id behind it.
abbrev pub position : Tid → ℕ
position t = (to_parts t).0 * 1024 + (to_parts t).1

pub str_lt-IsValid :
    (a b : Tid)
    → IsValid a.text
    → IsValid b.text
    → str_lt a.text b.text ≡ ltb (position a) (position b)
str_lt-IsValid a b v w =
    rw (to_parts-dec a v, to_parts-dec b w)
      (str_lt-dec a.text b.text (v.len_ok ∙ sym w.len_ok) v.digits_ok w.digits_ok)

-- Of two TIDs that parsed, the one whose timestamp and clock id come first is the smaller text, and
-- only that one is.
pub str_lt-parse :
    (s t : Str) {a b : Tid}
    → parse s ≡ ok a
    → parse t ≡ ok b
    → str_lt s t ≡ ltb (position a) (position b)
str_lt-parse s t {a} {b} h k =
    let (e, v) = parse-text h in
    let (f, w) = parse-text k in rw (← e, ← f) (str_lt-IsValid a b (rw e v) (rw f w))
