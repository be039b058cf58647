-- ===== src/Syntax/RecordKey/OfTid.antt =====
-- Every TID is a record key, so the keys that a clock mints may be used as they are.
use manapds.Prelude.{sym, ap, length, ◌≡◌, refl, ◌∷◌, [], Str, all, true, arith, ltb, false}
use manapds.Prelude.Bytes.{codes, str_eq}
use manapds.Prelude.Classes.{all-weaken}
use manapds.Prelude.Result.{bind-ok, ok}
use manapds.Syntax.Tid
use manapds.Syntax.Tid.{is_digit}
use manapds.Syntax.RecordKey.{validate, parse, is_allowed}

tid-bytes : (s : Str) → Tid.validate s ≡ ok tt → (length s ≡ 13) × (all is_digit s ≡ true)
unfolding Tid.validate
tid-bytes s h = ground (arith, h)

validate-tid : (s : Str) → length s ≡ 13 → all is_digit s ≡ true → validate s ≡ ok tt
unfolding validate is_digit is_allowed
validate-tid [] n h = absurd (omega arith)
validate-tid (a ∷ []) n h = absurd (omega arith)
validate-tid (a ∷ b ∷ []) n h = absurd (omega arith)
validate-tid (a ∷ b ∷ c ∷ s) n h =
    let allowed = all-weaken is_digit is_allowed (λ d e. ground (arith, e)) (a ∷ b ∷ c ∷ s) h in
    let short : ltb 512 (length (a ∷ b ∷ c ∷ s)) ≡ false = ground arith in
    let other : str_eq (a ∷ b ∷ c ∷ s) (codes ".") ≡ false = ground arith in
    let another : str_eq (a ∷ b ∷ c ∷ s) (codes "..") ≡ false = ground arith in
    rw (short, other, another, allowed) refl

-- The text of a TID that parsed parses as a record key, with that text.
parse-tid :
    (input : Str) (t : Tid.Tid)
    → Tid.parse input ≡ ok t
    → parse t.text ≡ ok (record { text = input })
unfolding Tid.parse parse
parse-tid input t h =
    let made : Tid.Tid = record { text = input } in
    let (_, valid, e) = bind-ok (Tid.validate input) (λ (_ : Unit {0}). ok made) h in
    let same : made ≡ t = cc e in
    let text_same : t.text ≡ input = sym (ap (λ (x : Tid.Tid). x.text) same) in
    let (n, digits) = tid-bytes input valid in rw (text_same, validate-tid input n digits) refl
