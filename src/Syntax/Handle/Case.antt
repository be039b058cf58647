-- ===== src/Syntax/Handle/Case.antt =====
-- A handle in either case is a handle, and its lower-case form is one form of it.
use mathlib.Core.Path.{ap₂}
use manapds.Prelude.{
  length, ◌≡◌, refl, ◌∷◌, [], false, true, List, Str, ℕ, all, arith, map, ◌==◌, ap, if◌then◌else◌,
  inl, not, inr, suc, ◌+◌, ◌∙◌, sym,
}
use manapds.Prelude.Bytes.{
  is_empty, is_ascii_alphabetic, is_ascii_uppercase, starts_with_byte, ends_with_byte, split,
  prepend_to_head,
}
use manapds.Prelude.Result.{Result-cases, Result, ok, ◌>>=◌}
use manapds.Syntax.{Error}
use manapds.Syntax.Handle.{
  Handle, lower, is_label_byte, validate_label, validate_labels, validate, parse, normalize,
  to_ascii_lowercase, parse-text,
}

lower-lower : (c : ℕ) → lower (lower c) ≡ lower c
lower-lower c = ground arith

lower-eq : (c : ℕ) → (lower c == b'.') ≡ (c == b'.')
lower-eq c = ground arith

lower-hyphen : (c : ℕ) → (lower c == b'-') ≡ (c == b'-')
lower-hyphen c = ground arith

lower-label_byte : (c : ℕ) → is_label_byte (lower c) ≡ is_label_byte c
lower-label_byte c = ground arith

lower-alphabetic : (c : ℕ) → is_ascii_alphabetic (lower c) ≡ is_ascii_alphabetic c
lower-alphabetic c = ground arith

lower_is_not_upper : (c : ℕ) → is_ascii_uppercase (lower c) ≡ false
lower_is_not_upper c = ground arith

map-lower-twice : (s : Str) → map lower (map lower s) ≡ map lower s
map-lower-twice [] = refl
map-lower-twice (c ∷ s) = ap₂ (λ x xs. x ∷ xs) (lower-lower c) (map-lower-twice s)

length-lower : (s : Str) → length (map lower s) ≡ length s
length-lower [] = refl
length-lower (c ∷ s) = ap (λ (n : ℕ). suc n) (length-lower s)

all-lower : (s : Str) → all is_label_byte (map lower s) ≡ all is_label_byte s
all-lower [] = refl
all-lower (c ∷ s) = rw (lower-label_byte c, all-lower s) refl

ends-lower : (s : Str) → ends_with_byte b'-' (map lower s) ≡ ends_with_byte b'-' s
ends-lower [] = refl
ends-lower (c ∷ []) = lower-hyphen c
ends-lower (c ∷ d ∷ s) = ends-lower (d ∷ s)

starts-lower :
    (s : Str)
    → starts_with_byte (λ c. c == b'-') (map lower s) ≡ starts_with_byte (λ c. c == b'-') s
starts-lower [] = refl
starts-lower (c ∷ s) = lower-hyphen c

starts-lower_alphabetic :
    (s : Str)
    → starts_with_byte is_ascii_alphabetic (map lower s) ≡ starts_with_byte is_ascii_alphabetic s
starts-lower_alphabetic [] = refl
starts-lower_alphabetic (c ∷ s) = lower-alphabetic c

is_empty-lower : (s : Str) → is_empty (map lower s) ≡ is_empty s
is_empty-lower [] = refl
is_empty-lower (c ∷ s) = refl

prepend-lower :
    (c : ℕ) (ps : List Str)
    → prepend_to_head (lower c) (map (map lower) ps) ≡ map (map lower) (prepend_to_head c ps)
prepend-lower c [] = refl
prepend-lower c (p ∷ ps) = refl

split-lower : (s : Str) → split b'.' (map lower s) ≡ map (map lower) (split b'.' s)
split-lower [] = refl
split-lower (c ∷ s) =
    rw (lower-eq c, split-lower s)
      (elim (c == b'.')
        as (λ b.
          (if b
            then [] ∷ map (map lower) (split b'.' s)
            else prepend_to_head (lower c) (map (map lower) (split b'.' s)))
          ≡ map (map lower) (if b then [] ∷ split b'.' s else prepend_to_head c (split b'.' s))) [
            | true ↦ refl
            | false ↦ prepend-lower c (split b'.' s)
          ])

validate_label-lower : (s : Str) → validate_label (map lower s) ≡ validate_label s
unfolding validate_label
validate_label-lower s =
    rw (is_empty-lower s, length-lower s, all-lower s, starts-lower s, ends-lower s) refl

-- What the loop gives, with the last label in lower case.
abbrev lowered : Result Error (ℕ × Str) → Result Error (ℕ × Str)
lowered r = do (parts, tld) ← r; ok (parts, map lower tld)

validate_labels-lower :
    (labels : List Str) (parts : ℕ) (tld : Str)
    → validate_labels parts (map lower tld) (map (map lower) labels)
      ≡ lowered (validate_labels parts tld labels)
unfolding validate_labels
validate_labels-lower [] parts tld = refl
validate_labels-lower (label ∷ labels) parts tld =
    rw (validate_label-lower label) (elim (Result-cases (validate_label label)) [
      | inl good ↦ rw (good.1) (validate_labels-lower labels (parts + 1) label)
      | inr bad ↦ rw (bad.1) refl
    ])

-- The case of letters plays no part in what is a handle: a text and its lower-case form are both
-- accepted, or both refused with the same error.
validate-lower : (s : Str) → validate (to_ascii_lowercase s) ≡ validate s
unfolding validate to_ascii_lowercase
validate-lower s =
    rw (length-lower s, split-lower s, validate_labels-lower (split b'.' s) 0 [])
      (elim (Result-cases (validate_labels 0 [] (split b'.' s))) [
        | inl good ↦ rw (good.1, starts-lower_alphabetic (good.0.1)) refl
        | inr bad ↦ rw (bad.1) refl
      ])

-- Normalizing takes every text that parses as a handle. It gives the handle's lower-case form,
-- without a capital letter, which normalizing leaves as it is.
normalize-parse :
    (input : Str) (handle : Handle)
    → parse input ≡ ok handle
    → (normal : Handle) × (normalize input ≡ ok normal)
      × (normal.text ≡ to_ascii_lowercase handle.text)
      × (all (λ c. not (is_ascii_uppercase c)) normal.text ≡ true)
      × (normalize normal.text ≡ ok normal)
unfolding normalize parse to_ascii_lowercase
normalize-parse input handle h =
    let (valid, same) = parse-text input handle h in
    let normal_valid = validate-lower input ∙ valid in
    (
      record { text = map lower input },
      rw normal_valid refl,
      ap (map lower) (sym same),
      no_upper input,
      rw (map-lower-twice input, normal_valid) refl,
    )
  where
    no_upper : (s : Str) → all (λ c. not (is_ascii_uppercase c)) (map lower s) ≡ true
    no_upper [] = refl
    no_upper (c ∷ s) = rw (lower_is_not_upper c) (no_upper s)
