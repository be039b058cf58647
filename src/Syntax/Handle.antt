-- ===== src/Syntax/Handle.antt =====
-- src/syntax/handle.rs: the validator of handles, and their lower-case form.
pub mod Case
use manapds.Prelude.{
  sym, ap, ◌≡◌, Bool, List, Str, [], all, if◌then◌else◌, length, ltb, map, not, ℕ, ◌+◌, ◌==◌, ◌||◌,
  ◌∷◌,
}
use manapds.Prelude.Bytes.{
  ends_with_byte, is_ascii_alphabetic, is_ascii_alphanumeric, is_ascii_uppercase, is_empty, split,
  starts_with_byte,
}
use manapds.Prelude.Result.{bind-ok, Result, ok, ◌>>=◌, ◌>>◌, fail_if}
use manapds.Syntax.{Error}

abbrev pub max_len : ℕ
max_len = 253

abbrev pub max_label_len : ℕ
max_label_len = 63

abbrev pub is_label_byte : ℕ → Bool
is_label_byte byte = is_ascii_alphanumeric byte || byte == b'-'

unfoldable pub validate_label : Str → Result Error (Unit {0})
validate_label label = do
  fail_if (is_empty label) (Error.handle "empty part")
  fail_if (ltb max_label_len (length label)) (Error.handle "part longer than 63 characters")
  fail_if (not (all is_label_byte label)) (Error.handle "disallowed character")
  fail_if (starts_with_byte (λ c. c == b'-') label || ends_with_byte b'-' label)
      (Error.handle "part starts or ends with a hyphen")
  ok tt

-- The loop over the labels: how many there are, and the last of them.
unfoldable pub validate_labels : ℕ → Str → List Str → Result Error (ℕ × Str)
validate_labels parts tld [] = ok (parts, tld)
validate_labels parts tld (label ∷ labels) = do
  validate_label label
  validate_labels (parts + 1) label labels

unfoldable pub validate : Str → Result Error (Unit {0})
validate input = do
  fail_if (ltb max_len (length input)) (Error.handle "longer than 253 characters")
  (parts, tld) ← validate_labels 0 [] (split b'.' input)
  fail_if (ltb parts 2) (Error.handle "not a domain name")
  fail_if (not (starts_with_byte is_ascii_alphabetic tld))
      (Error.handle "last part does not start with a letter")
  ok tt

pub record Handle : Type 0 where
  pub text : Str

unfoldable pub parse : Str → Result Error Handle
parse input = do validate input; ok (record { text = input })

-- `u8::to_ascii_lowercase`
abbrev pub lower : ℕ → ℕ
lower c = if is_ascii_uppercase c then c + 32 else c

unfoldable pub to_ascii_lowercase : Str → Str
to_ascii_lowercase s = map lower s

unfoldable pub normalize : Str → Result Error Handle
normalize input = parse (to_ascii_lowercase input)

pub parse-text :
    (input : Str) (it : Handle) → parse input ≡ ok it → (validate input ≡ ok tt) × (it.text ≡ input)
unfolding parse
parse-text input it h =
    let made : Handle = record { text = input } in
    let (_, valid, e) = bind-ok (validate input) (λ (_ : Unit {0}). ok made) h in
    let same : made ≡ it = cc e in (valid, sym (ap (λ (x : Handle). x.text) same))
