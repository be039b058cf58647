-- ===== src/Syntax/Did.antt =====
-- src/syntax/did.rs: the validator of DIDs.
use manapds.Prelude.{
  sym, ap, ◌≡◌, Bool, Option, Str, all, length, ltb, none, not, some, ℕ, ◌==◌, ◌||◌,
}
use manapds.Prelude.Bytes.{
  codes, ends_with_byte, is_ascii_alphanumeric, is_ascii_lowercase, is_empty, split_once,
  strip_prefix,
}
use manapds.Prelude.Result.{bind-ok, Result, ok, err, ◌>>◌, fail_if}
use manapds.Syntax.{Error}

abbrev pub max_len : ℕ
max_len = 2048

unfoldable pub is_allowed : ℕ → Bool
is_allowed byte =
    is_ascii_alphanumeric byte
    || byte == b'.'
    || byte == b'_'
    || byte == b':'
    || byte == b'%'
    || byte == b'-'

-- The checks on what follows `did:`.
unfoldable pub validate_rest : Option (Str × Str) → Result Error (Unit {0})
validate_rest none = err (Error.did "no method-specific identifier")
validate_rest (some (method, id)) = do
  fail_if (is_empty method || not (all is_ascii_lowercase method))
      (Error.did "method is not lowercase letters")
  fail_if (is_empty id) (Error.did "empty method-specific identifier")
  fail_if (not (all is_allowed id)) (Error.did "disallowed character")
  fail_if (ends_with_byte b':' id || ends_with_byte b'%' id) (Error.did "ends with \":\" or \"%\"")
  ok tt

unfoldable pub validate : Str → Result Error (Unit {0})
validate input = do
  fail_if (ltb max_len (length input)) (Error.did "longer than 2048 characters")
  elim (strip_prefix (codes "did:") input) [
    | none ↦ err (Error.did "does not start with \"did:\"")
    | some rest ↦ validate_rest (split_once b':' rest)
  ]

pub record Did : Type 0 where
  pub text : Str

unfoldable pub parse : Str → Result Error Did
parse input = do validate input; ok (record { text = input })

pub parse-text :
    (input : Str) (it : Did) → parse input ≡ ok it → (validate input ≡ ok tt) × (it.text ≡ input)
unfolding parse
parse-text input it h =
    let made : Did = record { text = input } in
    let (_, valid, e) = bind-ok (validate input) (λ (_ : Unit {0}). ok made) h in
    let same : made ≡ it = cc e in (valid, sym (ap (λ (x : Did). x.text) same))
