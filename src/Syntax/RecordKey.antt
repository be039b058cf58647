-- ===== src/Syntax/RecordKey.antt =====
-- src/syntax/record_key.rs: the validator of record keys.
pub mod OfTid
use manapds.Prelude.{sym, ap, ◌≡◌, Bool, Str, all, length, ltb, not, ℕ, ◌==◌, ◌||◌}
use manapds.Prelude.Bytes.{codes, is_ascii_alphanumeric, is_empty, str_eq}
use manapds.Prelude.Result.{bind-ok, Result, ok, ◌>>◌, fail_if}
use manapds.Syntax.{Error}

abbrev pub max_len : ℕ
max_len = 512

unfoldable pub is_allowed : ℕ → Bool
is_allowed byte =
    is_ascii_alphanumeric byte
    || byte == b'.'
    || byte == b'_'
    || byte == b'~'
    || byte == b':'
    || byte == b'-'

unfoldable pub validate : Str → Result Error (Unit {0})
validate input = do
  fail_if (is_empty input) (Error.record_key "empty")
  fail_if (ltb max_len (length input)) (Error.record_key "longer than 512 characters")
  fail_if (str_eq input (codes ".") || str_eq input (codes ".."))
      (Error.record_key "\".\" and \"..\" are reserved")
  fail_if (not (all is_allowed input)) (Error.record_key "disallowed character")
  ok tt

pub record RecordKey : Type 0 where
  pub text : Str

unfoldable pub parse : Str → Result Error RecordKey
parse input = do validate input; ok (record { text = input })

pub parse-text :
    (input : Str) (it : RecordKey)
    → parse input ≡ ok it
    → (validate input ≡ ok tt) × (it.text ≡ input)
unfolding parse
parse-text input it h =
    let made : RecordKey = record { text = input } in
    let (_, valid, e) = bind-ok (validate input) (λ (_ : Unit {0}). ok made) h in
    let same : made ≡ it = cc e in (valid, sym (ap (λ (x : RecordKey). x.text) same))
