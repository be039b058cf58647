-- ===== src/Syntax/Nsid.antt =====
-- src/syntax/nsid.rs: the validator of NSIDs.
use manapds.Prelude.{
  sym, ap, ◌≡◌, Bool, List, Str, [], all, if◌then◌else◌, length, ltb, not, ℕ, ◌+◌, ◌==◌, ◌||◌, ◌∷◌,
}
use manapds.Prelude.Bytes.{
  contains, ends_with_byte, is_ascii_alphanumeric, is_ascii_digit, is_empty, split,
  starts_with_byte,
}
use manapds.Prelude.Result.{bind-ok, Result, ok, ◌>>=◌, ◌>>◌, fail_if}
use manapds.Syntax.{Error}

abbrev pub max_len : ℕ
max_len = 253 + 1 + 63

abbrev pub max_segment_len : ℕ
max_segment_len = 63

abbrev pub is_segment_byte : ℕ → Bool
is_segment_byte byte = is_ascii_alphanumeric byte || byte == b'-'

unfoldable pub validate_segment : Str → Result Error (Unit {0})
validate_segment segment = do
  fail_if (is_empty segment) (Error.nsid "empty part")
  fail_if (ltb max_segment_len (length segment)) (Error.nsid "part longer than 63 characters")
  fail_if (not (all is_segment_byte segment)) (Error.nsid "disallowed character")
  fail_if (starts_with_byte (λ c. c == b'-') segment || ends_with_byte b'-' segment)
      (Error.nsid "part starts or ends with a hyphen")
  ok tt

-- What the loop over the segments has: how many there were, the first and the last.
pub record Scan : Type 0 where
  pub segments : ℕ
  pub first : Str
  pub name : Str

unfoldable pub validate_segments : Scan → List Str → Result Error Scan
validate_segments scan [] = ok scan
validate_segments scan (segment ∷ rest) = do
  validate_segment segment
  validate_segments
      (record {
        segments = scan.segments + 1;
        first = if scan.segments == 0 then segment else scan.first;
        name = segment;
      })
      rest

unfoldable pub validate : Str → Result Error (Unit {0})
validate input = do
  fail_if (ltb max_len (length input)) (Error.nsid "longer than 317 characters")
  scan ← validate_segments (record { segments = 0; first = []; name = [] }) (split b'.' input)
  fail_if (ltb scan.segments 3) (Error.nsid "fewer than three parts")
  fail_if (starts_with_byte is_ascii_digit scan.first) (Error.nsid "authority starts with a digit")
  fail_if (starts_with_byte is_ascii_digit scan.name || contains b'-' scan.name)
      (Error.nsid "name is not a letter followed by letters and digits")
  ok tt

pub record Nsid : Type 0 where
  pub text : Str

unfoldable pub parse : Str → Result Error Nsid
parse input = do validate input; ok (record { text = input })

pub parse-text :
    (input : Str) (it : Nsid) → parse input ≡ ok it → (validate input ≡ ok tt) × (it.text ≡ input)
unfolding parse
parse-text input it h =
    let made : Nsid = record { text = input } in
    let (_, valid, e) = bind-ok (validate input) (λ (_ : Unit {0}). ok made) h in
    let same : made ≡ it = cc e in (valid, sym (ap (λ (x : Nsid). x.text) same))
