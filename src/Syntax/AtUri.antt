-- ===== src/Syntax/AtUri.antt =====
-- src/syntax/at_uri.rs: AT-URIs, parsed into their pieces and printed again.
pub mod Printed
use manapds.Prelude.{
  Bool, List, Option, Str, [], all, if◌then◌else◌, leb, length, ltb, none, not, some, ℕ, ◌%◌, ◌&&◌,
  ◌*◌, ◌++◌, ◌+◌, ◌-◌, ◌/◌, ◌==◌, ◌||◌, ◌∷◌,
}
use manapds.Prelude.Bytes.{
  codes, contains, ends_with_byte, is_ascii_alphanumeric, is_utf8, split, split_once,
  starts_with_byte, strip_prefix,
}
use manapds.Prelude.Result.{Result, ok, err, ◌>>=◌, ◌>>◌, fail_if}
use manapds.Syntax.{Error}
use manapds.Syntax.AtIdentifier
use manapds.Syntax.Nsid
use manapds.Syntax.RecordKey

abbrev pub max_len : ℕ
max_len = 8192

pub record AtUri : Type 0 where
  pub authority : AtIdentifier.AtIdentifier
  pub collection : Option Nsid.Nsid
  pub rkey : Option RecordKey.RecordKey
  pub fragment : Option Str

abbrev written {ℓ} : {A : Type ℓ} → Str → (A → Str) → Option A → Str
written mark text none = []
written mark text (some a) = mark ++ text a

-- `Display`
unfoldable pub to_string : AtUri → Str
to_string uri =
    codes "at://"
    ++ (AtIdentifier.as_str uri.authority
        ++ (written (codes "/") (λ (n : Nsid.Nsid). n.text) uri.collection
            ++ (written (codes "/") (λ (k : RecordKey.RecordKey). k.text) uri.rkey
                ++ written (codes "#") (λ s. s) uri.fragment)))

unfoldable pub is_pointer_byte : ℕ → Bool
is_pointer_byte byte = is_ascii_alphanumeric byte || contains byte (codes "._~:@!$&'()*+,;=%/[]-")

unfoldable pub is_allowed : ℕ → Bool
is_allowed byte = is_pointer_byte byte || byte == b'#' || byte == b'?' || byte == b'\\'

unfoldable pub hex : ℕ → Option ℕ
hex byte =
    if leb b'0' byte && leb byte b'9'
    then some (byte - b'0')
    else if leb b'a' byte && leb byte b'f'
    then some (byte - b'a' + 10)
    else if leb b'A' byte && leb byte b'F'
    then some (byte - b'A' + 10)
    else none

abbrev push : ℕ → Result Error Str → Result Error Str
push byte rest = do decoded ← rest; ok (byte ∷ decoded)

-- The value of the two digits; `high` is under 16, so the shift loses nothing.
abbrev push_escape : Option ℕ → Option ℕ → Result Error Str → Result Error Str
push_escape (some high) (some low) rest = push (high * 16 + low) rest
push_escape _ _ rest = err (Error.at_uri "escape is not two hex digits")

abbrev truncated : Result Error Str
truncated = err (Error.at_uri "truncated escape in the fragment")

-- The loop that decodes the escapes.
unfoldable pub decode : Str → Result Error Str
decode [] = ok []
decode (b ∷ []) = if b == b'%' then truncated else ok (b ∷ [])
decode (b ∷ h ∷ []) = let rest = decode (h ∷ []) in if b == b'%' then truncated else push b rest
decode (b ∷ h ∷ l ∷ s) =
    let behind = decode s in
    let rest = decode (h ∷ l ∷ s) in
    if b == b'%' then push_escape (hex h) (hex l) behind else push b rest

unfoldable pub validate_percent_encoding : Str → Result Error (Unit {0})
validate_percent_encoding fragment = do
  decoded ← decode fragment
  fail_if (not (is_utf8 decoded)) (Error.at_uri "escapes in the fragment do not spell text")

unfoldable pub validate_fragment : Str → Result Error Str
validate_fragment fragment = do
  fail_if (not (starts_with_byte (λ c. c == b'/') fragment))
      (Error.at_uri "fragment is not a JSON pointer")
  fail_if (not (all is_pointer_byte fragment)) (Error.at_uri "disallowed character in the fragment")
  validate_percent_encoding fragment
  ok fragment

-- What the four calls of `next` take from the segments.
abbrev pub segments : List Str → Result Error (Str × Option Str × Option Str)
segments [] = ok ([], none, none)
segments (authority ∷ []) = ok (authority, none, none)
segments (authority ∷ collection ∷ []) = ok (authority, some collection, none)
segments (authority ∷ collection ∷ rkey ∷ []) = ok (authority, some collection, some rkey)
segments (_ ∷ _ ∷ _ ∷ _ ∷ _) = err (Error.at_uri "more than two path segments")

-- `map_err`
abbrev pub map_err {ℓ} : {A : Type ℓ} → Error → Result Error A → Result Error A
map_err e (ok a) = ok a
map_err e (err _) = err e

-- `map(…).transpose()`
abbrev pub optional {ℓ} :
    {A : Type ℓ} → (Str → Result Error A) → Option Str → Result Error (Option A)
optional parse none = ok none
optional parse (some s) = do a ← parse s; ok (some a)

abbrev pub fragment_off : Str → Option (Str × Str) → Str × Option Str
fragment_off rest none = (rest, none)
fragment_off rest (some (front, fragment)) = (front, some fragment)

unfoldable pub parse_rest : Str × Option Str → Result Error AtUri
parse_rest (rest, fragment) = do
  fail_if (contains b'?' rest) (Error.at_uri "query strings do not address anything")
  fail_if (ends_with_byte b'/' rest) (Error.at_uri "trailing slash")
  (authority, collection, rkey) ← segments (split b'/' rest)
  authority ←
      map_err (Error.at_uri "authority is not a DID or a handle") (AtIdentifier.parse authority)
  collection ← map_err (Error.at_uri "collection is not an NSID") (optional Nsid.parse collection)
  rkey ← map_err (Error.at_uri "not a record key") (optional RecordKey.parse rkey)
  fragment ← optional validate_fragment fragment
  ok (record { authority = authority; collection = collection; rkey = rkey; fragment = fragment })

unfoldable pub parse : Str → Result Error AtUri
parse input = do
  fail_if (ltb max_len (length input)) (Error.at_uri "longer than 8192 characters")
  fail_if (not (all is_allowed input)) (Error.at_uri "disallowed character")
  elim (strip_prefix (codes "at://") input) [
    | none ↦ err (Error.at_uri "does not start with \"at://\"")
    | some rest ↦ parse_rest (fragment_off rest (split_once b'#' rest))
  ]
