-- ===== src/Syntax/AtUri/Printed.antt =====
-- Printing an AT-URI gives back the text that it was parsed from.
use mathlib.Core.List.{append_assoc, append-nil}
use manapds.Prelude.{
  [], sym, ◌∙◌, refl, ◌∷◌, inl, inr, ap, Str, ◌≡◌, List, Option, Option-cases, some, ◌++◌, none,
  Bool-cases, ltb, ◌==◌, all, length,
}
use manapds.Prelude.Bytes.{
  contains, ends_with_byte, starts_with_byte, codes, split, split_once, strip_prefix,
}
use manapds.Prelude.Split.{strip_prefix-some, split_once-some, join, join-split}
use manapds.Prelude.Result.{Result-cases, ◌>>=◌, Result, ok, err, bind-ok}
use manapds.Syntax.{Error}
use manapds.Syntax.Did
use manapds.Syntax.Handle
use manapds.Syntax.Nsid
use manapds.Syntax.RecordKey
use manapds.Syntax.AtIdentifier
use manapds.Syntax.AtUri.{
  AtUri, max_len, is_allowed, is_pointer_byte, segments, written, map_err, optional, fragment_off,
  validate_fragment, validate_percent_encoding, parse_rest, parse, to_string,
}

as_str-parse :
    (input : Str) (a : AtIdentifier.AtIdentifier)
    → AtIdentifier.parse input ≡ ok a
    → AtIdentifier.as_str a ≡ input
unfolding AtIdentifier.parse
as_str-parse input a h = elim (Option-cases (strip_prefix (codes "did:") input)) [
  | inl none_at ↦
      let (x, made, e) =
        bind-ok (Handle.parse input) (λ (h : Handle.Handle). ok (AtIdentifier.handle h))
          (rw none_at at h) in
      let same : AtIdentifier.handle x ≡ a = cc e in
      rw (← same) ((Handle.parse-text input x made).1)
  | inr some_at ↦
      let (x, made, e) =
        bind-ok (Did.parse input) (λ (d : Did.Did). ok (AtIdentifier.did d))
          (rw (some_at.1) at h) in
      let same : AtIdentifier.did x ≡ a = cc e in rw (← same) ((Did.parse-text input x made).1)
]

map_err-ok {ℓ} :
    {A : Type ℓ} (e : Error) (m : Result Error A) (a : A) → map_err e m ≡ ok a → m ≡ ok a
map_err-ok e (ok b) a h = h
map_err-ok e (err x) a h = absurd (cc h)

abbrev part_of : Str → Option Str → Str
part_of mark = written mark (λ s. s)

-- A piece that parsed prints as it stood.
written-optional :
    {A : Type 0} (read : Str → Result Error A) (text : A → Str)
    (law : (s : Str) (a : A) → read s ≡ ok a → text a ≡ s) (mark : Str) (o : Option Str)
    (r : Option A)
    → optional read o ≡ ok r
    → written mark text r ≡ part_of mark o
written-optional read text law mark none r h = let same : none ≡ r = cc h in rw (← same) refl
written-optional {A = A} read text law mark (some s) r h =
    let (a, made, e) = bind-ok (read s) (λ (a : A). ok (some a)) h in
    let same : some a ≡ r = cc e in rw (← same) (ap (◌++◌ mark) (law s a made))

segments-join :
    (parts : List Str) (a : Str) (c k : Option Str)
    → segments parts ≡ ok (a, c, k)
    → a ++ (part_of (codes "/") c ++ part_of (codes "/") k) ≡ join b'/' parts
segments-join [] a c k h =
    let first : [] ≡ a = cc h in
    let second : none ≡ c = cc h in
    let third : none ≡ k = cc h in rw (← first, ← second, ← third) refl
segments-join (x ∷ []) a c k h =
    let first : x ≡ a = cc h in
    let second : none ≡ c = cc h in
    let third : none ≡ k = cc h in rw (← first, ← second, ← third) (append-nil x)
segments-join (x ∷ y ∷ []) a c k h =
    let first : x ≡ a = cc h in
    let second : some y ≡ c = cc h in
    let third : none ≡ k = cc h in
    rw (← first, ← second, ← third) (ap (λ s. x ++ b'/' ∷ s) (append-nil y))
segments-join (x ∷ y ∷ z ∷ []) a c k h =
    let first : x ≡ a = cc h in
    let second : some y ≡ c = cc h in
    let third : some z ≡ k = cc h in rw (← first, ← second, ← third) refl
segments-join (x ∷ y ∷ z ∷ w ∷ parts) a c k h = absurd (cc h)

fragment_off-whole :
    (rest front : Str) (fragment : Option Str)
    → fragment_off rest (split_once b'#' rest) ≡ (front, fragment)
    → front ++ part_of (codes "#") fragment ≡ rest
fragment_off-whole rest front fragment h = elim (Option-cases (split_once b'#' rest)) [
  | inl none_at ↦
      let here : Path (Str × Option Str) (rest, none) (front, fragment) = rw none_at at h in
      let first : rest ≡ front = cc here in
      let second : none ≡ fragment = cc here in rw (← first, ← second) (append-nil rest)
  | inr found ↦
      let ((a, b), at) = found in
      let here : Path (Str × Option Str) (a, some b) (front, fragment) = rw at at h in
      let first : a ≡ front = cc here in
      let second : some b ≡ fragment = cc here in
      rw (← first, ← second) (sym (split_once-some b'#' rest a b at))
]

-- The steps of `parse` once the text is in pieces.
abbrev assemble : Str → Option Str → Option Str → Option Str → Result Error AtUri
assemble a c k fragment = do
  authority ← map_err (Error.at_uri "authority is not a DID or a handle") (AtIdentifier.parse a)
  collection ← map_err (Error.at_uri "collection is not an NSID") (optional Nsid.parse c)
  rkey ← map_err (Error.at_uri "not a record key") (optional RecordKey.parse k)
  fragment ← optional validate_fragment fragment
  ok (record { authority = authority; collection = collection; rkey = rkey; fragment = fragment })

validate_fragment-same : (s a : Str) → validate_fragment s ≡ ok a → a ≡ s
unfolding validate_fragment
validate_fragment-same s a h = elim (Bool-cases (starts_with_byte (λ c. c == b'/') s)) [
  | inr no_slash ↦ absurd (cc (rw no_slash at h))
  | inl slash ↦ elim (Bool-cases (all is_pointer_byte s)) [
    | inr disallowed ↦ absurd (cc (rw (slash, disallowed) at h))
    | inl allowed ↦ elim (Result-cases (validate_percent_encoding s)) [
      | inr refused ↦ absurd (cc (rw (slash, allowed, refused.1) at h))
      | inl good ↦ let same : s ≡ a = cc (rw (slash, allowed, good.1) at h) in sym same
    ]
  ]
]

pieces-printed :
    (front a : Str) (c k fragment : Option Str) (uri : AtUri)
    → a ++ (part_of (codes "/") c ++ part_of (codes "/") k) ≡ front
    → assemble a c k fragment ≡ ok uri
    → to_string uri ≡ codes "at://" ++ (front ++ part_of (codes "#") fragment)
unfolding to_string
pieces-printed front a c k fragment uri whole h = elim (Result-cases (AtIdentifier.parse a)) [
  | inr refused ↦ absurd (cc (rw (refused.1) at h))
  | inl authority ↦ elim (Result-cases (optional Nsid.parse c)) [
    | inr refused ↦ absurd (cc (rw (authority.1, refused.1) at h))
    | inl collection ↦ elim (Result-cases (optional RecordKey.parse k)) [
      | inr refused ↦ absurd (cc (rw (authority.1, collection.1, refused.1) at h))
      | inl rkey ↦ elim (Result-cases (optional validate_fragment fragment)) [
        | inr refused ↦ absurd (cc (rw (authority.1, collection.1, rkey.1, refused.1) at h))
        | inl pointer ↦
            let made : AtUri = record {
              authority = authority.0;
              collection = collection.0;
              rkey = rkey.0;
              fragment = pointer.0;
            } in
            let same : made ≡ uri = cc (rw (authority.1, collection.1, rkey.1, pointer.1) at h) in
            let front_same = as_str-parse a authority.0 authority.1 in
            let collection_same =
              written-optional Nsid.parse (λ n. n.text) (λ s n e. (Nsid.parse-text s n e).1)
                (codes "/") c collection.0 collection.1 in
            let rkey_same =
              written-optional RecordKey.parse (λ n. n.text)
                (λ s n e. (RecordKey.parse-text s n e).1) (codes "/") k rkey.0 rkey.1 in
            let pointer_same =
              written-optional validate_fragment (λ s. s) validate_fragment-same (codes "#")
                fragment pointer.0 pointer.1 in
            rw (← same) (
              rw (front_same, collection_same, rkey_same, pointer_same, ← whole)
                (ap (◌++◌ (codes "at://")) (
                  ap (◌++◌ a) (
                    sym (
                      append_assoc (part_of (codes "/") c) (part_of (codes "/") k)
                        (part_of (codes "#") fragment)))
                  ∙ sym (
                      append_assoc a (part_of (codes "/") c ++ part_of (codes "/") k)
                        (part_of (codes "#") fragment)))))
      ]
    ]
  ]
]

parse_rest-printed :
    (front : Str) (fragment : Option Str) (uri : AtUri)
    → parse_rest (front, fragment) ≡ ok uri
    → to_string uri ≡ codes "at://" ++ (front ++ part_of (codes "#") fragment)
unfolding parse_rest to_string
parse_rest-printed front fragment uri h = elim (Bool-cases (contains b'?' front)) [
  | inl query ↦ absurd (cc (rw query at h))
  | inr no_query ↦ elim (Bool-cases (ends_with_byte b'/' front)) [
    | inl trailing ↦ absurd (cc (rw (no_query, trailing) at h))
    | inr none_trailing ↦ elim (Result-cases (segments (split b'/' front))) [
      | inr refused ↦ absurd (cc (rw (no_query, none_trailing, refused.1) at h))
      | inl parts ↦
          let ((a, c, k), apart) = parts in
          let whole = segments-join (split b'/' front) a c k apart ∙ join-split b'/' front in
          pieces-printed front a c k fragment uri whole (rw (no_query, none_trailing, apart) at h)
    ]
  ]
]

-- Parsing and printing are inverse: an AT-URI that was parsed prints as the text that it was parsed from.
pub to_string-parse : (input : Str) (uri : AtUri) → parse input ≡ ok uri → to_string uri ≡ input
unfolding parse
to_string-parse input uri h = elim (Bool-cases (ltb max_len (length input))) [
  | inl long ↦ absurd (cc (rw long at h))
  | inr short ↦ elim (Bool-cases (all is_allowed input)) [
    | inr disallowed ↦ absurd (cc (rw (short, disallowed) at h))
    | inl allowed ↦ elim (Option-cases (strip_prefix (codes "at://") input)) [
      | inl none_at ↦ absurd (cc (rw (short, allowed, none_at) at h))
      | inr found ↦
          let (rest, at) = found in
          let off = fragment_off rest (split_once b'#' rest) in
          parse_rest-printed off.0 off.1 uri (rw (short, allowed, at) at h)
          ∙ ap (◌++◌ (codes "at://")) (fragment_off-whole rest off.0 off.1 refl)
          ∙ sym (strip_prefix-some (codes "at://") input rest at)
    ]
  ]
]
