-- ===== src/Repo/Mst/Path.antt =====
-- A collection and a record key, with a slash between them, are a key that the tree takes.
use mathlib.Core.Path.{subst}
use manapds.Prelude.{
  length-append, [], ◌≡◌, ◌∷◌, inl, inr, Str, ℕ, Bool, all, true, ◌||◌, Bool-cases, ◌==◌, List,
  arith, length, ◌++◌, All, leb, ◌≤◌, false, ltb, refl,
}
use manapds.Prelude.Bytes.{split, is_empty}
use manapds.Prelude.Split.{join-split, split-pair}
use manapds.Prelude.Classes.{all-weaken, all-append, all-join, all-contains}
use manapds.Prelude.Result.{ok, Result-cases}
use manapds.Syntax.Nsid
use manapds.Syntax.RecordKey
use manapds.Repo.Mst.Key.{ensure_valid_key, is_path_of, is_key_byte}

abbrev is_nsid_byte : ℕ → Bool
is_nsid_byte b = Nsid.is_segment_byte b || b == b'.'

validate_segment-bytes :
    (s : Str) → Nsid.validate_segment s ≡ ok tt → all Nsid.is_segment_byte s ≡ true
unfolding Nsid.validate_segment
validate_segment-bytes s h = ground (arith, h)

validate_segments-bytes :
    (parts : List Str) (scan end : Nsid.Scan)
    → Nsid.validate_segments scan parts ≡ ok end
    → All (λ part. all is_nsid_byte part ≡ true) parts
unfolding Nsid.validate_segments
validate_segments-bytes [] scan end h = tt
validate_segments-bytes (part ∷ parts) scan end h =
    elim (Result-cases (Nsid.validate_segment part)) [
      | inr refused ↦ absurd (cc (rw (refused.1) at h))
      | inl good ↦ (
        all-weaken Nsid.is_segment_byte is_nsid_byte (λ b e. rw e refl) part
            (validate_segment-bytes part (good.1)),
        validate_segments-bytes parts _ end (rw (good.1) at h),
      )
    ]

-- What a collection is made of, and how long it is.
nsid-bytes :
    (s : Str)
    → Nsid.validate s ≡ ok tt
    → (length s ≤ 317) × (is_empty s ≡ false) × (all is_nsid_byte s ≡ true)
unfolding Nsid.validate Nsid.validate_segments Nsid.validate_segment
nsid-bytes [] h = absurd (cc h)
nsid-bytes (c ∷ s) h = elim (Bool-cases (ltb 317 (length (c ∷ s)))) [
  | inl long ↦ absurd (cc (rw long at h))
  | inr short ↦
      elim (Result-cases (
        Nsid.validate_segments (record { segments = 0; first = []; name = [] })
          (split b'.' (c ∷ s)))) [
            | inr refused ↦ absurd (cc (rw (short, refused.1) at h))
            | inl scanned ↦
                let parts =
                  validate_segments-bytes (split b'.' (c ∷ s)) _ (scanned.0) (scanned.1) in
                (
                  ground arith,
                  refl,
                  subst (λ x. all is_nsid_byte x ≡ true) (join-split b'.' (c ∷ s))
                      (all-join is_nsid_byte b'.' (split b'.' (c ∷ s)) refl parts),
                )
          ]
]

record_key-bytes :
    (s : Str)
    → RecordKey.validate s ≡ ok tt
    → (length s ≤ 512) × (is_empty s ≡ false) × (all RecordKey.is_allowed s ≡ true)
unfolding RecordKey.validate
record_key-bytes s h = ground (arith, h)

-- The key of a write, which is a collection that parsed and a record key that parsed with a slash
-- between them, is a key that the tree takes: it is in the character set, in two parts, and not too
-- long.
pub ensure_valid_key-write :
    (collection rkey : Str) (n : Nsid.Nsid) (k : RecordKey.RecordKey)
    → Nsid.parse collection ≡ ok n
    → RecordKey.parse rkey ≡ ok k
    → ensure_valid_key (collection ++ b'/' ∷ rkey) ≡ ok tt
unfolding ensure_valid_key is_path_of is_key_byte RecordKey.is_allowed
ensure_valid_key-write collection rkey n k h1 h2 =
    let (nl, ne, nb) = nsid-bytes collection ((Nsid.parse-text collection n h1).0) in
    let (kl, ke, kb) = record_key-bytes rkey ((RecordKey.parse-text rkey k h2).0) in
    let no_slash = all-contains is_nsid_byte b'/' collection refl nb in
    let no_slash_key = all-contains RecordKey.is_allowed b'/' rkey refl kb in
    let p : ℕ → Bool = λ b. b == b'/' || is_key_byte b in
    let front = all-weaken is_nsid_byte p (λ b e. ground (arith, e)) collection nb in
    let back = all-weaken RecordKey.is_allowed p (λ b e. ground (arith, e)) rkey kb in
    let long : leb (length (collection ++ b'/' ∷ rkey)) 1024 ≡ true =
      rw (length-append collection (b'/' ∷ rkey)) (ground (arith, nl, kl)) in
    rw
      (
        split-pair b'/' collection rkey no_slash no_slash_key,
        long,
        ne,
        ke,
        all-append p collection (b'/' ∷ rkey) front back,
      )
      refl
