-- ===== src/Repo/Car/Trip.antt =====
-- A file that was written reads back as the blocks that were written.
use manapds.Prelude.{
  All, Bool-cases, List, Str, [], ap, arith, drop-append, false, inl, inr, leb, length,
  length-append, refl, some, suc, sym, take-append, true, zero, ℕ, ◌++◌, ◌+◌, ◌<◌, ◌^◌, ◌∙◌, ◌∷◌,
  ◌≡◌, ◌≤◌,
}
use mathlib.Core.List.{append_assoc, append-nil}
use manapds.Prelude.Eq.{Str_eq}
use manapds.Prelude.Bytes.{is_empty}
use manapds.Prelude.Map.{
  contains_key-lookup, lookup-contains_key, contains_key, lookup, insert, Distinct,
}
use manapds.Prelude.Result.{ok-ok, ok}
use manapds.Repo.{Cid}
use manapds.Repo.Block.{BlockMap}
use manapds.Repo.Car.Order.{lookup-in_order, in_order-Distinct, All-in_order}
use manapds.Repo.Car.{
  read, in_order, one_root, finish, with_roots, read_behind, behind_head, header, head_of, push,
  rooted, push_all, read_block, read_loop, read_roots, take_chunk, write, Format, Header, hashes_to,
}
use manapds.Repo.Car.Reads.{Consumes}
use manapds.Repo.Car.Blocks.{insert_all, insert_all-nil}

-- What the code relies on of varints and of the codec of a header.
pub record IsFormat (f : Format) : Type 0 where
  pub read-varint :
      (n : ℕ) (rest : Str) → n < 2 ^ 64 → f.read_varint (f.varint n ++ rest) ≡ some (n, rest)
  pub consumes : Consumes f
  pub decode-encode : (h : Header) (bytes : Str) → f.encode h ≡ ok bytes → f.decode bytes ≡ ok h

-- A block under a CID that reads back and that is its hash, with a length that a varint of 64 bits holds.
pub record IsSound (f : Format) (block : Cid × Str) : Type 0 where
  pub reads : (rest : Str) → f.read_cid (block.0 ++ rest) ≡ some (block.0, rest)
  pub hashes : hashes_to f block.0 block.1 ≡ true
  pub fits : length block.0 + length block.1 < 2 ^ 64

chunk : Format → Cid × Str → Str
chunk f (cid, bytes) = f.varint (length cid + length bytes) ++ (cid ++ bytes)

body : Format → List (Cid × Str) → Str
body f [] = []
body f (block ∷ blocks) = chunk f block ++ body f blocks

contains_key-same :
    (key : Cid) (blocks other : BlockMap)
    → lookup key blocks ≡ lookup key other
    → contains_key key blocks ≡ true
    → contains_key key other ≡ true
contains_key-same key blocks other same there = elim (Bool-cases (contains_key key other)) [
  | inl fine ↦ fine
  | inr missing ↦
      let absent = lookup-contains_key key blocks (same ∙ contains_key-lookup key other missing) in
      absurd (cc)
]

module _ (f : Format) (laws : IsFormat f) where
  push_all-body :
      (car : Str) (blocks : List (Cid × Str)) → push_all f car blocks ≡ car ++ body f blocks
  unfolding push_all push body chunk
  push_all-body car [] = sym (append-nil car)
  push_all-body car ((cid, bytes) ∷ blocks) =
      push_all-body (push f car cid bytes) blocks
      ∙ append_assoc car (chunk f (cid, bytes)) (body f blocks)

  take_chunk-varint :
      (bytes rest : Str)
      → length bytes < 2 ^ 64
      → take_chunk f (f.varint (length bytes) ++ (bytes ++ rest)) ≡ ok (bytes, rest)
  unfolding take_chunk
  take_chunk-varint bytes rest fits =
      let within : leb (length bytes) (length (bytes ++ rest)) ≡ true =
        let e = length-append bytes rest in ground arith in
      rw
        (
          laws.read-varint (length bytes) (bytes ++ rest) fits,
          within,
          take-append bytes rest,
          drop-append bytes rest,
        )
        refl

  varint-lt : (n : ℕ) (rest : Str) → n < 2 ^ 64 → length rest < length (f.varint n ++ rest)
  varint-lt n rest fits = laws.consumes (f.varint n ++ rest) rest n (laws.read-varint n rest fits)

  chunk-append :
      (cid : Cid) (bytes rest : Str)
      → chunk f (cid, bytes) ++ rest ≡ f.varint (length (cid ++ bytes)) ++ ((cid ++ bytes) ++ rest)
  unfolding chunk
  chunk-append cid bytes rest =
      append_assoc (f.varint (length cid + length bytes)) (cid ++ bytes) rest
      ∙ ap (λ n. f.varint n ++ ((cid ++ bytes) ++ rest)) (sym (length-append cid bytes))

  read_block-chunk :
      (cid : Cid) (bytes rest : Str) (blocks : BlockMap)
      → IsSound f (cid, bytes)
      → read_block f (chunk f (cid, bytes) ++ rest) blocks ≡ ok (rest, insert cid bytes blocks)
  unfolding read_block
  read_block-chunk cid bytes rest blocks sound =
      let fits = sound.fits in
      let small : length (cid ++ bytes) < 2 ^ 64 = rw (length-append cid bytes) fits in
      rw
        (
          chunk-append cid bytes rest,
          take_chunk-varint (cid ++ bytes) rest small,
          sound.reads bytes,
          sound.hashes,
        )
        refl

  chunk-lt :
      (cid : Cid) (bytes rest : Str)
      → IsSound f (cid, bytes)
      → length rest < length (chunk f (cid, bytes) ++ rest)
  chunk-lt cid bytes rest sound =
      let fits = sound.fits in
      let small : length (cid ++ bytes) < 2 ^ 64 = rw (length-append cid bytes) fits in
      let less = varint-lt (length (cid ++ bytes)) ((cid ++ bytes) ++ rest) small in
      rw (chunk-append cid bytes rest) (omega (arith, length-append {0} (cid ++ bytes) rest))

  body-le :
      (blocks : List (Cid × Str)) → All (IsSound f) blocks → length blocks ≤ length (body f blocks)
  unfolding body
  body-le [] sound = omega arith
  body-le ((cid, bytes) ∷ blocks) sound =
      omega (arith, chunk-lt cid bytes (body f blocks) sound.0, body-le blocks sound.1)

  some_left : (s rest : Str) → length rest < length s → is_empty s ≡ false
  some_left [] rest h = absurd (omega arith)
  some_left (c ∷ s) rest h = refl

  read_loop-body :
      (rounds : ℕ) (more : List (Cid × Str)) (blocks : BlockMap)
      → All (IsSound f) more
      → length more < rounds
      → read_loop f rounds (body f more) blocks ≡ some (ok (insert_all more blocks))
  unfolding read_loop body insert_all
  read_loop-body zero more blocks sound enough = absurd (omega arith)
  read_loop-body (suc rounds) [] blocks sound enough = refl
  read_loop-body (suc rounds) ((cid, bytes) ∷ more) blocks sound enough =
      rw
        (
          some_left (chunk f (cid, bytes) ++ body f more) (body f more)
              (chunk-lt cid bytes (body f more) sound.0),
          read_block-chunk cid bytes (body f more) blocks sound.0,
        )
        (read_loop-body rounds more (insert cid bytes blocks) sound.1 (omega arith))

  read_roots-rooted :
      (roots : List Cid) (head : Str) (blocks : List (Cid × Str))
      → f.encode (record { version = 1; roots = roots }) ≡ ok head
      → length head < 2 ^ 64
      → All (IsSound f) blocks
      → Distinct blocks
      → read_roots f ((f.varint (length head) ++ head) ++ body f blocks) ≡ some (ok (roots, blocks))
  unfolding read_roots head_of behind_head read_behind with_roots
  read_roots-rooted roots head blocks encoded fits sound d =
      rw
        (
          append_assoc (f.varint (length head)) head (body f blocks),
          take_chunk-varint head (body f blocks) fits,
          laws.decode-encode (record { version = 1; roots = roots }) head encoded,
          read_loop-body (suc (length (body f blocks))) blocks [] sound
              (omega (arith, body-le blocks sound)),
          insert_all-nil blocks d,
        )
        refl

  -- With varints and the codec of the header as documented: a file written of a map, whose blocks are each
  -- under their hash and whose root is among them, reads back as that root and the blocks in the order of
  -- their CIDs, which is the same map. The header and each block are below 2^64 bytes.
  pub read-write :
      (root : Cid) (blocks : BlockMap) (head car : Str)
      → f.encode (record { version = 1; roots = root ∷ [] }) ≡ ok head
      → length head < 2 ^ 64
      → Distinct blocks
      → All (IsSound f) blocks
      → contains_key root blocks ≡ true
      → write f root blocks ≡ ok car
      → (read f car ≡ some (ok (root, in_order f.before blocks)))
        × ((cid : Cid) → lookup cid (in_order f.before blocks) ≡ lookup cid blocks)
  unfolding write rooted header read finish one_root
  read-write root blocks head car encoded fits d sound there written =
      let ordered = in_order f.before blocks in
      let file : push_all f (f.varint (length head) ++ head) ordered ≡ car =
        ok-ok (push_all f (f.varint (length head) ++ head) ordered) car (rw encoded at written) in
      let same = λ (cid : Cid). lookup-in_order f.before cid blocks d in
      let held : contains_key root ordered ≡ true =
        contains_key-same root blocks ordered (sym (same root)) there in
      let roots =
        read_roots-rooted (root ∷ []) head ordered encoded fits
          (All-in_order f.before (IsSound f) blocks sound) (in_order-Distinct f.before blocks d) in
      (rw (← file, push_all-body (f.varint (length head) ++ head) ordered, roots, held) refl, same)
