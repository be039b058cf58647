-- ===== src/Repo/Car/Reads.antt =====
-- Reading any file ends, and what it gives was checked.
use mathlib.Core.Path.{subst}
use manapds.Prelude.{
  Bool-cases, List, Str, [], ap, arith, drop, inl, inr, leb, length, not, not-false, refl, some,
  suc, sym, take, true, zero, ℕ, ◌<◌, ◌==◌, ◌∷◌, ◌≡◌, ◌≤◌, Option, ◌∙◌,
}
use manapds.Prelude.Eq.{str_eq→eq, Str_eq}
use manapds.Prelude.Bytes.{str_eq, is_empty}
use manapds.Prelude.Map.{lookup-insert, lookup, insert}
use manapds.Prelude.Result.{
  Result, ok, err, ◌>>=◌, fail_if, ok_or, bind-ok, ok_or-ok, ok-ok, fail_if-ok, Result-cases,
}
use manapds.Repo.{Cid, Error}
use manapds.Repo.Block.{BlockMap}
use manapds.Repo.Car.{
  Format, Header, take_chunk, split_at, read_block, read_loop, read_behind, with_roots, head_of,
  behind_head, read_roots, one_root, finish, read, hashes_to, malformed,
}

-- A varint takes a byte at the least.
abbrev pub Consumes : Format → Type 0
Consumes f =
    (bytes rest : Str) (n : ℕ) → f.read_varint bytes ≡ some (n, rest) → length rest < length bytes

length-drop-le {ℓ} : {A : Type ℓ} (n : ℕ) (xs : List A) → length (drop n xs) ≤ length xs
length-drop-le zero xs = omega arith
length-drop-le (suc n) [] = omega arith
length-drop-le (suc n) (x ∷ xs) = omega (arith, length-drop-le n xs)

split_at-le :
    (fault : Error) (n : ℕ) (bytes chunk rest : Str)
    → split_at fault n bytes ≡ ok (chunk, rest)
    → length rest ≤ length bytes
split_at-le fault n bytes chunk rest h = elim (Bool-cases (leb n (length bytes))) [
  | inr past ↦ absurd (cc (rw past at h))
  | inl within ↦
      let cut : Path (Result Error (Str × Str)) (ok (take n bytes, drop n bytes))
          (ok (chunk, rest)) =
        rw within at h in
      let e : drop n bytes ≡ rest =
        ap (λ (p : Str × Str). p.1) (ok-ok (take n bytes, drop n bytes) (chunk, rest) cut) in
      rw (← e) (length-drop-le n bytes)
]

module _ (f : Format) where
  take_chunk-lt :
      (bytes chunk rest : Str)
      → Consumes f
      → take_chunk f bytes ≡ ok (chunk, rest)
      → length rest < length bytes
  unfolding take_chunk
  take_chunk-lt bytes chunk rest eats h =
      let ((len, behind), read, cut) =
        bind-ok (ok_or (f.read_varint bytes) (malformed "a length that is not a varint")) _ h in
      let shorter = eats bytes behind len (
        ok_or-ok (f.read_varint bytes) (malformed "a length that is not a varint") (len, behind)
          read) in
      let less = split_at-le (malformed "a length past the file") len behind chunk rest cut in
      omega arith

  -- What a round that goes on has done.
  read_block-ok :
      (rest next : Str) (blocks blocks' : BlockMap)
      → read_block f rest blocks ≡ ok (next, blocks')
      → (cid : Cid) × (bytes : Str) × (chunk : Str) × (take_chunk f rest ≡ ok (chunk, next))
        × (hashes_to f cid bytes ≡ true)
        × (blocks' ≡ insert cid bytes blocks)
  unfolding read_block
  read_block-ok rest next blocks blocks' h =
      let ((chunk, behind), taken, h1) = bind-ok (take_chunk f rest) _ h in
      let ((cid, bytes), named, h2) =
        bind-ok (ok_or (f.read_cid chunk) (malformed "a block under something that is not a CID")) _
          h1 in
      let (u, right, made) =
        bind-ok (fail_if (not (hashes_to f cid bytes)) (Error.wrong_cid cid)) _ h2 in
      let e = ok-ok (behind, insert cid bytes blocks) (next, blocks') made in
      let same : behind ≡ next = ap (λ (p : Str × BlockMap). p.0) e in
      let wrong = fail_if-ok (not (hashes_to f cid bytes)) (Error.wrong_cid cid) u right in
      (
        cid,
        bytes,
        chunk,
        subst (λ (n : Str). take_chunk f rest ≡ ok (chunk, n)) same taken,
        not-false (hashes_to f cid bytes) wrong,
        sym (ap (λ (p : Str × BlockMap). p.1) e),
      )

  read_loop-ends :
      (rounds : ℕ) (rest : Str) (blocks : BlockMap)
      → Consumes f
      → length rest < rounds
      → (m : Result Error BlockMap) × (read_loop f rounds rest blocks ≡ some m)
  unfolding read_loop
  read_loop-ends zero rest blocks eats enough = absurd (omega arith)
  read_loop-ends (suc rounds) rest blocks eats enough = elim (Bool-cases (is_empty rest)) [
    | inl done ↦ (ok blocks, rw done refl)
    | inr more ↦ elim (Result-cases (read_block f rest blocks)) [
      | inr failed ↦ let (fault, e) = failed in (err fault, rw (more, e) refl)
      | inl went ↦
          let ((next, blocks'), e) = went in
          let (cid, bytes, chunk, taken, _, _) = read_block-ok rest next blocks blocks' e in
          let shorter = take_chunk-lt rest chunk next eats taken in
          let (m, ends) = read_loop-ends rounds next blocks' eats (omega arith) in
          (m, rw (more, e) ends)
    ]
  ]

  read_behind-ends :
      (head : Header) (rest : Str)
      → Consumes f
      → (m : Result Error (List Cid × BlockMap)) × (read_behind f head rest ≡ some m)
  unfolding read_behind with_roots
  read_behind-ends head rest eats = elim (Bool-cases (head.version == 1)) [
    | inr other ↦ (err (malformed "not a version 1 file"), rw other refl)
    | inl first ↦
        let (m, ends) = read_loop-ends (suc (length rest)) rest [] eats (omega arith) in
        elim (Result-cases m) [
          | inl fine ↦ let (blocks, e) = fine in (ok (head.roots, blocks), rw (first, ends, e) refl)
          | inr failed ↦ let (fault, e) = failed in (err fault, rw (first, ends, e) refl)
        ]
  ]

  read_roots-ends :
      (car : Str)
      → Consumes f
      → (m : Result Error (List Cid × BlockMap)) × (read_roots f car ≡ some m)
  unfolding read_roots behind_head
  read_roots-ends car eats = elim (Result-cases (head_of f car)) [
    | inr failed ↦ let (fault, e) = failed in (err fault, ap (behind_head f) e)
    | inl fine ↦
        let ((head, rest), e) = fine in
        let (m, ends) = read_behind-ends head rest eats in (m, ap (behind_head f) e ∙ ends)
  ]

  -- Where a varint takes a byte at the least, reading comes to an answer on any bytes at all: one round
  -- for each byte and one more are enough.
  pub read_ends :
      (car : Str) → Consumes f → (m : Result Error (Cid × BlockMap)) × (read f car ≡ some m)
  unfolding read finish
  read_ends car eats = let (m, ends) = read_roots-ends car eats in (m >>= one_root f, rw ends refl)

  -- What is said of a map whose every block is what its CID says.
  abbrev pub AllHash : BlockMap → Type 0
  AllHash blocks =
      (cid : Cid) (bytes : Str) → lookup cid blocks ≡ some bytes → hashes_to f cid bytes ≡ true

  AllHash-insert :
      (cid : Cid) (bytes : Str) (blocks : BlockMap)
      → hashes_to f cid bytes ≡ true
      → AllHash blocks
      → AllHash (insert cid bytes blocks)
  AllHash-insert cid bytes blocks right all key held at = elim (Bool-cases (str_eq cid key)) [
    | inl same ↦
        let here : some bytes ≡ some held =
          sym (rw same at (lookup-insert cid key bytes blocks)) ∙ at in
        let e : bytes ≡ held = cc here in rw (← str_eq→eq cid key same, ← e) right
    | inr other ↦ all key held (sym (rw other at (lookup-insert cid key bytes blocks)) ∙ at)
  ]

  pub read_loop-AllHash :
      (rounds : ℕ) (rest : Str) (blocks came : BlockMap)
      → AllHash blocks
      → read_loop f rounds rest blocks ≡ some (ok came)
      → AllHash came
  unfolding read_loop
  read_loop-AllHash zero rest blocks came all h = absurd (cc h)
  read_loop-AllHash (suc rounds) rest blocks came all h = elim (Bool-cases (is_empty rest)) [
    | inl done ↦
        let same : Path (Option (Result Error BlockMap)) (some (ok blocks)) (some (ok came)) =
          rw done at h in
        let e : blocks ≡ came = cc same in subst AllHash e all
    | inr more ↦ elim (Result-cases (read_block f rest blocks)) [
      | inr failed ↦ let (fault, e) = failed in absurd (cc (rw (more, e) at h))
      | inl went ↦
          let ((next, blocks'), e) = went in
          let (cid, bytes, chunk, _, right, made) = read_block-ok rest next blocks blocks' e in
          read_loop-AllHash rounds next blocks' came
            (subst AllHash (sym made) (AllHash-insert cid bytes blocks right all))
            (rw (more, e) at h)
    ]
  ]
