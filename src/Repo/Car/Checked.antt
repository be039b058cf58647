-- ===== src/Repo/Car/Checked.antt =====
-- What a file that reads was checked for.
use manapds.Prelude.{
  Bool-cases, List, Option, Str, [], inl, inr, length, none, refl, some, suc, true, ◌==◌, ◌∷◌, ◌≡◌,
}
use manapds.Prelude.Eq.{Str_eq}
use manapds.Prelude.Map.{lookup, contains_key}
use manapds.Prelude.Result.{Result, ok, err}
use manapds.Repo.{Cid, Error}
use manapds.Repo.Block.{BlockMap}
use manapds.Repo.Car.{
  Format, Header, read_loop, read_behind, with_roots, head_of, behind_head, read_roots, one_root,
  finish, read, hashes_to,
}
use manapds.Repo.Car.Reads.{AllHash, read_loop-AllHash}

module _ (f : Format) where
  with_roots-ok :
      (roots roots' : List Cid) (m : Option (Result Error BlockMap)) (blocks : BlockMap)
      → with_roots f roots m ≡ some (ok (roots', blocks))
      → m ≡ some (ok blocks)
  unfolding with_roots
  with_roots-ok roots roots' none blocks h = absurd (cc h)
  with_roots-ok roots roots' (some (err fault)) blocks h = absurd (cc h)
  with_roots-ok roots roots' (some (ok held)) blocks h = let e : held ≡ blocks = cc h in rw e refl

  AllHash-nil : AllHash f []
  unfolding lookup
  AllHash-nil cid bytes held = absurd (cc held)

  behind_head-AllHash :
      (m : Result Error (Header × Str)) (roots : List Cid) (blocks : BlockMap)
      → behind_head f m ≡ some (ok (roots, blocks))
      → AllHash f blocks
  unfolding behind_head read_behind
  behind_head-AllHash (err fault) roots blocks h = absurd (cc h)
  behind_head-AllHash (ok (head, rest)) roots blocks h = elim (Bool-cases (head.version == 1)) [
    | inr other ↦ absurd (cc (rw other at h))
    | inl first ↦
        let loop =
          with_roots-ok head.roots roots (read_loop f (suc (length rest)) rest []) blocks
            (rw first at h) in
        read_loop-AllHash f (suc (length rest)) rest [] blocks AllHash-nil loop
  ]

  one_root-ok :
      (roots : List Cid) (held : BlockMap) (root : Cid) (blocks : BlockMap)
      → one_root f (roots, held) ≡ ok (root, blocks)
      → (roots ≡ root ∷ []) × (held ≡ blocks) × (contains_key root blocks ≡ true)
  unfolding one_root
  one_root-ok [] held root blocks h = absurd (cc h)
  one_root-ok (only ∷ []) held root blocks h = elim (Bool-cases (contains_key only held)) [
    | inr missing ↦ absurd (cc (rw missing at h))
    | inl there ↦
        let same : Path (Result Error (Cid × BlockMap)) (ok (only, held)) (ok (root, blocks)) =
          rw there at h in
        let e : only ≡ root = cc same in
        let e' : held ≡ blocks = cc same in (rw e refl, e', rw (← e, ← e') there)
  ]
  one_root-ok (one ∷ two ∷ roots) held root blocks h = absurd (cc h)

  finish-one_root :
      (m : Option (Result Error (List Cid × BlockMap))) (root : Cid) (blocks : BlockMap)
      → finish f (one_root f) m ≡ some (ok (root, blocks))
      → (m ≡ some (ok (root ∷ [], blocks))) × (contains_key root blocks ≡ true)
  unfolding finish
  finish-one_root none root blocks h = absurd (cc h)
  finish-one_root (some (err fault)) root blocks h = absurd (cc h)
  finish-one_root (some (ok (roots, held))) root blocks h =
      let came : one_root f (roots, held) ≡ ok (root, blocks) = cc h in
      let (one, same, there) = one_root-ok roots held root blocks came in
      (rw (one, same) refl, there)

  -- A file that reads gives a map that holds its root, and in which every block is under a CID whose hash is
  -- the sha-256 of the block's bytes. This holds on any bytes, whatever the third-party code does.
  pub read-AllHash :
      (car : Str) (root : Cid) (blocks : BlockMap)
      → read f car ≡ some (ok (root, blocks))
      → (contains_key root blocks ≡ true)
        × ((cid : Cid) (bytes : Str)
            → lookup cid blocks ≡ some bytes
            → hashes_to f cid bytes ≡ true)
  unfolding read read_roots
  read-AllHash car root blocks h =
      let (came, there) = finish-one_root (behind_head f (head_of f car)) root blocks h in
      (there, behind_head-AllHash (head_of f car) (root ∷ []) blocks came)
