-- ===== src/Repo/Car.antt =====
-- src/repo/car.rs: the file that a repository travels in, written and read. Varints, the codec of the
-- header, the reader of a CID, its hash and sha-256 are third-party code, and arguments, and so is the
-- order in which a map has its CIDs.
pub mod Order
pub mod Reads
pub mod Checked
mod Blocks
pub mod Trip
mod Tests
use manapds.Prelude.{
  Bool, List, Option, Str, String, [], drop, if◌then◌else◌, leb, length, none, not, some, suc, take,
  zero, ℕ, ◌&&◌, ◌++◌, ◌+◌, ◌==◌, ◌∷◌,
}
use manapds.Prelude.Eq.{Str_eq}
use manapds.Prelude.Bytes.{str_eq, is_empty}
use manapds.Prelude.Map.{insert, contains_key}
use manapds.Prelude.Result.{ok_or, Result, ok, err, ◌>>=◌, ◌>>◌, fail_if}
use manapds.Repo.{Cid, Error}
use manapds.Repo.Block.{BlockMap}

abbrev pub sha2_256 : ℕ
sha2_256 = 0x12

pub record Header : Type 0 where
  pub version : ℕ
  pub roots : List Cid

pub record Format : Type 0 where
  pub varint : ℕ → Str
  pub read_varint : Str → Option (ℕ × Str)
  pub encode : Header → Result Error Str
  pub decode : Str → Result Error Header
  pub read_cid : Str → Option (Cid × Str)
  pub hash_code : Cid → ℕ
  pub hash_digest : Cid → Str
  pub sha256 : Str → Str
  pub before : Cid → Cid → Bool

malformed : String → Error
malformed = Error.malformed_car

-- A map is walked in the order of its keys.
insert_in_order : (Cid → Cid → Bool) → Cid × Str → List (Cid × Str) → List (Cid × Str)
insert_in_order before block [] = block ∷ []
insert_in_order before (cid, bytes) ((next, held) ∷ blocks) =
    if before next cid
    then (next, held) ∷ insert_in_order before (cid, bytes) blocks
    else (cid, bytes) ∷ (next, held) ∷ blocks

unfoldable pub in_order : (Cid → Cid → Bool) → BlockMap → List (Cid × Str)
unfolding insert_in_order
in_order before [] = []
in_order before (block ∷ blocks) = insert_in_order before block (in_order before blocks)

-- `split_at_checked`
abbrev pub split_at : {Fault : Type 0} → Fault → ℕ → Str → Result Fault (Str × Str)
split_at fault n bytes = if leb n (length bytes) then ok (take n bytes, drop n bytes) else err fault

module _ (f : Format) where
  unfoldable pub header : List Cid → Result Error Str
  header roots = do
    bytes ← f.encode (record { version = 1; roots = roots })
    ok (f.varint (length bytes) ++ bytes)

  -- `push`: one block at the end of a file.
  unfoldable pub push : Str → Cid → Str → Str
  push car cid bytes = car ++ (f.varint (length cid + length bytes) ++ (cid ++ bytes))

  unfoldable pub push_all : Str → List (Cid × Str) → Str
  unfolding push
  push_all car [] = car
  push_all car ((cid, bytes) ∷ blocks) = push_all (push car cid bytes) blocks

  unfoldable pub rooted : List Cid → BlockMap → Result Error Str
  unfolding header push_all
  rooted roots blocks = do car ← header roots; ok (push_all car (in_order f.before blocks))

  unfoldable pub write : Cid → BlockMap → Result Error Str
  unfolding rooted
  write root blocks = rooted (root ∷ []) blocks

  unfoldable pub write_blocks : BlockMap → Result Error Str
  unfolding rooted
  write_blocks blocks = rooted [] blocks

  unfoldable pub take_chunk : Str → Result Error (Str × Str)
  unfolding malformed
  take_chunk bytes = do
    (len, rest) ← ok_or (f.read_varint bytes) (malformed "a length that is not a varint")
    split_at (malformed "a length past the file") len rest

  unfoldable pub hashes_to : Cid → Str → Bool
  hashes_to cid bytes = f.hash_code cid == sha2_256 && str_eq (f.hash_digest cid) (f.sha256 bytes)

  -- One round of the loop: the block at the front is read, checked and put into the map.
  unfoldable pub read_block : Str → BlockMap → Result Error (Str × BlockMap)
  unfolding take_chunk hashes_to malformed
  read_block rest blocks = do
    (chunk, next) ← take_chunk rest
    (cid, reading) ←
        ok_or (f.read_cid chunk) (malformed "a block under something that is not a CID")
    fail_if (not (hashes_to cid reading)) (Error.wrong_cid cid)
    ok (next, insert cid reading blocks)

  -- The loop, on fuel; `none` is out of it.
  unfoldable pub read_loop : ℕ → Str → BlockMap → Option (Result Error BlockMap)
  unfolding read_block
  read_loop zero rest blocks = none
  read_loop (suc rounds) rest blocks =
      if is_empty rest then some (ok blocks) else elim (read_block rest blocks) [
        | err fault ↦ some (err fault)
        | ok (next, blocks') ↦ read_loop rounds next blocks'
      ]

  with_roots :
      List Cid → Option (Result Error BlockMap) → Option (Result Error (List Cid × BlockMap))
  with_roots roots none = none
  with_roots roots (some (err fault)) = some (err fault)
  with_roots roots (some (ok blocks)) = some (ok (roots, blocks))

  -- A block takes a byte at the least, so one round for each byte and one more are enough.
  read_behind : Header → Str → Option (Result Error (List Cid × BlockMap))
  unfolding with_roots read_loop malformed
  read_behind head rest =
      if head.version == 1
      then with_roots head.roots (read_loop (suc (length rest)) rest [])
      else some (err (malformed "not a version 1 file"))

  unfoldable pub head_of : Str → Result Error (Header × Str)
  unfolding take_chunk
  head_of car = do (bytes, rest) ← take_chunk car; head ← f.decode bytes; ok (head, rest)

  behind_head : Result Error (Header × Str) → Option (Result Error (List Cid × BlockMap))
  unfolding read_behind
  behind_head (err fault) = some (err fault)
  behind_head (ok (head, rest)) = read_behind head rest

  unfoldable pub read_roots : Str → Option (Result Error (List Cid × BlockMap))
  unfolding head_of behind_head
  read_roots car = behind_head (head_of car)

  one_root : List Cid × BlockMap → Result Error (Cid × BlockMap)
  unfolding malformed
  one_root ([], blocks) = err (malformed "not exactly one root")
  one_root (root ∷ [], blocks) =
      if contains_key root blocks then ok (root, blocks) else err (Error.missing_block root)
  one_root (root ∷ _ ∷ _, blocks) = err (malformed "not exactly one root")

  finish {ℓ κ} :
      {A : Type ℓ} {B : Type κ}
      → (A → Result Error B)
      → Option (Result Error A)
      → Option (Result Error B)
  finish next none = none
  finish next (some m) = some (m >>= next)

  unfoldable pub read : Str → Option (Result Error (Cid × BlockMap))
  unfolding read_roots finish one_root
  read car = finish one_root (read_roots car)

  unfoldable pub read_blocks : Str → Option (Result Error BlockMap)
  unfolding read_roots finish
  read_blocks car = finish (λ (_, blocks). ok blocks) (read_roots car)
