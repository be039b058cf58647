-- ===== src/Repo/Block.antt =====
-- src/repo/block.rs: where blocks are read from, and blocks held in memory. Hashing and the dag-cbor
-- codec of a value are third-party code, and arguments here.
use manapds.Prelude.{Bool, Option, Str, [], none, some, ◌∷◌}
use manapds.Prelude.Eq.{Str_eq}
use manapds.Prelude.Result.{Result, ok, err, ◌>>=◌}
use manapds.Prelude.Map.{Map, lookup, contains_key, insert}
use manapds.Repo.{Cid, Error}

-- The trait `Store`.
pub record Store : Type 0 where
  pub get : Cid → Result Error Str
  pub contains : Cid → Result Error Bool

-- `read`, with `decode` for the type that is asked for.
unfoldable pub read {ℓ} : {A : Type ℓ} → (Str → Result Error A) → Store → Cid → Result Error A
read decode store cid = do bytes ← store.get cid; decode bytes

abbrev pub BlockMap : Type 0
BlockMap = Map Cid Str

-- `BlockMap::add`, with `encode` and `cid_for`.
unfoldable pub add {ℓ} :
    {A : Type ℓ}
    → (A → Result Error Str)
    → (Str → Cid)
    → A
    → BlockMap
    → Result Error (BlockMap × Cid)
add encode cid_for value blocks = do
  bytes ← encode value
  ok (insert (cid_for bytes) bytes blocks, cid_for bytes)

-- `BlockMap::merge`: every block of the other map, over one already there.
unfoldable pub merge : BlockMap → BlockMap → BlockMap
merge blocks [] = blocks
merge blocks ((cid, bytes) ∷ other) = merge (insert cid bytes blocks) other

found : Cid → Option Str → Result Error Str
found cid none = err (Error.missing_block cid)
found cid (some bytes) = ok bytes

-- `impl Store for BlockMap`
unfoldable pub store_of : BlockMap → Store
unfolding found
store_of blocks = record {
  get = λ cid. found cid (lookup cid blocks);
  contains = λ cid. ok (contains_key cid blocks);
}
