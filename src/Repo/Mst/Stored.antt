-- ===== src/Repo/Mst/Stored.antt =====
-- src/repo/mst.rs: a node read from its stored form (`deserialize`).
use manapds.Prelude.{
  List, Option, Str, [], if◌then◌else◌, leb, length, none, some, suc, take, zero, ℕ, ◌++◌, ◌∷◌,
}
use manapds.Prelude.Bytes.{is_utf8}
use manapds.Prelude.Result.{Result, ok, err, ◌>>=◌, ◌>>◌}
use manapds.Repo.{Cid, Error}
use manapds.Repo.Mst.{TreeEntry, NodeData, mst, unread, Entry, leaf, tree}
use manapds.Repo.Mst.Key.{ensure_valid_key}

abbrev pub unread_tree : Option ℕ → Option Cid → List Entry
unread_tree under none = []
unread_tree under (some cid) = tree (mst unread under (some cid)) ∷ []

-- `last.get(..p)`: `last` is empty or a valid key, so every place in it is a character boundary.
abbrev pub get_to : Str → ℕ → Result Error Str
get_to last p =
    if leb p (length last)
    then ok (take p last)
    else err (Error.malformed_node "a prefix longer than the key before it")

abbrev pub text_of : Str → Result Error Str
text_of k = if is_utf8 k then ok k else err (Error.malformed_node "a key that is not text")

-- The loop of `deserialize`, from the key before.
unfoldable pub deserialize_from : Option ℕ → Str → List TreeEntry → Result Error (List Entry)
deserialize_from under last [] = ok []
deserialize_from under last (entry ∷ es) = do
  suffix ← text_of entry.k
  shared ← get_to last entry.p
  let key : Str = shared ++ suffix
  ensure_valid_key key
  rest ← deserialize_from under key es
  ok (leaf (record { key = key; value = entry.v }) ∷ (unread_tree under entry.t ++ rest))

abbrev pub below : Option ℕ → Option ℕ
below none = none
below (some zero) = none
below (some (suc n)) = some n

unfoldable pub deserialize : NodeData → Option ℕ → Result Error (List Entry)
deserialize stored layer = do
  rest ← deserialize_from (below layer) [] stored.e
  ok (unread_tree (below layer) stored.l ++ rest)
