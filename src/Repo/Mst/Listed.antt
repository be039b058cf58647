-- ===== src/Repo/Mst/Listed.antt =====
-- What `dropped` lists between two trees of one node each.
use manapds.Prelude.{List, map, some, ℕ}
use manapds.Repo.{Cid}
use manapds.Repo.Mst.{Mst, Leaf, Entry, leaf, mst, loaded, from_list, to_list}

-- A node in memory with some records and nothing else, under its CID.
abbrev pub record_node : Cid → List Leaf → ℕ → Mst
record_node c ls n = mst (loaded (from_list (map leaf ls))) (some n) (some c)

abbrev entries_of : List Leaf → List Entry
entries_of ls = to_list (from_list (map leaf ls))
