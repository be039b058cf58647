-- ===== src/Repo/Mst/Dropped.antt =====
-- src/repo/mst.rs: `Mst::dropped`, the blocks that the tree before reached and this one does not. The
-- loop is on fuel, one for each round; where it runs out there is no answer.
use manapds.Prelude.{List, Option, [], none, some, suc, zero, ℕ, if◌then◌else◌, ltb}
use manapds.Prelude.Bytes.{Str, str_eq, str_lt}
use manapds.Prelude.Result.{Result, ok, ◌>>=◌}
use manapds.Repo.{Cid, Error}
use manapds.Repo.Mst.{Mst, Reader}
use manapds.Repo.Mst.Walk.{
  Diff, diff_add, diff_remove, Walker, At, at_leaf, at_tree, walker, at, key, height, cid,
  step_over, step_into, advance,
}

pub record Walks : Type 0 where
  pub diff : Diff
  pub left : Walker
  pub right : Walker

abbrev drop_then : Reader → (Reader → Walker → Result Error Walker) → Walks → Result Error Walks
drop_then r move s = do
  (left, c) ← cid r s.left
  left ← move r left
  ok (record s { diff = diff_remove c s.diff; left = left })

abbrev gain_then : Reader → (Reader → Walker → Result Error Walker) → Walks → Result Error Walks
gain_then r move s = do
  (right, c) ← cid r s.right
  right ← move r right
  ok (record s { diff = diff_add c s.diff; right = right })

unfoldable pub drop_left : Reader → Walks → Result Error Walks
drop_left r s = drop_then r advance s

unfoldable pub gain_right : Reader → Walks → Result Error Walks
gain_right r s = gain_then r advance s

unfoldable pub open_left : Reader → Walks → Result Error Walks
open_left r s = drop_then r step_into s

unfoldable pub open_right : Reader → Walks → Result Error Walks
open_right r s = gain_then r step_into s

abbrev exchanged : Cid → Cid → Diff → Diff
exchanged before after d = if str_eq before after then d else diff_add after (diff_remove before d)

-- Two leaves with one key.
unfoldable pub same_key : Reader → Walks → Result Error Walks
same_key r s = do
  (left, before) ← cid r s.left
  (right, after) ← cid r s.right
  left ← advance r left
  right ← advance r right
  ok (record { diff = exchanged before after s.diff; left = left; right = right })

-- `cmp` of two `Option<&str>`, where none comes first.
unfoldable pub leaves_round : Reader → Walks → Option Str → Option Str → Result Error Walks
leaves_round r s none none = same_key r s
leaves_round r s none (some _) = drop_left r s
leaves_round r s (some _) none = gain_right r s
leaves_round r s (some a) (some b) =
    if str_eq a b then same_key r s else if str_lt a b then drop_left r s else gain_right r s

-- Whatever hashes the same is stepped past, and anything else into.
unfoldable pub trees_compared : Reader → Diff → Walker → Walker → Cid → Cid → Result Error Walks
trees_compared r d left right before after =
    if str_eq before after
    then ok (record { diff = d; left = step_over left; right = step_over right })
    else (do
      left ← step_into r left
      right ← step_into r right
      ok (record { diff = diff_add after (diff_remove before d); left = left; right = right }))

-- Two subtrees on one layer.
unfoldable pub trees_round : Reader → Walks → Result Error Walks
trees_round r s = do
  (left, before) ← cid r s.left
  (right, after) ← cid r s.right
  trees_compared r s.diff left right before after

-- Where the two are not both on a leaf: the higher steps down, or the lower moves where it cannot.
unfoldable pub mixed_round : Reader → Walks → At → At → Result Error Walks
mixed_round r s here there =
    if ltb (height s.right) (height s.left)
    then elim here [ at_leaf ↦ gain_right r s | at_tree ↦ open_left r s ]
    else if ltb (height s.left) (height s.right)
    then elim there [ at_leaf ↦ drop_left r s | at_tree ↦ open_right r s ]
    else elim here [
      | at_tree ↦ elim there [ at_tree ↦ trees_round r s | at_leaf ↦ open_left r s ]
      | at_leaf ↦ open_right r s
    ]

unfoldable pub both_round : Reader → Walks → At → At → Result Error Walks
both_round r s at_leaf at_leaf = leaves_round r s (key s.left) (key s.right)
both_round r s here there = mixed_round r s here there

-- One round of the loop; none where both walks are over.
unfoldable pub round : Reader → Walks → Option At → Option At → Result Error (Option Walks)
round r s none none = ok none
round r s (some _) none = do s ← drop_left r s; ok (some s)
round r s none (some _) = do s ← gain_right r s; ok (some s)
round r s (some here) (some there) = do s ← both_round r s here there; ok (some s)

unfoldable pub rounds : ℕ → Reader → Walks → Result Error (Option (List Cid))
rounds zero r s = ok none
rounds (suc n) r s = do
  next ← round r s (at s.left) (at s.right)
  elim next [ none ↦ ok (some s.diff.removed) | some s ↦ rounds n r s ]

unfoldable pub dropped : ℕ → Reader → Mst → Mst → Result Error (Option (List Cid))
dropped n r m prev = do
  left ← walker r prev
  right ← walker r m
  rounds n r (record { diff = record { added = []; removed = [] }; left = left; right = right })
