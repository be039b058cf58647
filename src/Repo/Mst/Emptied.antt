-- ===== src/Repo/Mst/Emptied.antt =====
-- What `delete` of the only record leaves, and what `add` makes of it.
use mathlib.Core.List.{append-nil}
use manapds.Prelude.{
  ◌∙◌, ℕ, suc, [], ◌∷◌, ◌≡◌, arith, refl, some, Str, ◌<◌, ◌≤◌, ltb, false, true, ◌-◌,
}
use manapds.Prelude.Eq.{str_eq_refl}
use manapds.Prelude.Order.{str_lt_irrefl}
use manapds.Prelude.Result.{ok}
use manapds.Repo.{Cid}
use manapds.Repo.Mst.{Leaf, Mst, leaf, tree, from_entries, Reader, ◌>>=◌}
use manapds.Repo.Mst.Key.{leading_zeros, ensure_valid_key}
use manapds.Repo.Mst.Node.{held, fill, index_of, position_of}
use manapds.Repo.Mst.Edit.{add, insert, insert_within, insert_below}
use manapds.Repo.Mst.Delete.{
  delete, delete_recurse, delete_here, delete_leaf, trim_top, trim_filled,
}
use manapds.Repo.Mst.Items.{items, lookup_leaf, insert_leaf}
use manapds.Repo.Mst.Shape.{from_entries-Layered}
use manapds.Repo.Mst.Raise.{layer-known}
use manapds.Repo.Mst.Insert.{record_at}
use manapds.Repo.Mst.Add.{insert-Inserts}
use manapds.Repo.Mst.Whole.{layer_max}

abbrev pub lone : Leaf → ℕ → Mst
lone a n = from_entries (leaf a ∷ []) (some n)

delete-lone :
    (r : Reader) (a : Leaf) (n : ℕ)
    → delete r (lone a n) a.key [] ≡ ok (from_entries [] (some n), [])
unfolding delete delete_recurse delete_here delete_leaf trim_top trim_filled index_of fill
    position_of
delete-lone r a n = rw (str_lt_irrefl a.key) (rw (str_eq_refl a.key) refl)

-- Where a key on a lower layer is added to a node with nothing in it.
insert_emptied :
    (k n : ℕ) (r : Reader) (key : Str) (value : Cid)
    → n < k
    → leading_zeros r.sha256 key ≤ n
    → (under : Mst) × (insert
          (suc (suc k))
          r
          (from_entries [] (some (suc n)))
          key
          value
          (leading_zeros r.sha256 key)
          []
        ≡ ok (from_entries (tree under ∷ []) (some (suc n)), []))
      × (items under ≡ record_at key value ∷ [])
unfolding insert insert_within insert_below index_of fill position_of items lookup_leaf insert_leaf
insert_emptied k n r key value deep low =
    let z = leading_zeros r.sha256 in
    let emptied : Mst = from_entries [] (some (suc n)) in
    let level_of : suc n - 1 ≡ n = omega arith in
    let g =
      insert-Inserts (suc k) n r (from_entries [] (some (suc n - 1))) key value [] (omega arith)
        (rw level_of (from_entries-Layered z n [] tt tt)) tt refl in
    let not_above : ltb (suc n) (z key) ≡ false = ground arith in
    let below : ltb (z key) (suc n) ≡ true = ground arith in
    (
      g.grown,
      rw (layer-known z k (suc n) r emptied [] (from_entries-Layered z (suc n) [] tt tt))
          (rw (not_above, below) (rw (g.runs) refl)),
      g.records_are,
    )

-- A node emptied by `delete` keeps its layer. Where the only record of a tree, on a layer above 0, is
-- deleted and a record on a lower layer is added under a valid key to what is left, both runs succeed,
-- and the root of the tree that comes of it has a single entry, a subtree, with the new record under it.
pub add-behind_delete :
    (r : Reader) (a : Leaf) (n : ℕ) (key : Str) (value : Cid)
    → n < layer_max
    → leading_zeros r.sha256 key ≤ n
    → ensure_valid_key key ≡ ok tt
    → (grown : Mst) × (under : Mst) × ((delete r (lone a (suc n)) a.key >>= λ left.
            add r left key value)
          []
        ≡ ok (grown, []))
      × (held grown ≡ tree under ∷ [])
      × (items grown ≡ record_at key value ∷ [])
unfolding add items
add-behind_delete r a n key value bound low valid =
    let (under, runs, same) = insert_emptied 254 n r key value (omega arith) low in
    (
      from_entries (tree under ∷ []) (some (suc n)),
      under,
      rw (delete-lone r a (suc n)) (rw valid runs),
      refl,
      append-nil (items under) ∙ same,
    )
