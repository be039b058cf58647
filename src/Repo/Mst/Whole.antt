-- ===== src/Repo/Mst/Whole.antt =====
-- Whole trees: the invariant that the trees which `add` builds keep, and what `add` and `get` do on them.
use manapds.Prelude.{
  ◌∷◌, refl, List, Str, some, ℕ, length, none, suc, ◌/◌, ◌≤◌, arith, ◌*◌, ◌≡◌, [], Option, max,
  if◌then◌else◌, ap, false, ◌∙◌, sym,
}
use manapds.Prelude.Bytes.{str_eq}
use manapds.Prelude.Result.{err, Result, ok}
use manapds.Repo.{Cid, Error}
use manapds.Repo.Mst.{◌>>=◌, Leaf, Mst, mst, loaded, nil, Reader, empty, depth_max}
use manapds.Repo.Mst.Key.{leading_zeros, leading_zeros8, leading_zeros_in, ensure_valid_key}
use manapds.Repo.Mst.Find.{get, get_in, get_here, get_under}
use manapds.Repo.Mst.Node.{fill, index_of, position_of}
use manapds.Repo.Mst.Layer.{layer, find_layer, leaf_layer, subtree_layer}
use manapds.Repo.Mst.Edit.{insert, add}
use manapds.Repo.Mst.Items.{items, Sorted, lookup_leaf, insert_leaf}
use manapds.Repo.Mst.Layered.{Layered}
use manapds.Repo.Mst.Lookup.{get_in-lookup_leaf}
use manapds.Repo.Mst.Insert.{record_at}
use manapds.Repo.Mst.Add.{insert-Inserts}
use manapds.Repo.Mst.Taken.{insert-taken}
use manapds.Repo.Mst.Records.{
  str_eq_sym, insert_leaf_comm, Sorted-insert_leaf, lookup_leaf-insert_leaf,
}

-- The layers that a digest of 32 bytes has.
abbrev pub layer_max : ℕ
layer_max = 128

leading_zeros8-le : (b : ℕ) → leading_zeros8 b / 2 ≤ 4
unfolding leading_zeros8
leading_zeros8-le b = ground arith

leading_zeros_in-le : (bs : Str) → leading_zeros_in bs ≤ 4 * length bs
unfolding leading_zeros_in
leading_zeros_in-le [] = omega arith
leading_zeros_in-le (b ∷ bs) = ground (arith, leading_zeros_in-le bs, leading_zeros8-le b)

-- What sha-256 gives: 32 bytes.
abbrev pub IsDigest : (Str → Str) → Type 0
IsDigest sha256 = (key : Str) → length (sha256 key) ≡ 32

-- With digests of 32 bytes no key is on a layer above 128.
leading_zeros-le :
    (sha256 : Str → Str) → IsDigest sha256 → (key : Str) → leading_zeros sha256 key ≤ layer_max
unfolding leading_zeros
leading_zeros-le sha256 digest key =
    let h = leading_zeros_in-le (sha256 key) in let e = digest key in omega arith

-- A tree in memory: the empty one, or one with every key on the layer of its hash, in order.
pub data IsTree (z : Str → ℕ) : Mst → Type 0 where
  nothing : IsTree z empty
  rooted : (n : ℕ) (m : Mst) → n ≤ layer_max → Layered z n m → Sorted (items m) → IsTree z m

-- A node with nothing in it takes layer 0.
abbrev floor : Mst
floor = mst (loaded nil) (some 0) none

insert-empty :
    (k : ℕ) (r : Reader) (key : Str) (value : Cid) (zeros_of : ℕ) (seen : List Cid)
    → insert (suc (suc k)) r empty key value zeros_of seen
      ≡ insert (suc (suc k)) r floor key value zeros_of seen
unfolding insert layer find_layer fill leaf_layer subtree_layer
insert-empty k r key value zeros_of seen = refl

floor-Layered : (z : Str → ℕ) → Layered z 0 floor
floor-Layered z = record { is_loaded = tt; knows = refl; alternates = tt; entries_at = tt }

-- What a run of `add` comes to.
abbrev Added : Reader → Str → Cid → List Leaf → Result Error (Mst × List Cid) → Type 0
Added r key value records run =
    (grown : Mst) × (run ≡ ok (grown, []))
    × IsTree (leading_zeros r.sha256) grown
    × (items grown ≡ insert_leaf (record_at key value) records)

insert-Added :
    (r : Reader) (n : ℕ) (m : Mst) (key : Str) (value : Cid)
    → IsDigest r.sha256
    → n ≤ layer_max
    → Layered (leading_zeros r.sha256) n m
    → Sorted (items m)
    → lookup_leaf key (items m) ≡ none
    → Added r key value (items m) (insert depth_max r m key value (leading_zeros r.sha256 key) [])
insert-Added r n m key value digest le h s absent =
    let z = leading_zeros r.sha256 in
    let bound : z key ≤ layer_max = leading_zeros-le r.sha256 digest key in
    let g = insert-Inserts depth_max n r m key value [] (omega arith) h s absent in
    let sorted = Sorted-insert_leaf (record_at key value) (items m) s absent in
    (
      g.grown,
      g.runs,
      rooted (max n (z key)) g.grown (omega arith) g.layered (rw (g.records_are) sorted),
      g.records_are,
    )

-- With digests of 32 bytes, adding a record under a valid key that a whole tree does not hold
-- succeeds, whatever layer the key is on. It reads no block and gives a whole tree again, which
-- holds the records there were and the new one at its place.
pub add-Added :
    (r : Reader) (m : Mst) (key : Str) (value : Cid)
    → IsDigest r.sha256
    → IsTree (leading_zeros r.sha256) m
    → ensure_valid_key key ≡ ok tt
    → lookup_leaf key (items m) ≡ none
    → (grown : Mst) × (add r m key value [] ≡ ok (grown, []))
      × IsTree (leading_zeros r.sha256) grown
      × (items grown ≡ insert_leaf (record_at key value) (items m))
unfolding add items
add-Added r _ key value digest nothing valid absent =
    rw (valid, insert-empty 254 r key value (leading_zeros r.sha256 key) [])
      (insert-Added r 0 floor key value digest (omega arith)
        (floor-Layered (leading_zeros r.sha256)) tt absent)
add-Added r _ key value digest (rooted n m le h s) valid absent =
    rw valid (insert-Added r n m key value digest le h s absent)

-- On a whole tree `get` reads no block, leaves the tree as it is, and gives the record that the tree
-- holds under the key, or none where it holds none.
pub get-lookup_leaf :
    (r : Reader) (m : Mst) (key : Str)
    → IsTree (leading_zeros r.sha256) m
    → get r m key [] ≡ ok ((m, lookup_leaf key (items m)), [])
unfolding get get_in get_here get_under index_of fill position_of items lookup_leaf
get-lookup_leaf r _ key nothing = refl
get-lookup_leaf r _ key (rooted n m le h s) =
    get_in-lookup_leaf (leading_zeros r.sha256) depth_max n r m key [] (omega arith) h s

-- With digests of 32 bytes, on a whole tree: behind `add` of a valid key under which `get` finds
-- nothing, `get` gives the new record under that key, and under every other key what it gave
-- before. All three runs succeed and read no block.
pub get-add :
    (r : Reader) (m : Mst) (key : Str) (value : Cid) (other : Str)
    → IsDigest r.sha256
    → IsTree (leading_zeros r.sha256) m
    → ensure_valid_key key ≡ ok tt
    → get r m key [] ≡ ok ((m, none), [])
    → (grown : Mst) × (before : Option Cid) × (add r m key value [] ≡ ok (grown, []))
      × (get r m other [] ≡ ok ((m, before), []))
      × (get r grown other [] ≡ ok ((grown, if str_eq key other then some value else before), []))
get-add r m key value other digest h valid absent =
    let none_at : lookup_leaf key (items m) ≡ none = cc (absent, get-lookup_leaf r m key h) in
    let (grown, runs, whole, same) = add-Added r m key value digest h valid none_at in
    let found =
      ap (lookup_leaf other) same
      ∙ lookup_leaf-insert_leaf other (record_at key value) (items m) none_at in
    (
      grown,
      lookup_leaf other (items m),
      runs,
      get-lookup_leaf r m other h,
      rw (← found) (get-lookup_leaf r grown other whole),
    )

-- With digests of 32 bytes, two records with different valid keys, neither of which a whole tree
-- holds, may be added in either order: both orders succeed, and the two trees hold the same records
-- in the same order.
pub add-add :
    (r : Reader) (m : Mst) (key : Str) (value : Cid) (other : Str) (second : Cid)
    → IsDigest r.sha256
    → IsTree (leading_zeros r.sha256) m
    → ensure_valid_key key ≡ ok tt
    → ensure_valid_key other ≡ ok tt
    → lookup_leaf key (items m) ≡ none
    → lookup_leaf other (items m) ≡ none
    → str_eq key other ≡ false
    → (one : Mst) × (two : Mst) × ((add r m key value >>= λ grown. add r grown other second) []
        ≡ ok (one, []))
      × ((add r m other second >>= λ grown. add r grown key value) [] ≡ ok (two, []))
      × (items one ≡ items two)
add-add r m key value other second digest h valid valid_other absent absent_other different =
    let (g, g_runs, g_whole, g_same) = add-Added r m key value digest h valid absent in
    let (k, k_runs, k_whole, k_same) =
      add-Added r m other second digest h valid_other absent_other in
    let a : Leaf = record_at key value in
    let b : Leaf = record_at other second in
    let g_none : lookup_leaf other (items g) ≡ none =
      ap (lookup_leaf other) g_same
      ∙ lookup_leaf-insert_leaf other a (items m) absent
      ∙ rw (different, absent_other) refl in
    let k_none : lookup_leaf key (items k) ≡ none =
      ap (lookup_leaf key) k_same
      ∙ lookup_leaf-insert_leaf key b (items m) absent_other
      ∙ rw (str_eq_sym other key different, absent) refl in
    let (one, one_runs, _, one_same) =
      add-Added r g other second digest g_whole valid_other g_none in
    let (two, two_runs, _, two_same) = add-Added r k key value digest k_whole valid k_none in
    (
      one,
      two,
      rw g_runs one_runs,
      rw k_runs two_runs,
      one_same
          ∙ ap (insert_leaf b) g_same
          ∙ sym (insert_leaf_comm a b (items m) different)
          ∙ sym (ap (insert_leaf a) k_same)
          ∙ sym two_same,
    )

-- Adding under a valid key that a whole tree holds, on whatever node, is refused as a key that
-- exists.
pub add-taken :
    (r : Reader) (m : Mst) (key : Str) (value held_value : Cid)
    → IsTree (leading_zeros r.sha256) m
    → ensure_valid_key key ≡ ok tt
    → lookup_leaf key (items m) ≡ some held_value
    → add r m key value [] ≡ err (Error.key_exists key)
unfolding add items lookup_leaf
add-taken r _ key value held_value nothing valid found = absurd (cc (found))
add-taken r _ key value held_value (rooted n m le h s) valid found =
    rw valid (insert-taken depth_max n r m key value held_value [] (omega arith) h s found)
