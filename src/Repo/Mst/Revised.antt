-- ===== src/Repo/Mst/Revised.antt =====
-- Whole trees: what `update` does on them.
use manapds.Prelude.{refl, Str, some, none, arith, ◌≡◌, [], Option, if◌then◌else◌, ap, ◌∙◌}
use manapds.Prelude.Bytes.{str_eq}
use manapds.Prelude.Result.{err, ok}
use manapds.Repo.{Cid, Error}
use manapds.Repo.Mst.{Mst, Reader, depth_max}
use manapds.Repo.Mst.Key.{leading_zeros, ensure_valid_key}
use manapds.Repo.Mst.Find.{get}
use manapds.Repo.Mst.Node.{fill, index_of, position_of}
use manapds.Repo.Mst.Edit.{update, update_in, update_here, update_under}
use manapds.Repo.Mst.Items.{items, replace_leaf, lookup_leaf}
use manapds.Repo.Mst.Insert.{record_at}
use manapds.Repo.Mst.Update.{update_in-Updates, update_in-missing}
use manapds.Repo.Mst.Records.{Sorted-replace_leaf, lookup_leaf-replace_leaf}
use manapds.Repo.Mst.Whole.{IsTree, nothing, rooted, get-lookup_leaf}

-- Updating a valid key that a whole tree holds succeeds. It reads no block and gives a whole tree
-- again, which holds the same records but for the one under the key.
pub update-Updated :
    (r : Reader) (m : Mst) (key : Str) (value held_value : Cid)
    → IsTree (leading_zeros r.sha256) m
    → ensure_valid_key key ≡ ok tt
    → lookup_leaf key (items m) ≡ some held_value
    → (changed : Mst) × (update r m key value [] ≡ ok (changed, []))
      × IsTree (leading_zeros r.sha256) changed
      × (items changed ≡ replace_leaf (record_at key value) (items m))
unfolding update items lookup_leaf
update-Updated r _ key value held_value nothing valid found = absurd (cc (found))
update-Updated r _ key value held_value (rooted n m le h s) valid found =
    let u =
      update_in-Updates (leading_zeros r.sha256) depth_max n r m key value held_value []
        (omega arith) valid h s found in
    let sorted = Sorted-replace_leaf (record_at key value) (items m) s in
    (u.changed, u.runs, rooted n u.changed le u.layered (rw (u.records_are) sorted), u.records_are)

-- Updating a valid key that a whole tree does not hold is refused as a key that is missing.
pub update-missing :
    (r : Reader) (m : Mst) (key : Str) (value : Cid)
    → IsTree (leading_zeros r.sha256) m
    → ensure_valid_key key ≡ ok tt
    → lookup_leaf key (items m) ≡ none
    → update r m key value [] ≡ err (Error.key_missing key)
unfolding update update_in update_here update_under index_of fill position_of
update-missing r _ key value nothing valid absent = rw valid refl
update-missing r _ key value (rooted n m le h s) valid absent =
    update_in-missing (leading_zeros r.sha256) depth_max n r m key value [] (omega arith) valid h s
      absent

-- On a whole tree, behind `update` of a valid key under which `get` finds a record, `get` gives the
-- new record under that key, and under every other key what it gave before. All three runs succeed
-- and read no block.
pub get-update :
    (r : Reader) (m : Mst) (key : Str) (value held_value : Cid) (other : Str)
    → IsTree (leading_zeros r.sha256) m
    → ensure_valid_key key ≡ ok tt
    → get r m key [] ≡ ok ((m, some held_value), [])
    → (changed : Mst) × (before : Option Cid) × (update r m key value [] ≡ ok (changed, []))
      × (get r m other [] ≡ ok ((m, before), []))
      × (get r changed other []
          ≡ ok ((changed, if str_eq key other then some value else before), []))
get-update r m key value held_value other h valid found =
    let held_at : lookup_leaf key (items m) ≡ some held_value =
      cc (found, get-lookup_leaf r m key h) in
    let (changed, runs, whole, same) = update-Updated r m key value held_value h valid held_at in
    let then_found =
      ap (lookup_leaf other) same
      ∙ lookup_leaf-replace_leaf other (record_at key value) (items m) held_value held_at in
    (
      changed,
      lookup_leaf other (items m),
      runs,
      get-lookup_leaf r m other h,
      rw (← then_found) (get-lookup_leaf r changed other whole),
    )
