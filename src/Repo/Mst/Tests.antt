-- ===== src/Repo/Mst/Tests.antt =====
-- The theorems on trees at a small tree in memory.
use manapds.Prelude.{List, ◌∷◌, refl, [], none, Option, arith, some, ◌++◌, ◌≡◌, ◌≤◌, if◌then◌else◌}
use manapds.Prelude.Bytes.{codes, str_eq}
use manapds.Prelude.Result.{ok, err}
use manapds.Repo.{Cid, Error}
use manapds.Repo.Mst.{◌>>=◌, Mst, Leaf, tree}
use manapds.Repo.Mst.Key.{
  leading_zeros_in, leading_zeros8, is_path_of, is_key_byte, leading_zeros, ensure_valid_key,
}
use manapds.Repo.Mst.Items.{insert_leaf, replace_leaf, items, lookup_leaf}
use manapds.Repo.Mst.Insert.{record_at}
use manapds.Repo.Mst.Find.{get}
use manapds.Repo.Mst.Edit.{add, update}
use manapds.Repo.Mst.Path.{ensure_valid_key-write}
use manapds.Syntax.Nsid
use manapds.Syntax.RecordKey
use manapds.Repo.Mst.Node.{held}
use manapds.Repo.Mst.Delete.{delete}
use manapds.Repo.Mst.Emptied.{lone, add-behind_delete}
use manapds.Repo.Mst.Revised.{update-Updated, update-missing, get-update}
use manapds.Repo.Mst.Samples.{digest, digest-IsDigest, reader, top, top-IsTree}
use manapds.Repo.Mst.Whole.{IsTree, add-Added, get-lookup_leaf, get-add, add-add, add-taken}

c_valid : ensure_valid_key (codes "c/c") ≡ ok tt
unfolding ensure_valid_key is_path_of is_key_byte
c_valid = refl

b_valid : ensure_valid_key (codes "c/b") ≡ ok tt
unfolding ensure_valid_key is_path_of is_key_byte
b_valid = refl

zz_valid : ensure_valid_key (codes "c/zz") ≡ ok tt
unfolding ensure_valid_key is_path_of is_key_byte
zz_valid = refl

c_absent : lookup_leaf (codes "c/c") (items top) ≡ none
unfolding lookup_leaf items
c_absent = refl

zz_absent : lookup_leaf (codes "c/zz") (items top) ≡ none
unfolding lookup_leaf items
zz_absent = refl

b_held : lookup_leaf (codes "c/b") (items top) ≡ some (codes "one")
unfolding lookup_leaf items
b_held = refl

add-Added_example :
    (grown : Mst) × (add reader top (codes "c/c") (codes "three") [] ≡ ok (grown, []))
    × IsTree (leading_zeros digest) grown
    × (items grown ≡ insert_leaf (record_at (codes "c/c") (codes "three")) (items top))
add-Added_example =
    add-Added reader top (codes "c/c") (codes "three") digest-IsDigest top-IsTree c_valid c_absent

get-lookup_leaf_example :
    get reader top (codes "c/b") [] ≡ ok ((top, lookup_leaf (codes "c/b") (items top)), [])
get-lookup_leaf_example = get-lookup_leaf reader top (codes "c/b") top-IsTree

c_not_found : get reader top (codes "c/c") [] ≡ ok ((top, none), [])
unfolding lookup_leaf items
c_not_found = (get-lookup_leaf reader top (codes "c/c") top-IsTree)

get-add_example :
    (grown : Mst) × (before : Option Cid) × (add reader top (codes "c/c") (codes "three") []
      ≡ ok (grown, []))
    × (get reader top (codes "c/b") [] ≡ ok ((top, before), []))
    × (get reader grown (codes "c/b") []
        ≡ ok (
          (grown, if str_eq (codes "c/c") (codes "c/b") then some (codes "three") else before),
          [],
        ))
get-add_example =
    get-add reader top (codes "c/c") (codes "three") (codes "c/b") digest-IsDigest top-IsTree
      c_valid c_not_found

add-add_example :
    (one : Mst) × (two : Mst) × ((add reader top (codes "c/c") (codes "x") >>= λ grown.
    add reader grown (codes "c/zz") (codes "y"))
        []
      ≡ ok (one, []))
    × ((add reader top (codes "c/zz") (codes "y") >>= λ grown.
            add reader grown (codes "c/c") (codes "x"))
          []
        ≡ ok (two, []))
    × (items one ≡ items two)
add-add_example =
    add-add reader top (codes "c/c") (codes "x") (codes "c/zz") (codes "y") digest-IsDigest
      top-IsTree c_valid zz_valid c_absent zz_absent refl

add-taken_example :
    add reader top (codes "c/b") (codes "x") [] ≡ err (Error.key_exists (codes "c/b"))
add-taken_example =
    add-taken reader top (codes "c/b") (codes "x") (codes "one") top-IsTree b_valid b_held

update-Updated_example :
    (changed : Mst) × (update reader top (codes "c/b") (codes "x") [] ≡ ok (changed, []))
    × IsTree (leading_zeros digest) changed
    × (items changed ≡ replace_leaf (record_at (codes "c/b") (codes "x")) (items top))
update-Updated_example =
    update-Updated reader top (codes "c/b") (codes "x") (codes "one") top-IsTree b_valid b_held

update-missing_example :
    update reader top (codes "c/c") (codes "x") [] ≡ err (Error.key_missing (codes "c/c"))
update-missing_example =
    update-missing reader top (codes "c/c") (codes "x") top-IsTree c_valid c_absent

b_found : get reader top (codes "c/b") [] ≡ ok ((top, some (codes "one")), [])
unfolding lookup_leaf items
b_found = (get-lookup_leaf reader top (codes "c/b") top-IsTree)

get-update_example :
    (changed : Mst) × (before : Option Cid) × (update reader top (codes "c/b") (codes "x") []
      ≡ ok (changed, []))
    × (get reader top (codes "c/z") [] ≡ ok ((top, before), []))
    × (get reader changed (codes "c/z") []
        ≡ ok (
          (changed, if str_eq (codes "c/b") (codes "c/z") then some (codes "x") else before),
          [],
        ))
get-update_example =
    get-update reader top (codes "c/b") (codes "x") (codes "one") (codes "c/z") top-IsTree b_valid
      b_found

collection_parses :
    Nsid.parse (codes "app.test.post") ≡ ok (record { text = codes "app.test.post" })
unfolding Nsid.parse Nsid.validate Nsid.validate_segments Nsid.validate_segment
collection_parses = refl

rkey_parses : RecordKey.parse (codes "3jui~_:") ≡ ok (record { text = codes "3jui~_:" })
unfolding RecordKey.parse RecordKey.validate RecordKey.is_allowed
rkey_parses = refl

ensure_valid_key-write_example :
    ensure_valid_key (codes "app.test.post" ++ b'/' ∷ codes "3jui~_:") ≡ ok tt
ensure_valid_key-write_example =
    ensure_valid_key-write (codes "app.test.post") (codes "3jui~_:")
      (record { text = codes "app.test.post" }) (record { text = codes "3jui~_:" })
      collection_parses rkey_parses

-- One record as it was, one changed, one let go of, and one new.
abbrev rows : List Leaf
rows =
    record_at (codes "c/a") (codes "1")
    ∷ record_at (codes "c/b") (codes "2")
    ∷ record_at (codes "c/c") (codes "3")
    ∷ []

abbrev new_rows : List Leaf
new_rows =
    record_at (codes "c/a") (codes "1")
    ∷ record_at (codes "c/b") (codes "4")
    ∷ record_at (codes "c/d") (codes "5")
    ∷ []

c_on_0 : leading_zeros digest (codes "c/c") ≤ 0
unfolding leading_zeros leading_zeros_in leading_zeros8
c_on_0 = omega arith

add-behind_delete_example :
    (grown : Mst) × (under : Mst) × ((delete reader
            (lone (record_at (codes "c/z") (codes "two")) 1)
            (codes "c/z")
          >>= λ left. add reader left (codes "c/c") (codes "three"))
        []
      ≡ ok (grown, []))
    × (held grown ≡ tree under ∷ [])
    × (items grown ≡ record_at (codes "c/c") (codes "three") ∷ [])
add-behind_delete_example =
    add-behind_delete reader (record_at (codes "c/z") (codes "two")) 0 (codes "c/c") (codes "three")
      (omega arith) c_on_0 c_valid
