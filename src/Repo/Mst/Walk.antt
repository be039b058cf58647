-- ===== src/Repo/Mst/Walk.antt =====
-- src/repo/mst.rs: a cursor over a tree (`Walker`), which steps past a subtree or down into it, and what
-- one revision put in and took out (`Diff`). The first level of the stack is the one it ends at.
use manapds.Prelude.{
  List, Option, [], ◌∷◌, none, some, suc, ℕ, get_elem?, if◌then◌else◌, set, ◌+◌, leb, ltb, length,
}
use manapds.Prelude.Bytes.{Str, str_eq, str_lt}
use manapds.Prelude.Result.{Result, ok, err, ◌>>=◌}
use manapds.Repo.{Cid, Error}
use manapds.Repo.Mst.{Mst, Entry, leaf, tree, Reader, depth_max}
use manapds.Repo.Mst.Node.{is_seen, fill, held, root_in}
use manapds.Repo.Mst.Layer.{layer}

-- Sets of CIDs, in the order of their bytes.
unfoldable pub set_insert : Cid → List Cid → List Cid
set_insert cid [] = cid ∷ []
set_insert cid (c ∷ cs) =
    if str_eq cid c then c ∷ cs else if str_lt cid c then cid ∷ c ∷ cs else c ∷ set_insert cid cs

unfoldable pub set_remove : Cid → List Cid → List Cid
set_remove cid [] = []
set_remove cid (c ∷ cs) = if str_eq cid c then cs else c ∷ set_remove cid cs

pub record Diff : Type 0 where
  pub added : List Cid
  pub removed : List Cid

unfoldable pub diff_add : Cid → Diff → Diff
diff_add cid d =
    if is_seen cid d.removed
    then record d { removed = set_remove cid d.removed }
    else record d { added = set_insert cid d.added }

unfoldable pub diff_remove : Cid → Diff → Diff
diff_remove cid d =
    if is_seen cid d.added
    then record d { added = set_remove cid d.added }
    else record d { removed = set_insert cid d.removed }

pub data At : Type 0 where
  at_leaf : At
  at_tree : At

pub data Cursor : Type 0 where
  root : Mst → Cursor
  node : Cursor
  done : Cursor

pub record Level : Type 0 where
  pub entries : List Entry
  pub index : ℕ
  pub height : ℕ

-- `seen` is the one of the walker's own reader.
pub record Walker : Type 0 where
  pub seen : List Cid
  pub stack : List Level
  pub cursor : Cursor
  pub above : ℕ

-- `Level::of`, with the node as reading left it, and the reader's state.
unfoldable pub level_of : Reader → Mst → List Cid → Result Error (Mst × Level × List Cid)
level_of r m seen = do
  ((m, height), seen) ← layer depth_max r m seen
  (m, seen) ← fill r m seen
  ok (m, record { entries = held m; index = 0; height = height }, seen)

unfoldable pub walker : Reader → Mst → Result Error Walker
walker r m = do
  ((m, height), seen) ← layer depth_max r m []
  ok (record { seen = seen; stack = []; cursor = root m; above = height + 1 })

unfoldable pub entry_in : List Level → Option Entry
entry_in [] = none
entry_in (l ∷ ls) = get_elem? l.entries l.index

abbrev pub kind_of : Option Entry → Option At
kind_of none = none
kind_of (some (leaf _)) = some at_leaf
kind_of (some (tree _)) = some at_tree

unfoldable pub at : Walker → Option At
at w = elim w.cursor [ root _ ↦ some at_tree | node ↦ kind_of (entry_in w.stack) | done ↦ none ]

abbrev key_of : Option Entry → Option Str
key_of none = none
key_of (some (leaf a)) = some a.key
key_of (some (tree _)) = none

unfoldable pub key : Walker → Option Str
key w = key_of (entry_in w.stack)

abbrev height_of : ℕ → List Level → ℕ
height_of above [] = above
height_of above (l ∷ ls) = l.height

unfoldable pub height : Walker → ℕ
height w = height_of w.above w.stack

abbrev past_end {ℓ} : {A : Type ℓ} → Result Error A
past_end = err (Error.malformed_node "a walk past its last entry")

abbrev in_no_node {ℓ} : {A : Type ℓ} → Result Error A
in_no_node = err (Error.malformed_node "a walk inside no node")

-- The entry of the level that the stack ends at, put back.
abbrev put_entry : Level → List Level → Entry → List Level
put_entry l ls e = record l { entries = set l.entries l.index e } ∷ ls

unfoldable pub cid_at : Reader → Walker → List Level → Result Error (Walker × Cid)
cid_at r w [] = in_no_node
cid_at r w (l ∷ ls) = elim (get_elem? l.entries l.index) [
  | none ↦ past_end
  | some e ↦ elim e [
    | leaf a ↦ ok (w, a.value)
    | tree m ↦ do
      ((m, cid), seen) ← root_in depth_max r m w.seen
      ok (record w { seen = seen; stack = put_entry l ls (tree m) }, cid)
  ]
]

unfoldable pub cid : Reader → Walker → Result Error (Walker × Cid)
cid r w = elim w.cursor [
  | root m ↦ do
    ((m, c), seen) ← root_in depth_max r m w.seen
    ok (record w { seen = seen; cursor = root m }, c)
  | done ↦ past_end
  | node ↦ cid_at r w w.stack
]

-- The loop of `step_over`: the levels that are left, none where the walk is over.
unfoldable pub pop_levels : List Level → List Level
pop_levels [] = []
pop_levels (l ∷ ls) =
    let rest = pop_levels ls in
    if ltb (suc l.index) (length l.entries) then record l { index = suc l.index } ∷ ls else rest

abbrev cursor_on : List Level → Cursor
cursor_on [] = done
cursor_on (_ ∷ _) = node

unfoldable pub step_over : Walker → Walker
step_over w = elim w.cursor [
  | done ↦ w
  | root _ ↦ record w { cursor = done }
  | node ↦ let stack = pop_levels w.stack in record w { stack = stack; cursor = cursor_on stack }
]

-- The new level on the stack; an empty one is stepped past at once.
unfoldable pub enter : Walker → Level → Walker
enter w l =
    let inside : Walker = record w { stack = l ∷ w.stack; cursor = node } in
    elim (entry_in inside.stack) [ none ↦ step_over inside | some _ ↦ inside ]

unfoldable pub into_entry : Reader → Walker → List Level → Result Error Walker
into_entry r w [] = in_no_node
into_entry r w (l ∷ ls) = elim (get_elem? l.entries l.index) [
  | none ↦ err (Error.malformed_node "a walk stepping into a leaf")
  | some e ↦ elim e [
    | leaf _ ↦ err (Error.malformed_node "a walk stepping into a leaf")
    | tree m ↦ do
      (m, level, seen) ← level_of r m w.seen
      ok (enter (record w { seen = seen; stack = put_entry l ls (tree m) }) level)
  ]
]

unfoldable pub step_into : Reader → Walker → Result Error Walker
step_into r w =
    if leb depth_max (length w.stack)
    then err (Error.malformed_node "a tree deeper than its keys allow")
    else elim w.cursor [
      | done ↦ ok w
      | root m ↦ do
        (m, level, seen) ← level_of r m w.seen
        ok (enter (record w { seen = seen; cursor = root m }) level)
      | node ↦ into_entry r w w.stack
    ]

unfoldable pub advance : Reader → Walker → Result Error Walker
advance r w = elim (at w) [
  | none ↦ step_into r w
  | some here ↦ elim here [ at_leaf ↦ ok (step_over w) | at_tree ↦ step_into r w ]
]
