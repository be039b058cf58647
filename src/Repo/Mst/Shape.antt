-- ===== src/Repo/Mst/Shape.antt =====
-- How the shape of a node's entries passes to its parts and to what is built from them.
use mathlib.Core.List.{append-nil}
use manapds.Prelude.{
  All, Bool, List, Option, Str, [], ap, false, none, refl, some, suc, true, ℕ, ◌++◌, ◌∙◌, ◌∷◌, ◌≡◌,
}
use manapds.Prelude.Bytes.{is_empty}
use manapds.Repo.Mst.{Leaf, Mst, Entry, leaf, tree, from_entries}
use manapds.Repo.Mst.Node.{held}
use manapds.Repo.Mst.Edit.{pop_tree, node_of, tree_of}
use manapds.Repo.Mst.Items.{items, flat, items-held, to_list-from_list}
use manapds.Repo.Mst.Spot.{Alternates}
use manapds.Repo.Mst.Layered.{Layered, EntryAt, Under, by-Layered}

pub Alternates-front : (b : Bool) (xs ys : List Entry) → Alternates b (xs ++ ys) → Alternates b xs
Alternates-front b [] ys h = tt
Alternates-front b (leaf a ∷ xs) ys h = Alternates-front false xs ys h
Alternates-front b (tree m ∷ xs) ys h = (h.0, Alternates-front true xs ys h.1)

pub Alternates-weaken : (b : Bool) (es : List Entry) → Alternates true es → Alternates b es
Alternates-weaken b [] h = tt
Alternates-weaken b (leaf a ∷ es) h = h
Alternates-weaken b (tree m ∷ es) h = absurd (cc (h.0))

pub Alternates-back :
    (b : Bool) (xs ys : List Entry) → Alternates b (xs ++ ys) → Alternates false ys
Alternates-back true [] ys h = Alternates-weaken false ys h
Alternates-back false [] ys h = h
Alternates-back b (leaf a ∷ xs) ys h = Alternates-back false xs ys h
Alternates-back b (tree m ∷ xs) ys h = Alternates-back true xs ys h.1

pub Alternates-behind :
    (b : Bool) (xs : List Entry) (m : Mst) (ys : List Entry)
    → Alternates b (xs ++ tree m ∷ ys)
    → Alternates true ys
Alternates-behind b [] m ys h = h.1
Alternates-behind b (leaf a ∷ xs) m ys h = Alternates-behind false xs m ys h
Alternates-behind b (tree n ∷ xs) m ys h = Alternates-behind true xs m ys h.1

-- Where a subtree may stand, a leaf may, and so may another subtree with what can follow it.
pub Alternates-swap :
    (b : Bool) (xs : List Entry) (m n : Mst) (ys zs : List Entry)
    → Alternates b (xs ++ tree m ∷ ys)
    → Alternates true zs
    → Alternates b (xs ++ tree n ∷ zs)
Alternates-swap b [] m n ys zs h k = (h.0, k)
Alternates-swap b (leaf a ∷ xs) m n ys zs h k = Alternates-swap false xs m n ys zs h k
Alternates-swap b (tree t ∷ xs) m n ys zs h k = (h.0, Alternates-swap true xs m n ys zs h.1 k)

pub Alternates-leaf :
    (b : Bool) (xs : List Entry) (a : Leaf) (ys : List Entry)
    → Alternates b xs
    → Alternates false ys
    → Alternates b (xs ++ leaf a ∷ ys)
Alternates-leaf b [] a ys h k = k
Alternates-leaf b (leaf c ∷ xs) a ys h k = Alternates-leaf false xs a ys h k
Alternates-leaf b (tree t ∷ xs) a ys h k = (h.0, Alternates-leaf true xs a ys h.1 k)

pub Alternates-tree_of :
    (b : Bool) (o : Option Mst) (ys : List Entry)
    → Alternates true ys
    → Alternates false (tree_of o ++ ys)
Alternates-tree_of b none ys h = Alternates-weaken false ys h
Alternates-tree_of b (some m) ys h = (refl, h)

-- `xs` with a subtree or nothing in the place of the subtree `m`.
pub Alternates-tree_of_back :
    (b : Bool) (xs : List Entry) (m : Mst) (ys : List Entry) (o : Option Mst)
    → Alternates b (xs ++ tree m ∷ ys)
    → Alternates b (xs ++ tree_of o)
Alternates-tree_of_back b xs m ys none h = rw append-nil (Alternates-front b xs (tree m ∷ ys) h)
Alternates-tree_of_back b xs m ys (some n) h = Alternates-swap b xs m n ys [] h tt

pub pop_tree-append : (xs : List Entry) (m : Mst) → pop_tree (xs ++ tree m ∷ []) ≡ some (xs, m)
unfolding pop_tree
pop_tree-append [] m = refl
pop_tree-append (leaf a ∷ []) m = refl
pop_tree-append (tree t ∷ []) m = refl
pop_tree-append (leaf a ∷ x ∷ xs) m = rw (pop_tree-append (x ∷ xs) m)
pop_tree-append (tree t ∷ x ∷ xs) m = rw (pop_tree-append (x ∷ xs) m)

-- The records of a half.
abbrev pub half_items : Option Mst → List Leaf
half_items none = []
half_items (some m) = items m

pub flat-tree_of : (o : Option Mst) → flat (tree_of o) ≡ half_items o
unfolding flat
flat-tree_of none = refl
flat-tree_of (some m) = append-nil (items m)

abbrev pub HalfAt : (Str → ℕ) → ℕ → Option Mst → Type 0
HalfAt z n none = Unit
HalfAt z n (some m) = Layered z n m × (is_empty (held m) ≡ false)

pub items-from_entries : (es : List Entry) (l : Option ℕ) → items (from_entries es l) ≡ flat es
items-from_entries es l = items-held (from_entries es l) ∙ ap flat (to_list-from_list es)

pub half_items-node_of : (es : List Entry) (l : Option ℕ) → half_items (node_of es l) ≡ flat es
unfolding flat
half_items-node_of [] l = refl
half_items-node_of (e ∷ es) l = items-from_entries (e ∷ es) l

pub from_entries-Layered :
    (z : Str → ℕ) (n : ℕ) (es : List Entry)
    → Alternates false es
    → All (EntryAt z n (Under z n)) es
    → Layered z n (from_entries es (some n))
from_entries-Layered z n es alt at = by-Layered z n (record {
  is_loaded = tt;
  knows = refl;
  alternates = rw (to_list-from_list es) alt;
  entries_at = rw (to_list-from_list es) at;
})

pub node_of-HalfAt :
    (z : Str → ℕ) (n : ℕ) (es : List Entry)
    → Alternates false es
    → All (EntryAt z n (Under z n)) es
    → HalfAt z n (node_of es (some n))
node_of-HalfAt z n [] alt at = tt
node_of-HalfAt z n (e ∷ es) alt at = (from_entries-Layered z n (e ∷ es) alt at, refl)

pub All-tree_of :
    (z : Str → ℕ) (n : ℕ) (o : Option Mst)
    → HalfAt z n o
    → All (EntryAt z (suc n) (Under z (suc n))) (tree_of o)
All-tree_of z n none h = tt
All-tree_of z n (some m) h = (h, tt)
