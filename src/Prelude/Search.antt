-- ===== src/Prelude/Search.antt =====
-- Rust's search of a sorted slice of texts, and the sort and the `dedup` that make one.
pub mod Found
pub mod Sorted
use manapds.Prelude.Bytes.{str_eq, str_lt, is_empty}
use manapds.Prelude.{
  ◌-◌, ◌/◌, List, Str, ℕ, Bool, Option, ◌∷◌, All, [], false, get_elem?, if◌then◌else◌, some, suc,
  ◌/◌, drop, length, ltb, none, ◌||◌, ◌≡◌, true, zero,
}

-- `contains` on a list of texts
abbrev pub mem : Str → List Str → Bool
mem key [] = false
mem key (name ∷ names) = str_eq name key || mem key names

-- Each is before all that follow.
abbrev pub Ascending : List Str → Type 0
Ascending [] = Unit
Ascending (name ∷ names) = All (λ later. str_lt name later ≡ true) names × Ascending names

is_after : Str → Option Str → Bool
is_after key none = false
is_after key (some name) = str_lt key name

is_at : Str → Option Str → Bool
is_at key none = false
is_at key (some name) = str_eq name key

-- The loop of `binary_search` over the `size` names from its `base`, which the list starts at. A round
-- leaves fewer than there were, so `size` rounds are enough.
search : ℕ → ℕ → List Str → Str → Bool
search zero size names key = is_at key (get_elem? names 0)
search (suc rounds) size names key =
    let half = size / 2 in
    let names' = if is_after key (get_elem? names half) then names else drop half names in
    let found = search rounds (size - half) names' key in
    if ltb 1 size then found else is_at key (get_elem? names 0)

-- `binary_search(..).is_ok()`
unfoldable pub binary_search : List Str → Str → Bool
unfolding search is_after is_at
binary_search names key =
    if is_empty names then false else search (length names) (length names) names key

-- `sort`
unfoldable pub insert_sorted : Str → List Str → List Str
insert_sorted x [] = x ∷ []
insert_sorted x (y ∷ ys) = if str_lt y x then y ∷ insert_sorted x ys else x ∷ y ∷ ys

unfoldable pub sort : List Str → List Str
unfolding insert_sorted
sort [] = []
sort (x ∷ xs) = insert_sorted x (sort xs)

-- `dedup`: one of each run of equals
unfoldable pub dedup_behind : Str → List Str → List Str
dedup_behind x [] = []
dedup_behind x (y ∷ ys) = if str_eq x y then dedup_behind x ys else y ∷ dedup_behind y ys

unfoldable pub dedup : List Str → List Str
unfolding dedup_behind
dedup [] = []
dedup (x ∷ xs) = x ∷ dedup_behind x xs
