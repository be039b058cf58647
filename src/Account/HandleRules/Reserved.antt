-- ===== src/Account/HandleRules/Reserved.antt =====
-- src/account/handle/reserved.rs: the names held back from anyone who signs up, and the check of their
-- order that the compiler makes. The list is in seven parts.
mod NamesA
mod NamesB
mod NamesC
mod NamesD
mod NamesE
mod NamesF
mod NamesG
use manapds.Prelude.{
  Bool, List, Str, [], arith, false, if◌then◌else◌, ltb, refl, sym, true, ◌&&◌, ◌++◌, ◌+◌, ◌-◌,
  ◌==◌, ◌∙◌, ◌∷◌, ◌≡◌,
}
use manapds.Prelude.Bytes.{str_lt, str_eq}
use manapds.Prelude.Search.{binary_search, mem, Ascending}
use manapds.Prelude.Search.Found.{All-lt, binary_search-mem}
use manapds.Account.HandleRules.Reserved.NamesA.{names_a}
use manapds.Account.HandleRules.Reserved.NamesB.{names_b}
use manapds.Account.HandleRules.Reserved.NamesC.{names_c}
use manapds.Account.HandleRules.Reserved.NamesD.{names_d}
use manapds.Account.HandleRules.Reserved.NamesE.{names_e}
use manapds.Account.HandleRules.Reserved.NamesF.{names_f}
use manapds.Account.HandleRules.Reserved.NamesG.{names_g}

unfoldable pub reserved_names : List Str
unfolding names_a names_b names_c names_d names_e names_f names_g
reserved_names = names_a ++ (names_b ++ (names_c ++ (names_d ++ (names_e ++ (names_f ++ names_g)))))

-- The loop of `before` over the bytes of both.
unfoldable pub before : Str → Str → Bool
before (l ∷ left) (r ∷ right) = if l == r then before left right else ltb l r
before [] (r ∷ right) = true
before [] [] = false
before (l ∷ left) [] = false

unfoldable pub ordered : List Str → Bool
unfolding before
ordered [] = true
ordered (name ∷ []) = true
ordered (name ∷ next ∷ names) = before name next && ordered (next ∷ names)

unfoldable pub is_held : Str → Bool
is_held name = binary_search reserved_names name

before-str_lt : (left right : Str) → before left right ≡ str_lt left right
unfolding before
before-str_lt [] [] = refl
before-str_lt [] (r ∷ right) = refl
before-str_lt (l ∷ left) [] = refl
before-str_lt (l ∷ left) (r ∷ right) = ground (arith, before-str_lt left right)

ordered-Ascending : (names : List Str) → ordered names ≡ true → Ascending names
unfolding ordered
ordered-Ascending [] h = tt
ordered-Ascending (name ∷ []) h = (tt, tt)
ordered-Ascending (name ∷ next ∷ names) h =
    let first : before name next ≡ true = ground arith in
    let rest : ordered (next ∷ names) ≡ true = ground arith in
    let less : str_lt name next ≡ true = sym (before-str_lt name next) ∙ first in
    let sorted = ordered-Ascending (next ∷ names) rest in
    ((less, All-lt name next names less sorted.0), sorted)

-- The assertion that the compiler makes on the list.
names_in_order : ordered reserved_names ≡ true
unfolding ordered reserved_names
names_in_order = refl

-- The binary search of the list of reserved names finds just the names that stand in it.
pub is_held-mem : (name : Str) → is_held name ≡ mem name reserved_names
unfolding is_held
is_held-mem name =
    binary_search-mem reserved_names name (ordered-Ascending reserved_names names_in_order)
