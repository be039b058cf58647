-- ===== src/Repo/Car/Blocks.antt =====
-- Putting the blocks of one map into an empty one gives that map.
use manapds.Prelude.{List, Str, [], ap, arith, false, none, refl, sym, ◌++◌, ◌∙◌, ◌∷◌, ◌≡◌}
use mathlib.Core.List.{append_assoc, append-nil}
use manapds.Prelude.Eq.{Str_eq, str_eq_iff}
use manapds.Prelude.Bytes.{str_eq}
use manapds.Prelude.Map.{lookup, insert, Distinct}
use manapds.Repo.{Cid}
use manapds.Repo.Block.{BlockMap}

unfoldable pub insert_all : List (Cid × Str) → BlockMap → BlockMap
insert_all [] blocks = blocks
insert_all ((cid, bytes) ∷ more) blocks = insert_all more (insert cid bytes blocks)

insert-last :
    (cid : Cid) (bytes : Str) (blocks : BlockMap)
    → lookup cid blocks ≡ none
    → insert cid bytes blocks ≡ blocks ++ ((cid, bytes) ∷ [])
unfolding insert lookup
insert-last cid bytes [] absent = refl
insert-last cid bytes ((next, held) ∷ blocks) absent =
    let apart : str_eq next cid ≡ false = ground arith in
    let later : lookup cid blocks ≡ none = ground arith in
    rw apart (ap (λ rest. (next, held) ∷ rest) (insert-last cid bytes blocks later))

lookup-append :
    (key : Cid) (front back : BlockMap)
    → lookup key front ≡ none
    → lookup key (front ++ back) ≡ lookup key back
unfolding lookup
lookup-append key [] back absent = refl
lookup-append key ((cid, bytes) ∷ front) back absent = ground (arith, lookup-append key front back)

-- No key of one map is in the other.
abbrev Apart : List (Cid × Str) → BlockMap → Type 0
Apart [] blocks = Unit
Apart ((cid, bytes) ∷ more) blocks = (lookup cid blocks ≡ none) × Apart more blocks

Apart-nil : (more : List (Cid × Str)) → Apart more []
unfolding lookup
Apart-nil [] = tt
Apart-nil ((cid, bytes) ∷ more) = (refl, Apart-nil more)

Apart-last :
    (cid : Cid) (bytes : Str) (more : List (Cid × Str)) (blocks : BlockMap)
    → lookup cid more ≡ none
    → Apart more blocks
    → Apart more (blocks ++ ((cid, bytes) ∷ []))
unfolding lookup
Apart-last cid bytes [] blocks absent apart = tt
Apart-last cid bytes ((next, held) ∷ more) blocks absent apart =
    let other : str_eq next cid ≡ false = ground arith in
    let other' : str_eq cid next ≡ false =
      ground (arith, str_eq_iff next cid, str_eq_iff cid next) in
    let later : lookup cid more ≡ none = ground arith in
    (
      lookup-append next blocks ((cid, bytes) ∷ []) apart.0 ∙ rw other' refl,
      Apart-last cid bytes more blocks later apart.1,
    )

insert_all-append :
    (more : List (Cid × Str)) (blocks : BlockMap)
    → Distinct more
    → Apart more blocks
    → insert_all more blocks ≡ blocks ++ more
unfolding insert_all
insert_all-append [] blocks d apart = sym (append-nil blocks)
insert_all-append ((cid, bytes) ∷ more) blocks d apart =
    ap (insert_all more) (insert-last cid bytes blocks apart.0)
    ∙ insert_all-append more (blocks ++ ((cid, bytes) ∷ [])) d.1
        (Apart-last cid bytes more blocks d.0 apart.1)
    ∙ append_assoc blocks ((cid, bytes) ∷ []) more

pub insert_all-nil : (blocks : BlockMap) → Distinct blocks → insert_all blocks [] ≡ blocks
insert_all-nil blocks d = insert_all-append blocks [] d (Apart-nil blocks)
