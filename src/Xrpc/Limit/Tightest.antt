-- ===== src/Xrpc/Limit/Tightest.antt =====
-- The reading that the caller is held to is a least one, and refuses if any refuses.
use manapds.Prelude.{
  All, List, [], arith, false, if◌then◌else◌, ◌∷◌, ◌≡◌, inl, true, some, inr, ◌≤◌, ◌⊎◌, refl, Bool,
}
use mathlib.Core.Path.{subst}
use manapds.Xrpc.Limit.{tightest, Reading, reads_before, tightest_from}

-- `a` is held to no later than `b`: a budget that is gone first, then the least left.
abbrev pub NotAfter : Reading → Reading → Type 0
NotAfter a b = reads_before b a ≡ false

NotAfter-trans : (a b c : Reading) → NotAfter a b → NotAfter b c → NotAfter a c
unfolding reads_before
NotAfter-trans a b c h k = ground arith

NotAfter-refl : (a : Reading) → NotAfter a a
unfolding reads_before
NotAfter-refl a = ground arith

NotAfter-pick :
    (best r : Reading)
    → NotAfter (if reads_before r best then r else best) best
      × NotAfter (if reads_before r best then r else best) r
unfolding reads_before
NotAfter-pick best r = ground arith

tightest_from-NotAfter :
    (best : Reading) (rs : List Reading)
    → NotAfter (tightest_from best rs) best × All (NotAfter (tightest_from best rs)) rs
unfolding tightest_from
tightest_from-NotAfter best [] = (NotAfter-refl best, tt)
tightest_from-NotAfter best (r ∷ rs) =
    let next : Reading = if reads_before r best then r else best in
    let (first, rest) = tightest_from-NotAfter next rs in
    let (p, q) = NotAfter-pick best r in
    (
      NotAfter-trans (tightest_from next rs) next best first p,
      (NotAfter-trans (tightest_from next rs) next r first q, rest),
    )

-- One of a list.
abbrev pub IsIn : Reading → List Reading → Type 0
IsIn r [] = ⊥
IsIn r (x ∷ xs) = (r ≡ x) ⊎ IsIn r xs

IsIn-pick :
    (b : Bool) {x best r : Reading} (rs : List Reading)
    → IsIn x ((if b then r else best) ∷ rs)
    → IsIn x (best ∷ r ∷ rs)
IsIn-pick true rs h = inr h
IsIn-pick false rs (inl e) = inl e
IsIn-pick false rs (inr later) = inr (inr later)

tightest_from-IsIn : (best : Reading) (rs : List Reading) → IsIn (tightest_from best rs) (best ∷ rs)
unfolding tightest_from
tightest_from-IsIn best [] = inl refl
tightest_from-IsIn best (r ∷ rs) =
    IsIn-pick (reads_before r best) rs
      (tightest_from-IsIn (if reads_before r best then r else best) rs)

-- `b` refuses only if `a` does, and has no less left where both do or neither does.
abbrev pub AtLeastAsTight : Reading → Reading → Type 0
AtLeastAsTight a b =
    (b.exceeded ≡ true → a.exceeded ≡ true) × (a.exceeded ≡ b.exceeded → a.remaining ≤ b.remaining)

NotAfter-AtLeastAsTight : (a b : Reading) → NotAfter a b → AtLeastAsTight a b
unfolding reads_before
NotAfter-AtLeastAsTight a b h = (λ e. ground arith, λ e. ground arith)

All-AtLeastAsTight :
    (a : Reading) (rs : List Reading) → All (NotAfter a) rs → All (AtLeastAsTight a) rs
All-AtLeastAsTight a [] h = tt
All-AtLeastAsTight a (r ∷ rs) h = (NotAfter-AtLeastAsTight a r h.0, All-AtLeastAsTight a rs h.1)

-- The reading that the caller is held to is one of those taken: it refuses if any of them refuses,
-- and among those that agree with it on that it has least left.
pub tightest-AtLeastAsTight :
    (rs : List Reading) {r : Reading} → tightest rs ≡ some r → IsIn r rs × All (AtLeastAsTight r) rs
unfolding tightest
tightest-AtLeastAsTight [] e = cc
tightest-AtLeastAsTight (x ∷ xs) {r} e =
    let same : tightest_from x xs ≡ r = cc in
    let (p, q) = tightest_from-NotAfter x xs in
    subst (λ z. IsIn z (x ∷ xs) × All (AtLeastAsTight z) (x ∷ xs)) same
      (
        tightest_from-IsIn x xs,
        (
          NotAfter-AtLeastAsTight (tightest_from x xs) x p,
          All-AtLeastAsTight (tightest_from x xs) xs q,
        ),
      )
