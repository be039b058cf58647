-- ===== src/Xrpc/Limits/Held.antt =====
-- Which requests are refused: those that find a budget which they are counted against spent.
use mathlib.Core.Path.{subst}
use manapds.Prelude.{
  All, Bool, Bool-cases, List, Option, Option-cases, Str, [], ap, arith, false, if◌then◌else◌, inl,
  inr, leb, none, refl, some, true, ℕ, ◌++◌, ◌-◌, ◌<◌, ◌^◌, ◌||◌, ◌∙◌, ◌∷◌, ◌≡◌, sym,
}
use manapds.Prelude.Bytes.{codes, str_eq, strip_prefix}
use manapds.Prelude.Eq.{str_eq→eq}
use manapds.Prelude.Tests.{if_keeps}
use manapds.Xrpc.Limit.{
  Limiter, Reading, Window, consume, tightest, tightest_from, reading, saturating_add32,
}
use manapds.Xrpc.Limit.Budget.{IsBounded, running, consume_free, consume-running}
use manapds.Xrpc.Limit.Tightest.{IsIn, AtLeastAsTight, tightest-AtLeastAsTight}
use manapds.Xrpc.Caller.{IpAddr, caller, budget}
use manapds.Xrpc.Limits.{
  outcome_of, chain, is_xrpc, is_exceeded, bypassed, signing_in, get_repo, create_account,
  create_session, Limits, Outside, Request, Outcome, handed_on, told, refused, consume_all, method,
  shared, count, count_method, global,
}

-- The points that a key has spent of a budget in the window that runs.
abbrev pub points_in : Option Window → ℕ
points_in none = 0
points_in (some w) = w.points

-- Whether a key has nothing left of a budget.
abbrev pub is_spent : ℕ → Limiter × Str → Bool
is_spent now (l, key) = leb l.points (points_in (running now l key))

abbrev pub any_spent : ℕ → List (Limiter × Str) → Bool
any_spent now [] = false
any_spent now (b ∷ bs) = is_spent now b || any_spent now bs

-- A budget as the server is set up with it: a point at least, and under the most that a `u32` holds.
pub record IsUsable (b : Limiter × Str) : Type 0 where
  pub bounded : IsBounded b.0
  pub positive : 0 < b.0.points
  pub small : b.0.points < 2 ^ 32 - 1

abbrev pub under : Str → List Limiter → List (Limiter × Str)
under key [] = []
under key (l ∷ ls) = (l, key) ∷ under key ls

-- The budgets that a request is counted against, with the key that it has in each.
abbrev pub charged : Outside → Str → Request → Limits → List (Limiter × Str)
charged o key request limits =
    if str_eq request.path get_repo
    then (limits.repo, key) ∷ []
    else if str_eq request.path create_account
    then (limits.global, key) ∷ (limits.signup, key) ∷ []
    else if str_eq request.path create_session
    then (limits.global, key) ∷ under (signing_in o request ++ b'-' ∷ key) limits.session
    else (limits.global, key) ∷ []

-- What they say once a point is counted.
abbrev pub readings : ℕ → List (Limiter × Str) → List Reading
readings now [] = []
readings now ((l, key) ∷ bs) = (consume now key 1 l).1 ∷ readings now bs

abbrev pub is_refused : Outcome → Bool
is_refused handed_on = false
is_refused (told r) = false
is_refused (refused r) = true

-- The reading that a caller is given: one of those taken, and where it is let through none is tighter.
abbrev pub IsHeldTo : Outcome → List Reading → Type 0
IsHeldTo handed_on rs = ⊥
IsHeldTo (told r) rs = IsIn r rs × All (AtLeastAsTight r) rs
IsHeldTo (refused r) rs = IsIn r rs × (r.exceeded ≡ true)

-- One point more goes past a budget exactly where it was spent.
consume-is_spent :
    (now : ℕ) (b : Limiter × Str) → IsUsable b → (consume now b.1 1 b.0).1.exceeded ≡ is_spent now b
unfolding reading saturating_add32
consume-is_spent now (l, key) u = elim (Option-cases (running now l key)) [
  | inl fresh ↦
      consume_free now key 1 l u.bounded fresh (omega (arith, u.positive))
      ∙ rw fresh (ground (arith, u.positive))
  | inr (w, runs) ↦
      let (_, read) = consume-running now key 1 l w u.bounded runs in
      rw (read, runs) (ground (arith, u.small))
]

abbrev any_exceeded : List Reading → Bool
any_exceeded [] = false
any_exceeded (r ∷ rs) = r.exceeded || any_exceeded rs

any_exceeded-readings :
    (now : ℕ) (bs : List (Limiter × Str))
    → All IsUsable bs
    → any_exceeded (readings now bs) ≡ any_spent now bs
any_exceeded-readings now [] u = refl
any_exceeded-readings now (b ∷ bs) u =
    rw (consume-is_spent now b u.0, any_exceeded-readings now bs u.1) refl

any_exceeded-IsIn :
    (r : Reading) (rs : List Reading) → IsIn r rs → r.exceeded ≡ true → any_exceeded rs ≡ true
any_exceeded-IsIn r [] h over = absurd h
any_exceeded-IsIn r (x ∷ rs) (inl e) over = rw (← e, over) refl
any_exceeded-IsIn r (x ∷ rs) (inr h) over = ground (arith, any_exceeded-IsIn r rs h over)

any_exceeded-tight :
    (r : Reading) (rs : List Reading)
    → r.exceeded ≡ false
    → All (AtLeastAsTight r) rs
    → any_exceeded rs ≡ false
any_exceeded-tight r [] low h = refl
any_exceeded-tight r (x ∷ rs) low h = elim (Bool-cases x.exceeded) [
  | inl over ↦ absurd (cc (sym low ∙ h.0.0 over))
  | inr fine ↦ rw (fine, any_exceeded-tight r rs low h.1) refl
]

abbrev IsAnswer : Outcome → List Reading → Type 0
IsAnswer outcome rs = (is_refused outcome ≡ any_exceeded rs) × IsHeldTo outcome rs

refused-IsAnswer :
    (r : Reading) (rs : List Reading)
    → IsIn r rs
    → r.exceeded ≡ true
    → IsAnswer (outcome_of (some r)) rs
refused-IsAnswer r rs member over =
    subst (λ b. IsAnswer (if b then refused r else told r) rs) (sym over)
      (sym (any_exceeded-IsIn r rs member over), (member, over))

outcome_of-IsAnswer :
    (r : Reading) (rs : List Reading)
    → IsIn r rs
    → All (AtLeastAsTight r) rs
    → IsAnswer (outcome_of (some r)) rs
outcome_of-IsAnswer r rs member tight = elim (Bool-cases r.exceeded) [
  | inl over ↦ refused-IsAnswer r rs member over
  | inr fine ↦
      subst (λ b. IsAnswer (if b then refused r else told r) rs) (sym fine)
        (sym (any_exceeded-tight r rs fine tight), (member, tight))
]

tightest-IsAnswer :
    (x : Reading) (xs : List Reading) → IsAnswer (outcome_of (tightest (x ∷ xs))) (x ∷ xs)
unfolding tightest
tightest-IsAnswer x xs =
    let (member, tight) = tightest-AtLeastAsTight (x ∷ xs) refl in
    outcome_of-IsAnswer (tightest_from x xs) (x ∷ xs) member tight

-- Out of the shared budget, or held to the tightest of all the readings.
abbrev Stopped : Reading → List Reading → Bool → Type 0
Stopped g rs over =
    IsAnswer (if over then outcome_of (some g) else outcome_of (tightest (g ∷ rs))) (g ∷ rs)

chain-IsAnswer :
    (read : Option Reading) (rs : List Reading) (x : Reading) (xs : List Reading)
    → chain read rs ≡ x ∷ xs
    → IsAnswer
        (if is_exceeded read then outcome_of read else outcome_of (tightest (chain read rs)))
        (chain read rs)
chain-IsAnswer none [] x xs some_read = absurd (cc some_read)
chain-IsAnswer none (r ∷ rs) x xs some_read = tightest-IsAnswer r rs
chain-IsAnswer (some g) rs x xs some_read = elim (Bool-cases g.exceeded) [
  | inl over ↦ subst (Stopped g rs) (sym over) (refused-IsAnswer g (g ∷ rs) (inl refl) over)
  | inr fine ↦ subst (Stopped g rs) (sym fine) (tightest-IsAnswer g rs)
]

consume_all-readings :
    (now : ℕ) (key : Str) (ls : List Limiter)
    → (consume_all now key 1 ls).1 ≡ readings now (under key ls)
unfolding consume_all
consume_all-readings now key [] = refl
consume_all-readings now key (l ∷ ls) =
    ap (◌∷◌ (consume now key 1 l).1) (consume_all-readings now key ls)

account_not_repo : (path : Str) → str_eq path get_repo ≡ true → str_eq path create_account ≡ false
account_not_repo path h = rw (str_eq→eq path get_repo h) refl

-- The readings that are taken, where the shared budget stops nothing, are those of the budgets.
chain-readings :
    (now : ℕ) (o : Outside) (key : Str) (request : Request) (limits : Limits)
    → chain
        (shared now key request limits).1
        (method now o key request (shared now key request limits).0).1
      ≡ readings now (charged o key request limits)
unfolding shared method
chain-readings now o key request limits = elim (Bool-cases (str_eq request.path get_repo)) [
  | inl repo ↦ rw (repo, account_not_repo request.path repo) refl
  | inr other ↦ elim (Bool-cases (str_eq request.path create_account)) [
    | inl account ↦ rw (other, account) refl
    | inr no_account ↦ elim (Bool-cases (str_eq request.path create_session)) [
      | inl session ↦
          rw (other, no_account, session)
            (ap (◌∷◌ (consume now key 1 limits.global).1)
              (consume_all-readings now (signing_in o request ++ b'-' ∷ key) limits.session))
      | inr plain ↦ rw (other, no_account, plain) refl
    ]
  ]
]

charged-some :
    (now : ℕ) (o : Outside) (key : Str) (request : Request) (limits : Limits)
    → (x : Reading) × (xs : List Reading) × (readings now (charged o key request limits) ≡ x ∷ xs)
charged-some now o key request limits =
    if_keeps (λ bs. (x : Reading) × (xs : List Reading) × (readings now bs ≡ x ∷ xs))
      (str_eq request.path get_repo) _ _ (_, _, refl)
      (if_keeps (λ bs. (x : Reading) × (xs : List Reading) × (readings now bs ≡ x ∷ xs))
        (str_eq request.path create_account) _ _ (_, _, refl)
        (if_keeps (λ bs. (x : Reading) × (xs : List Reading) × (readings now bs ≡ x ∷ xs))
          (str_eq request.path create_session) _ _ (_, _, refl) (_, _, refl)))

count-outcome :
    (now : ℕ) (o : Outside) (key : Str) (request : Request) (limits : Limits)
    → (let read = (shared now key request limits).1 in
        let rs = (method now o key request (shared now key request limits).0).1 in
        (count now o key request limits).1
        ≡ (if is_exceeded read then outcome_of read else outcome_of (tightest (chain read rs))))
unfolding count count_method
count-outcome now o key request limits =
    elim (Bool-cases (is_exceeded (shared now key request limits).1)) [
      | inl over ↦ rw over refl
      | inr fine ↦ rw fine refl
    ]

-- Whom a request is from, and its key.
abbrev pub address_of : Outside → Request → IpAddr
address_of o request = caller o.parse_address request.peer request.forwarded

abbrev pub key_of : Outside → Request → Str
key_of o request = budget o.print_address (address_of o request)

-- Where each budget that a request is counted against has a table with each key once and no more keys
-- than it may hold, and is between 1 point and 2^32 - 2: a request under `/xrpc/` that nothing exempts is
-- refused exactly where one of those budgets has nothing left for its key. They are the one of
-- downloads where it downloads a repository, and the shared one else, with that of signing up or those of
-- signing in where it does that. What it is refused with is the reading of one of them that it went
-- past, and what it is told where it is handed on is the tightest of their readings.
pub is_refused-global :
    (now : ℕ) (o : Outside) (request : Request) (limits : Limits)
    → is_xrpc (strip_prefix (codes "/xrpc/") request.path) ≡ true
    → bypassed o (address_of o request) request limits ≡ false
    → All IsUsable (charged o (key_of o request) request limits)
    → (is_refused (global now o request limits).1
        ≡ any_spent now (charged o (key_of o request) request limits))
      × IsHeldTo
          (global now o request limits).1
          (readings now (charged o (key_of o request) request limits))
unfolding global
is_refused-global now o request limits asked counted usable =
    let key = key_of o request in
    let rs = readings now (charged o key request limits) in
    let read = (shared now key request limits).1 in
    let on = (method now o key request (shared now key request limits).0).1 in
    let taken = chain-readings now o key request limits in
    let (x, xs, some_read) = charged-some now o key request limits in
    let whole : (global now o request limits).1 ≡ (count now o key request limits).1 =
      rw (asked, counted) refl in
    let answer : IsAnswer (count now o key request limits).1 rs =
      subst (IsAnswer (count now o key request limits).1) taken (
        subst (λ out. IsAnswer out (chain read on)) (sym (count-outcome now o key request limits))
          (chain-IsAnswer read on x xs (taken ∙ some_read))) in
    let (refusal, held) = subst (λ out. IsAnswer out rs) (sym whole) answer in
    (refusal ∙ any_exceeded-readings now (charged o key request limits) usable, held)
