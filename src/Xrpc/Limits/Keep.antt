-- ===== src/Xrpc/Limits/Keep.antt =====
-- The tables of all the budgets stay bounded, and every budget of a write is charged.
use mathlib.Core.Path.{subst}
use manapds.Prelude.{
  ◌∷◌, inl, inr, ℕ, All, List, Option, not, ◌++◌, ◌≡◌, false, map, none, some, true, Bool-cases, ap,
  refl, [], sym, if◌then◌else◌,
}
use manapds.Prelude.Bytes.{codes, str_eq, strip_prefix, Str}
use manapds.Xrpc.Limit.{Limiter, Reading, consume}
use manapds.Xrpc.Limit.Tightest.{IsIn}
use manapds.Xrpc.Limit.Budget.{IsBounded, consume-IsBounded}
use manapds.Prelude.Tests.{if_keeps}
use manapds.Xrpc.Caller.{caller, budget}
use manapds.Xrpc.Limits.{
  is_xrpc, is_exceeded, bypassed, signing_in, get_repo, create_account, create_session, Limits,
  Outside, Request, Outcome, refused, consume_all, first_exceeded, writing, method, shared, count,
  count_method, global,
}

-- Every table holds each key once, and no more keys than it may.
pub record AreBounded (limits : Limits) : Type 0 where
  pub global_bounded : IsBounded limits.global
  pub session_bounded : All IsBounded limits.session
  pub signup_bounded : IsBounded limits.signup
  pub repo_bounded : IsBounded limits.repo
  pub writes_bounded : All IsBounded limits.writes

tables_bounded :
    (limits : Limits)
    → IsBounded limits.global
    → All IsBounded limits.session
    → IsBounded limits.signup
    → IsBounded limits.repo
    → All IsBounded limits.writes
    → AreBounded limits
tables_bounded limits g s u r w = record {
  global_bounded = g;
  session_bounded = s;
  signup_bounded = u;
  repo_bounded = r;
  writes_bounded = w;
}

consume_all-IsBounded :
    (now : ℕ) (key : Str) (points : ℕ) (ls : List Limiter)
    → All IsBounded ls
    → All IsBounded (consume_all now key points ls).0
unfolding consume_all
consume_all-IsBounded now key points [] b = tt
consume_all-IsBounded now key points (l ∷ ls) b =
    (consume-IsBounded now key points l (b.0), consume_all-IsBounded now key points ls (b.1))

writing-AreBounded :
    (now : ℕ) (did : Str) (points : ℕ) (limits : Limits)
    → AreBounded limits
    → AreBounded (writing now did points limits).0
unfolding writing
writing-AreBounded now did points limits b =
    tables_bounded _ b.global_bounded b.session_bounded b.signup_bounded b.repo_bounded
      (consume_all-IsBounded now did points limits.writes b.writes_bounded)

method-AreBounded :
    (now : ℕ) (o : Outside) (key : Str) (request : Request) (limits : Limits)
    → AreBounded limits
    → AreBounded (method now o key request limits).0
unfolding method
method-AreBounded now o key request limits b =
    let P : Limits × List Reading → Type 0 = λ run. AreBounded run.0 in
    let sign_in : Str = signing_in o request ++ b'-' ∷ key in
    if_keeps P (str_eq request.path create_account) _ _
      (tables_bounded _ b.global_bounded b.session_bounded
        (consume-IsBounded now key 1 limits.signup b.signup_bounded) b.repo_bounded
        b.writes_bounded)
      (if_keeps P (str_eq request.path get_repo) _ _
        (tables_bounded _ b.global_bounded b.session_bounded b.signup_bounded
          (consume-IsBounded now key 1 limits.repo b.repo_bounded) b.writes_bounded)
        (if_keeps P (str_eq request.path create_session) _ _
          (tables_bounded _ b.global_bounded
            (consume_all-IsBounded now sign_in 1 limits.session b.session_bounded) b.signup_bounded
            b.repo_bounded b.writes_bounded)
          b))

shared-AreBounded :
    (now : ℕ) (key : Str) (request : Request) (limits : Limits)
    → AreBounded limits
    → AreBounded (shared now key request limits).0
unfolding shared
shared-AreBounded now key request limits b =
    if_keeps (λ (run : Limits × Option Reading). AreBounded run.0) (str_eq request.path get_repo) _
      _ b
      (tables_bounded _ (consume-IsBounded now key 1 limits.global b.global_bounded)
        b.session_bounded b.signup_bounded b.repo_bounded b.writes_bounded)

count-AreBounded :
    (now : ℕ) (o : Outside) (key : Str) (request : Request) (limits : Limits)
    → AreBounded limits
    → AreBounded (count now o key request limits).0
unfolding count count_method
count-AreBounded now o key request limits b =
    let b' = shared-AreBounded now key request limits b in
    if_keeps (λ (run : Limits × Outcome). AreBounded run.0)
      (is_exceeded (shared now key request limits).1) _ _ b'
      (method-AreBounded now o key request (shared now key request limits).0 b')

-- A request, whether it is handed on or refused, leaves every table with each key once and no more
-- keys than it may hold, where every table was so before.
pub global-AreBounded :
    (now : ℕ) (o : Outside) (request : Request) (limits : Limits)
    → AreBounded limits
    → AreBounded (global now o request limits).0
unfolding global
global-AreBounded now o request limits b =
    let P : Limits × Outcome → Type 0 = λ run. AreBounded run.0 in
    let address = caller o.parse_address request.peer request.forwarded in
    if_keeps P (not (is_xrpc (strip_prefix (codes "/xrpc/") request.path))) _ _ b (
      if_keeps P (bypassed o address request limits) _ _ b
        (count-AreBounded now o (budget o.print_address address) request limits b))

consume_all-charged :
    (now : ℕ) (key : Str) (points : ℕ) (ls : List Limiter)
    → ((consume_all now key points ls).0 ≡ map (λ l. (consume now key points l).0) ls)
      × ((consume_all now key points ls).1 ≡ map (λ l. (consume now key points l).1) ls)
unfolding consume_all
consume_all-charged now key points [] = (refl, refl)
consume_all-charged now key points (l ∷ ls) =
    let (states, readings) = consume_all-charged now key points ls in
    (ap (◌∷◌ (consume now key points l).0) states, ap (◌∷◌ (consume now key points l).1) readings)

-- What is made of the readings of a write: none went past, or one that did is reported.
abbrev pub Verdict : Option Reading → List Reading → Type 0
Verdict none rs = All (λ r. r.exceeded ≡ false) rs
Verdict (some r) rs = IsIn r rs × (r.exceeded ≡ true)

later :
    (y : Reading) (rs : List Reading) (o : Option Reading)
    → y.exceeded ≡ false
    → Verdict o rs
    → Verdict o (y ∷ rs)
later y rs none under v = (under, v)
later y rs (some r) under (member, past) = (inr member, past)

first_exceeded-Verdict : (rs : List Reading) → Verdict (first_exceeded rs) rs
unfolding first_exceeded
first_exceeded-Verdict [] = tt
first_exceeded-Verdict (y ∷ rs) = elim (Bool-cases y.exceeded) [
  | inl over ↦
      subst (λ o. Verdict o (y ∷ rs)) (sym (ap (λ b. if b then some y else first_exceeded rs) over))
        (inl refl, over)
  | inr under ↦
      subst (λ o. Verdict o (y ∷ rs))
        (sym (ap (λ b. if b then some y else first_exceeded rs) under))
        (later y rs (first_exceeded rs) under (first_exceeded-Verdict rs))
]

-- A write is charged to every budget of the account, also where an earlier one refuses it. It is
-- let through where none of them says that it went past, and only there, and the reading that is
-- reported is one of theirs that does.
writing-charges :
    (now : ℕ) (did : Str) (points : ℕ) (limits : Limits)
    → ((writing now did points limits).0.writes
        ≡ map (λ l. (consume now did points l).0) limits.writes)
      × Verdict
          (writing now did points limits).1
          (map (λ l. (consume now did points l).1) limits.writes)
unfolding writing
writing-charges now did points limits =
    let (states, readings) = consume_all-charged now did points limits.writes in
    (
      states,
      subst (λ rs. Verdict (first_exceeded (consume_all now did points limits.writes).1) rs)
          readings (first_exceeded-Verdict (consume_all now did points limits.writes).1),
    )

-- Where a request for anything but a repository finds the shared budget gone, it is refused with
-- the reading of that budget, and no other budget is charged.
count-out :
    (now : ℕ) (o : Outside) (key : Str) (request : Request) (limits : Limits)
    → str_eq request.path get_repo ≡ false
    → (consume now key 1 limits.global).1.exceeded ≡ true
    → count now o key request limits ≡ (
      record limits { global = (consume now key 1 limits.global).0 },
      refused (consume now key 1 limits.global).1,
    )
unfolding count shared
count-out now o key request limits other over = rw (other, over) refl
