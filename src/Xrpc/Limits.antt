-- ===== src/Xrpc/Limits.antt =====
-- src/xrpc/limit.rs: all the budgets of the server (`Limits`), the middleware that counts a request
-- against them (`global`), and the budget of an account's writes (`writing`). What axum and serde give
-- (the path, the body, the name in it) are arguments, and so are the two constant-time comparisons.
pub mod Keep
pub mod Held
use manapds.Prelude.{
  ℕ, Bool, List, Option, Str, if◌then◌else◌, ◌*◌, [], false, leb, none, not, some, suc, ◌||◌, ◌∷◌,
  get_elem?, length, ltb, true, ◌&&◌, ◌++◌, take, zero,
}
use manapds.Prelude.Bytes.{codes, str_eq, strip_prefix}
use manapds.Xrpc.Limit.{Limiter, Reading, new, consume, tightest}
use manapds.Xrpc.Caller.{IpAddr, caller, budget}

-- Durations are nanoseconds.
abbrev pub minutes : ℕ → ℕ
minutes n = n * 60 * 1000000000

abbrev pub hours : ℕ → ℕ
hours n = n * 3600 * 1000000000

abbrev pub create : ℕ
create = 3

abbrev pub put : ℕ
put = 2

abbrev pub delete : ℕ
delete = 1

pub record Limits : Type 0 where
  pub global : Limiter
  pub session : List Limiter
  pub signup : Limiter
  pub repo : Limiter
  pub writes : List Limiter
  pub bypass_key : Option Str
  pub bypass_ips : List IpAddr

-- What the configuration says of rate limits.
pub record Config : Type 0 where
  pub rate_limits : Bool
  pub rate_limit_bypass_key : Option Str
  pub rate_limit_bypass_ips : List IpAddr

unfoldable pub start : ℕ → Config → Option Limits
start now config =
    if config.rate_limits
    then some (record {
      global = new 3000 (minutes 5) now;
      session = new 30 (minutes 5) now ∷ new 300 (hours 24) now ∷ [];
      signup = new 100 (minutes 5) now;
      repo = new 6000 (minutes 5) now;
      writes = new 5000 (hours 1) now ∷ new 35000 (hours 24) now ∷ [];
      bypass_key = config.rate_limit_bypass_key;
      bypass_ips = config.rate_limit_bypass_ips;
    })
    else none

-- `iter().map(|budget| budget.consume(…)).collect()`: every budget is charged, in order.
unfoldable pub consume_all : ℕ → Str → ℕ → List Limiter → List Limiter × List Reading
consume_all now key points [] = ([], [])
consume_all now key points (l ∷ ls) =
    let (l', r) = consume now key points l in
    let (ls', rs) = consume_all now key points ls in (l' ∷ ls', r ∷ rs)

unfoldable pub first_exceeded : List Reading → Option Reading
first_exceeded [] = none
first_exceeded (r ∷ rs) = if r.exceeded then some r else first_exceeded rs

unfoldable pub writing : ℕ → Str → ℕ → Limits → Limits × Option Reading
writing now did points limits =
    let (writes, readings) = consume_all now did points limits.writes in
    (record limits { writes = writes }, first_exceeded readings)

abbrev pub named_max : ℕ
named_max = 256

abbrev pub sign_in_max : ℕ
sign_in_max = 8 * 1024

-- `is_char_boundary` of text in UTF-8: not inside a sequence.
abbrev continues : Option ℕ → Bool
continues none = false
continues (some b) = leb 0x80 b && leb b 0xBF

unfoldable pub boundary_at : Str → ℕ → ℕ
boundary_at named zero = 0
boundary_at named (suc n) =
    let below = boundary_at named n in if continues (get_elem? named (suc n)) then below else suc n

unfoldable pub shortened : Str → Str
shortened named =
    if leb (length named) named_max then named else take (boundary_at named named_max) named

-- What is known of a request: `identifier` is the one in the body, where the body is a sign-in.
pub record Request : Type 0 where
  pub path : Str
  pub peer : IpAddr
  pub forwarded : List (Option Str)
  pub bypass : Option Str
  pub body_upper : Option ℕ
  pub body : Option Str

-- What the third-party code answers.
pub record Outside : Type 0 where
  pub parse_address : Str → Option IpAddr
  pub print_address : IpAddr → Str
  pub same_address : IpAddr → IpAddr → Bool
  pub same_secret : Str → Str → Bool
  pub identifier_in : Str → Option Str
  pub to_lowercase : Str → Str

abbrev named_in : Outside → Option Str → Str
named_in o none = []
named_in o (some identifier) = shortened (o.to_lowercase identifier)

abbrev read_name : Outside → Option Str → Str
read_name o none = []
read_name o (some bytes) = named_in o (o.identifier_in bytes)

-- Only a body that says how long it is, and says it is short enough, is read.
unfoldable pub signing_in : Outside → Request → Str
signing_in o request = elim request.body_upper [
  | none ↦ []
  | some upper ↦ if ltb sign_in_max upper then [] else read_name o request.body
]

abbrev pub get_repo : Str
get_repo = codes "/xrpc/com.atproto.sync.getRepo"

abbrev pub create_account : Str
create_account = codes "/xrpc/com.atproto.server.createAccount"

abbrev pub create_session : Str
create_session = codes "/xrpc/com.atproto.server.createSession"

unfoldable pub method : ℕ → Outside → Str → Request → Limits → Limits × List Reading
method now o key request limits =
    if str_eq request.path create_account
    then (let (signup, reading) = consume now key 1 limits.signup in
        (record limits { signup = signup }, reading ∷ []))
    else if str_eq request.path get_repo
    then (let (repo, reading) = consume now key 1 limits.repo in
        (record limits { repo = repo }, reading ∷ []))
    else if str_eq request.path create_session
    then (let (session, readings) =
          consume_all now (signing_in o request ++ b'-' ∷ key) 1 limits.session in
        (record limits { session = session }, readings))
    else (limits, [])

unfoldable pub contains_address : (IpAddr → IpAddr → Bool) → IpAddr → List IpAddr → Bool
contains_address same address [] = false
contains_address same address (a ∷ more) = same a address || contains_address same address more

abbrev same_key : Outside → Option Str → Option Str → Bool
same_key o (some key) (some offered) = o.same_secret offered key
same_key o _ _ = false

unfoldable pub bypassed : Outside → IpAddr → Request → Limits → Bool
bypassed o address request limits =
    contains_address o.same_address address limits.bypass_ips
    || same_key o limits.bypass_key request.bypass

-- What comes of a request: handed on, handed on and told of a budget, or refused.
pub data Outcome : Type 0 where
  handed_on : Outcome
  told : Reading → Outcome
  refused : Reading → Outcome

abbrev pub outcome_of : Option Reading → Outcome
outcome_of none = handed_on
outcome_of (some reading) = if reading.exceeded then refused reading else told reading

-- The shared budget, which downloading a repository does not spend from.
unfoldable pub shared : ℕ → Str → Request → Limits → Limits × Option Reading
shared now key request limits =
    if str_eq request.path get_repo
    then (limits, none)
    else (let (l, reading) = consume now key 1 limits.global in
        (record limits { global = l }, some reading))

abbrev pub chain : Option Reading → List Reading → List Reading
chain none rs = rs
chain (some r) rs = r ∷ rs

-- Behind the shared budget.
unfoldable pub count_method :
    ℕ → Outside → Str → Request → Limits × Option Reading → Limits × Outcome
count_method now o key request (limits, read) =
    let (limits', readings) = method now o key request limits in
    (limits', outcome_of (tightest (chain read readings)))

abbrev pub is_exceeded : Option Reading → Bool
is_exceeded none = false
is_exceeded (some r) = r.exceeded

unfoldable pub count : ℕ → Outside → Str → Request → Limits → Limits × Outcome
count now o key request limits =
    let (limits', read) = shared now key request limits in
    if is_exceeded read
    then (limits', outcome_of read)
    else count_method now o key request (limits', read)

abbrev pub is_xrpc : Option Str → Bool
is_xrpc none = false
is_xrpc (some _) = true

unfoldable pub global : ℕ → Outside → Request → Limits → Limits × Outcome
global now o request limits =
    let address = caller o.parse_address request.peer request.forwarded in
    if not (is_xrpc (strip_prefix (codes "/xrpc/") request.path))
    then (limits, handed_on)
    else if bypassed o address request limits
    then (limits, handed_on)
    else count now o (budget o.print_address address) request limits
