-- ===== src/Xrpc/Tests.antt =====
-- The theorems on rate limits at concrete inputs.
use manapds.Prelude.{
  ◌++◌, ◌∷◌, refl, [], none, arith, List, Option, false, length, some, true, ◌≡◌, ◌≤◌, ℕ, ◌<◌, ◌≢◌,
  ap, ltb, All, if◌then◌else◌, ◌*◌, ◌+◌, ◌/◌, ◌^◌, ◌-◌,
}
use manapds.Prelude.Bytes.{Str, codes, str_eq}
use manapds.Prelude.Map.{lookup}
use manapds.Xrpc.Limit.{
  turned_away, tightest_from, reads_before, reading, charge, saturating_add32, current, Limiter,
  Reading, new, consume, tightest, sweep, keys_max,
}
use manapds.Xrpc.Limit.Budget.{IsBounded, running, consume-IsBounded}
use manapds.Xrpc.Limit.Trace.{Call, admitted, admitted-le_points}
use manapds.Prelude.Split.{join}
use manapds.Prelude.Map.{insert}
use manapds.Prelude.Bytes.{strip_prefix}
use manapds.Prelude.Eq.{Str_eq}
use manapds.Prelude.Decimal.{decimal}
use manapds.Prelude.Int.{pos}
use manapds.Xrpc.Headers.{wait, write}
use manapds.Xrpc.Headers.Waited.{write-consume}
use manapds.Xrpc.Caller.{budget, trim, trim_start, IpAddr, v4, v6, canonical, internal, caller}
use manapds.Xrpc.Caller.Trust.{IsInside, HasInside, caller-join}
use manapds.Xrpc.Limits.{
  bypassed, contains_address, Limits, Outside, Request, global, is_xrpc, signing_in,
}
use manapds.Xrpc.Limits.Keep.{AreBounded, global-AreBounded}
use manapds.Xrpc.Limits.Held.{
  IsUsable, IsHeldTo, address_of, key_of, charged, readings, any_spent, is_refused,
  is_refused-global,
}

abbrev small : Limiter
small = new 5 60 100

small-IsBounded : IsBounded small
unfolding new
small-IsBounded = record { distinct = tt; bounded = omega arith }

k_is_not_j : codes "k" ≢ codes "j"
k_is_not_j e = let apart : false ≡ true = ap (λ s. str_eq s (codes "j")) e in absurd (cc apart)

abbrev first : Call
first = record { now = 107; key = codes "k"; points = 3 }

abbrev second : Call
second = record { now = 108; key = codes "k"; points = 2 }

abbrev third : Call
third = record { now = 109; key = codes "k"; points = 1 }

fresh_key : running 107 small (codes "k") ≡ none
unfolding running new lookup
fresh_key = refl

has_room : length (sweep 107 small).windows < keys_max
unfolding sweep new
has_room = omega arith

admitted-le_points_example : admitted (codes "k") small (first ∷ second ∷ third ∷ []) ≤ 5
unfolding new
admitted-le_points_example =
    admitted-le_points first (second ∷ third ∷ []) small small-IsBounded (omega arith) (omega arith)
      fresh_key has_room ((omega arith, omega arith, (omega arith, omega arith, tt)))

abbrev gone : Reading
gone = record { limit = 5; window = 60; spent = 6; remaining = 0; resets_in = 10; exceeded = true }

abbrev empty : Reading
empty = record {
  limit = 5;
  window = 60;
  spent = 5;
  remaining = 0;
  resets_in = 10;
  exceeded = false;
}

gone_is_tightest : tightest (empty ∷ gone ∷ []) ≡ some gone
unfolding tightest tightest_from reads_before
gone_is_tightest = refl

-- A parser of addresses of one octet, written `a` to `z`.
abbrev parse_letter : Str → Option IpAddr
parse_letter (c ∷ []) = some (v4 (c ∷ 1 ∷ 1 ∷ 1 ∷ []))
parse_letter _ = none

abbrev proxy : IpAddr
proxy = v4 (10 ∷ 0 ∷ 0 ∷ 1 ∷ [])

-- The caller sent a `q` in a value of its own and in front of the comma; the address seen is the `c`.
abbrev spoofed : List Str
spoofed = codes "q" ∷ codes "b" ∷ []

abbrev seen_inside : List Str
seen_inside = (32 ∷ 127 ∷ []) ∷ []

behind-IsInside : All (IsInside parse_letter) seen_inside
unfolding internal canonical trim trim_start
behind-IsInside = (refl, tt)

added-HasInside : All (HasInside parse_letter) (none ∷ some (127 ∷ []) ∷ [])
unfolding internal canonical trim trim_start
added-HasInside = (tt, ((refl, tt), tt))

c_seen : parse_letter (trim (codes " c")) ≡ some (v4 (99 ∷ 1 ∷ 1 ∷ 1 ∷ []))
unfolding trim trim_start
c_seen = refl

c_outside : internal (canonical (v4 (99 ∷ 1 ∷ 1 ∷ 1 ∷ []))) ≡ false
unfolding internal canonical
c_outside = refl

caller-join_example :
    caller parse_letter proxy (
      (some (codes "q") ∷ [])
      ++ some (join b',' (spoofed ++ codes " c" ∷ seen_inside)) ∷ none ∷ some (127 ∷ []) ∷ [])
    ≡ (if internal (canonical proxy) then canonical (v4 (99 ∷ 1 ∷ 1 ∷ 1 ∷ [])) else canonical proxy)
caller-join_example =
    caller-join parse_letter proxy (some (codes "q") ∷ []) (none ∷ some (127 ∷ []) ∷ []) spoofed
      seen_inside (codes " c") (v4 (99 ∷ 1 ∷ 1 ∷ 1 ∷ [])) (refl, (refl, (refl, (refl, tt)))) c_seen
      c_outside behind-IsInside added-HasInside

abbrev print_octets : IpAddr → Str
print_octets (v4 octets) = octets
print_octets (v6 octets) = octets

abbrev line : List ℕ
line = 32 ∷ 1 ∷ 13 ∷ 184 ∷ 0 ∷ 0 ∷ 0 ∷ 7 ∷ []

abbrev outside : Outside
outside = record {
  parse_address = parse_letter;
  print_address = print_octets;
  same_address = λ a b. str_eq (print_octets a) (print_octets b);
  same_secret = str_eq;
  identifier_in = λ bytes. some bytes;
  to_lowercase = λ s. s;
}

abbrev limits : Limits
limits = record {
  global = new 0 60 100;
  session = small ∷ [];
  signup = small;
  repo = small;
  writes = small ∷ new 2 60 100 ∷ [];
  bypass_key = none;
  bypass_ips = [];
}

limits-AreBounded : AreBounded limits
unfolding new
limits-AreBounded = record {
  global_bounded = record { distinct = tt; bounded = omega arith };
  session_bounded = (small-IsBounded, tt);
  signup_bounded = small-IsBounded;
  repo_bounded = small-IsBounded;
  writes_bounded = (small-IsBounded, (record { distinct = tt; bounded = omega arith }, tt));
}

abbrev request : Request
request = record {
  path = codes "/xrpc/com.atproto.server.createAccount";
  peer = v4 (99 ∷ 1 ∷ 1 ∷ 1 ∷ []);
  forwarded = [];
  bypass = none;
  body_upper = none;
  body = none;
}

global-AreBounded_example : AreBounded (global 107 outside request limits).0
global-AreBounded_example = global-AreBounded 107 outside request limits limits-AreBounded

-- A sign-in that finds the budget of sign-ins spent, and the shared one not.
abbrev tried : Limiter
tried = (consume 107 (codes "-" ++ (99 ∷ 1 ∷ 1 ∷ 1 ∷ [])) 5 small).0

abbrev signing : Request
signing = record request { path = codes "/xrpc/com.atproto.server.createSession" }

abbrev worn : Limits
worn = record limits { global = small; session = small ∷ tried ∷ [] }

signing_asked : is_xrpc (strip_prefix (codes "/xrpc/") signing.path) ≡ true
signing_asked = refl

signing_counted : bypassed outside (address_of outside signing) signing worn ≡ false
unfolding bypassed contains_address
signing_counted = refl

small-IsUsable : (key : Str) → IsUsable (small, key)
unfolding new
small-IsUsable key = record {
  bounded = small-IsBounded;
  positive = omega arith;
  small = omega arith;
}

tried-IsUsable : (key : Str) → IsUsable (tried, key)
unfolding consume sweep turned_away new
tried-IsUsable key = record {
  bounded = consume-IsBounded 107 (codes "-" ++ (99 ∷ 1 ∷ 1 ∷ 1 ∷ [])) 5 small small-IsBounded;
  positive = omega arith;
  small = omega arith;
}

sign_in_spent : any_spent 108 (charged outside (key_of outside signing) signing worn) ≡ true
unfolding running consume sweep turned_away charge current saturating_add32 new lookup signing_in
    caller budget canonical internal insert
sign_in_spent = refl

is_refused-global_example :
    (is_refused (global 108 outside signing worn).1
      ≡ any_spent 108 (charged outside (key_of outside signing) signing worn))
    × IsHeldTo
        (global 108 outside signing worn).1
        (readings 108 (charged outside (key_of outside signing) signing worn))
is_refused-global_example =
    is_refused-global 108 outside signing worn signing_asked signing_counted
      (small-IsUsable _, (small-IsUsable _, (tried-IsUsable _, tt)))

abbrev past_all : Limiter × Reading
past_all = consume 107 (codes "k") 6 small

went_past : (consume 107 (codes "k") 6 small).1.exceeded ≡ true
unfolding consume sweep charge current turned_away reading saturating_add32 new lookup
went_past = refl

soon : (consume 107 (codes "k") 6 small).1.resets_in / 10 ^ 9 < 2 ^ 64 - 1
unfolding consume sweep charge current turned_away reading saturating_add32 new lookup
soon = omega arith

covered : 5 ≤ small.points
unfolding new
covered = omega arith

write-consume_example :
    (lookup (codes "retry-after") (write some (pos 1700000000) past_all.1 [])
      ≡ some (decimal (wait past_all.1)))
    × (past_all.1.resets_in < wait past_all.1 * 10 ^ 9)
    × ((consume 170 (codes "k") 5 past_all.0).1.exceeded ≡ ltb 170 (107 + past_all.1.resets_in))
write-consume_example =
    write-consume some (pos 1700000000) [] 107 170 (codes "k") 6 5 small (λ text digits. refl)
      small-IsBounded went_past soon covered
