-- ===== src/Xrpc/Caller.antt =====
-- src/xrpc/limit.rs: who a request is counted against (`caller`, `budget`). An address is its octets, 4
-- or 16 of them. The standard library's parser and printer of addresses are arguments.
pub mod Trust
use mathlib.Core.List.{reverse}
use manapds.Prelude.{
  ℕ, Bool, List, Option, Str, if◌then◌else◌, all, get_elem?, none, some, take, ◌/◌, ◌==◌, ◌∷◌, [],
  drop, ◌&&◌, ◌++◌, ◌||◌, leb,
}
use manapds.Prelude.Bytes.{codes, split, str_eq}

pub data IpAddr : Type 0 where
  v4 : List ℕ → IpAddr
  v6 : List ℕ → IpAddr

abbrev or_zero : Option ℕ → ℕ
or_zero none = 0
or_zero (some b) = b

abbrev pub octet : ℕ → List ℕ → ℕ
octet i octets = or_zero (get_elem? octets i)

-- `to_ipv4_mapped`: `::ffff:a.b.c.d`
abbrev pub mapped_prefix : List ℕ
mapped_prefix = 0 ∷ 0 ∷ 0 ∷ 0 ∷ 0 ∷ 0 ∷ 0 ∷ 0 ∷ 0 ∷ 0 ∷ 0xFF ∷ 0xFF ∷ []

unfoldable pub canonical : IpAddr → IpAddr
canonical (v4 octets) = v4 octets
canonical (v6 octets) =
    if str_eq (take 12 octets) mapped_prefix then v4 (drop 12 octets) else v6 octets

-- `& 0xfe == 0xfc` keeps all but the last bit.
unfoldable pub unique_local : List ℕ → Bool
unique_local octets = octet 0 octets / 2 == 0xFC / 2

-- `& 0xc0` keeps the first two bits.
unfoldable pub link_local : List ℕ → Bool
link_local octets = octet 0 octets == 0xFE && octet 1 octets / 64 == 0x80 / 64

abbrev all_zero : List ℕ → Bool
all_zero = all (λ b. b == 0)

-- `is_loopback`, `is_private`, `is_link_local` and `is_unspecified` of the two kinds of address.
unfoldable pub internal : IpAddr → Bool
internal (v4 octets) =
    octet 0 octets == 127
    || (octet 0 octets == 10
        || (octet 0 octets == 172 && octet 1 octets / 16 == 1)
        || (octet 0 octets == 192 && octet 1 octets == 168))
    || (octet 0 octets == 169 && octet 1 octets == 254)
    || all_zero octets
    || (octet 0 octets == 100 && octet 1 octets / 64 == 1)
internal (v6 octets) =
    (all_zero (take 15 octets) && octet 15 octets == 1)
    || all_zero octets
    || unique_local octets
    || link_local octets

abbrev is_whitespace : ℕ → Bool
is_whitespace c = c == b' ' || (leb 9 c && leb c 13)

unfoldable pub trim_start : Str → Str
trim_start [] = []
trim_start (c ∷ s) = if is_whitespace c then trim_start s else c ∷ s

unfoldable pub trim : Str → Str
trim s = reverse (trim_start (reverse (trim_start s)))

abbrev pub keep : Option IpAddr → List IpAddr → List IpAddr
keep none rest = rest
keep (some address) rest = canonical address ∷ rest

-- The addresses that the parts of the values name, in order; a part that names none is passed over.
unfoldable pub addresses_in : (Str → Option IpAddr) → List Str → List IpAddr
addresses_in parse [] = []
addresses_in parse (part ∷ parts) = keep (parse (trim part)) (addresses_in parse parts)

-- `to_str` and `split`, value by value; a value that is not text is passed over.
unfoldable pub parts_of : List (Option Str) → List Str
parts_of [] = []
parts_of (none ∷ values) = parts_of values
parts_of (some value ∷ values) = split b',' value ++ parts_of values

-- `rfind`
unfoldable pub last_external : List IpAddr → Option IpAddr
last_external [] = none
last_external (address ∷ rest) = elim (last_external rest) [
  | some found ↦ some found
  | none ↦ if internal address then none else some address
]

abbrev pub unwrap_or : IpAddr → Option IpAddr → IpAddr
unwrap_or peer none = peer
unwrap_or peer (some address) = address

unfoldable pub caller : (Str → Option IpAddr) → IpAddr → List (Option Str) → IpAddr
caller parse peer values =
    if internal (canonical peer)
    then unwrap_or (canonical peer) (last_external (addresses_in parse (parts_of values)))
    else canonical peer

abbrev pub zeros8 : List ℕ
zeros8 = 0 ∷ 0 ∷ 0 ∷ 0 ∷ 0 ∷ 0 ∷ 0 ∷ 0 ∷ []

unfoldable pub budget : (IpAddr → Str) → IpAddr → Str
budget print (v4 octets) = print (v4 octets)
budget print (v6 octets) = print (v6 (take 8 octets ++ zeros8)) ++ codes "/64"
