-- ===== src/Xrpc/Caller/Trust.antt =====
-- What a caller can say about who it is.
use mathlib.Core.List.{append_assoc}
use manapds.Prelude.{
  ◌∷◌, ℕ, List, Option, take, ◌++◌, ◌≡◌, false, some, ◌∙◌, ap, ◌⊎◌, Bool-cases, inl, refl, inr,
  Option-cases, sym, [], none, true, All, if◌then◌else◌,
}
use manapds.Prelude.Bytes.{contains, split, Str}
use manapds.Prelude.Split.{join, split-join}
use manapds.Xrpc.Caller.{
  unwrap_or, keep, trim, mapped_prefix, IpAddr, v4, v6, canonical, internal, addresses_in, parts_of,
  last_external, caller, budget,
}

parts_of-append : (xs ys : List (Option Str)) → parts_of (xs ++ ys) ≡ parts_of xs ++ parts_of ys
unfolding parts_of
parts_of-append [] ys = refl
parts_of-append (none ∷ xs) ys = parts_of-append xs ys
parts_of-append (some v ∷ xs) ys =
    rw (parts_of-append xs ys) (sym (append_assoc (split b',' v) (parts_of xs) (parts_of ys)))

module _ (parse : Str → Option IpAddr) where
  addresses_in-append :
      (xs ys : List Str)
      → addresses_in parse (xs ++ ys) ≡ addresses_in parse xs ++ addresses_in parse ys
  unfolding addresses_in
  addresses_in-append [] ys = refl
  addresses_in-append (x ∷ xs) ys =
      rw (addresses_in-append xs ys)
        (elim (parse (trim x))
          as (λ o.
            keep o (addresses_in parse xs ++ addresses_in parse ys)
            ≡ keep o (addresses_in parse xs) ++ addresses_in parse ys) [
              | none ↦ refl
              | some a ↦ refl
            ])

last_external-append :
    (xs ys : List IpAddr) (a : IpAddr)
    → last_external ys ≡ some a
    → last_external (xs ++ ys) ≡ some a
unfolding last_external
last_external-append [] ys a h = h
last_external-append (x ∷ xs) ys a h = rw (last_external-append xs ys a h) refl

last_external-external :
    (xs : List IpAddr) (a : IpAddr) → last_external xs ≡ some a → internal a ≡ false
unfolding last_external
last_external-external [] a h = absurd (cc h)
last_external-external (x ∷ xs) a h = elim (Option-cases (last_external xs)) [
  | inr found ↦
      let same : found.0 ≡ a = cc (rw (found.1) at h) in
      rw (← same) (last_external-external xs (found.0) (found.1))
  | inl none_at ↦ elim (Bool-cases (internal x)) [
    | inl inside ↦ absurd (cc (rw (none_at, inside) at h))
    | inr outside ↦ let same : x ≡ a = cc (rw (none_at, outside) at h) in rw (← same) outside
  ]
]

-- A part of a value that names no address outside: none at all, or one of the network within.
abbrev pub NamesInside : Option IpAddr → Type 0
NamesInside none = Unit
NamesInside (some address) = internal (canonical address) ≡ true

abbrev pub IsInside : (Str → Option IpAddr) → Str → Type 0
IsInside parse part = NamesInside (parse (trim part))

-- A value of the header in which every part is so. One that is not text has no parts.
abbrev pub HasInside : (Str → Option IpAddr) → Option Str → Type 0
HasInside parse none = Unit
HasInside parse (some value) = All (IsInside parse) (split b',' value)

keep-inside :
    (named : Option IpAddr) (rest : List IpAddr)
    → NamesInside named
    → last_external rest ≡ none
    → last_external (keep named rest) ≡ none
unfolding last_external
keep-inside none rest inside h = h
keep-inside (some address) rest inside h = rw (h, inside) refl

module _ (parse : Str → Option IpAddr) where
  last_external-inside :
      (parts : List Str)
      → All (IsInside parse) parts
      → last_external (addresses_in parse parts) ≡ none
  unfolding last_external addresses_in
  last_external-inside [] h = refl
  last_external-inside (part ∷ parts) h =
      keep-inside (parse (trim part)) (addresses_in parse parts) h.0
        (last_external-inside parts h.1)

  All-parts :
      (front : List Str) (values : List (Option Str))
      → All (IsInside parse) front
      → All (HasInside parse) values
      → All (IsInside parse) (front ++ parts_of values)
  unfolding parts_of
  All-parts [] [] h k = tt
  All-parts [] (none ∷ values) h k = All-parts [] values tt k.1
  All-parts [] (some v ∷ values) h k = All-parts (split b',' v) values k.0 k.1
  All-parts (part ∷ front) values h k = (h.0, All-parts front values h.1 k)

  split-parts :
      (front behind : List Str) (seen : Str)
      → All (λ part. contains b',' part ≡ false) (front ++ seen ∷ behind)
      → split b',' (join b',' (front ++ seen ∷ behind)) ≡ front ++ seen ∷ behind
  split-parts [] behind seen apart = split-join b',' seen behind apart
  split-parts (part ∷ front) behind seen apart = split-join b',' part (front ++ seen ∷ behind) apart

  last_external-seen :
      (seen : Str) (rest : List Str) (address : IpAddr)
      → parse (trim seen) ≡ some address
      → internal (canonical address) ≡ false
      → All (IsInside parse) rest
      → last_external (addresses_in parse (seen ∷ rest)) ≡ some (canonical address)
  unfolding last_external addresses_in
  last_external-seen seen rest address named outside inside =
      rw (named, last_external-inside rest inside, outside) refl

  found-join :
      (sent added : List (Option Str)) (front behind : List Str) (seen : Str) (address : IpAddr)
      → All (λ part. contains b',' part ≡ false) (front ++ seen ∷ behind)
      → parse (trim seen) ≡ some address
      → internal (canonical address) ≡ false
      → All (IsInside parse) behind
      → All (HasInside parse) added
      → last_external (
          addresses_in parse (parts_of (sent ++ some (join b',' (front ++ seen ∷ behind)) ∷ added)))
        ≡ some (canonical address)
  unfolding parts_of
  found-join sent added front behind seen address apart named outside inside later =
      let value : Option Str = some (join b',' (front ++ seen ∷ behind)) in
      let rest = behind ++ parts_of added in
      let parts : parts_of (sent ++ value ∷ added) ≡ (parts_of sent ++ front) ++ (seen ∷ rest) =
        parts_of-append sent (value ∷ added)
        ∙ ap (λ ps. parts_of sent ++ (ps ++ parts_of added)) (split-parts front behind seen apart)
        ∙ ap (λ ps. parts_of sent ++ ps) (append_assoc front (seen ∷ behind) (parts_of added))
        ∙ sym (append_assoc (parts_of sent) front (seen ∷ rest)) in
      ap (λ ps. last_external (addresses_in parse ps)) parts
      ∙ ap last_external (addresses_in-append parse (parts_of sent ++ front) (seen ∷ rest))
      ∙ last_external-append (addresses_in parse (parts_of sent ++ front))
          (addresses_in parse (seen ∷ rest)) (canonical address)
          (last_external-seen seen rest address named outside (All-parts behind added inside later))

  -- Behind whatever the caller sent, in values of its own and in front of a comma, a proxy adds the
  -- address that it saw, one outside, and what the proxies behind it add, in that value or in others, names
  -- no address outside. The request is counted against the address that was seen, in its one spelling,
  -- where the peer is inside, and against the peer where it is not: what the caller sent plays no part.
  -- The text of a value is its parts with a comma between them.
  pub caller-join :
      (peer : IpAddr) (sent added : List (Option Str)) (front behind : List Str) (seen : Str)
      (address : IpAddr)
      → All (λ part. contains b',' part ≡ false) (front ++ seen ∷ behind)
      → parse (trim seen) ≡ some address
      → internal (canonical address) ≡ false
      → All (IsInside parse) behind
      → All (HasInside parse) added
      → caller parse peer (sent ++ some (join b',' (front ++ seen ∷ behind)) ∷ added)
        ≡ (if internal (canonical peer) then canonical address else canonical peer)
  unfolding caller
  caller-join peer sent added front behind seen address apart named outside inside later =
      ap (λ o. if internal (canonical peer) then unwrap_or (canonical peer) o else canonical peer)
        (found-join sent added front behind seen address apart named outside inside later)

-- Whoever a request is counted against is the peer itself, in its one spelling, or an address outside.
caller-external :
    (parse : Str → Option IpAddr) (peer : IpAddr) (values : List (Option Str))
    → (caller parse peer values ≡ canonical peer) ⊎ (internal (caller parse peer values) ≡ false)
unfolding caller
caller-external parse peer values = elim (Bool-cases (internal (canonical peer))) [
  | inr outside ↦ rw outside (inl refl)
  | inl inside ↦ elim (Option-cases (last_external (addresses_in parse (parts_of values)))) [
    | inl none_at ↦ rw (inside, none_at) (inl refl)
    | inr found ↦ rw (inside, found.1) (inr (last_external-external _ (found.0) (found.1)))
  ]
]

-- One line moves through its whole range on one budget: two IPv6 addresses of one `/64` spend from the
-- same budget, and an IPv4 address spends from the same budget in its IPv6 spelling as in its own.
budget-same :
    (print : IpAddr → Str) (octets other four : List ℕ)
    → take 8 octets ≡ take 8 other
    → (budget print (v6 octets) ≡ budget print (v6 other))
      × (budget print (canonical (v6 (mapped_prefix ++ four))) ≡ budget print (canonical (v4 four)))
unfolding budget canonical
budget-same print octets other four h = (rw h refl, refl)
