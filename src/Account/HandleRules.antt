-- ===== src/Account/HandleRules.antt =====
-- src/account/handle.rs: which handles the server hands out, and which end where nothing resolves.
pub mod Reserved
pub mod Taken
pub mod Again
use manapds.Prelude.{
  Bool, List, Option, Str, String, [], drop, false, if◌then◌else◌, leb, length, ltb, map, none,
  some, take, ℕ, ◌&&◌, ◌-◌, ◌||◌, ◌∷◌,
}
use manapds.Prelude.Bytes.{codes, contains, str_eq, is_empty, strip_prefix}
use manapds.Prelude.Result.{ok_or, Result, ok, err, ◌>>=◌, ◌>>◌, fail_if}
use manapds.Prelude.Trim.{trim}
use manapds.Prelude.Search.{binary_search, sort, dedup}
use manapds.Syntax
use manapds.Syntax.Handle
use manapds.Account.HandleRules.Reserved.{is_held}

abbrev pub shortest : ℕ
shortest = 3

abbrev pub longest : ℕ
longest = 18

abbrev pub disallowed : List Str
disallowed =
    codes ".local"
    ∷ codes ".arpa"
    ∷ codes ".invalid"
    ∷ codes ".localhost"
    ∷ codes ".internal"
    ∷ codes ".example"
    ∷ codes ".alt"
    ∷ codes ".onion"
    ∷ []

pub data Invalid : Type 0 where
  handle : String → Invalid
  reserved : Invalid
  unsupported : Invalid

-- `Invalid::name`
unfoldable pub name : Invalid → String
name (handle why) = "InvalidHandle"
name reserved = "HandleNotAvailable"
name unsupported = "UnsupportedDomain"

pub record Rules : Type 0 where
  pub domains : List Str
  pub held : List Str

-- `str::ends_with`
unfoldable pub ends_with : Str → Str → Bool
ends_with text tail =
    leb (length tail) (length text) && str_eq (drop (length text - length tail) text) tail

abbrev pub any : (Str → Bool) → List Str → Bool
any p [] = false
any p (x ∷ xs) = p x || any p xs

abbrev pub not_empty : List Str → List Str
not_empty [] = []
not_empty (name ∷ names) = if is_empty name then not_empty names else name ∷ not_empty names

abbrev pub spelled : Str → Str
spelled held_name = Handle.to_ascii_lowercase (trim held_name)

-- `Rules::new`
unfoldable pub new : List Str → List Str → Rules
new domains held = record { domains = domains; held = dedup (sort (not_empty (map spelled held))) }

abbrev pub resolvable : Result Syntax.Error Handle.Handle → Result Invalid Handle.Handle
resolvable (err _) = err (handle "Invalid handle")
resolvable (ok it) =
    if any (ends_with it.text) disallowed
    then err (handle "Handle TLD is invalid or disallowed")
    else ok it

unfoldable pub normalize : Str → Result Invalid Handle.Handle
unfolding ends_with
normalize input = resolvable (Handle.normalize input)

unfoldable pub first_ending : Str → List Str → Option Str
unfolding ends_with
first_ending text [] = none
first_ending text (domain ∷ domains) =
    if ends_with text domain then some domain else first_ending text domains

unfoldable pub service_domain : Rules → Handle.Handle → Option Str
unfolding first_ending
service_domain rules it = first_ending it.text rules.domains

-- Whether a domain is the text behind its leading dot.
abbrev pub is_bare : Str → Str → Bool
is_bare text domain = elim (strip_prefix (b'.' ∷ []) domain) [
  | none ↦ false
  | some bare ↦ str_eq bare text
]

unfoldable pub is_local : Rules → Handle.Handle → Bool
unfolding ends_with
is_local rules it = any (λ domain. ends_with it.text domain || is_bare it.text domain) rules.domains

-- What `signup` asks of the part in front of the domain.
unfoldable pub check_front : Rules → Str → Result Invalid (Unit {0})
check_front rules front = do
  fail_if (contains b'.' front) (handle "Invalid characters in handle")
  fail_if (ltb (length front) shortest) (handle "Handle too short")
  fail_if (ltb longest (length front)) (handle "Handle too long")
  fail_if (is_held front || binary_search rules.held front) reserved

unfoldable pub signup : Rules → Str → Result Invalid Handle.Handle
unfolding normalize service_domain check_front
signup rules input = do
  it ← normalize input
  domain ← ok_or (service_domain rules it) unsupported
  check_front rules (take (length it.text - length domain) it.text)
  ok it
