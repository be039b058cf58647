-- ===== src/Account/HandleRules/Taken.antt =====
-- What `signup` takes.
use mathlib.Core.Path.{subst}
use manapds.Prelude.{
  Bool-cases, List, Option, Str, [], ap, arith, drop, false, inl, inr, length, length-append, map,
  refl, some, suc, sym, take, take-append, true, zero, ℕ, ◌++◌, ◌-◌, ◌<◌, ◌||◌, ◌∙◌, ◌∷◌, ◌≡◌, ◌≤◌,
  ◌↔◌,
}
use manapds.Prelude.Bytes.{contains, str_eq}
use manapds.Prelude.Eq.{str_eq→eq, str_eq_refl}
use manapds.Prelude.Result.{ok_or-ok, ok_or, bind-ok, ok}
use manapds.Prelude.Search.{mem, binary_search, dedup, sort}
use manapds.Prelude.Search.Found.{binary_search-mem}
use manapds.Prelude.Search.Sorted.{mem-sort, mem-dedup, dedup-sort-Ascending}
use manapds.Syntax.Handle
use manapds.Account.HandleRules.{
  Invalid, service_domain, normalize, signup, Rules, new, first_ending, check_front, ends_with,
  not_empty, spelled, shortest, longest,
}
use manapds.Account.HandleRules.Reserved.{is_held-mem, reserved_names, is_held}

take-drop {ℓ} : {A : Type ℓ} (n : ℕ) (xs : List A) → take n xs ++ drop n xs ≡ xs
take-drop zero xs = refl
take-drop (suc n) [] = refl
take-drop (suc n) (x ∷ xs) = ap (◌∷◌ x) (take-drop n xs)

ends_with-append :
    (text tail : Str)
    → ends_with text tail ≡ true
    → text ≡ take (length text - length tail) text ++ tail
unfolding ends_with
ends_with-append text tail h =
    let same : str_eq (drop (length text - length tail) text) tail ≡ true = ground arith in
    let at = str_eq→eq (drop (length text - length tail) text) tail same in
    sym (take-drop (length text - length tail) text)
    ∙ ap (λ end. take (length text - length tail) text ++ end) at

front_of : (front tail : Str) → take (length (front ++ tail) - length tail) (front ++ tail) ≡ front
front_of front tail =
    let e : length (front ++ tail) - length tail ≡ length front =
      omega (arith, length-append {0} front tail) in
    rw e (take-append front tail)

pub first_ending-some :
    (text : Str) (domains : List Str) (domain : Str)
    → first_ending text domains ≡ some domain
    → (ends_with text domain ≡ true) × (mem domain domains ≡ true)
unfolding first_ending
first_ending-some text [] domain h = absurd (cc h)
first_ending-some text (d ∷ domains) domain h = elim (Bool-cases (ends_with text d)) [
  | inl here ↦
      let same : Path (Option Str) (some d) (some domain) = rw here at h in
      let e : d ≡ domain = cc same in (rw (← e) here, rw (← e) (rw (str_eq_refl d) refl))
  | inr on ↦
      let (ending, held) = first_ending-some text domains domain (rw on at h) in
      (ending, ground arith)
]

mem-not_empty :
    (key : Str) (names : List Str) → 0 < length key → mem key (not_empty names) ≡ mem key names
mem-not_empty key [] h = refl
mem-not_empty [] (name ∷ names) h = absurd (omega arith)
mem-not_empty (c ∷ key) ([] ∷ names) h = mem-not_empty (c ∷ key) names h
mem-not_empty (c ∷ key) ((d ∷ name) ∷ names) h =
    ap (λ found. str_eq (d ∷ name) (c ∷ key) || found) (mem-not_empty (c ∷ key) names h)

-- The names of the configuration, as they are looked up.
mem-held :
    (domains held : List Str) (front : Str)
    → 0 < length front
    → binary_search (new domains held).held front ≡ mem front (map spelled held)
unfolding new
mem-held domains held front some_front =
    let names = not_empty (map spelled held) in
    binary_search-mem (dedup (sort names)) front (dedup-sort-Ascending names)
    ∙ mem-dedup front (sort names)
    ∙ mem-sort front names
    ∙ mem-not_empty front (map spelled held) some_front

-- A part in front of a domain that `signup` takes.
pub record IsFree (held : List Str) (front : Str) : Type 0 where
  pub one_label : contains b'.' front ≡ false
  pub long : shortest ≤ length front
  pub short : length front ≤ longest
  pub not_reserved : mem front reserved_names ≡ false
  pub not_held : mem front (map spelled held) ≡ false

check_front-reads :
    (rules : Rules) (front : Str)
    → check_front rules front ≡ ok tt
    → (contains b'.' front ≡ false)
      × (shortest ≤ length front)
      × (length front ≤ longest)
      × (is_held front ≡ false)
      × (binary_search rules.held front ≡ false)
unfolding check_front
check_front-reads rules front h = ground arith

check_front-passes :
    (rules : Rules) (front : Str)
    → contains b'.' front ≡ false
    → shortest ≤ length front
    → length front ≤ longest
    → is_held front ≡ false
    → binary_search rules.held front ≡ false
    → check_front rules front ≡ ok tt
unfolding check_front
check_front-passes rules front dots long short reserved held = ground arith

-- A handle that is offered: the input in lower case, under the first domain that it ends in, with a free
-- part in front.
pub record IsOffered (domains held : List Str) (input : Str) (it : Handle.Handle)
    (front domain : Str) : Type 0 where
  pub normal : normalize input ≡ ok it
  pub under : first_ending it.text domains ≡ some domain
  pub spelling : it.text ≡ front ++ domain
  pub free : IsFree held front

IsFree-of :
    (domains held : List Str) (front : Str)
    → check_front (new domains held) front ≡ ok tt
    → IsFree held front
IsFree-of domains held front passed =
    let (dots, long, short, reserved, not_held) =
      check_front-reads (new domains held) front passed in
    record {
      one_label = dots;
      long = long;
      short = short;
      not_reserved = sym (is_held-mem front) ∙ reserved;
      not_held = sym (mem-held domains held front (omega arith)) ∙ not_held;
    }

passes_of :
    (domains held : List Str) (front : Str)
    → IsFree held front
    → check_front (new domains held) front ≡ ok tt
passes_of domains held front free =
    check_front-passes (new domains held) front free.one_label free.long free.short
      (is_held-mem front ∙ free.not_reserved)
      (mem-held domains held front (let long = free.long in omega arith) ∙ free.not_held)

pub taken-IsOffered :
    (domains held : List Str) (input : Str) (it : Handle.Handle)
    → signup (new domains held) input ≡ ok it
    → (front : Str) × (domain : Str) × IsOffered domains held input it front domain
unfolding signup service_domain
taken-IsOffered domains held input it taken =
    let rules = new domains held in
    let (it', normal, on) = bind-ok (normalize input) _ taken in
    let (domain, under, further) =
      bind-ok (ok_or (service_domain rules it') Invalid.unsupported) _ on in
    let front = take (length it'.text - length domain) it'.text in
    let (_, passed, same) = bind-ok (check_front rules front) _ further in
    let e : it' ≡ it = cc same in
    let found = ok_or-ok (service_domain rules it') Invalid.unsupported domain under in
    let found_in : first_ending it'.text domains ≡ some domain = unfold new in found in
    subst
      (λ (i : Handle.Handle).
        (front : Str) × (domain : Str) × IsOffered domains held input i front domain)
      e
      (
        front,
        domain,
        record {
          normal = normal;
          under = found_in;
          spelling =
              ends_with-append it'.text domain
                (first_ending-some it'.text domains domain found_in).0;
          free = IsFree-of domains held front passed;
        },
      )

pub IsOffered-taken :
    (domains held : List Str) (input : Str) (it : Handle.Handle) (front domain : Str)
    → IsOffered domains held input it front domain
    → signup (new domains held) input ≡ ok it
unfolding signup service_domain
IsOffered-taken domains held input it front domain offer =
    let at : take (length it.text - length domain) it.text ≡ front =
      rw offer.spelling (front_of front domain) in
    let found : first_ending it.text (new domains held).domains ≡ some domain =
      unfold new in offer.under in
    rw (offer.normal, found, at, passes_of domains held front offer.free) refl

-- Signing up under the rules of any domains and any held names comes to a handle exactly where the
-- input is that handle in some casing and is allowed anywhere, it ends in a domain of the server (the
-- first of the list that it ends in), and what stands in front is one label of 3 to 18 bytes that is
-- neither a reserved name nor a held name, the held names trimmed and in lower case.
pub signup-IsOffered_iff :
    (domains held : List Str) (input : Str) (it : Handle.Handle)
    → (signup (new domains held) input ≡ ok it)
      ↔ ((front : Str) × (domain : Str) × IsOffered domains held input it front domain)
signup-IsOffered_iff domains held input it = (
  taken-IsOffered domains held input it,
  λ (front, domain, offer). IsOffered-taken domains held input it front domain offer,
)
