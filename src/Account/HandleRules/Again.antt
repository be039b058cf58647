-- ===== src/Account/HandleRules/Again.antt =====
-- That a handle signed up is local, and that it may be signed up under its own spelling.
use manapds.Prelude.{
  Bool-cases, List, Str, [], ap, arith, inl, inr, refl, true, ◌||◌, ◌∙◌, ◌∷◌, ◌≡◌, Bool,
}
use manapds.Prelude.Bytes.{str_eq}
use manapds.Prelude.Eq.{str_eq→eq}
use manapds.Prelude.Result.{Result, err, ok}
use manapds.Prelude.Search.{mem}
use manapds.Syntax
use manapds.Syntax.Handle
use manapds.Account.HandleRules.{
  disallowed, Result, resolvable, any, is_bare, is_local, Invalid, normalize, signup, new,
  ends_with,
}
use manapds.Account.HandleRules.Taken.{first_ending-some, taken-IsOffered, IsOffered-taken}

lower_again :
    (s : Str)
    → Handle.to_ascii_lowercase (Handle.to_ascii_lowercase s) ≡ Handle.to_ascii_lowercase s
unfolding Handle.to_ascii_lowercase
lower_again [] = refl
lower_again (c ∷ s) = ground (arith, lower_again s)

resolvable-ok :
    (m : Result Syntax.Error Handle.Handle) (it : Handle.Handle) → resolvable m ≡ ok it → m ≡ ok it
resolvable-ok (err _) it h = absurd (cc h)
resolvable-ok (ok made) it h = elim (Bool-cases (any (ends_with made.text) disallowed)) [
  | inl fault ↦ absurd (cc (rw fault at h))
  | inr fine ↦
      let same : Path (Result Invalid Handle.Handle) (ok made) (ok it) = rw fine at h in
      let e : made ≡ it = cc same in rw e refl
]

normalize-again :
    (input : Str) (it : Handle.Handle) → normalize input ≡ ok it → normalize it.text ≡ ok it
unfolding normalize Handle.normalize
normalize-again input it h =
    let text =
      (Handle.parse-text (Handle.to_ascii_lowercase input) it
        (resolvable-ok (Handle.parse (Handle.to_ascii_lowercase input)) it h)).1 in
    ap (λ s. resolvable (Handle.parse (Handle.to_ascii_lowercase s))) text
    ∙ ap (λ s. resolvable (Handle.parse s)) (lower_again input)
    ∙ h

mem-any :
    (p : Str → Bool) (domain : Str) (domains : List Str)
    → mem domain domains ≡ true
    → p domain ≡ true
    → any p domains ≡ true
mem-any p domain [] held h = absurd (cc held)
mem-any p domain (d ∷ domains) held h = elim (Bool-cases (str_eq d domain)) [
  | inl same ↦ rw (str_eq→eq d domain same, h) refl
  | inr other ↦ elim (Bool-cases (p d)) [
    | inl here ↦ rw here refl
    | inr on ↦ rw on (mem-any p domain domains (rw other at held) h)
  ]
]

-- What signing up gives is a handle of this server, and signing up under it gives it again.
pub signup-again :
    (domains held : List Str) (input : Str) (it : Handle.Handle)
    → signup (new domains held) input ≡ ok it
    → (is_local (new domains held) it ≡ true) × (signup (new domains held) it.text ≡ ok it)
unfolding is_local new
signup-again domains held input it taken =
    let (front, domain, offer) = taken-IsOffered domains held input it taken in
    let (ending, served) = first_ending-some it.text domains domain offer.under in
    let here : (ends_with it.text domain || is_bare it.text domain) ≡ true = rw ending refl in
    (
      mem-any (λ d. ends_with it.text d || is_bare it.text d) domain domains served here,
      IsOffered-taken domains held it.text it front domain (record {
        normal = normalize-again input it offer.normal;
        under = offer.under;
        spelling = offer.spelling;
        free = offer.free;
      }),
    )
