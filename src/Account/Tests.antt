-- ===== src/Account/Tests.antt =====
-- The theorems on handles at one sign-up.
use manapds.Prelude.{List, Str, [], refl, true, ◌↔◌, ◌∷◌, ◌≡◌}
use manapds.Prelude.Bytes.{codes}
use manapds.Prelude.Result.{ok, err}
use manapds.Prelude.Search.{binary_search, sort, dedup}
use manapds.Prelude.Trim.{trim}
use manapds.Syntax.Handle
use manapds.Account.HandleRules.{new, signup, is_local, Invalid}
use manapds.Account.HandleRules.Reserved.{is_held, reserved_names}
use manapds.Account.HandleRules.Taken.{IsOffered, signup-IsOffered_iff}
use manapds.Account.HandleRules.Again.{signup-again}

abbrev domains : List Str
domains = codes ".pds.test" ∷ []

abbrev held : List Str
held = codes "  Mana " ∷ codes "support" ∷ []

abbrev alice : Handle.Handle
alice = record { text = codes "alice.pds.test" }

program : Unit {0}
unfolding signup new Handle.parse Handle.validate Handle.validate_labels Handle.validate_label
    Handle.to_ascii_lowercase Handle.normalize is_held reserved_names binary_search sort dedup trim
program = tt

alice_taken : signup (new domains held) (codes "Alice.PDS.test") ≡ ok alice
unfolding program
alice_taken = refl

mana_held : signup (new domains held) (codes "MANA.pds.test") ≡ err Invalid.reserved
unfolding program
mana_held = refl

admin_reserved : signup (new domains held) (codes "admin.pds.test") ≡ err Invalid.reserved
unfolding program
admin_reserved = refl

elsewhere : signup (new domains held) (codes "alice.example.com") ≡ err Invalid.unsupported
unfolding program
elsewhere = refl

signup-IsOffered_iff_example : (signup (new domains held) (codes "Alice.PDS.test") ≡ ok alice) ↔ (
    (front : Str) × (domain : Str) × IsOffered domains held
      (codes "Alice.PDS.test")
      alice
      front
      domain)
signup-IsOffered_iff_example = signup-IsOffered_iff domains held (codes "Alice.PDS.test") alice

signup-again_example :
    (is_local (new domains held) alice ≡ true)
    × (signup (new domains held) (codes "alice.pds.test") ≡ ok alice)
signup-again_example = signup-again domains held (codes "Alice.PDS.test") alice alice_taken
