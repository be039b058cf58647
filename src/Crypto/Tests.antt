-- ===== src/Crypto/Tests.antt =====
-- The theorems on the comparison of secrets and on base32, at some text.
use manapds.Prelude.{refl, true, ◌↔◌, ◌≡◌}
use manapds.Prelude.Bytes.{codes}
use manapds.Crypto.{same, base32}
use manapds.Crypto.Same.{same_iff}

foobar : base32 (codes "foobar") ≡ codes "mzxw6ytboi"
unfolding base32
foobar = refl

same_iff_example :
    (same (codes "secret") (codes "secreT") ≡ true) ↔ (codes "secret" ≡ codes "secreT")
same_iff_example = same_iff (codes "secret") (codes "secreT")
