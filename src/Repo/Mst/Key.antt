-- ===== src/Repo/Mst/Key.antt =====
-- src/repo/mst.rs: the keys. How deep a key sits, what two keys share, and which keys are record paths.
use manapds.Prelude.{
  Bool, List, Str, [], all, false, if◌then◌else◌, leb, length, ltb, not, suc, ℕ, ◌&&◌, ◌+◌, ◌/◌,
  ◌==◌, ◌||◌, ◌∷◌,
}
use manapds.Prelude.Bytes.{split, is_empty, is_ascii_alphanumeric}
use manapds.Prelude.Result.{Result, ok, err}
use manapds.Repo.{Error}
use manapds.Repo.Mst.{key_len_max}

-- `u8::leading_zeros`
unfoldable pub leading_zeros8 : ℕ → ℕ
leading_zeros8 b =
    if ltb 127 b
    then 0
    else if ltb 63 b
    then 1
    else if ltb 31 b
    then 2
    else if ltb 15 b
    then 3
    else if ltb 7 b
    then 4
    else if ltb 3 b
    then 5
    else if ltb 1 b
    then 6
    else if ltb 0 b
    then 7
    else 8

-- The loop over the digest: it stops behind the first byte that is not zero.
unfoldable pub leading_zeros_in : Str → ℕ
leading_zeros_in [] = 0
leading_zeros_in (b ∷ bs) =
    let rest = leading_zeros_in bs in leading_zeros8 b / 2 + (if b == 0 then rest else 0)

unfoldable pub leading_zeros : (Str → Str) → Str → ℕ
leading_zeros sha256 key = leading_zeros_in (sha256 key)

unfoldable pub shared_prefix : Str → Str → ℕ
shared_prefix [] b = 0
shared_prefix (x ∷ a) [] = 0
shared_prefix (x ∷ a) (y ∷ b) = if x == y then suc (shared_prefix a b) else 0

unfoldable pub is_key_byte : ℕ → Bool
is_key_byte b =
    is_ascii_alphanumeric b || b == b'_' || b == b'~' || b == b'-' || b == b':' || b == b'.'

unfoldable pub is_path_of : Str → List Str → Bool
is_path_of key (collection ∷ rkey ∷ []) =
    leb (length key) key_len_max
    && not (is_empty collection)
    && not (is_empty rkey)
    && all (λ b. b == b'/' || is_key_byte b) key
is_path_of key _ = false

unfoldable pub ensure_valid_key : Str → Result Error (Unit {0})
ensure_valid_key key =
    if is_path_of key (split b'/' key) then ok tt else err (Error.invalid_key key)
