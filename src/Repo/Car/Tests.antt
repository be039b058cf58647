-- ===== src/Repo/Car/Tests.antt =====
-- The theorems on files at a file of two blocks, in a format with one number for each varint and each CID.
use manapds.Prelude.{List, Option, Str, [], arith, false, none, refl, some, take, true, ℕ, ◌∷◌, ◌≡◌}
use manapds.Prelude.Eq.{Str_eq}
use manapds.Prelude.Map.{insert, lookup, contains_key, Distinct}
use manapds.Prelude.Result.{Result, ok, err}
use manapds.Repo.{Cid, Error}
use manapds.Repo.Block.{BlockMap}
use manapds.Repo.Car.{Format, Header, read, write, in_order, hashes_to}
use manapds.Repo.Car.Reads.{Consumes, read_ends}
use manapds.Repo.Car.Checked.{read-AllHash}
use manapds.Repo.Car.Trip.{IsFormat, IsSound, read-write}

abbrev read_number : Str → Option (ℕ × Str)
read_number [] = none
read_number (n ∷ rest) = some (n, rest)

abbrev encode_roots : ℕ → List Cid → Result Error Str
encode_roots version ((c ∷ []) ∷ []) = ok (version ∷ c ∷ [])
encode_roots version _ = err (Error.encode "another header")

abbrev decode_header : Str → Result Error Header
decode_header (version ∷ c ∷ []) = ok (record { version = version; roots = (c ∷ []) ∷ [] })
decode_header _ = err (Error.decode "another header")

abbrev read_one : Str → Option (Cid × Str)
read_one [] = none
read_one (c ∷ rest) = some (c ∷ [], rest)

abbrev format : Format
format = record {
  varint = λ n. n ∷ [];
  read_varint = read_number;
  encode = λ h. encode_roots h.version h.roots;
  decode = decode_header;
  read_cid = read_one;
  hash_code = λ _. 0x12;
  hash_digest = λ cid. cid;
  sha256 = take 1;
  before = λ left right. false;
}

format-Consumes : Consumes format
format-Consumes [] rest n h = absurd (cc h)
format-Consumes (c ∷ bytes) rest n h = let e : bytes ≡ rest = cc h in rw e (omega arith)

decode-encode_roots :
    (version : ℕ) (roots : List Cid) (bytes : Str)
    → encode_roots version roots ≡ ok bytes
    → decode_header bytes ≡ ok (record { version = version; roots = roots })
decode-encode_roots version [] bytes h = absurd (cc h)
decode-encode_roots version ([] ∷ roots) bytes h = absurd (cc h)
decode-encode_roots version ((c ∷ d ∷ cid) ∷ roots) bytes h = absurd (cc h)
decode-encode_roots version ((c ∷ []) ∷ r ∷ roots) bytes h = absurd (cc h)
decode-encode_roots version ((c ∷ []) ∷ []) bytes h =
    let e : version ∷ c ∷ [] ≡ bytes = cc h in rw (← e) refl

format-IsFormat : IsFormat format
format-IsFormat = record {
  read-varint = λ n rest h. refl;
  consumes = format-Consumes;
  decode-encode = λ h bytes e. decode-encode_roots h.version h.roots bytes e;
}

abbrev blocks : BlockMap
blocks = (7 ∷ [], 7 ∷ 1 ∷ []) ∷ (5 ∷ [], 5 ∷ []) ∷ []

abbrev car : Str
car = 2 ∷ 1 ∷ 5 ∷ 3 ∷ 7 ∷ 7 ∷ 1 ∷ 2 ∷ 5 ∷ 5 ∷ []

IsSound-7 : IsSound format (7 ∷ [], 7 ∷ 1 ∷ [])
unfolding hashes_to
IsSound-7 = record { reads = λ rest. refl; hashes = refl; fits = omega arith }

IsSound-5 : IsSound format (5 ∷ [], 5 ∷ [])
unfolding hashes_to
IsSound-5 = record { reads = λ rest. refl; hashes = refl; fits = omega arith }

written : write format (5 ∷ []) blocks ≡ ok car
unfolding write in_order
written = refl

came : read format car ≡ some (ok (5 ∷ [], blocks))
unfolding read contains_key insert
came = refl

-- The second block is not what its CID says.
wrong : read format (2 ∷ 1 ∷ 5 ∷ 2 ∷ 5 ∷ 6 ∷ []) ≡ some (err (Error.wrong_cid (5 ∷ [])))
unfolding read
wrong = refl

distinct : Distinct blocks
unfolding lookup
distinct = (refl, (refl, tt))

held : contains_key (5 ∷ []) blocks ≡ true
unfolding contains_key
held = refl

read-write_example :
    (read format car ≡ some (ok (5 ∷ [], in_order format.before blocks)))
    × ((cid : Cid) → lookup cid (in_order format.before blocks) ≡ lookup cid blocks)
read-write_example =
    read-write format format-IsFormat (5 ∷ []) blocks (1 ∷ 5 ∷ []) car refl (omega arith) distinct
      (IsSound-7, (IsSound-5, tt)) held written

read_ends_example : (m : Result Error (Cid × BlockMap)) × (read format (9 ∷ 9 ∷ []) ≡ some m)
read_ends_example = read_ends format (9 ∷ 9 ∷ []) format-Consumes

read-AllHash_example :
    (contains_key (5 ∷ []) blocks ≡ true)
    × ((cid : Cid) (bytes : Str)
        → lookup cid blocks ≡ some bytes
        → hashes_to format cid bytes ≡ true)
read-AllHash_example = read-AllHash format car (5 ∷ []) blocks came
