-- ===== src/Repo/Write/Tests.antt =====
-- The theorem on puts at two of them to one key.
use manapds.Prelude.{◌∷◌, refl, [], none, Str, ◌≡◌, map}
use manapds.Prelude.Bytes.{codes}
use manapds.Prelude.Result.{ok}
use manapds.Repo.Write.{Records, Batch, apply_all}
use manapds.Repo.Write.Puts.{Put, IsPut, as_write, last_put, apply_all-puts}
use manapds.Repo.Mst.Key.{leading_zeros}
use manapds.Repo.Mst.Items.{items, lookup_leaf}
use manapds.Syntax.Nsid
use manapds.Syntax.RecordKey
use manapds.Repo.Mst.Whole.{IsTree}
use manapds.Repo.Mst.Samples.{digest, digest-IsDigest, reader, top, top-IsTree}

collection_parses :
    Nsid.parse (codes "app.test.post") ≡ ok (record { text = codes "app.test.post" })
unfolding Nsid.parse Nsid.validate Nsid.validate_segments Nsid.validate_segment
collection_parses = refl

abbrev first_put : Put Str
first_put = record {
  collection = record { text = codes "app.test.post" };
  rkey = record { text = codes "z" };
  content = codes "hello";
}

abbrev second_put : Put Str
second_put = record {
  collection = record { text = codes "app.test.post" };
  rkey = record { text = codes "z" };
  content = codes "again";
}

-- Records that are their own encoding, and no maps.
abbrev plain : Records Str
plain = record { encode = λ bytes. ok bytes; named = λ bytes. none }

z_parses : RecordKey.parse (codes "z") ≡ ok (record { text = codes "z" })
unfolding RecordKey.parse RecordKey.validate RecordKey.is_allowed
z_parses = refl

first_IsPut : IsPut plain first_put
first_IsPut = record {
  collection_parsed = collection_parses;
  rkey_parsed = z_parses;
  bytes = codes "hello";
  encodes = refl;
}

second_IsPut : IsPut plain second_put
second_IsPut = record {
  collection_parsed = collection_parses;
  rkey_parsed = z_parses;
  bytes = codes "again";
  encodes = refl;
}

abbrev batch : Batch
batch = record { encoded = []; leaves = []; tree = top }

apply_all-puts_example :
    (done : Batch) × (apply_all reader plain (map as_write (first_put ∷ second_put ∷ [])) batch
      ≡ ok done)
    × IsTree (leading_zeros digest) done.tree
    × ((other : Str)
        → lookup_leaf other (items done.tree)
          ≡ last_put reader plain other
              (first_put ∷ second_put ∷ [])
              (lookup_leaf other (items top)))
apply_all-puts_example =
    apply_all-puts reader plain (first_put ∷ second_put ∷ []) batch digest-IsDigest top-IsTree
      (first_IsPut, (second_IsPut, tt))
