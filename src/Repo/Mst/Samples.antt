-- ===== src/Repo/Mst/Samples.antt =====
-- A small tree in memory, with a digest that is easy to follow.
use manapds.Prelude.{◌∷◌, refl, [], Str, arith, some, if◌then◌else◌}
use manapds.Prelude.Bytes.{codes, contains}
use manapds.Prelude.Result.{err}
use manapds.Repo.{Error}
use manapds.Repo.Block.{store_of}
use manapds.Repo.Mst.{Mst, leaf, tree, from_entries, Reader}
use manapds.Repo.Mst.Key.{leading_zeros_in, leading_zeros8, leading_zeros}
use manapds.Repo.Mst.Items.{items}
use manapds.Repo.Mst.Insert.{record_at}
use manapds.Repo.Mst.Layered.{Layered}
use manapds.Repo.Mst.Whole.{IsTree, rooted, IsDigest}

-- A digest that puts a key with a `z` in it on layer 1, and any other on layer 0.
abbrev pub digest : Str → Str
digest key =
    (if contains b'z' key then 16 else 255)
    ∷ 1
    ∷ 2
    ∷ 3
    ∷ 4
    ∷ 5
    ∷ 6
    ∷ 7
    ∷ 8
    ∷ 9
    ∷ 10
    ∷ 11
    ∷ 12
    ∷ 13
    ∷ 14
    ∷ 15
    ∷ 16
    ∷ 17
    ∷ 18
    ∷ 19
    ∷ 20
    ∷ 21
    ∷ 22
    ∷ 23
    ∷ 24
    ∷ 25
    ∷ 26
    ∷ 27
    ∷ 28
    ∷ 29
    ∷ 30
    ∷ 31
    ∷ []

pub digest-IsDigest : IsDigest digest
digest-IsDigest key = refl

abbrev pub reader : Reader
reader = record {
  store = store_of [];
  sha256 = digest;
  cid_for = λ bytes. bytes;
  encode = λ node. err (Error.encode "none here");
  decode = λ bytes. err (Error.decode "none here");
}

abbrev pub low : Mst
low = from_entries (leaf (record_at (codes "c/b") (codes "one")) ∷ []) (some 0)

abbrev pub top : Mst
top = from_entries (tree low ∷ leaf (record_at (codes "c/z") (codes "two")) ∷ []) (some 1)

pub low-Layered : Layered (leading_zeros digest) 0 low
unfolding leading_zeros leading_zeros_in leading_zeros8
low-Layered = record { is_loaded = tt; knows = refl; alternates = tt; entries_at = (refl, tt) }

pub top-IsTree : IsTree (leading_zeros digest) top
unfolding leading_zeros leading_zeros_in leading_zeros8 items
top-IsTree =
    rooted 1 top (omega arith)
      (record {
        is_loaded = tt;
        knows = refl;
        alternates = (refl, tt);
        entries_at = ((low-Layered, refl), (refl, tt));
      })
      ((refl, tt), (tt, tt))
