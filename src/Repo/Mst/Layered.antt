-- ===== src/Repo/Mst/Layered.antt =====
-- The shape of a tree in memory: every key on the layer that its hash gives it.
use manapds.Prelude.{All, Str, false, refl, some, suc, zero, ℕ, ◌≡◌}
use manapds.Prelude.Bytes.{is_empty}
use manapds.Repo.Mst.{Mst, mst, unread, loaded, Entry, leaf, tree, layer_of}
use manapds.Repo.Mst.Node.{held}
use manapds.Repo.Mst.Spot.{Alternates}

abbrev pub IsLoaded : Mst → Type 0
IsLoaded (mst unread _ _) = ⊥
IsLoaded (mst (loaded _) _ _) = Unit

-- What a node's entries are, on layer `n`, where `P` says what its subtrees are.
abbrev pub EntryAt : (Str → ℕ) → ℕ → (Mst → Type 0) → Entry → Type 0
EntryAt z n P (leaf a) = z a.key ≡ n
EntryAt z n P (tree m) = P m

pub record LayeredBy (z : Str → ℕ) (n : ℕ) (P : Mst → Type 0) (m : Mst) : Type 0 where
  pub is_loaded : IsLoaded m
  pub knows : layer_of m ≡ some n
  pub alternates : Alternates false (held m)
  pub entries_at : All (EntryAt z n P) (held m)

-- A node on layer `n`, where `z` is the layer of a key: it knows its layer, its leaves are on it, and
-- its subtrees are nodes on the layer under it with something in them, never two side by side.
abbrev pub Layered : (Str → ℕ) → ℕ → Mst → Type 0
Layered z zero m = LayeredBy z zero (λ _. ⊥) m
Layered z (suc n) m = LayeredBy z (suc n) (λ t. Layered z n t × (is_empty (held t) ≡ false)) m

-- A subtree of a node on layer `n`.
abbrev pub Under : (Str → ℕ) → ℕ → Mst → Type 0
Under z zero t = ⊥
Under z (suc n) t = Layered z n t × (is_empty (held t) ≡ false)

pub Layered-by : (z : Str → ℕ) (n : ℕ) {m : Mst} → Layered z n m → LayeredBy z n (Under z n) m
Layered-by z zero h = record {
  is_loaded = h.is_loaded;
  knows = h.knows;
  alternates = h.alternates;
  entries_at = h.entries_at;
}
Layered-by z (suc n) h = h

pub by-Layered : (z : Str → ℕ) (n : ℕ) {m : Mst} → LayeredBy z n (Under z n) m → Layered z n m
by-Layered z zero h = record {
  is_loaded = h.is_loaded;
  knows = h.knows;
  alternates = h.alternates;
  entries_at = h.entries_at;
}
by-Layered z (suc n) h = h

-- What a node on layer `n` has under it.
pub Under-suc :
    (z : Str → ℕ) (n : ℕ) (t : Mst)
    → Under z n t
    → (k : ℕ) × (n ≡ suc k) × Layered z k t × (is_empty (held t) ≡ false)
Under-suc z zero t h = absurd h
Under-suc z (suc n) t h = (n, refl, h.0, h.1)
