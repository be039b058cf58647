-- ===== src/Repo/Mst/Changed.antt =====
-- What the sets of a walk hold: the blocks of one tree that are not the other's.
use manapds.Prelude.{Bool-cases, List, [], arith, false, inl, inr, not, refl, ◌&&◌, ◌||◌, ◌∷◌, ◌≡◌}
use manapds.Prelude.Bytes.{str_eq}
use manapds.Prelude.Eq.{str_eq_iff}
use manapds.Repo.{Cid}
use manapds.Repo.Mst.Node.{is_seen}
use manapds.Repo.Mst.Walk.{Diff, set_insert, set_remove, diff_add, diff_remove}

-- No CID stands twice.
abbrev pub Once : List Cid → Type 0
Once [] = Unit
Once (c ∷ cs) = (is_seen c cs ≡ false) × Once cs

is_seen-set_insert :
    (x v : Cid) (s : List Cid) → is_seen x (set_insert v s) ≡ (str_eq x v || is_seen x s)
unfolding set_insert is_seen
is_seen-set_insert x v [] = refl
is_seen-set_insert x v (c ∷ cs) = ground (arith, is_seen-set_insert x v cs, str_eq_iff v c)

set_insert-Once : (v : Cid) (s : List Cid) → is_seen v s ≡ false → Once s → Once (set_insert v s)
unfolding set_insert is_seen
set_insert-Once v [] new h = (refl, tt)
set_insert-Once v (c ∷ cs) new h =
    ground (arith, set_insert-Once v cs, is_seen-set_insert c v cs, str_eq_iff v c, str_eq_iff c v)

is_seen-set_remove :
    (x v : Cid) (s : List Cid)
    → Once s
    → is_seen x (set_remove v s) ≡ (is_seen x s && not (str_eq x v))
unfolding set_remove is_seen
is_seen-set_remove x v [] h = refl
is_seen-set_remove x v (c ∷ cs) h =
    ground (arith, is_seen-set_remove x v cs, str_eq_iff v c, str_eq_iff x v, str_eq_iff x c)

set_remove-Once : (v : Cid) (s : List Cid) → Once s → Once (set_remove v s)
unfolding set_remove
set_remove-Once v [] h = tt
set_remove-Once v (c ∷ cs) h = ground (arith, set_remove-Once v cs, is_seen-set_remove c v cs)

-- The two sets, where the blocks `before` have been let go of and the blocks `after` taken in.
pub record IsBetween (d : Diff) (before after : List Cid) : Type 0 where
  pub removed_is : (x : Cid) → is_seen x d.removed ≡ (is_seen x before && not (is_seen x after))
  pub added_is : (x : Cid) → is_seen x d.added ≡ (is_seen x after && not (is_seen x before))
  pub removed_once : Once d.removed
  pub added_once : Once d.added

pub diff_remove-IsBetween :
    (v : Cid) (d : Diff) (before after : List Cid)
    → is_seen v before ≡ false
    → IsBetween d before after
    → IsBetween (diff_remove v d) (v ∷ before) after
unfolding diff_remove is_seen
diff_remove-IsBetween v d before after new h = elim (Bool-cases (is_seen v d.added)) [
  | inl there ↦ rw there (record {
    removed_is = λ x. ground (arith, h.removed_is x, h.added_is v, str_eq_iff x v);
    added_is = λ x.
        ground (arith, h.added_is x, is_seen-set_remove x v d.added h.added_once, str_eq_iff x v);
    removed_once = h.removed_once;
    added_once = set_remove-Once v d.added h.added_once;
  })
  | inr absent ↦ rw absent (record {
    removed_is = λ x.
        ground
          (arith, h.removed_is x, h.added_is v, is_seen-set_insert x v d.removed, str_eq_iff x v);
    added_is = λ x. ground (arith, h.added_is x, h.added_is v, str_eq_iff x v);
    removed_once = set_insert-Once v d.removed (ground (arith, h.removed_is v)) h.removed_once;
    added_once = h.added_once;
  })
]

pub diff_add-IsBetween :
    (v : Cid) (d : Diff) (before after : List Cid)
    → is_seen v after ≡ false
    → IsBetween d before after
    → IsBetween (diff_add v d) before (v ∷ after)
unfolding diff_add is_seen
diff_add-IsBetween v d before after new h = elim (Bool-cases (is_seen v d.removed)) [
  | inl there ↦ rw there (record {
    removed_is = λ x.
        ground
          (arith, h.removed_is x, is_seen-set_remove x v d.removed h.removed_once, str_eq_iff x v);
    added_is = λ x. ground (arith, h.added_is x, h.removed_is v, str_eq_iff x v);
    removed_once = set_remove-Once v d.removed h.removed_once;
    added_once = h.added_once;
  })
  | inr absent ↦ rw absent (record {
    removed_is = λ x. ground (arith, h.removed_is x, h.removed_is v, str_eq_iff x v);
    added_is = λ x.
        ground
          (arith, h.added_is x, h.removed_is v, is_seen-set_insert x v d.added, str_eq_iff x v);
    removed_once = h.removed_once;
    added_once = set_insert-Once v d.added (ground (arith, h.added_is v)) h.added_once;
  })
]

-- A block that both trees have is passed over.
pub both-IsBetween :
    (v : Cid) (d : Diff) (before after : List Cid)
    → is_seen v before ≡ false
    → is_seen v after ≡ false
    → IsBetween d before after
    → IsBetween d (v ∷ before) (v ∷ after)
unfolding is_seen
both-IsBetween v d before after new new' h = record {
  removed_is = λ x. ground (arith, h.removed_is x, str_eq_iff x v);
  added_is = λ x. ground (arith, h.added_is x, str_eq_iff x v);
  removed_once = h.removed_once;
  added_once = h.added_once;
}
