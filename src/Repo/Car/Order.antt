-- ===== src/Repo/Car/Order.antt =====
-- A map in the order of its keys is the same map.
use manapds.Prelude.{
  All, Bool, Bool-cases, Str, [], all, ap, arith, false, if◌then◌else◌, inl, inr, none, refl, some,
  ◌∙◌, ◌∷◌, ◌≡◌,
}
use manapds.Prelude.Eq.{Str_eq, str_eq_iff}
use manapds.Prelude.Bytes.{str_eq}
use manapds.Prelude.Map.{lookup, Distinct}
use manapds.Repo.{Cid}
use manapds.Repo.Block.{BlockMap}
use manapds.Repo.Car.{in_order, insert_in_order}

module _ (before : Cid → Cid → Bool) where
  lookup-insert_in_order :
      (cid key : Cid) (bytes : Str) (blocks : BlockMap)
      → lookup cid blocks ≡ none
      → lookup key (insert_in_order before (cid, bytes) blocks)
        ≡ (if str_eq cid key then some bytes else lookup key blocks)
  unfolding insert_in_order lookup
  lookup-insert_in_order cid key bytes [] absent = refl
  lookup-insert_in_order cid key bytes ((next, held) ∷ blocks) absent =
      elim (Bool-cases (before next cid)) [
        | inr here ↦ rw here refl
        | inl on ↦ rw on (
            ground (
              arith,
              str_eq_iff next cid,
              str_eq_iff next key,
              str_eq_iff cid key,
              lookup-insert_in_order cid key bytes blocks,
            ))
      ]

  pub lookup-in_order :
      (key : Cid) (blocks : BlockMap)
      → Distinct blocks
      → lookup key (in_order before blocks) ≡ lookup key blocks
  unfolding in_order lookup
  lookup-in_order key [] d = refl
  lookup-in_order key ((cid, bytes) ∷ blocks) d =
      lookup-insert_in_order cid key bytes (in_order before blocks)
        (lookup-in_order cid blocks d.1 ∙ d.0)
      ∙ ap (λ found. if str_eq cid key then some bytes else found) (lookup-in_order key blocks d.1)

  insert_in_order-Distinct :
      (cid : Cid) (bytes : Str) (blocks : BlockMap)
      → lookup cid blocks ≡ none
      → Distinct blocks
      → Distinct (insert_in_order before (cid, bytes) blocks)
  unfolding insert_in_order lookup
  insert_in_order-Distinct cid bytes [] absent d = (refl, tt)
  insert_in_order-Distinct cid bytes ((next, held) ∷ blocks) absent d =
      elim (Bool-cases (before next cid)) [
        | inr here ↦ rw here (absent, d)
        | inl on ↦
            let apart : str_eq next cid ≡ false = ground arith in
            let later : lookup cid blocks ≡ none = ground arith in
            let apart' : str_eq cid next ≡ false =
              ground (arith, str_eq_iff next cid, str_eq_iff cid next) in
            rw on (
              lookup-insert_in_order cid next bytes blocks later ∙ rw apart' d.0,
              insert_in_order-Distinct cid bytes blocks later d.1,
            )
      ]

  pub in_order-Distinct : (blocks : BlockMap) → Distinct blocks → Distinct (in_order before blocks)
  unfolding in_order
  in_order-Distinct [] d = tt
  in_order-Distinct ((cid, bytes) ∷ blocks) d =
      insert_in_order-Distinct cid bytes (in_order before blocks)
        (lookup-in_order cid blocks d.1 ∙ d.0) (in_order-Distinct blocks d.1)

  All-insert_in_order {ℓ} :
      (P : Cid × Str → Type ℓ) (block : Cid × Str) (blocks : BlockMap)
      → P block
      → All P blocks
      → All P (insert_in_order before block blocks)
  unfolding insert_in_order
  All-insert_in_order P (cid, bytes) [] first rest = (first, tt)
  All-insert_in_order P (cid, bytes) ((next, held) ∷ blocks) first rest =
      elim (Bool-cases (before next cid)) [
        | inr here ↦ rw here (first, rest)
        | inl on ↦ rw on (rest.0, All-insert_in_order P (cid, bytes) blocks first rest.1)
      ]

  pub All-in_order {ℓ} :
      (P : Cid × Str → Type ℓ) (blocks : BlockMap) → All P blocks → All P (in_order before blocks)
  unfolding in_order
  All-in_order P [] all = tt
  All-in_order P (block ∷ blocks) all =
      All-insert_in_order P block (in_order before blocks) all.0 (All-in_order P blocks all.1)
