-- ===== src/Prelude/Map.antt =====
-- Rust's maps as association lists: an insertion replaces in place, so keys stay distinct.
use manapds.Prelude.{
  Bool, Bool-cases, List, Option, [], ap, arith, false, if◌then◌else◌, inl, inr, length, none, refl,
  some, suc, ◌||◌, ◌∙◌, ◌∷◌, ◌≡◌, ◌≤◌,
}
use manapds.Prelude.Eq.{Eq, ◌=?◌}

abbrev pub Map {ℓ κ} : Type ℓ → Type κ → Type (ℓ ⊔ κ)
Map K V = List (K × V)

abbrev pub filter_value {ℓ} : {V : Type ℓ} → (V → Bool) → Option V → Option V
filter_value p none = none
filter_value p (some v) = if p v then some v else none

module _ {ℓ} {K V : Type ℓ} ⦃e : Eq K⦄ where
  unfoldable pub lookup : K → Map K V → Option V
  lookup k [] = none
  lookup k ((j, v) ∷ m) = if j =? k then some v else lookup k m

  unfoldable pub contains_key : K → Map K V → Bool
  contains_key k [] = false
  contains_key k ((j, v) ∷ m) = j =? k || contains_key k m

  unfoldable pub insert : K → V → Map K V → Map K V
  insert k v [] = (k, v) ∷ []
  insert k v ((j, w) ∷ m) = if j =? k then (k, v) ∷ m else (j, w) ∷ insert k v m

  -- `retain`
  unfoldable pub retain : (V → Bool) → Map K V → Map K V
  retain p [] = []
  retain p ((j, v) ∷ m) = if p v then (j, v) ∷ retain p m else retain p m

  unfoldable pub remove : K → Map K V → Map K V
  remove k [] = []
  remove k ((j, v) ∷ m) = if j =? k then m else (j, v) ∷ remove k m

  -- No key stands twice.
  abbrev pub Distinct : Map K V → Type ℓ
  Distinct [] = Unit
  Distinct ((k, v) ∷ m) = (lookup k m ≡ none) × Distinct m

  pub lookup-insert :
      (k j : K) (v : V) (m : Map K V)
      → lookup j (insert k v m) ≡ (if k =? j then some v else lookup j m)
  unfolding lookup insert
  lookup-insert k j v [] = refl
  lookup-insert k j v ((i, w) ∷ m) =
      ground (arith, e.decides_iff k j, e.decides_iff i k, e.decides_iff i j, lookup-insert k j v m)

  pub contains_key-lookup : (k : K) (m : Map K V) → contains_key k m ≡ false → lookup k m ≡ none
  unfolding lookup contains_key
  contains_key-lookup k [] h = refl
  contains_key-lookup k ((j, v) ∷ m) h = ground (arith, contains_key-lookup k m)

  pub lookup-contains_key : (k : K) (m : Map K V) → lookup k m ≡ none → contains_key k m ≡ false
  unfolding lookup contains_key
  lookup-contains_key k [] h = refl
  lookup-contains_key k ((j, v) ∷ m) h = ground (arith, lookup-contains_key k m)

  pub length-insert :
      (k : K) (v : V) (m : Map K V)
      → length (insert k v m) ≡ (if contains_key k m then length m else suc (length m))
  unfolding insert contains_key
  length-insert k v [] = refl
  length-insert k v ((j, w) ∷ m) = ground (arith, length-insert k v m)

  pub length-retain : (p : V → Bool) (m : Map K V) → length (retain p m) ≤ length m
  unfolding retain
  length-retain p [] = omega arith
  length-retain p ((j, v) ∷ m) = ground (arith, length-retain p m)

  pub lookup-retain :
      (p : V → Bool) (k : K) (m : Map K V)
      → Distinct m
      → lookup k (retain p m) ≡ filter_value p (lookup k m)
  unfolding lookup retain
  lookup-retain p k [] d = refl
  lookup-retain p k ((j, v) ∷ m) d = ground (arith, e.decides_iff j k, lookup-retain p k m d.1, d.0)

  pub insert-Distinct : (k : K) (v : V) (m : Map K V) → Distinct m → Distinct (insert k v m)
  unfolding insert lookup
  insert-Distinct k v [] d = (refl, tt)
  insert-Distinct k v ((j, w) ∷ m) d = elim (Bool-cases (j =? k)) [
    | inl same ↦ rw same (rw ((e.decides_iff j k).0 same) at d.0, d.1)
    | inr other ↦ rw other (
      lookup-insert k j v m ∙ ground (arith, e.decides_iff j k, e.decides_iff k j, d.0),
      insert-Distinct k v m d.1,
    )
  ]

  pub retain-Distinct : (p : V → Bool) (m : Map K V) → Distinct m → Distinct (retain p m)
  unfolding retain
  retain-Distinct p [] d = d
  retain-Distinct p ((j, v) ∷ m) d = elim (Bool-cases (p v)) [
    | inl kept ↦
        rw kept (lookup-retain p j m d.1 ∙ ap (filter_value p) d.0, retain-Distinct p m d.1)
    | inr dropped ↦ rw dropped (retain-Distinct p m d.1)
  ]
