-- ===== src/Repo/Revision/Steps.antt =====
-- A step that does not come to a value leaves the repository as it was.
use mathlib.Core.Path.{subst}
use manapds.Prelude.{List, Option, [], inl, inr, none, refl, some, ℕ, ◌≡◌, ◌⊎◌, sym, ◌∙◌}
use manapds.Prelude.Result.{Result, ok, err}
use manapds.Syntax.Tid
use manapds.Repo.{Error}
use manapds.Repo.Block
use manapds.Repo.Block.{BlockMap, merge}
use manapds.Repo.Commit.{Codec, Keypair, sign}
use manapds.Repo.Mst.{Reader}
use manapds.Repo.Mst.Blocks
use manapds.Repo.Mst.Dropped.{dropped}
use manapds.Repo.Write.{Write, Records, check_all, apply_all, on_new_reader}
use manapds.Repo.Revision.{
  Repo, State, Step, ◌>>=◌, continue, given, fueled, this, next_rev, kept, leave, apply,
}

-- A step that leaves the repository as it was, whatever comes of it.
abbrev Keeps {ℓ} : {A : Type ℓ} → Step A → Type 0
Keeps m = (s : State) → (m s).0.repo ≡ s.repo

-- A step that does so or comes to a value.
abbrev Settles {ℓ} : {A : Type ℓ} → State × Option (Result Error A) → Repo → Type ℓ
Settles {A} (s, outcome) repo = ((a : A) × (outcome ≡ some (ok a))) ⊎ (s.repo ≡ repo)

continue-Settles {ℓ} :
    {A B : Type ℓ} (t : State × Option (Result Error A)) (f : A → Step B) (repo : Repo)
    → t.0.repo ≡ repo
    → ((a : A) (s : State) → Settles (f a s) s.repo)
    → Settles (continue t f) repo
continue-Settles (s, none) f repo same next = inr same
continue-Settles (s, some (err fault)) f repo same next = inr same
continue-Settles (s, some (ok a)) f repo same next = subst (Settles (f a s)) same (next a s)

record IsSettling {ℓ} {A : Type ℓ} (m : Step A) : Type ℓ where
  runs : (s : State) → Settles (m s) s.repo

>>=-IsSettling {ℓ} :
    {A B : Type ℓ} (m : Step A) (f : A → Step B)
    → Keeps m
    → ((a : A) → IsSettling (f a))
    → IsSettling (m >>= f)
>>=-IsSettling m f keeps next = record {
  runs = λ s. continue-Settles (m s) f s.repo (keeps s) (λ a. (next a).runs);
}

next_rev-Keeps : (wall : Option ℕ) (rev : Tid.Tid) → Keeps (next_rev wall rev)
unfolding next_rev
next_rev-Keeps wall rev s = refl

module _ {R : Type 0} (fuel : ℕ) (wall : Option ℕ) (r : Reader) (codec : Codec)
    (records : Records R) (key : Keypair) where
  apply-IsSettling :
      (writes : List (Write R)) → IsSettling (apply fuel wall r codec records key writes)
  unfolding apply
  apply-IsSettling writes =
      >>=-IsSettling (given (check_all records writes)) _ (λ _. refl)
        (λ _.
          >>=-IsSettling this _ (λ _. refl)
            (λ self.
              >>=-IsSettling
                (given (
                  apply_all r records writes
                    (record { encoded = []; leaves = []; tree = self.tree })))
                _ (λ _. refl)
                (λ batch.
                  >>=-IsSettling (given (kept batch.encoded batch.leaves)) _ (λ _. refl)
                    (λ blocks.
                      >>=-IsSettling (given (on_new_reader (Blocks.unstored_blocks r batch.tree))) _
                        (λ _. refl)
                        (λ (tree, root, nodes).
                          >>=-IsSettling (fueled (dropped fuel r tree self.tree)) _ (λ _. refl)
                            (λ gone.
                              >>=-IsSettling (next_rev wall self.commit.rev) _
                                (next_rev-Keeps wall self.commit.rev)
                                (λ rev.
                                  >>=-IsSettling (given (sign codec self.commit.did rev root key)) _
                                    (λ _. refl)
                                    (λ commit.
                                      >>=-IsSettling
                                        (given (
                                          Block.add codec.encode r.cid_for commit
                                            (merge blocks nodes)))
                                        _ (λ _. refl)
                                        (λ (blocks', cid). record {
                                          runs =
                                              λ s. inl ((blocks', leave self.cid cid gone), refl);
                                        })))))))))

  -- Writes that are refused leave the repository on the revision it was on, wherever on the way the
  -- error is: in the check, in the tree, in the blocks, in the clock, or in the commit.
  pub apply-keeps :
      (writes : List (Write R)) (s : State) (fault : Error)
      → (apply fuel wall r codec records key writes s).1 ≡ some (err fault)
      → (apply fuel wall r codec records key writes s).0.repo ≡ s.repo
  apply-keeps writes s fault failed = elim ((apply-IsSettling writes).runs s) [
    | inl fine ↦ absurd (cc (sym failed ∙ fine.1))
    | inr kept_on ↦ kept_on
  ]
