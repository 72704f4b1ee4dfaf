-- ===== src/Context/Submit/Split.antt =====
-- Cutting a batch into pieces.
use Prim.Native.Nat.add
use native.Mathlib.Nat.{zero-add}
use dlslime.Prelude.{
  ℕ, zero, suc, ◌+◌, ◌≤◌, ◌<◌, ◌≡◌, refl, sym, ap, ◌∙◌, List, [], ◌∷◌, ◌++◌, length, take, drop,
  arith, ltb, Bool-cases, inl, inr, length-take, length-drop, take-append-drop,
}
use dlslime.Assignment.{Assignment, AssignmentBatch}
use dlslime.Context.Submit.{split, split_from, split_step}

abbrev pub flatten : List AssignmentBatch → AssignmentBatch
flatten [] = []
flatten (piece ∷ rest) = piece ++ flatten rest

-- Each piece has at least one assignment and at most `step`.
abbrev pub AllFit : ℕ → List AssignmentBatch → Type 0
AllFit step [] = Unit
AllFit step (piece ∷ rest) = (0 < length piece) × (length piece ≤ step) × AllFit step rest

drop-nil : (n : ℕ) → drop {A = Assignment} n [] ≡ []
drop-nil zero = refl
drop-nil (suc n) = refl

drop-drop : (i n : ℕ) (batch : AssignmentBatch) → drop n (drop i batch) ≡ drop (i + n) batch
drop-drop zero n batch = rw (zero-add n)
drop-drop (suc i) n [] = rw (add.suc i n, drop-nil n)
drop-drop (suc i) n (a ∷ batch) = rw (add.suc i n) (drop-drop i n batch)

drop_all : (i : ℕ) (batch : AssignmentBatch) → length batch ≤ i → drop i batch ≡ []
drop_all zero [] h = refl
drop_all zero (a ∷ batch) h = absurd (omega arith)
drop_all (suc i) [] h = refl
drop_all (suc i) (a ∷ batch) h = drop_all i batch (omega arith)

module _ (step : ℕ) (positive : 0 < step) where
  split_from-flatten :
      (fuel i : ℕ) (batch : AssignmentBatch)
      → length batch ≤ fuel + i
      → flatten (split_from step fuel i batch) ≡ drop i batch
  unfolding split_from
  split_from-flatten zero i batch h = sym (drop_all i batch (omega arith))
  split_from-flatten (suc fuel) i batch h = elim (Bool-cases (ltb i (length batch))) [
    | inl more ↦ rw more (
        ap (λ r. take step (drop i batch) ++ r)
          (split_from-flatten fuel (i + step) batch (omega arith) ∙ sym (drop-drop i step batch))
        ∙ take-append-drop step (drop i batch))
    | inr done ↦ rw done (sym (drop_all i batch (ground arith)))
  ]

  split_from-AllFit :
      (fuel i : ℕ) (batch : AssignmentBatch) → AllFit step (split_from step fuel i batch)
  unfolding split_from
  split_from-AllFit zero i batch = tt
  split_from-AllFit (suc fuel) i batch = elim (Bool-cases (ltb i (length batch))) [
    | inl more ↦ rw more (
      ground (arith, length-take step (drop i batch), length-drop i batch),
      omega (arith, length-take step (drop i batch)),
      split_from-AllFit fuel (i + step) batch,
    )
    | inr done ↦ rw done tt
  ]

-- The pieces are the batch, in order and without loss, and each holds from 1 to 4096 assignments.
pub split-flatten :
    (batch : AssignmentBatch) → (flatten (split batch) ≡ batch) × AllFit split_step (split batch)
unfolding split
split-flatten batch = (
  split_from-flatten split_step (omega arith) (length batch) 0 batch (omega arith),
  split_from-AllFit split_step (omega arith) (length batch) 0 batch,
)
