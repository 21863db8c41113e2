-- ===== src/Worker/Run/Chunks.antt =====
-- The slices of the rows.
use jolly_jesters_mvp.Prelude.{
  ℕ, zero, suc, ◌≤◌, ◌<◌, List, [], ◌∷◌, ◌++◌, length, take, drop, All, ◌≡◌, refl, ap, ◌∙◌, arith,
  length-drop,
}
use jolly_jesters_mvp.Worker.Rows.{Item}
use jolly_jesters_mvp.Worker.Run.{batch_size, batches_from, batches, concat}

take-append-drop {ℓ} : {A : Type ℓ} (n : ℕ) (xs : List A) → take n xs ++ drop n xs ≡ xs
take-append-drop zero xs = refl
take-append-drop (suc n) [] = refl
take-append-drop (suc n) (x ∷ xs) = ap (λ ys. x ∷ ys) (take-append-drop n xs)

length-take-le {ℓ} : {A : Type ℓ} (n : ℕ) (xs : List A) → length (take n xs) ≤ n
length-take-le zero xs = omega arith
length-take-le (suc n) [] = omega arith
length-take-le (suc n) (x ∷ xs) = omega (arith, length-take-le n xs)

module _ {D : Type 0} where
  abbrev pub IsSlice : List (Item D) → Type 0
  IsSlice b = (0 < length b) × (length b ≤ batch_size)

  slices :
      (fuel : ℕ) (xs : List (Item D))
      → length xs ≤ fuel
      → (concat (batches_from fuel xs) ≡ xs) × All IsSlice (batches_from fuel xs)
  slices zero [] h = (refl, tt)
  slices zero (x ∷ xs) h = absurd (omega arith)
  slices (suc fuel) [] h = (refl, tt)
  slices (suc fuel) (x ∷ xs) h =
      let (same, sizes) =
        slices fuel (drop batch_size (x ∷ xs)) (omega (arith, length-drop batch_size (x ∷ xs))) in
      (
        ap (λ ys. take batch_size (x ∷ xs) ++ ys) same ∙ take-append-drop batch_size (x ∷ xs),
        ((omega arith, length-take-le batch_size (x ∷ xs)), sizes),
      )

  -- The batches are slices of 1 to 10 rows, and together they are the rows in their order: the fuel, one
  -- for each row, is enough.
  pub concat-batches : (xs : List (Item D)) → (concat (batches xs) ≡ xs) × All IsSlice (batches xs)
  concat-batches xs = slices (length xs) xs (omega arith)
