-- ===== src/Prelude/Sort.antt =====
-- A stable insertion sort by a Boolean test, for the queries with ORDER BY and for Python's `sorted`.
use Prim.Native.Nat.{ℕ, zero, suc}
use mathlib.Core.Path.{◌≡◌, refl}
use mathlib.Core.Bool.{Bool, true, false}
use mathlib.Core.List.{List, [], ◌∷◌}
use native.Mathlib.Omega.{arith}
use jolly_jesters_mvp.Prelude.Tests.{if◌then◌else◌, if-cases}
use jolly_jesters_mvp.Prelude.Lists.{length, take, countb, All}

module _ {ℓ} {A : Type ℓ} (before : A → A → Bool) where
  -- An element goes in front of the first one that it comes before.
  abbrev pub insert_by : A → List A → List A
  insert_by x [] = x ∷ []
  insert_by x (y ∷ ys) = if before x y then x ∷ y ∷ ys else y ∷ insert_by x ys

  abbrev pub sort_by : List A → List A
  sort_by [] = []
  sort_by (x ∷ xs) = insert_by x (sort_by xs)

  -- No element stands behind one that it comes before.
  abbrev pub IsSortedBy : List A → Type 0
  IsSortedBy [] = Unit
  IsSortedBy (x ∷ xs) = All (λ y. before x y ≡ true) xs × IsSortedBy xs

module _ {ℓ} {A : Type ℓ} (before : A → A → Bool) where
  countb-insert_by :
      (p : A → Bool) (x : A) (xs : List A) → countb p (insert_by before x xs) ≡ countb p (x ∷ xs)
  countb-insert_by p x [] = refl
  countb-insert_by p x (y ∷ ys) = ground (arith, countb-insert_by p x ys)

  pub countb-sort_by : (p : A → Bool) (xs : List A) → countb p (sort_by before xs) ≡ countb p xs
  countb-sort_by p [] = refl
  countb-sort_by p (x ∷ xs) =
      ground (arith, countb-insert_by p x (sort_by before xs), countb-sort_by p xs)

  length-insert_by : (x : A) (xs : List A) → length (insert_by before x xs) ≡ suc (length xs)
  length-insert_by x [] = refl
  length-insert_by x (y ∷ ys) = ground (arith, length-insert_by x ys)

  pub length-sort_by : (xs : List A) → length (sort_by before xs) ≡ length xs
  length-sort_by [] = refl
  length-sort_by (x ∷ xs) =
      ground (arith, length-insert_by x (sort_by before xs), length-sort_by xs)

  All-insert_by {κ} :
      (P : A → Type κ) (x : A) (xs : List A) → P x → All P xs → All P (insert_by before x xs)
  All-insert_by P x [] h hs = (h, tt)
  All-insert_by P x (y ∷ ys) h hs =
      if-cases (All P) (before x y) (x ∷ y ∷ ys) (y ∷ insert_by before x ys) (λ e. (h, hs))
        (λ e. (hs.0, All-insert_by P x ys h hs.1))

  pub All-sort_by {κ} : (P : A → Type κ) (xs : List A) → All P xs → All P (sort_by before xs)
  All-sort_by P [] h = tt
  All-sort_by P (x ∷ xs) h = All-insert_by P x (sort_by before xs) h.0 (All-sort_by P xs h.1)

module _ {ℓ} {A : Type ℓ} (before : A → A → Bool)
    (total : (x y : A) → before x y ≡ false → before y x ≡ true)
    (trans : (x y z : A) → before x y ≡ true → before y z ≡ true → before x z ≡ true) where
  All-trans :
      (x y : A) (ys : List A)
      → before x y ≡ true
      → All (λ z. before y z ≡ true) ys
      → All (λ z. before x z ≡ true) ys
  All-trans x y [] e h = tt
  All-trans x y (z ∷ zs) e h = (trans x y z e h.0, All-trans x y zs e h.1)

  IsSortedBy-insert_by :
      (x : A) (xs : List A) → IsSortedBy before xs → IsSortedBy before (insert_by before x xs)
  IsSortedBy-insert_by x [] h = (tt, tt)
  IsSortedBy-insert_by x (y ∷ ys) h =
      if-cases (IsSortedBy before) (before x y) (x ∷ y ∷ ys) (y ∷ insert_by before x ys)
        (λ e. ((e, All-trans x y ys e h.0), h))
        (λ e. (
          All-insert_by before (λ z. before y z ≡ true) x ys (total x y e) h.0,
          IsSortedBy-insert_by x ys h.1,
        ))

  pub IsSortedBy-sort_by : (xs : List A) → IsSortedBy before (sort_by before xs)
  IsSortedBy-sort_by [] = tt
  IsSortedBy-sort_by (x ∷ xs) = IsSortedBy-insert_by x (sort_by before xs) (IsSortedBy-sort_by xs)

pub All-take {ℓ κ} :
    {A : Type ℓ} (P : A → Type κ) (n : ℕ) (xs : List A) → All P xs → All P (take n xs)
All-take P zero xs h = tt
All-take P (suc n) [] h = tt
All-take P (suc n) (x ∷ xs) h = (h.0, All-take P n xs h.1)

pub IsSortedBy-take {ℓ} :
    {A : Type ℓ} (before : A → A → Bool) (n : ℕ) (xs : List A)
    → IsSortedBy before xs
    → IsSortedBy before (take n xs)
IsSortedBy-take before zero xs h = tt
IsSortedBy-take before (suc n) [] h = tt
IsSortedBy-take before (suc n) (x ∷ xs) h =
    (All-take (λ y. before x y ≡ true) n xs h.0, IsSortedBy-take before n xs h.1)
