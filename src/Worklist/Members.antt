-- ===== src/Worklist/Members.antt =====
-- The products of a work list are candidates: `build_cached_worklist` of
-- backend/app/services/analysis_service.py adds none of its own.
use jolly_jesters_mvp.Prelude.{
  ℕ, Bool, Option, none, some, List, [], ◌∷◌, filterb, All, ◌≡◌, ◌⊎◌, refl, sym, subst, arith, inl,
  inr, if-cases,
}
use mathlib.Core.Option.{some-injective}
use jolly_jesters_mvp.Prelude.Sort.{sort_by, All-sort_by}
use jolly_jesters_mvp.Import.Text.{Unicode}
use jolly_jesters_mvp.Worklist.{
  Candidate, CacheFilter, safe_ean, is_listed_before, limit_to, dedupe_from, finish_list,
  build_cached_worklist,
}
use jolly_jesters_mvp.Worklist.Eligible.{
  is_eligible, All-limit_to, All-dedupe_from, rows_found, filters-filterb,
}

filterb-All {ℓ κ} :
    {A : Type ℓ} (P : A → Type κ) (p : A → Bool) (xs : List A) → All P xs → All P (filterb p xs)
filterb-All P p [] h = tt
filterb-All P p (x ∷ xs) h =
    if-cases (All P) (p x) (x ∷ filterb p xs) (filterb p xs) (λ e. (h.0, filterb-All P p xs h.1))
      (λ e. filterb-All P p xs h.1)

-- A member of a list.
abbrev pub IsAmong : {A : Type 0} → List A → A → Type 0
IsAmong [] x = ⊥
IsAmong (y ∷ ys) x = (x ≡ y) ⊎ IsAmong ys x

All-weaken :
    {A : Type 0} (P Q : A → Type 0) (xs : List A) → ((x : A) → P x → Q x) → All P xs → All Q xs
All-weaken P Q [] f h = tt
All-weaken P Q (x ∷ xs) f h = (f x h.0, All-weaken P Q xs f h.1)

All-IsAmong : {A : Type 0} (xs : List A) → All (IsAmong xs) xs
All-IsAmong [] = tt
All-IsAmong (x ∷ xs) =
    (inl refl, All-weaken (IsAmong xs) (IsAmong (x ∷ xs)) xs (λ y h. inr h) (All-IsAmong xs))

module _ {D : Type 0} where
  finish_list-IsAmong :
      (u : Unicode) (now category : ℕ) (f : CacheFilter) (cs rows : List (Candidate D))
      → rows_found u now category f cs ≡ some rows
      → All (IsAmong cs) (finish_list f.limit (safe_ean u f.ean_contains) rows)
  finish_list-IsAmong u now category f cs rows e =
      subst (λ l. All (IsAmong cs) (dedupe_from [] (limit_to f.limit (sort_by is_listed_before l))))
        (sym (filters-filterb u now category f cs rows e))
        (All-dedupe_from (IsAmong cs) [] _ (
          All-limit_to (IsAmong cs) f.limit _ (
            All-sort_by is_listed_before (IsAmong cs) _
              (filterb-All (IsAmong cs) (is_eligible u now category f) cs (All-IsAmong cs)))))

  listed_from-IsAmong :
      (u : Unicode) (now category : ℕ) (f : CacheFilter) (cs ps : List (Candidate D))
      (o : Option (List (Candidate D)))
      → rows_found u now category f cs ≡ o
      → (elim o [
        | none ↦ none
        | some rows ↦ some (finish_list f.limit (safe_ean u f.ean_contains) rows)
      ])
        ≡ some ps
      → All (IsAmong cs) ps
  listed_from-IsAmong u now category f cs ps none g e = absurd (ground arith)
  listed_from-IsAmong u now category f cs ps (some rows) g e =
      subst (All (IsAmong cs)) (some-injective _ _ e)
        (finish_list-IsAmong u now category f cs rows g)

  pub build_cached_worklist-IsAmong :
      (u : Unicode) (now category : ℕ) (f : CacheFilter) (cs ps : List (Candidate D))
      → build_cached_worklist u now category f cs ≡ some ps
      → All (IsAmong cs) ps
  unfolding build_cached_worklist
  build_cached_worklist-IsAmong u now category f cs ps e =
      listed_from-IsAmong u now category f cs ps (rows_found u now category f cs) refl e
