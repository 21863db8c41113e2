-- ===== src/Worklist/Eligible.antt =====
-- Which products a work list has: `build_cached_worklist` against one condition on a candidate.
use jolly_jesters_mvp.Prelude.{
  ℕ, Bool, true, false, not, ◌&&◌, ◌||◌, Option, none, some, String, List, [], ◌∷◌, take, filterb,
  countb, anyb, All, ◌==◌, ltb, ◌≡◌, refl, ap, ◌∙◌, sym, subst, arith, Bool-cases, inl, inr,
  if-elim, if◌then◌else◌, string_eq,
}
use mathlib.Core.Option.{some-injective}
use jolly_jesters_mvp.Prelude.Sort.{sort_by, All-sort_by, All-take}
use jolly_jesters_mvp.Enums.{is_source}
use jolly_jesters_mvp.Import.Text.{Unicode, is_empty, contains}
use jolly_jesters_mvp.Worklist.{
  Candidate, CacheFilter, resolve_cached_cutoff, SourceFilter, any_source, only, invalid_source,
  resolve_source, safe_ean, data_holds, is_since, has_data, filter_category, filter_since,
  filter_data, filter_source, filter_ean, is_listed_before, limit_to, is_seen, dedupe_from,
  finish_list, build_cached_worklist,
}

filterb-and {ℓ} :
    {A : Type ℓ} (p q : A → Bool) (xs : List A)
    → filterb q (filterb p xs) ≡ filterb (λ x. p x && q x) xs
filterb-and p q [] = refl
filterb-and p q (x ∷ xs) = elim (Bool-cases (p x)) [
  | inl e ↦ rw (e) (ground (arith, filterb-and p q xs))
  | inr e ↦ rw (e) (filterb-and p q xs)
]

filterb-true {ℓ} : {A : Type ℓ} (xs : List A) → xs ≡ filterb (λ x. true) xs
filterb-true [] = refl
filterb-true (x ∷ xs) = ap (λ l. x ∷ l) (filterb-true xs)

All-filterb {ℓ} : {A : Type ℓ} (p : A → Bool) (xs : List A) → All (λ x. p x ≡ true) (filterb p xs)
All-filterb p [] = tt
All-filterb p (x ∷ xs) = elim (Bool-cases (p x)) [
  | inl e ↦ rw (e) (e, All-filterb p xs)
  | inr e ↦ rw (e) (All-filterb p xs)
]

same_seen :
    (seen : List String) (x e : String)
    → string_eq.beq x e ≡ true
    → anyb (λ s. string_eq.beq s x) seen ≡ anyb (λ s. string_eq.beq s e) seen
same_seen seen x e h = ap (λ y. anyb (λ s. string_eq.beq s y) seen) ((string_eq.beq_iff x e).0 h)

seen_more :
    (seen : List String) (x e : String)
    → anyb (λ s. string_eq.beq s e) seen ≡ true
    → anyb (λ s. string_eq.beq s e) (x ∷ seen) ≡ true
seen_more seen x e h = ground arith

module _ {D : Type 0} where
  abbrev pub is_since_span : (now : ℕ) → (span : Option ℕ) → Candidate D → Bool
  is_since_span now none c = true
  is_since_span now (some span) c = data_holds (is_since now span) c

  abbrev pub is_from : SourceFilter → Candidate D → Bool
  is_from any_source c = true
  is_from (only s) c = data_holds (λ m. is_source m.source s) c
  is_from invalid_source c = false

  -- All that the filters ask of a candidate.
  abbrev pub is_eligible : Unicode → (now category : ℕ) → CacheFilter → Candidate D → Bool
  is_eligible u now category f c =
      ((((c.product.category_id == category && data_holds (λ m. true) c)
            && is_since_span now (resolve_cached_cutoff f.cache_days f.include_all_cached) c)
          && (not f.only_with_data || data_holds has_data c))
        && is_from (resolve_source u f.source) c)
      && (is_empty (safe_ean u f.ean_contains)
          || contains (safe_ean u f.ean_contains) c.product.ean)

  abbrev pub has_ean : String → Candidate D → Bool
  has_ean e c = string_eq.beq c.product.ean e

  filter_since-filterb :
      (now : ℕ) (span : Option ℕ) (cs : List (Candidate D))
      → filter_since now span cs ≡ filterb (is_since_span now span) cs
  filter_since-filterb now none cs = filterb-true cs
  filter_since-filterb now (some span) cs = refl

  filter_data-filterb :
      (b : Bool) (cs : List (Candidate D))
      → filter_data b cs ≡ filterb (λ c. not b || data_holds has_data c) cs
  filter_data-filterb true cs = refl
  filter_data-filterb false cs = filterb-true cs

  filter_ean-filterb :
      (safe : String) (cs : List (Candidate D))
      → filter_ean safe cs ≡ filterb (λ c. is_empty safe || contains safe c.product.ean) cs
  filter_ean-filterb safe cs = elim (Bool-cases (is_empty safe)) [
    | inl e ↦ rw (e) (filterb-true cs)
    | inr e ↦ rw (e) refl
  ]

  filter_source-filterb :
      (s : SourceFilter) (cs rows : List (Candidate D))
      → filter_source s cs ≡ some rows
      → rows ≡ filterb (is_from s) cs
  filter_source-filterb any_source cs rows e = sym (some-injective _ _ e) ∙ filterb-true cs
  filter_source-filterb (only s) cs rows e = sym (some-injective _ _ e)
  filter_source-filterb invalid_source cs rows e = absurd (ground arith)

  pub All-limit_to :
      (P : Candidate D → Type 0) (limit : Option ℕ) (cs : List (Candidate D))
      → All P cs
      → All P (limit_to limit cs)
  All-limit_to P none cs h = h
  All-limit_to P (some n) cs h = if-elim (All P) (ltb 0 n) (take n cs) cs (All-take P n cs h) h

  -- The deduplication keeps one candidate of each EAN that is there and was not seen.
  countb-dedupe_from-seen :
      (e : String) (seen : List String) (cs : List (Candidate D))
      → anyb (λ s. string_eq.beq s e) seen ≡ true
      → countb (has_ean e) (dedupe_from seen cs) ≡ 0
  countb-dedupe_from-seen e seen [] h = refl
  countb-dedupe_from-seen e seen (c ∷ cs) h = ground (
    arith,
    countb-dedupe_from-seen e seen cs h,
    countb-dedupe_from-seen e (c.product.ean ∷ seen) cs (seen_more seen c.product.ean e h),
    same_seen seen c.product.ean e,
  )

  countb-dedupe_from :
      (e : String) (seen : List String) (cs : List (Candidate D))
      → anyb (λ s. string_eq.beq s e) seen ≡ false
      → countb (has_ean e) (dedupe_from seen cs) ≡ (if anyb (has_ean e) cs then 1 else 0)
  countb-dedupe_from e seen [] h = refl
  countb-dedupe_from e seen (c ∷ cs) h = elim (Bool-cases (string_eq.beq c.product.ean e)) [
    | inl same ↦
        let before = countb-dedupe_from-seen e (c.product.ean ∷ seen) cs (rw same refl) in
        ground (arith, before, same_seen seen c.product.ean e same)
    | inr other ↦
        let here = countb-dedupe_from e seen cs h in
        let there = countb-dedupe_from e (c.product.ean ∷ seen) cs (rw other h) in
        ground (arith, here, there)
  ]

  pub All-dedupe_from :
      (P : Candidate D → Type 0) (seen : List String) (cs : List (Candidate D))
      → All P cs
      → All P (dedupe_from seen cs)
  All-dedupe_from P seen [] h = tt
  All-dedupe_from P seen (c ∷ cs) h =
      if-elim (All P) (is_seen seen c) (dedupe_from seen cs)
        (c ∷ dedupe_from (c.product.ean ∷ seen) cs) (All-dedupe_from P seen cs h.1)
        (h.0, All-dedupe_from P (c.product.ean ∷ seen) cs h.1)

  -- The candidates in the order of the query, before the limit.
  abbrev pub listed :
      Unicode → (now category : ℕ) → CacheFilter → List (Candidate D) → List (Candidate D)
  listed u now category f cs = sort_by is_listed_before (filterb (is_eligible u now category f) cs)

  abbrev is_based : (now category : ℕ) → (span : Option ℕ) → (with_data : Bool) → Candidate D → Bool
  is_based now category span with_data c =
      ((c.product.category_id == category && data_holds (λ m. true) c) && is_since_span now span c)
      && (not with_data || data_holds has_data c)

  base-filterb :
      (now category : ℕ) (span : Option ℕ) (with_data : Bool) (cs : List (Candidate D))
      → filter_data with_data (filter_since now span (filter_category category cs))
        ≡ filterb (is_based now category span with_data) cs
  base-filterb now category span with_data cs =
      ap (filter_data with_data)
        (filter_since-filterb now span (filter_category category cs) ∙ filterb-and _ _ cs)
      ∙ filter_data-filterb with_data _
      ∙ filterb-and _ _ cs

  pub filters-filterb :
      (u : Unicode) (now category : ℕ) (f : CacheFilter) (cs rows : List (Candidate D))
      → filter_source (resolve_source u f.source) (
          filter_data f.only_with_data (
            filter_since now
              (resolve_cached_cutoff f.cache_days f.include_all_cached)
              (filter_category category cs)))
        ≡ some rows
      → filter_ean (safe_ean u f.ean_contains) rows ≡ filterb (is_eligible u now category f) cs
  filters-filterb u now category f cs rows e =
      let span = resolve_cached_cutoff f.cache_days f.include_all_cached in
      let from = resolve_source u f.source in
      let source =
        filter_source-filterb from _ rows e
        ∙ ap (filterb (is_from from)) (base-filterb now category span f.only_with_data cs)
        ∙ filterb-and _ _ cs in
      ap (filter_ean (safe_ean u f.ean_contains)) source
      ∙ filter_ean-filterb (safe_ean u f.ean_contains) _
      ∙ filterb-and _ _ cs

  -- A list of eligible candidates, one for each EAN among the first ones in the order of the query.
  abbrev pub Lists :
      Unicode → (now category : ℕ) → CacheFilter → List (Candidate D) → List (Candidate D) → Type 0
  Lists u now category f cs ps =
      All (λ c. is_eligible u now category f c ≡ true) ps
      × ((e : String)
          → countb (has_ean e) ps
            ≡ (if anyb (has_ean e) (limit_to f.limit (listed u now category f cs)) then 1 else 0))

  finish_list-Lists :
      (u : Unicode) (now category : ℕ) (f : CacheFilter) (cs rows : List (Candidate D))
      → filter_ean (safe_ean u f.ean_contains) rows ≡ filterb (is_eligible u now category f) cs
      → Lists u now category f cs (finish_list f.limit (safe_ean u f.ean_contains) rows)
  finish_list-Lists u now category f cs rows e =
      subst
        (λ l.
          Lists u now category f cs
            (dedupe_from [] (limit_to f.limit (sort_by is_listed_before l))))
        (sym e)
        (
          All-dedupe_from (λ c. is_eligible u now category f c ≡ true) [] _
              (All-limit_to (λ c. is_eligible u now category f c ≡ true) f.limit _
                (All-sort_by is_listed_before (λ c. is_eligible u now category f c ≡ true) _
                  (All-filterb (is_eligible u now category f) cs))),
          λ x. countb-dedupe_from x [] _ refl,
        )

  abbrev pub rows_found :
      Unicode → (now category : ℕ) → CacheFilter → List (Candidate D) → Option (List (Candidate D))
  rows_found u now category f cs = filter_source (resolve_source u f.source) (
      filter_data f.only_with_data (
        filter_since now (resolve_cached_cutoff f.cache_days f.include_all_cached)
          (filter_category category cs)))

  listed_from :
      (u : Unicode) (now category : ℕ) (f : CacheFilter) (cs ps : List (Candidate D))
      (o : Option (List (Candidate D)))
      → rows_found u now category f cs ≡ o
      → (elim o [
        | none ↦ none
        | some rows ↦ some (finish_list f.limit (safe_ean u f.ean_contains) rows)
      ])
        ≡ some ps
      → Lists u now category f cs ps
  listed_from u now category f cs ps none g e = absurd (ground arith)
  listed_from u now category f cs ps (some rows) g e =
      subst (Lists u now category f cs) (some-injective _ _ e)
        (finish_list-Lists u now category f cs rows (filters-filterb u now category f cs rows g))

  -- The work list of a run has eligible candidates only, and of each EAN that is among the first ones
  -- in the order of the query, up to the limit, exactly one.
  pub build_cached_worklist-Lists :
      (u : Unicode) (now category : ℕ) (f : CacheFilter) (cs ps : List (Candidate D))
      → build_cached_worklist u now category f cs ≡ some ps
      → Lists u now category f cs ps
  unfolding build_cached_worklist
  build_cached_worklist-Lists u now category f cs ps e = listed_from u now category f cs ps _ refl e
