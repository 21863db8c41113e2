-- ===== src/Import/Prepared.antt =====
-- What an import makes of the rows: the run, its items and the products.
use jolly_jesters_mvp.Prelude.{
  ℕ, ◌+◌, ◌≤◌, Bool, true, not, ◌&&◌, Option, none, some, String, List, [], ◌∷◌, map, length,
  length-map, countb, countb-append, findb, All, ◌≡◌, refl, sym, subst, ap, ap₂, ◌∙◌, arith,
  Option-cases, inl, inr, ◌==◌, if-elim, if-cases, string_eq,
}
use jolly_jesters_mvp.Decimal.{Decimal}
use jolly_jesters_mvp.Enums.{AnalysisStatus, ScrapeStatus, is_processed_status}
use jolly_jesters_mvp.Worker.Rows.{Item}
use jolly_jesters_mvp.Import.Rows.{InputRow, Product, Tables, is_for}
use jolly_jesters_mvp.Import.Upload.{
  new_product, update_product, add_product, change_product, ensure_product, invalid_item,
  valid_item, next_item, prepare_row, prepare_rows, unique_rows, prepare_analysis_run,
  handle_upload,
}

module _ {ℓ} {A : Type ℓ} (f : A → Bool) where
  countb-map :
      (h : A → A) (xs : List A) → ((x : A) → f (h x) ≡ f x) → countb f (map h xs) ≡ countb f xs
  countb-map h [] same = refl
  countb-map h (x ∷ xs) same = ground (arith, same x, countb-map h xs same)

  findb-none : (xs : List A) → findb f xs ≡ none → countb f xs ≡ 0
  findb-none [] e = refl
  findb-none (x ∷ xs) e = ground (arith, findb-none xs)

  findb-some :
      (g : A → Bool) (xs : List A) (y : A)
      → ((x : A) → f x ≡ true → x ≡ y → g x ≡ true)
      → findb f xs ≡ some y
      → 1 ≤ countb g xs
  findb-some g [] y h e = absurd (ground arith)
  findb-some g (x ∷ xs) y h e = ground (arith, h x, findb-some g xs y h)

module _ {D : Type 0} where
  abbrev has_id : ℕ → Product D → Bool
  has_id i q = q.id == i

  -- The product with a number, when it is the one of an EAN in a category.
  abbrev pub stands_for : (category id : ℕ) (ean : String) → Product D → Bool
  stands_for category id ean q = q.id == id && is_for category ean q

  -- The numbers of the products are used once and lie below the next one, and a category has at most
  -- one product of an EAN.
  pub record IsCatalog (t : Tables D) : Type 0 where
    pub fresh : (i : ℕ) → t.next_product_id ≤ i → countb (has_id i) t.products ≡ 0
    pub numbered : (i : ℕ) → countb (has_id i) t.products ≤ 1
    pub distinct : (c : ℕ) (e : String) → countb (is_for c e) t.products ≤ 1

  -- A row of a run: invalid rows are processed at once, and the others wait, with their product.
  abbrev pub IsLinkedBy : (category : ℕ) → Tables D → Item D → Option ℕ → Type 0
  IsLinkedBy category t item none = item.scrape_status ≡ ScrapeStatus.error
  IsLinkedBy category t item (some p) =
      (item.scrape_status ≡ ScrapeStatus.pending)
      × (1 ≤ countb (stands_for category p item.ean) t.products)

  abbrev pub IsLinked : (category : ℕ) → Tables D → Item D → Type 0
  IsLinked category t item = IsLinkedBy category t item item.product_id

module _ {D : Type 0} ⦃d : Decimal D⦄ (category : ℕ) where
  -- What is not lost between two states of the tables.
  abbrev Grows : Tables D → Tables D → Type 0
  Grows t t' =
      (id : ℕ) (e : String)
      → countb (stands_for category id e) t.products ≤ countb (stands_for category id e) t'.products

  module _ (f : Product D → Bool) where
    change_product-count :
        (row : InputRow D) (id : ℕ) (t : Tables D)
        → ((q : Product D) → f (update_product category row q) ≡ f q)
        → countb f (change_product category row id t).products ≡ countb f t.products
    change_product-count row id t same =
        countb-map f _ t.products
          λ q. if-elim (λ r. f r ≡ f q) (q.id == id) (update_product category row q) q (same q) refl

    add_product-count :
        (row : InputRow D) (t : Tables D)
        → countb f (add_product category row t).products
          ≡ countb f t.products + countb f (new_product category t.next_product_id row ∷ [])
    add_product-count row t =
        countb-append f t.products (new_product category t.next_product_id row ∷ [])

  abbrev Ensured : InputRow D → Tables D → ℕ × Tables D → Type 0
  Ensured row t (product, t') =
      (1 ≤ countb (stands_for category product row.ean) t'.products)
      × Grows t t'
      × (IsCatalog t → IsCatalog t')

  add-Ensured :
      (row : InputRow D) (t : Tables D)
      → findb (is_for category row.ean) t.products ≡ none
      → Ensured row t (t.next_product_id, add_product category row t)
  add-Ensured row t e = (
    ground (
      arith,
      add_product-count (stands_for category t.next_product_id row.ean) row t,
      same row.ean,
    ),
    λ id ean. omega (arith, add_product-count (stands_for category id ean) row t),
    λ h. record {
      fresh = λ i le. ground (arith, add_product-count (has_id i) row t, h.fresh i);
      numbered = λ i. ground (arith, add_product-count (has_id i) row t, h.numbered i, h.fresh i);
      distinct = λ c ean.
          ground (arith, add_product-count (is_for c ean) row t, h.distinct c ean, only_new c ean);
    },
  )
    where
      same : (e : String) → string_eq.beq e e ≡ true
      same e = (string_eq.beq_iff e e).1 refl

      -- The new product is for a category and an EAN that had none.
      only_new :
          (c : ℕ) (ean : String)
          → (category == c && string_eq.beq row.ean ean) ≡ true
          → countb (is_for c ean) t.products ≡ 0
      only_new c ean h =
          let here : category ≡ c = ground arith in
          let same : row.ean ≡ ean = (string_eq.beq_iff row.ean ean).0 (ground arith) in
          subst (λ x. countb (is_for x ean) t.products ≡ 0) here
            (subst (λ y. countb (is_for category y) t.products ≡ 0) same
              (findb-none (is_for category row.ean) t.products e))

  change-Ensured :
      (row : InputRow D) (t : Tables D) (p : Product D)
      → findb (is_for category row.ean) t.products ≡ some p
      → Ensured row t (p.id, change_product category row p.id t)
  change-Ensured row t p e = (
    omega (
      arith,
      change_product-count (stands_for category p.id row.ean) row p.id t (λ q. refl),
      findb-some (is_for category row.ean) (stands_for category p.id row.ean) t.products p
          (λ x f same. let same_id : x.id ≡ p.id = ap (λ q. q.id) same in ground arith) e,
    ),
    λ id ean.
        omega (arith, change_product-count (stands_for category id ean) row p.id t (λ q. refl)),
    λ h. record {
      fresh = λ i le. change_product-count (has_id i) row p.id t (λ q. refl) ∙ h.fresh i le;
      numbered =
          λ i. omega (arith, change_product-count (has_id i) row p.id t (λ q. refl), h.numbered i);
      distinct = λ c ean.
          omega
            (arith, change_product-count (is_for c ean) row p.id t (λ q. refl), h.distinct c ean);
    },
  )

  ensure_product-Ensured :
      (row : InputRow D) (t : Tables D) → Ensured row t (ensure_product category row t)
  unfolding ensure_product
  ensure_product-Ensured row t = elim (Option-cases (findb (is_for category row.ean) t.products)) [
    | inl e ↦ rw (e, ensure_product) (add-Ensured row t e)
    | inr (p, e) ↦ rw (e, ensure_product) (change-Ensured row t p e)
  ]

  -- What one row adds.
  record IsReady (row : InputRow D) (t : Tables D) (item : Item D) (t' : Tables D) : Type 0 where
    same_ean : item.ean ≡ row.ean
    waits : is_processed_status item.scrape_status ≡ not row.is_valid
    linked : IsLinked category t' item
    grows : Grows t t'
    keeps : IsCatalog t → IsCatalog t'

  prepare_row-IsReady :
      (row : InputRow D) (t : Tables D)
      → IsReady row t (prepare_row category row t).0 (prepare_row category row t).1
  unfolding prepare_row
  prepare_row-IsReady row t =
      let (there, grows, keeps) = ensure_product-Ensured row t in
      let (product, t') = ensure_product category row t in
      if-cases (λ (r : Item D × Tables D). IsReady row t r.0 r.1) row.is_valid
        (valid_item category t.next_item_id product row, next_item category t')
        (invalid_item category t.next_item_id row, next_item category t)
        (λ e. record {
          same_ean = refl;
          waits = ground arith;
          linked = (refl, there);
          grows = grows;
          keeps = λ h.
              let g = keeps h in
              record { fresh = g.fresh; numbered = g.numbered; distinct = g.distinct };
        })
        (λ e. record {
          same_ean = refl;
          waits = ground arith;
          linked = refl;
          grows = λ id ean. omega arith;
          keeps = λ h. record { fresh = h.fresh; numbered = h.numbered; distinct = h.distinct };
        })

  IsLinked-Grows :
      (t t' : Tables D) (item : Item D)
      → Grows t t'
      → IsLinked category t item
      → IsLinked category t' item
  IsLinked-Grows t t' item g h = go item.product_id h
    where
      go : (p : Option ℕ) → IsLinkedBy category t item p → IsLinkedBy category t' item p
      go none k = k
      go (some p) k = (k.0, omega (arith, k.1, g p item.ean))

  record AreReady (rows : List (InputRow D)) (t : Tables D) (items : List (Item D)) (t' : Tables D)
      : Type 0 where
    same_eans : map (λ i. i.ean) items ≡ map (λ r. r.ean) rows
    processed :
        countb (λ i. is_processed_status i.scrape_status) items ≡ countb (λ r. not r.is_valid) rows
    linked : All (IsLinked category t') items
    grows : Grows t t'
    keeps : IsCatalog t → IsCatalog t'

  prepare_rows-AreReady :
      (rows : List (InputRow D)) (t : Tables D)
      → AreReady rows t (prepare_rows category rows t).0 (prepare_rows category rows t).1
  prepare_rows-AreReady [] t = record {
    same_eans = refl;
    processed = refl;
    linked = tt;
    grows = λ id ean. omega arith;
    keeps = λ h. h;
  }
  prepare_rows-AreReady (row ∷ rows) t =
      let (item, t1) = prepare_row category row t in
      let (items, t2) = prepare_rows category rows t1 in
      let r = prepare_row-IsReady row t in
      let rs = prepare_rows-AreReady rows t1 in
      record {
        same_eans = ap₂ ◌∷◌ r.same_ean rs.same_eans;
        processed = ground (arith, r.waits, rs.processed);
        linked = (IsLinked-Grows t1 t2 item rs.grows r.linked, rs.linked);
        grows = λ id ean. omega (arith, r.grows id ean, rs.grows id ean);
        keeps = λ h. rs.keeps (r.keeps h);
      }

  -- An import into products of which a category has at most one for each EAN leaves them so. The new run
  -- is pending and has one row for each row of the file that is not a repetition, in order and with its
  -- EAN; its total is the number of the rows, and its count of processed ones is right. Each row is
  -- either invalid, and then finished as an error without a product, or waits, and then its product is
  -- there, in this category and with the row's EAN.
  pub handle_upload_prepares :
      (rows : List (InputRow D)) (filename mode : String) (t : Tables D)
      → IsCatalog t
      → let (p, t') = handle_upload category rows filename mode t in
        (p.run.status ≡ AnalysisStatus.pending)
        × (map (λ i. i.ean) p.run.items ≡ map (λ r. r.ean) (unique_rows rows))
        × (p.total_products ≡ length p.run.items)
        × (p.run.processed_products ≡ countb (λ i. is_processed_status i.scrape_status) p.run.items)
        × All (IsLinked category t') p.run.items
        × IsCatalog t'
  unfolding handle_upload prepare_analysis_run
  handle_upload_prepares rows filename mode t h =
      let kept = unique_rows rows in
      let (items, t') = prepare_rows category kept t in
      let r = prepare_rows-AreReady kept t in
      (
        refl,
        r.same_eans,
        sym (length-map (λ r. r.ean) kept)
            ∙ sym (ap length r.same_eans)
            ∙ length-map (λ i. i.ean) items,
        sym r.processed,
        r.linked,
        r.keeps h,
      )
