-- ===== src/Worker/Retry/Kept.antt =====
-- What the retry pass keeps.
use jolly_jesters_mvp.Prelude.{
  ℕ, suc, ◌+◌, ◌≤◌, Bool, not, Option, none, some, List, [], ◌∷◌, ◌++◌, map, length, filterb,
  countb, lookup, All, ◌≡◌, refl, sym, ap, ◌∙◌, subst, arith, Option-cases, inl, inr, if-elim,
  string_eq, countb-le-length, length-map, length-filterb,
}
use jolly_jesters_mvp.Decimal.{Decimal}
use jolly_jesters_mvp.Enums.{is_ok_status}
use jolly_jesters_mvp.Profit.{Category, Settings}
use jolly_jesters_mvp.Worker.Rows.{Item, Database}
use jolly_jesters_mvp.Worker.Fetch.{Messages, Cache, get_or_fetch_batch}
use jolly_jesters_mvp.Worker.Batch.{product_of}
use jolly_jesters_mvp.Worker.Batch.Outcome.{ids, IsProcessed, scraped-keeps}
use jolly_jesters_mvp.Worker.Run.{batches, concat}
use jolly_jesters_mvp.Worker.Run.Rows.{tally, tally-append}
use jolly_jesters_mvp.Worker.Run.Chunks.{concat-batches}
use jolly_jesters_mvp.Worker.Retry.{
  RetryInput, has_network_error, retry_row, retry_items, retry_with, retry_batches, retry_pass,
}

module _ {D : Type 0} where
  -- The rows are the same by number, in order, and processed ones stay processed.
  pub record SameRows (before after : List (Item D)) : Type 0 where
    pub same : ids after ≡ ids before
    pub done : All IsProcessed before → All IsProcessed after

  SameRows-refl : (rows : List (Item D)) → SameRows rows rows
  SameRows-refl rows = record { same = refl; done = λ h. h }

  All-split :
      (xs ys : List (Item D)) → All IsProcessed (xs ++ ys) → All IsProcessed xs × All IsProcessed ys
  All-split [] ys h = (tt, h)
  All-split (x ∷ xs) ys h = let (a, b) = All-split xs ys h.1 in ((h.0, a), b)

  All-join :
      (xs ys : List (Item D)) → All IsProcessed xs → All IsProcessed ys → All IsProcessed (xs ++ ys)
  All-join [] ys h g = g
  All-join (x ∷ xs) ys h g = (h.0, All-join xs ys h.1 g)

  ids-append : (xs ys : List (Item D)) → ids (xs ++ ys) ≡ ids xs ++ ids ys
  ids-append [] ys = refl
  ids-append (x ∷ xs) ys = ap (λ l. x.id ∷ l) (ids-append xs ys)

  SameRows-append :
      (xs ys xs' ys' : List (Item D))
      → SameRows xs xs'
      → SameRows ys ys'
      → SameRows (xs ++ ys) (xs' ++ ys')
  SameRows-append xs ys xs' ys' h g = record {
    same = ids-append xs' ys' ∙ rw (h.same, g.same) (sym (ids-append xs ys));
    done = λ all. let (a, b) = All-split xs ys all in All-join xs' ys' (h.done a) (g.done b);
  }

module _ {D : Type 0} ⦃d : Decimal D⦄ (k : Settings D) (c : Category D) where
  abbrev KeepsRow : Item D → Item D × Database D → Type 0
  KeepsRow item after = (after.0.id ≡ item.id) × (IsProcessed item → IsProcessed after.0)

  retry_row-KeepsRow :
      (now : ℕ) (results : Cache D) (item : Item D) (db : Database D)
      → KeepsRow item (retry_row k c now results item db)
  unfolding retry_row
  retry_row-KeepsRow now results item db = elim (Option-cases (lookup item.ean results)) [
    | inl e ↦ rw (e, retry_row) (refl, λ h. h)
    | inr (r, e) ↦ elim (Option-cases (product_of item db)) [
      | inl f ↦ rw (e, retry_row, f) (refl, λ h. h)
      | inr (product, f) ↦
          let (same, done) = scraped-keeps k c now product r item db in
          rw (e, retry_row, f) (same, λ h. done)
    ]
  ]

  retry_items-SameRows :
      (now : ℕ) (results : Cache D) (items : List (Item D)) (db : Database D)
      → SameRows items (retry_items k c now results items db).0
  retry_items-SameRows now results [] db = SameRows-refl []
  retry_items-SameRows now results (item ∷ items) db =
      let (item', db') = retry_row k c now results item db in
      let (same, done) = retry_row-KeepsRow now results item db in
      let rest = retry_items-SameRows now results items db' in
      record { same = rw (same, rest.same); done = λ h. (done h.0, rest.done h.1) }

  retry_with-SameRows :
      (now : ℕ) (results : Option (Cache D)) (items : List (Item D)) (db : Database D)
      → SameRows items (retry_with k c now results items db).0
  retry_with-SameRows now none items db = SameRows-refl items
  retry_with-SameRows now (some results) items db = retry_items-SameRows now results items db

module _ {D : Type 0} ⦃d : Decimal D⦄ (k : Settings D) (c : Category D) (msg : Messages)
    (inputs : ℕ → RetryInput D) where
  abbrev Kept : List (List (Item D)) → List (Item D) × Database D → Type 0
  Kept bs after = SameRows (concat bs) after.0

  retry_batches-Kept :
      (i : ℕ) (bs : List (List (Item D))) (cache : Cache D) (db : Database D)
      → Kept bs (retry_batches k c msg inputs i bs cache db)
  unfolding retry_batches
  retry_batches-Kept i [] cache db = SameRows-refl []
  retry_batches-Kept i (b ∷ bs) cache db =
      let input = inputs i in
      let fetched = get_or_fetch_batch msg input.fetch (map (λ it. it.ean) b) cache in
      let passed_over = retry_batches k c msg inputs (suc i) bs cache db in
      let now = retry_with k c input.now fetched.1 b db in
      let rest = retry_batches k c msg inputs (suc i) bs fetched.0 now.1 in
      let P : List (Item D) × Database D → Type 0 = λ after. SameRows (b ++ concat bs) after.0 in
      if-elim P input.canceled (b ++ concat bs, db) _ (SameRows-refl (b ++ concat bs))
        (if-elim P input.raises (b ++ passed_over.0, passed_over.1) (now.0 ++ rest.0, rest.1)
          (SameRows-append b (concat bs) b passed_over.0 (SameRows-refl b)
            (retry_batches-Kept (suc i) bs cache db))
          (SameRows-append b (concat bs) now.0 rest.0
            (retry_with-SameRows k c input.now fetched.1 b db)
            (retry_batches-Kept (suc i) bs fetched.0 now.1)))

module _ {D : Type 0} where
  tally-partition :
      (p : ℕ → Bool) (rows : List (Item D))
      → tally p (filterb (λ i. not (has_network_error i)) rows)
          + tally p (filterb has_network_error rows)
        ≡ tally p rows
  tally-partition p [] = refl
  tally-partition p (i ∷ rows) = ground (arith, tally-partition p rows)

  filterb-IsProcessed :
      (test : Item D → Bool) (rows : List (Item D))
      → All IsProcessed rows
      → All IsProcessed (filterb test rows)
  filterb-IsProcessed test [] h = tt
  filterb-IsProcessed test (i ∷ rows) h = ground (arith, filterb-IsProcessed test rows h.1)

  countb-le-ids :
      (test : Item D → Bool) (xs ys : List (Item D)) → ids xs ≡ ids ys → countb test xs ≤ length ys
  countb-le-ids test xs ys e = omega (
    arith,
    countb-le-length test xs,
    length-map {0, 0} (λ (i : Item D). i.id) xs,
    length-map {0, 0} (λ (i : Item D). i.id) ys,
    ap length e,
  )

-- The retry pass leaves every row without a network error as it is, and keeps the numbers of the
-- others. It loses no row and adds none, processed rows stay processed, it attempts exactly the
-- rows with a network error, and it counts as recovered those of them that are `ok` afterwards.
pub retry_pass_keeps :
    {D : Type 0} ⦃d : Decimal D⦄ (k : Settings D) (c : Category D) (msg : Messages)
    (inputs : ℕ → RetryInput D) (rows : List (Item D)) (db : Database D)
    → let after = retry_pass k c msg inputs rows db in
      ((retried : List (Item D)) × (after.rows
          ≡ filterb (λ i. not (has_network_error i)) rows ++ retried)
        × (ids retried ≡ ids (filterb has_network_error rows))
        × (after.recovered ≡ countb (λ i. is_ok_status i.scrape_status) retried))
      × ((p : ℕ → Bool) → tally p after.rows ≡ tally p rows)
      × (All IsProcessed rows → All IsProcessed after.rows)
      × (after.attempted ≡ countb has_network_error rows)
      × (after.recovered ≤ after.attempted)
unfolding retry_pass
retry_pass_keeps k c msg inputs rows db =
    let errors = filterb has_network_error rows in
    let others = filterb (λ i. not (has_network_error i)) rows in
    let retried = (retry_batches k c msg inputs 0 (batches errors) [] db).0 in
    let kept =
      subst (λ xs. SameRows xs retried) (concat-batches errors).0
        (retry_batches-Kept k c msg inputs 0 (batches errors) [] db) in
    (
      (retried, refl, kept.same, refl),
      λ p.
          omega
            (arith, tally-append p others retried, tally-partition p rows, ap (countb p) kept.same),
      λ h.
          All-join others retried (filterb-IsProcessed (λ i. not (has_network_error i)) rows h)
            (kept.done (filterb-IsProcessed has_network_error rows h)),
      length-filterb has_network_error rows,
      countb-le-ids (λ i. is_ok_status i.scrape_status) retried errors kept.same,
    )
