-- ===== src/Worker/Run/Rows.antt =====
-- No batch loses a row or has it twice. A set of rows is measured by the row numbers that pass a test.
use jolly_jesters_mvp.Prelude.{
  ℕ, suc, ◌+◌, Bool, false, Option, List, [], ◌∷◌, ◌++◌, map, length, countb, countb-append, All,
  ◌≡◌, ◌≢◌, refl, sym, ap, ◌∙◌, arith, Bool-cases, Option-cases, inl, inr, if-elim, subst,
  length-append, append-nil,
}
use jolly_jesters_mvp.Decimal.{Decimal}
use jolly_jesters_mvp.Profit.{Category, Settings}
use jolly_jesters_mvp.Worker.Rows.{Item, Database, MarketData, latest_of, ensure_product_state}
use jolly_jesters_mvp.Worker.Fetch.{Messages, Cache}
use jolly_jesters_mvp.Worker.Cache.{should_fetch_from_scraper}
use jolly_jesters_mvp.Worker.Batch.{
  Sorted, Work, Loop, Ending, went_through, stopped_at, crashed, sort_items, sort_known, product_of,
  work_of, items_of, apply_results,
}
use jolly_jesters_mvp.Worker.Batch.Outcome.{ids, IsProcessed, RowsAfter, apply_results-Tracks}
use jolly_jesters_mvp.Worker.Run.{
  Machine, Mode, Input, Flow, goes_on, was_canceled, was_stopped, raised, concat, leave, left_by,
  flow_of, sorted_by, scraped_by, loop_of, run_batch, continue_with, run_batches,
}

module _ {D : Type 0} (p : ℕ → Bool) where
  -- The rows whose number passes the test.
  abbrev pub tally : List (Item D) → ℕ
  tally rows = countb p (ids rows)

  pub tally-append : (xs ys : List (Item D)) → tally (xs ++ ys) ≡ tally xs + tally ys
  tally-append [] ys = omega arith
  tally-append (x ∷ xs) ys = ground (arith, tally-append xs ys)

  abbrev first_of : List (Item D × ℕ) → List (Item D)
  first_of = map (λ q. q.0)

  tally-scraped :
      (results : Cache D) (s : Sorted D)
      → tally (items_of (work_of results s))
        ≡ tally (items_of s.cached) + tally (first_of s.to_scrape)
  tally-scraped results s = go s.cached s.to_scrape
    where
      go :
          (cached : List (Work D)) (to_scrape : List (Item D × ℕ))
          → tally (items_of (work_of results (record s { cached = cached; to_scrape = to_scrape })))
            ≡ tally (items_of cached) + tally (first_of to_scrape)
      go [] [] = refl
      go [] (q ∷ qs) = ground (arith, go [] qs)
      go (w ∷ ws) qs = ground (arith, go ws qs)

  -- All the rows that the first phase has sorted.
  abbrev sorted_tally : Sorted D → ℕ
  sorted_tally s = tally s.orphans + tally (items_of s.cached) + tally (first_of s.to_scrape)

  sort_known-tally :
      (db_only : Bool) (days now product : ℕ) (item : Item D) (m : Option (MarketData D))
      (s : Sorted D)
      → sorted_tally (sort_known db_only days now product item m s)
        ≡ tally (item ∷ []) + sorted_tally s
  sort_known-tally db_only days now product item m s = elim (Bool-cases db_only) [
    | inl e ↦ rw e (ground arith)
    | inr e ↦ elim (Bool-cases (should_fetch_from_scraper false m days now)) [
      | inl f ↦ rw (e, f) (ground arith)
      | inr f ↦ rw (e, f) (ground arith)
    ]
  ]

  sort_items-tally :
      (db_only : Bool) (days now : ℕ) (items : List (Item D)) (db : Database D)
      → sorted_tally (sort_items db_only days now items db) ≡ tally items
  unfolding sort_items
  sort_items-tally db_only days now [] db = refl
  sort_items-tally db_only days now (item ∷ items) db = elim (Option-cases (product_of item db)) [
    | inl e ↦ rw (e, sort_items) (ground (arith, sort_items-tally db_only days now items db))
    | inr (product, e) ↦
        let db' = ensure_product_state product db in
        rw (e, sort_items)
          (sort_known-tally db_only days now product item (latest_of product db')
              (sort_items db_only days now items db')
            ∙ ground (arith, sort_items-tally db_only days now items db'))
  ]

module _ {D : Type 0} where
  All-append :
      (xs ys : List (Item D)) → All IsProcessed xs → All IsProcessed ys → All IsProcessed (xs ++ ys)
  All-append [] ys h g = g
  All-append (x ∷ xs) ys h g = (h.0, All-append xs ys h.1 g)

  sort_known-orphans :
      (db_only : Bool) (days now product : ℕ) (item : Item D) (m : Option (MarketData D))
      (s : Sorted D)
      → (sort_known db_only days now product item m s).orphans ≡ s.orphans
  sort_known-orphans db_only days now product item m s = elim (Bool-cases db_only) [
    | inl e ↦ rw e
    | inr e ↦ elim (Bool-cases (should_fetch_from_scraper false m days now)) [
      | inl f ↦ rw (e, f)
      | inr f ↦ rw (e, f)
    ]
  ]

  orphans-IsProcessed :
      (db_only : Bool) (days now : ℕ) (items : List (Item D)) (db : Database D)
      → All IsProcessed (sort_items db_only days now items db).orphans
  unfolding sort_items
  orphans-IsProcessed db_only days now [] db = tt
  orphans-IsProcessed db_only days now (item ∷ items) db =
      elim (Option-cases (product_of item db)) [
        | inl e ↦ rw (e, sort_items) (refl, orphans-IsProcessed db_only days now items db)
        | inr (product, e) ↦
            let db' = ensure_product_state product db in
            rw (e, sort_items)
              (subst (All IsProcessed)
                (sym (
                  sort_known-orphans db_only days now product item (latest_of product db')
                    (sort_items db_only days now items db')))
                (orphans-IsProcessed db_only days now items db'))
      ]

  RowsAfter-tally :
      (p : ℕ → Bool) (before : List ℕ) (l : Loop D) (ending : Ending D)
      → RowsAfter before l ending
      → flow_of ending ≢ raised
      → tally p l.finished + tally p (left_by ending) ≡ countb p before
  RowsAfter-tally p before l went_through h ne = omega (arith, ap (countb p) h)
  RowsAfter-tally p before l (stopped_at row v left) h ne =
      sym (countb-append p (ids l.finished) (ids left)) ∙ ap (countb p) h.1
  RowsAfter-tally p before l crashed h ne = absurd (ne refl)

  left_by-goes_on : (ending : Ending D) → flow_of ending ≡ goes_on → left_by ending ≡ []
  left_by-goes_on went_through e = refl
  left_by-goes_on (stopped_at row v left) e = absurd (ground arith)
  left_by-goes_on crashed e = refl

  -- All the rows that a machine holds.
  abbrev pub held : (p : ℕ → Bool) → Machine D → ℕ
  held p m = tally p m.finished + tally p m.left

  -- What a part of a run that was given some rows does to them: each finished row is counted once and has
  -- a status that a resumed run skips, unless an exception ends it the rows are those held before and
  -- those given, each as often, and if it goes on none is left over.
  pub record Keeps (rows : List (Item D)) (m : Machine D) (after : Machine D × Flow) : Type 0 where
    pub counted : after.0.processed + length m.finished ≡ m.processed + length after.0.finished
    pub done : All IsProcessed m.finished → All IsProcessed after.0.finished
    pub conserved : after.1 ≢ raised → (p : ℕ → Bool) → held p after.0 ≡ held p m + tally p rows
    pub complete : after.1 ≡ goes_on → after.0.left ≡ m.left

module _ {D : Type 0} ⦃d : Decimal D⦄ (k : Settings D) (c : Category D) (msg : Messages)
    (mode : Mode) where
  run_batch-Keeps :
      (input : Input D) (rows : List (Item D)) (m : Machine D)
      → Keeps rows m (run_batch k c msg mode input rows m)
  unfolding run_batch
  run_batch-Keeps input rows m =
      let s = sorted_by k c msg mode input rows m in
      let scraper = scraped_by k c msg mode input s m in
      let ws = work_of scraper.results s in
      let l = loop_of k c msg mode s m in
      let after = apply_results k c input.clock mode.quarantine_ttl ws l in
      let t = apply_results-Tracks k c input.clock mode.quarantine_ttl ws l in
      record {
        counted = omega (arith, t.counted, length-append m.finished s.orphans);
        done = λ h. t.done (
            All-append m.finished s.orphans h
              (orphans-IsProcessed mode.db_only_mode mode.cache_days input.now rows m.db));
        conserved = λ ne p. omega (
          arith,
          RowsAfter-tally p (ids l.finished ++ ids (items_of ws)) after.0 after.1 t.rows ne,
          countb-append p (ids l.finished) (ids (items_of ws)),
          tally-append p m.finished s.orphans,
          tally-append p m.left (left_by after.1),
          tally-scraped p scraper.results s,
          sort_items-tally p mode.db_only_mode mode.cache_days input.now rows m.db,
        );
        complete = λ e. ap (λ xs. m.left ++ xs) (left_by-goes_on after.1 e) ∙ append-nil m.left;
      }

  leave-Keeps :
      (rows : List (Item D)) (m : Machine D) (flow : Flow)
      → flow ≢ goes_on
      → Keeps rows m (leave rows m, flow)
  leave-Keeps rows m flow ended = record {
    counted = refl;
    done = λ h. h;
    conserved = λ ne p. omega (arith, tally-append p m.left rows);
    complete = λ e. absurd (ended e);
  }

  -- Two parts of a run, one after the other.
  Keeps-trans :
      (b rest : List (Item D)) (m m' : Machine D) (flow : Flow) (last : Machine D × Flow)
      → flow ≢ raised
      → (last.1 ≡ goes_on → flow ≡ goes_on)
      → Keeps b m (m', flow)
      → Keeps rest m' last
      → Keeps (b ++ rest) m last
  Keeps-trans b rest m m' flow last ne went one two = record {
    counted = omega (arith, one.counted, two.counted);
    done = λ h. two.done (one.done h);
    conserved =
        λ ne' p. omega (arith, one.conserved ne p, two.conserved ne' p, tally-append p b rest);
    complete = λ e. two.complete e ∙ one.complete (went e);
  }

  continue_with-Keeps :
      (b : List (Item D)) (bs : List (List (Item D))) (m : Machine D)
      (after rest : Machine D × Flow)
      → Keeps b m after
      → Keeps (concat bs) after.0 rest
      → Keeps (b ++ concat bs) m (continue_with k c msg mode rest bs after)
  continue_with-Keeps b bs m (m', goes_on) rest one two =
      Keeps-trans b (concat bs) m m' goes_on rest (ground arith) (λ e. refl) one two
  continue_with-Keeps b bs m (m', was_canceled) rest one two =
      Keeps-trans b (concat bs) m m' was_canceled (leave (concat bs) m', was_canceled)
        (ground arith) (λ e. e) one (leave-Keeps (concat bs) m' was_canceled (ground arith))
  continue_with-Keeps b bs m (m', was_stopped row v) rest one two =
      Keeps-trans b (concat bs) m m' (was_stopped row v) (leave (concat bs) m', was_stopped row v)
        (ground arith) (λ e. e) one (leave-Keeps (concat bs) m' (was_stopped row v) (ground arith))
  continue_with-Keeps b bs m (m', raised) rest one two = record {
    counted = one.counted;
    done = one.done;
    conserved = λ ne. absurd (ne refl);
    complete = λ e. absurd (ground arith);
  }

  -- The loop over any batches, from any state: each finished row is counted once and has a status that
  -- a resumed run skips; unless an exception ends the loop, the rows finished or left are those held
  -- before and those of the batches, each as often; and if it goes through, none of them is left over.
  pub run_batches-Keeps :
      (inputs : ℕ → Input D) (i : ℕ) (bs : List (List (Item D))) (m : Machine D)
      → Keeps (concat bs) m (run_batches k c msg mode inputs i bs m)
  unfolding run_batches
  run_batches-Keeps inputs i [] m = record {
    counted = refl;
    done = λ h. h;
    conserved = λ ne p. omega arith;
    complete = λ e. refl;
  }
  run_batches-Keeps inputs i (b ∷ bs) m =
      let after = run_batch k c msg mode (inputs i) b m in
      let rest = run_batches k c msg mode inputs (suc i) bs after.0 in
      if-elim (Keeps (b ++ concat bs) m) (inputs i).canceled
        (leave (b ++ concat bs) m, was_canceled) (continue_with k c msg mode rest bs after)
        (leave-Keeps (b ++ concat bs) m was_canceled (ground arith))
        (continue_with-Keeps b bs m after rest (run_batch-Keeps (inputs i) b m)
          (run_batches-Keeps inputs (suc i) bs after.0))
