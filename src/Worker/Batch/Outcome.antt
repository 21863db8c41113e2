-- ===== src/Worker/Batch/Outcome.antt =====
-- What the third phase does to the rows of a batch.
use jolly_jesters_mvp.Prelude.{
  ℕ, ◌+◌, true, Option, none, some, List, [], ◌∷◌, ◌++◌, map, length, All, ◌≡◌, refl, sym, ap, ◌∙◌,
  arith, append-nil, append_assoc, length-append, Option-cases, Bool-cases, inl, inr, subst,
}
use mathlib.Core.List.{map-append}
use jolly_jesters_mvp.Decimal.{Decimal}
use jolly_jesters_mvp.Enums.{is_processed_status}
use jolly_jesters_mvp.Profit.{Category, Settings}
use jolly_jesters_mvp.StopLoss.{Judgement, verdict, zero_division}
use jolly_jesters_mvp.Worker.Rows.{AllegroResult, Item, MarketData, Database}
use jolly_jesters_mvp.Worker.Apply.{apply_cached_market_data, apply_scraped_result}
use jolly_jesters_mvp.Worker.Batch.{
  Task, db_only, cache_hit, scraped, Work, Loop, Ending, went_through, stopped_at, crashed,
  apply_task, account, judged, apply_results, items_of,
}

module _ {D : Type 0} where
  abbrev pub ids : List (Item D) → List ℕ
  ids = map (λ i. i.id)

  -- A row has a status that a resumed run skips.
  abbrev pub IsProcessed : Item D → Type 0
  IsProcessed i = is_processed_status i.scrape_status ≡ true

  -- The rows of the batch after the third phase: all finished, or finished up to the row that stopped
  -- it and the rest untouched.
  abbrev pub RowsAfter : (before : List ℕ) → Loop D → Ending D → Type 0
  RowsAfter before l went_through = ids l.finished ≡ before
  RowsAfter before l (stopped_at row v left) =
      (v.should_stop ≡ true) × (ids l.finished ++ ids left ≡ before)
  RowsAfter before l crashed = Unit

module _ {D : Type 0} ⦃d : Decimal D⦄ (k : Settings D) (c : Category D) where
  cached-keeps :
      (item : Item D) (m : Option (MarketData D))
      → ((apply_cached_market_data k c item m).id ≡ item.id)
        × IsProcessed (apply_cached_market_data k c item m)
  unfolding apply_cached_market_data
  cached-keeps item none = (refl, refl)
  cached-keeps item (some m) = elim (Bool-cases m.is_not_found) [
    | inl e ↦ rw e (refl, refl)
    | inr e ↦ rw e (refl, refl)
  ]

  pub scraped-keeps :
      (now product : ℕ) (r : AllegroResult D) (item : Item D) (db : Database D)
      → let after = apply_scraped_result k c now product r (item, db) in
        (after.0.id ≡ item.id) × IsProcessed after.0
  unfolding apply_scraped_result
  scraped-keeps now product r item db = elim (Bool-cases r.is_temporary_error) [
    | inl t ↦ elim (Bool-cases r.is_not_found) [
      | inl e ↦ rw (t, e) (refl, refl)
      | inr e ↦ rw (t, e) (refl, refl)
    ]
    | inr t ↦ elim (Bool-cases r.is_not_found) [
      | inl e ↦ rw (t, e) (refl, refl)
      | inr e ↦ rw (t, e) (refl, refl)
    ]
  ]

  abbrev Keeps : Item D → Option (Item D × Database D) → Type 0
  Keeps item none = Unit
  Keeps item (some (item', db)) = (item'.id ≡ item.id) × IsProcessed item'

  -- A task that succeeds keeps the row's number and gives it a processed status.
  apply_task-Keeps :
      (now : ℕ) (item : Item D) (task : Task D) (db : Database D)
      → Keeps item (apply_task k c now item task db)
  unfolding apply_task
  apply_task-Keeps now item (db_only none) db = (refl, refl)
  apply_task-Keeps now item (db_only (some m)) db = cached-keeps item (some m)
  apply_task-Keeps now item (cache_hit m) db = cached-keeps item m
  apply_task-Keeps now item (scraped product none) db = tt
  apply_task-Keeps now item (scraped product (some r)) db = scraped-keeps now product r item db

module _ {D : Type 0} ⦃d : Decimal D⦄ (k : Settings D) (c : Category D) (clock : ℕ → ℕ)
    (ttl : ℕ) where
  -- One row of the third phase, by the task's result and the guard's judgement.
  pub step-crashed :
      (w : Work D) (ws : List (Work D)) (l : Loop D)
      → apply_task k c (clock w.item.row_number) w.item w.task l.db ≡ none
      → apply_results k c clock ttl (w ∷ ws) l ≡ (l, crashed)
  unfolding apply_results
  step-crashed w ws l e = rw (e, apply_results)

  pub step-judged :
      (w : Work D) (ws : List (Work D)) (l : Loop D) (item : Item D) (db : Database D)
      → apply_task k c (clock w.item.row_number) w.item w.task l.db ≡ some (item, db)
      → let (l', j) = account clock ttl w item db l in
        apply_results k c clock ttl (w ∷ ws) l
        ≡ judged (apply_results k c clock ttl ws l') l' item.row_number (items_of ws) j
  unfolding apply_results
  step-judged w ws l item db e = rw (e, apply_results)

  -- The counters and the rows of the third phase, from a loop to its end.
  pub record Tracks (ws : List (Work D)) (l : Loop D) (after : Loop D × Ending D) : Type 0 where
    pub rows : RowsAfter (ids l.finished ++ ids (items_of ws)) after.0 after.1
    pub counted : after.0.processed + length l.finished ≡ l.processed + length after.0.finished
    pub done : All IsProcessed l.finished → All IsProcessed after.0.finished

  -- The loop's state after one more row.
  record Advances (w : Work D) (l l' : Loop D) : Type 0 where
    shifted : (xs : List ℕ) → ids l'.finished ++ xs ≡ ids l.finished ++ w.item.id ∷ xs
    longer : length l'.finished ≡ length l.finished + 1
    counted : l'.processed ≡ l.processed + 1
    done : All IsProcessed l.finished → All IsProcessed l'.finished

  judged-Tracks :
      (w : Work D) (ws : List (Work D)) (l l' : Loop D) (row : ℕ) (rest : Loop D × Ending D)
      (j : Judgement)
      → Advances w l l'
      → Tracks ws l' rest
      → Tracks (w ∷ ws) l (judged rest l' row (items_of ws) j)
  judged-Tracks w ws l l' row rest zero_division a t = record {
    rows = tt;
    counted = omega (arith, a.longer, a.counted);
    done = a.done;
  }
  judged-Tracks w ws l l' row rest (verdict v) a t = elim (Bool-cases v.should_stop) [
    | inl e ↦
        rw (e, judged)
          (record {
            rows = (refl, a.shifted (ids (items_of ws)));
            counted = omega (arith, a.longer, a.counted);
            done = a.done;
          })
    | inr e ↦
        rw (e, judged)
          (record {
            rows = subst (λ b. RowsAfter b rest.0 rest.1) (a.shifted (ids (items_of ws))) t.rows;
            counted = omega (arith, a.longer, a.counted, t.counted);
            done = λ h. t.done (a.done h);
          })
  ]

  All-append :
      (xs ys : List (Item D)) → All IsProcessed xs → All IsProcessed ys → All IsProcessed (xs ++ ys)
  All-append [] ys h g = g
  All-append (x ∷ xs) ys h g = (h.0, All-append xs ys h.1 g)

  account-Advances :
      (w : Work D) (item : Item D) (db : Database D) (l : Loop D)
      → item.id ≡ w.item.id
      → IsProcessed item
      → Advances w l (account clock ttl w item db l).0
  account-Advances w item db l same processed = record {
    shifted = λ xs.
        ap (λ a. a ++ xs) (map-append _ l.finished (item ∷ []))
        ∙ append_assoc (ids l.finished) (item.id ∷ []) xs
        ∙ ap (λ i. ids l.finished ++ i ∷ xs) same;
    longer = length-append l.finished (item ∷ []);
    counted = refl;
    done = λ h. All-append l.finished (item ∷ []) h (processed, tt);
  }

  -- The third phase finishes rows in their order and counts each once: if it goes through, exactly the
  -- rows of the batch are finished; if the guard stops it, the finished rows and those left are the
  -- rows of the batch. Every row it finishes has a status that a resumed run skips.
  pub apply_results-Tracks :
      (ws : List (Work D)) (l : Loop D) → Tracks ws l (apply_results k c clock ttl ws l)
  unfolding apply_results
  apply_results-Tracks [] l = record { rows = sym (append-nil _); counted = refl; done = λ h. h }
  apply_results-Tracks (w ∷ ws) l =
      let result = apply_task k c (clock w.item.row_number) w.item w.task l.db in
      elim (Option-cases result) [
        | inl e ↦ rw (step-crashed w ws l e) (record { rows = tt; counted = refl; done = λ h. h })
        | inr (p, e) ↦
            let (item, db) = p in
            let (same, processed) =
              subst (Keeps k c w.item) e
                (apply_task-Keeps k c (clock w.item.row_number) w.item w.task l.db) in
            let (l', j) = account clock ttl w item db l in
            rw (step-judged w ws l item db e) (
              judged-Tracks w ws l l' item.row_number (apply_results k c clock ttl ws l') j
                (account-Advances w item db l same processed) (apply_results-Tracks ws l'))
      ]
