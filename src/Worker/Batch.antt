-- ===== src/Worker/Batch.antt =====
-- One batch of `run_analysis_task` of backend/app/workers/tasks.py: the sorting of its rows, and the
-- applying of the results. The rows of a batch are a list in the order of processing; the table that
-- they stand in is keyed by `id`. `clock` gives the moment at which a row is finished.
pub mod Outcome
pub mod Total
use jolly_jesters_mvp.Prelude.{
  ℕ, suc, ◌+◌, Bool, true, false, Option, none, some, String, List, [], ◌∷◌, ◌++◌, ◌==◌, anyb,
  or_else, if◌then◌else◌, string_eq, lookup, map,
}
use jolly_jesters_mvp.Decimal.{Decimal}
use jolly_jesters_mvp.Enums.{AnalysisItemSource, ScrapeStatus, is_blocked_status}
use jolly_jesters_mvp.Profit.{Category, Settings}
use jolly_jesters_mvp.ProxyPool.{NetworkProxy, record_success, record_failure}
use jolly_jesters_mvp.StopLoss.{
  StopLossChecker, StopLossVerdict, Observation, Judgement, verdict, zero_division, record_item,
}
use jolly_jesters_mvp.Worker.Rows.{
  AllegroResult, Item, MarketData, Database, latest_of, ensure_product_state,
}
use jolly_jesters_mvp.Worker.Cache.{should_fetch_from_scraper}
use jolly_jesters_mvp.Worker.Apply.{without_result, apply_cached_market_data, apply_scraped_result}
use jolly_jesters_mvp.Worker.Fetch.{Cache}

-- A row that waits for the third phase, with what it is given there.
pub data Task (D : Type 0) : Type 0 where
  db_only : Option (MarketData D) → Task D
  cache_hit : Option (MarketData D) → Task D
  scraped : (product : ℕ) → Option (AllegroResult D) → Task D

pub record Work (D : Type 0) : Type 0 where
  pub item : Item D
  pub task : Task D

-- What the first phase makes of a batch.
pub record Sorted (D : Type 0) : Type 0 where
  pub orphans : List (Item D)
  pub cached : List (Work D)
  pub to_scrape : List (Item D × ℕ)
  pub db : Database D

module _ {D : Type 0} where
  -- `item.product`
  abbrev pub product_of : Item D → Database D → Option ℕ
  product_of item db = elim item.product_id [
    | none ↦ none
    | some p ↦ if anyb (λ q. q == p) db.products then some p else none
  ]

  abbrev pub orphan : Item D → Item D
  orphan item = record item {
    source = AnalysisItemSource.error;
    scrape_status = ScrapeStatus.error;
    error_message = some "Brak produktu dla wiersza";
  }

  abbrev pub in_progress : Item D → Item D
  in_progress item = record item { scrape_status = ScrapeStatus.in_progress; error_message = none }

  -- A row whose product has its state by now, put before the rows that follow it in the batch.
  abbrev pub sort_known :
      (db_only_mode : Bool)
      → (cache_days now product : ℕ) → Item D
      → Option (MarketData D)
      → Sorted D
      → Sorted D
  sort_known db_only_mode cache_days now product item market s =
      if db_only_mode
      then record s { cached = record { item = item; task = db_only market } ∷ s.cached }
      else if should_fetch_from_scraper false market cache_days now
      then record s { to_scrape = (in_progress item, product) ∷ s.to_scrape }
      else record s { cached = record { item = item; task = cache_hit market } ∷ s.cached }

  -- The loop of the first phase.
  unfoldable pub sort_items :
      (db_only_mode : Bool) → (cache_days now : ℕ) → List (Item D) → Database D → Sorted D
  sort_items db_only_mode cache_days now [] db = record {
    orphans = [];
    cached = [];
    to_scrape = [];
    db = db;
  }
  sort_items db_only_mode cache_days now (item ∷ items) db = elim (product_of item db) [
    | none ↦
        let rest = sort_items db_only_mode cache_days now items db in
        record rest { orphans = orphan item ∷ rest.orphans }
    | some product ↦
        let db' = ensure_product_state product db in
        sort_known db_only_mode cache_days now product item (latest_of product db')
          (sort_items db_only_mode cache_days now items db')
  ]

  -- `items_cached + [(..., scrape_results.get(it.ean), "scraped") for ...]`
  abbrev pub work_of : Cache D → Sorted D → List (Work D)
  work_of results s =
      s.cached
      ++ map
          (λ (item, product). record {
            item = item;
            task = scraped product (lookup item.ean results);
          })
          s.to_scrape

-- The state of the third phase: what is finished so far, and what it has changed.
pub record Loop (D : Type 0) : Type 0 where
  pub db : Database D
  pub guard : StopLossChecker
  pub processed : ℕ
  pub finished : List (Item D)

-- How the third phase ends: after all rows, at the row where the guard stopped it, or in an exception
-- (a missing result has no attributes; a window of size 0 is divided by).
pub data Ending (D : Type 0) : Type 0 where
  went_through : Ending D
  stopped_at : (row_number : ℕ) → StopLossVerdict → (left : List (Item D)) → Ending D
  crashed : Ending D

module _ {D : Type 0} where
  -- The row of a run in the database-only mode without any data.
  abbrev pub no_cached_data : Item D → Item D
  no_cached_data item = record (without_result item) {
    source = AnalysisItemSource.not_found;
    scrape_status = ScrapeStatus.not_found;
    error_message = some "no_cached_data";
  }

  -- The proxy scoring; an empty hash is no hash.
  abbrev pub score_proxy :
      (now ttl : ℕ) → Option (AllegroResult D) → List NetworkProxy → List NetworkProxy
  score_proxy now ttl none pool = pool
  score_proxy now ttl (some r) pool = elim r.proxy_url_hash [
    | none ↦ pool
    | some hash ↦
        if string_eq.beq hash ""
        then pool
        else if or_else r.proxy_success false
        then record_success now hash pool
        else record_failure now ttl hash pool
  ]

  abbrev pub result_in : Task D → Option (AllegroResult D)
  result_in (scraped product r) = r
  result_in _ = none

  -- What the guard is told: `AllegroResult` has no `cost`, so it is always 0.
  abbrev pub observation : Item D → Option (AllegroResult D) → Observation
  observation item r = record {
    scrape_status = item.scrape_status;
    captcha_solves = elim r [ none ↦ 0 | some r ↦ or_else r.metering.captcha_solves 0 ];
    retries = elim r [ none ↦ 0 | some r ↦ or_else r.metering.retries 0 ];
    is_blocked = is_blocked_status item.scrape_status;
    cost = 0;
  }

  abbrev pub items_of : List (Work D) → List (Item D)
  items_of = map (λ w. w.item)

module _ {D : Type 0} ⦃d : Decimal D⦄ (k : Settings D) (c : Category D) where
  -- The row and the tables after its task, or `none` where there is no result to apply.
  unfoldable pub apply_task :
      (now : ℕ) → Item D → Task D → Database D → Option (Item D × Database D)
  apply_task now item (db_only none) db = some (no_cached_data item, db)
  apply_task now item (db_only (some m)) db = some (apply_cached_market_data k c item (some m), db)
  apply_task now item (cache_hit market) db = some (apply_cached_market_data k c item market, db)
  apply_task now item (scraped product none) db = none
  apply_task now item (scraped product (some r)) db =
      some (apply_scraped_result k c now product r (item, db))

module _ {D : Type 0} (rest : Loop D × Ending D) (l : Loop D) where
  -- What follows the guard's judgement of a row: the rest of the loop, or its end.
  abbrev pub judged : (row_number : ℕ) → (left : List (Item D)) → Judgement → Loop D × Ending D
  judged row_number left zero_division = (l, crashed)
  judged row_number left (verdict v) =
      if v.should_stop then (l, stopped_at row_number v left) else rest

module _ {D : Type 0} (clock : ℕ → ℕ) (ttl : ℕ) where
  -- The row is counted, its proxy is scored, and the guard is asked.
  abbrev pub account : Work D → Item D → Database D → Loop D → Loop D × Judgement
  account w item db l =
      let now = clock item.row_number in
      let r = result_in w.task in
      let (guard, judgement) = record_item now (observation item r) l.guard in
      (
        record {
          db = record db { proxies = score_proxy now ttl r db.proxies };
          guard = guard;
          processed = l.processed + 1;
          finished = l.finished ++ item ∷ [];
        },
        judgement,
      )

module _ {D : Type 0} ⦃d : Decimal D⦄ (k : Settings D) (c : Category D) (clock : ℕ → ℕ)
    (ttl : ℕ) where
  -- The loop of the third phase.
  unfoldable pub apply_results : List (Work D) → Loop D → Loop D × Ending D
  apply_results [] l = (l, went_through)
  apply_results (w ∷ ws) l = elim (apply_task k c (clock w.item.row_number) w.item w.task l.db) [
    | none ↦ (l, crashed)
    | some (item, db) ↦
        let (l', judgement) = account clock ttl w item db l in
        let rest = apply_results ws l' in judged rest l' item.row_number (items_of ws) judgement
  ]
