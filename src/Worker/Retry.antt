-- ===== src/Worker/Retry.antt =====
-- The retry pass of `run_analysis_task` of backend/app/workers/tasks.py: the rows that failed by a
-- network error are fetched once more, without the breaker, the guard or the proxy scoring. What
-- happens outside is an input of each batch: a cancellation, the moment, an exception of the fetch, and
-- the scraper.
pub mod Kept
use jolly_jesters_mvp.Prelude.{
  ℕ, suc, ◌+◌, Bool, true, false, not, Option, none, some, String, List, [], ◌∷◌, ◌++◌, map, length,
  filterb, countb, lookup, if◌then◌else◌, string_eq,
}
use jolly_jesters_mvp.Decimal.{Decimal}
use jolly_jesters_mvp.Enums.{is_network_error_status, is_ok_status}
use jolly_jesters_mvp.Profit.{Category, Settings}
use jolly_jesters_mvp.Worker.Rows.{Item, Database}
use jolly_jesters_mvp.Worker.Apply.{apply_scraped_result}
use jolly_jesters_mvp.Worker.Fetch.{Fetched, Messages, Cache, get_or_fetch_batch}
use jolly_jesters_mvp.Worker.Batch.{product_of}
use jolly_jesters_mvp.Worker.Run.{batches, concat}

pub record RetryInput (D : Type 0) : Type 0 where
  pub canceled : Bool
  pub now : ℕ
  pub raises : Bool
  pub fetch : ℕ → String → Fetched D

-- The rows and the tables after the pass, with its two counts.
pub record Retried (D : Type 0) : Type 0 where
  pub rows : List (Item D)
  pub db : Database D
  pub attempted : ℕ
  pub recovered : ℕ

abbrev pub has_network_error : {D : Type 0} → Item D → Bool
has_network_error item = is_network_error_status item.scrape_status

module _ {D : Type 0} ⦃d : Decimal D⦄ (k : Settings D) (c : Category D) where
  -- The body of the loop over a batch: a row without a result or a product is passed over.
  unfoldable pub retry_row : (now : ℕ) → Cache D → Item D → Database D → Item D × Database D
  retry_row now results item db = elim (lookup item.ean results) [
    | none ↦ (item, db)
    | some r ↦ elim (product_of item db) [
      | none ↦ (item, db)
      | some product ↦ apply_scraped_result k c now product r (item, db)
    ]
  ]

  abbrev pub retry_items :
      (now : ℕ) → Cache D → List (Item D) → Database D → List (Item D) × Database D
  retry_items now results [] db = ([], db)
  retry_items now results (item ∷ items) db =
      let (item', db') = retry_row now results item db in
      let (items', db'') = retry_items now results items db' in (item' ∷ items', db'')

  -- A batch whose results are there; `none` stands for the KeyError, which the `try` catches.
  abbrev pub retry_with :
      (now : ℕ) → Option (Cache D) → List (Item D) → Database D → List (Item D) × Database D
  retry_with now none items db = (items, db)
  retry_with now (some results) items db = retry_items now results items db

module _ {D : Type 0} ⦃d : Decimal D⦄ (k : Settings D) (c : Category D) (msg : Messages) where
  -- The loop over the batches, from the number `i` on, with the cache of the pass.
  unfoldable pub retry_batches :
      (ℕ → RetryInput D)
      → (i : ℕ) → List (List (Item D))
      → Cache D
      → Database D
      → List (Item D) × Database D
  retry_batches inputs i [] cache db = ([], db)
  retry_batches inputs i (b ∷ bs) cache db =
      let input = inputs i in
      let (cache', results) = get_or_fetch_batch msg input.fetch (map (λ it. it.ean) b) cache in
      let passed_over = retry_batches inputs (suc i) bs cache db in
      let (b', db') = retry_with k c input.now results b db in
      let rest = retry_batches inputs (suc i) bs cache' db' in
      if input.canceled
      then (b ++ concat bs, db)
      else if input.raises
      then (b ++ passed_over.0, passed_over.1)
      else (b' ++ rest.0, rest.1)

  -- The pass over the rows of a run. A row that failed by a network error and is `ok` now has
  -- recovered.
  unfoldable pub retry_pass : (ℕ → RetryInput D) → List (Item D) → Database D → Retried D
  retry_pass inputs rows db =
      let error_items = filterb has_network_error rows in
      let (retried, db') = retry_batches inputs 0 (batches error_items) [] db in
      record {
        rows = filterb (λ i. not (has_network_error i)) rows ++ retried;
        db = db';
        attempted = length error_items;
        recovered = countb (λ i. is_ok_status i.scrape_status) retried;
      }
