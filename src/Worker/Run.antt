-- ===== src/Worker/Run.antt =====
-- The loop over the batches of `run_analysis_task` of backend/app/workers/tasks.py. A run has the rows
-- that a resumed run does not skip, in the order of their numbers. What happens outside the loop is
-- an input of each batch: a cancellation, the moments, and the scraper.
pub mod Rows
pub mod Chunks
pub mod Whole
pub mod Tests
use jolly_jesters_mvp.Prelude.{
  ℕ, zero, suc, ◌+◌, Bool, true, false, not, Option, none, some, String, List, [], ◌∷◌, ◌++◌, map,
  length, take, drop, filterb, if◌then◌else◌,
}
use jolly_jesters_mvp.Decimal.{Decimal}
use jolly_jesters_mvp.Enums.{ScrapeStatus, is_processed_status, is_pending_status}
use jolly_jesters_mvp.Profit.{Category, Settings}
use jolly_jesters_mvp.Breaker.{CircuitBreaker}
use jolly_jesters_mvp.StopLoss.{StopLossChecker, StopLossVerdict}
use jolly_jesters_mvp.Worker.Rows.{Item, Database}
use jolly_jesters_mvp.Worker.Fetch.{Messages, Cache, Round, Scraper, fetch_batch}
use jolly_jesters_mvp.Worker.Batch.{
  Sorted, sort_items, work_of, Work, Loop, Ending, went_through, stopped_at, crashed, apply_results,
}

abbrev pub batch_size : ℕ
batch_size = 10

-- `range(0, len(items), BATCH_SIZE)` and the slices, with fuel for the number of slices.
abbrev pub batches_from {ℓ} : {A : Type ℓ} → (fuel : ℕ) → List A → List (List A)
batches_from zero xs = []
batches_from (suc fuel) [] = []
batches_from (suc fuel) (x ∷ xs) =
    take batch_size (x ∷ xs) ∷ batches_from fuel (drop batch_size (x ∷ xs))

abbrev pub batches {ℓ} : {A : Type ℓ} → List A → List (List A)
batches xs = batches_from (length xs) xs

-- What one batch meets.
pub record Input (D : Type 0) : Type 0 where
  pub canceled : Bool
  pub now : ℕ
  pub clock : ℕ → ℕ
  pub round : Round D

-- The settings of a run.
pub record Mode : Type 0 where
  pub db_only_mode : Bool
  pub cache_days : ℕ
  pub quarantine_ttl : ℕ

-- The state that the batches share, with the rows that are finished and those that are left.
pub record Machine (D : Type 0) : Type 0 where
  pub db : Database D
  pub guard : StopLossChecker
  pub breaker : CircuitBreaker
  pub cache : Cache D
  pub processed : ℕ
  pub requests : ℕ
  pub finished : List (Item D)
  pub left : List (Item D)

-- How the loop stands: on, or ended by a cancellation, by the guard, or by an exception.
pub data Flow : Type 0 where
  goes_on : Flow
  was_canceled : Flow
  was_stopped : (row_number : ℕ) → StopLossVerdict → Flow
  raised : Flow

module _ {D : Type 0} where
  abbrev pub left_by : Ending D → List (Item D)
  left_by went_through = []
  left_by (stopped_at row v left) = left
  left_by crashed = []

  abbrev pub flow_of : Ending D → Flow
  flow_of went_through = goes_on
  flow_of (stopped_at row v left) = was_stopped row v
  flow_of crashed = raised

  abbrev pub concat : List (List (Item D)) → List (Item D)
  concat [] = []
  concat (b ∷ bs) = b ++ concat bs

  -- The loop is left with rows that no batch took up.
  abbrev pub leave : List (Item D) → Machine D → Machine D
  leave rows m = record m { left = m.left ++ rows }

  -- The rows that a resumed run takes up, and `already_done_count`.
  abbrev pub items_to_process : List (Item D) → List (Item D)
  items_to_process = filterb (λ i. not (is_processed_status i.scrape_status))

  -- The update that a stop makes of the rows that are still pending.
  abbrev pub stop_pending : Item D → Item D
  stop_pending i =
      if is_pending_status i.scrape_status
      then record i { scrape_status = ScrapeStatus.stopped_by_guardrail }
      else i

module _ {D : Type 0} ⦃d : Decimal D⦄ (k : Settings D) (c : Category D) (msg : Messages)
    (mode : Mode) where
  -- What the first two phases hand to the third.
  abbrev pub sorted_by : Input D → List (Item D) → Machine D → Sorted D
  sorted_by input rows m = sort_items mode.db_only_mode mode.cache_days input.now rows m.db

  abbrev pub scraped_by : Input D → Sorted D → Machine D → Scraper D
  scraped_by input s m =
      fetch_batch msg input.round (map (λ p. p.0.ean) s.to_scrape) m.cache m.breaker m.requests

  abbrev pub loop_of : Sorted D → Machine D → Loop D
  loop_of s m = record {
    db = s.db;
    guard = m.guard;
    processed = m.processed + length s.orphans;
    finished = m.finished ++ s.orphans;
  }

  -- The machine after the third phase.
  abbrev pub settle : Scraper D → Machine D → Loop D × Ending D → Machine D × Flow
  settle scraper m (l, ending) = (
    record {
      db = l.db;
      guard = l.guard;
      breaker = scraper.breaker;
      cache = scraper.cache;
      processed = l.processed;
      requests = scraper.requests;
      finished = l.finished;
      left = m.left ++ left_by ending;
    },
    flow_of ending,
  )

  -- One batch that is not canceled.
  unfoldable pub run_batch : Input D → List (Item D) → Machine D → Machine D × Flow
  run_batch input rows m =
      let s = sorted_by input rows m in
      let scraper = scraped_by input s m in
      settle scraper m (
        apply_results k c input.clock mode.quarantine_ttl (work_of scraper.results s) (loop_of s m))

  -- After a batch the next ones follow, or they are left.
  abbrev pub continue_with :
      (rest : Machine D × Flow) → List (List (Item D)) → Machine D × Flow → Machine D × Flow
  continue_with rest bs (m, goes_on) = rest
  continue_with rest bs (m, was_canceled) = (leave (concat bs) m, was_canceled)
  continue_with rest bs (m, was_stopped row v) = (leave (concat bs) m, was_stopped row v)
  continue_with rest bs (m, raised) = (leave (concat bs) m, raised)

  -- The loop over the batches, from the number `i` on.
  unfoldable pub run_batches :
      (ℕ → Input D) → (i : ℕ) → List (List (Item D)) → Machine D → Machine D × Flow
  run_batches inputs i [] m = (m, goes_on)
  run_batches inputs i (b ∷ bs) m =
      let after = run_batch (inputs i) b m in
      let rest = run_batches inputs (suc i) bs after.0 in
      if (inputs i).canceled
      then (leave (b ++ concat bs) m, was_canceled)
      else continue_with rest bs after

  -- The state in which the loop starts on all the rows of a run: those already processed are finished
  -- and counted.
  abbrev pub start_on : List (Item D) → Machine D → Machine D
  start_on rows m =
      let already = filterb (λ i. is_processed_status i.scrape_status) rows in
      record m { finished = already; processed = length already; left = [] }

  -- The loop over a whole run.
  unfoldable pub run_rows : (ℕ → Input D) → List (Item D) → Machine D → Machine D × Flow
  run_rows inputs rows m = run_batches inputs 0 (batches (items_to_process rows)) (start_on rows m)

module _ {D : Type 0} where
  -- The rows of the run after the loop, with the update that a stop makes.
  unfoldable pub rows_after : Machine D × Flow → List (Item D)
  rows_after (m, was_stopped row v) = map stop_pending (m.finished ++ m.left)
  rows_after (m, flow) = m.finished ++ m.left
