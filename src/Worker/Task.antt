-- ===== src/Worker/Task.antt =====
-- `run_analysis_task` of backend/app/workers/tasks.py as a whole: the early exits, the loop, the retry
-- pass and the completion. The lock, the run, its category and its rows are what the queries find. A
-- cancellation comes from another process: it is an input wherever the status is read again.
pub mod Outcome
pub mod Tests
use jolly_jesters_mvp.Prelude.{
  ℕ, Bool, true, false, not, ◌&&◌, ◌||◌, Option, none, some, String, List, [], ◌∷◌, length,
  if◌then◌else◌,
}
use jolly_jesters_mvp.Decimal.{Decimal}
use jolly_jesters_mvp.Enums.{AnalysisStatus, is_canceled}
use jolly_jesters_mvp.Profit.{Category, Settings}
use jolly_jesters_mvp.Worker.Rows.{Item}
use jolly_jesters_mvp.Worker.Fetch.{Messages}
use jolly_jesters_mvp.Worker.Run.{
  Input, Mode, Machine, Flow, goes_on, was_canceled, was_stopped, raised, items_to_process,
  run_rows, rows_after,
}
use jolly_jesters_mvp.Worker.Retry.{RetryInput, Retried, retry_pass}

-- The columns of `AnalysisRun` that the task writes, with the rows of the run.
pub record AnalysisRun (D : Type 0) : Type 0 where
  pub status : AnalysisStatus
  pub error_message : Option String
  pub processed_products : ℕ
  pub started_at : Option ℕ
  pub finished_at : Option ℕ
  pub items : List (Item D)
  pub retry_pass_attempted : ℕ
  pub retry_pass_recovered : ℕ

-- What the task meets besides the rows.
pub record TaskInput (D : Type 0) : Type 0 where
  pub mode : Mode
  pub started : ℕ
  pub ended : ℕ
  pub batch : ℕ → Input D
  pub canceled_before_retry : Bool
  pub retry : ℕ → RetryInput D
  pub canceled_at_end : Bool

module _ {D : Type 0} where
  abbrev pub fail_run : (now : ℕ) → String → AnalysisRun D → AnalysisRun D
  fail_run now message run = record run {
    status = AnalysisStatus.failed;
    error_message = some message;
    finished_at = some now;
  }

  -- The status, the message and the start that are committed before the loop.
  abbrev pub start_run : (now : ℕ) → AnalysisRun D → AnalysisRun D
  start_run now run = record run {
    status = AnalysisStatus.running;
    error_message = none;
    started_at = some now;
  }

  -- The last part: a run that was not canceled or stopped by now is completed.
  abbrev pub complete_run : TaskInput D → AnalysisRun D → AnalysisRun D
  complete_run input run =
      if input.canceled_at_end
      then record run { status = AnalysisStatus.canceled }
      else record run { status = AnalysisStatus.completed; finished_at = some input.ended }

module _ {D : Type 0} ⦃d : Decimal D⦄ (k : Settings D) (msg : Messages) (input : TaskInput D) where
  -- The retry pass, unless the run was canceled or reads the database only.
  abbrev pub retried_run : Category D → Machine D → AnalysisRun D → AnalysisRun D
  retried_run c m run =
      let r = retry_pass k c msg input.retry run.items m.db in
      if input.canceled_before_retry || input.mode.db_only_mode then run else record run {
        items = r.rows;
        retry_pass_attempted = r.attempted;
        retry_pass_recovered = r.recovered;
      }

  abbrev pub loop_left : Machine D → Flow → AnalysisRun D → AnalysisRun D
  loop_left m flow run = record run {
    processed_products = m.processed;
    items = rows_after (m, flow);
  }

  -- What follows the loop. An exception leaves the run in the status `running`.
  abbrev pub finish_run : Category D → Machine D × Flow → AnalysisRun D → AnalysisRun D
  finish_run c (m, goes_on) run = complete_run input (retried_run c m (loop_left m goes_on run))
  finish_run c (m, was_canceled) run = record (loop_left m was_canceled run) {
    status = AnalysisStatus.canceled;
  }
  finish_run c (m, was_stopped row v) run = record (loop_left m (was_stopped row v) run) {
    status = AnalysisStatus.stopped;
    finished_at = some input.ended;
  }
  finish_run c (m, raised) run = loop_left m raised run

  -- The loop and what follows it, for a run with rows that are not processed.
  abbrev pub work_through : Category D → Machine D → AnalysisRun D → AnalysisRun D
  work_through c m run =
      finish_run c (run_rows k c msg input.mode input.batch run.items m)
        (start_run input.started run)

  abbrev pub resume_run :
      Category D → Machine D → (to_process : List (Item D)) → AnalysisRun D → AnalysisRun D
  resume_run c m [] run = record run {
    status = AnalysisStatus.completed;
    processed_products = length run.items;
    finished_at = some input.ended;
  }
  resume_run c m (i ∷ is) run = work_through c m run

  abbrev pub check_items :
      Category D → Machine D → (items : List (Item D)) → AnalysisRun D → AnalysisRun D
  check_items c m [] run = fail_run input.started "Brak pozycji do analizy" run
  check_items c m (i ∷ is) run = resume_run c m (items_to_process (i ∷ is)) run

  abbrev pub check_category : Option (Category D) → Machine D → AnalysisRun D → AnalysisRun D
  check_category none m run = fail_run input.started "Kategoria nie zostala znaleziona" run
  check_category (some c) m run = check_items c m run.items run

  -- `run_analysis_task`
  unfoldable pub run_analysis_task :
      (locked : Bool)
      → Option (Category D)
      → Machine D
      → Option (AnalysisRun D)
      → Option (AnalysisRun D)
  run_analysis_task locked category m none = none
  run_analysis_task locked category m (some run) =
      if not locked || is_canceled run.status
      then some run
      else some (check_category category m run)
