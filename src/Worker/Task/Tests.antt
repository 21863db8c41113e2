-- ===== src/Worker/Task/Tests.antt =====
-- The run of three rows from start to end, and a retry of a row with a network error.
use jolly_jesters_mvp.Prelude.{ℕ, true, false, not, ◌||◌, Option, none, some, List, ◌∷◌, ◌≡◌}
use jolly_jesters_mvp.Prelude.Int.{ℤ}
use jolly_jesters_mvp.Decimal.Scaled.{scaled}
use jolly_jesters_mvp.Enums.{AnalysisStatus, ScrapeStatus, is_canceled}
use jolly_jesters_mvp.Profit.{Category}
use jolly_jesters_mvp.Worker.Rows.{Item}
use jolly_jesters_mvp.Worker.Retry.{RetryInput}
use jolly_jesters_mvp.Worker.Task.{AnalysisRun, TaskInput, run_analysis_task}
use jolly_jesters_mvp.Worker.Task.Outcome.{Settles, run_analysis_task_outcome}
use jolly_jesters_mvp.Worker.Tests.{settings, category, item, messages, fetch}
use jolly_jesters_mvp.Worker.Run.Tests.{rows, mode, inputs, machine}

abbrev again : ℕ → RetryInput ℤ
again i = record { canceled = false; now = 200; raises = false; fetch = fetch }

abbrev unreachable : List (Item ℤ)
unreachable = record item { scrape_status = ScrapeStatus.network_error } ∷ rows

abbrev pub run : AnalysisRun ℤ
run = record {
  status = AnalysisStatus.pending;
  error_message = none;
  processed_products = 0;
  started_at = none;
  finished_at = none;
  items = rows;
  retry_pass_attempted = 0;
  retry_pass_recovered = 0;
}

abbrev pub input : TaskInput ℤ
input = record {
  mode = mode;
  started = 90;
  ended = 300;
  batch = inputs;
  canceled_before_retry = false;
  retry = again;
  canceled_at_end = false;
}

run_analysis_task_outcome_example :
    let result =
      run_analysis_task settings messages input true (some category) machine (some run) in
    ((not true || is_canceled run.status) ≡ true → result ≡ some run)
    × ((not true || is_canceled run.status) ≡ false
        → (after : AnalysisRun ℤ) × (result ≡ some after)
          × (◌≡◌ {A = Option (Category ℤ)} (some category) none
              → (after.status ≡ AnalysisStatus.failed) × (after.items ≡ rows))
          × ((c : Category ℤ)
              → some category ≡ some c
              → Settles settings messages input c machine run after))
run_analysis_task_outcome_example =
    run_analysis_task_outcome settings messages input true (some category) machine run
