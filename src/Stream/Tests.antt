-- ===== src/Stream/Tests.antt =====
-- A stream of two rounds, in which a row that was sent while it was pending gets its result.
use jolly_jesters_mvp.Prelude.{ℕ, ◌≤◌, false, none, some, List, [], ◌∷◌, countb, ◌≡◌, refl, arith}
use jolly_jesters_mvp.Enums.{AnalysisStatus, ScrapeStatus}
use jolly_jesters_mvp.Stream.{
  StampedItem, RunView, Poll, status_event, progress_event, done_event, row_event, new_stream,
  get_run_results_since, poll_round, event_generator,
}
use jolly_jesters_mvp.Stream.Query.{is_row}
use jolly_jesters_mvp.Stream.Once.{event_generator_at_most_once}

abbrev view : AnalysisStatus → (processed : ℕ) → RunView
view status processed = record {
  status = status;
  processed_products = processed;
  total_products = 1;
  error_message = none;
}

abbrev item : ScrapeStatus → (updated_at : ℕ) → StampedItem
item status updated_at = record {
  id = 4;
  scrape_status = status;
  error_message = none;
  updated_at = updated_at;
}

abbrev round : (now : ℕ) → RunView → StampedItem → Poll
round now r i = record { is_disconnected = false; now = now; run = some r; items = i ∷ [] }

abbrev rounds : List Poll
rounds =
    round 100 (view AnalysisStatus.running 0) (item ScrapeStatus.pending 50)
    ∷ round 300 (view AnalysisStatus.completed 1) (item ScrapeStatus.ok 200)
    ∷ []

-- The result of the row is not sent.
events_of_rounds :
    event_generator rounds (new_stream 100)
    ≡ status_event (view AnalysisStatus.running 0)
      ∷ progress_event (view AnalysisStatus.running 0)
      ∷ row_event 4 ScrapeStatus.pending
      ∷ status_event (view AnalysisStatus.completed 1)
      ∷ progress_event (view AnalysisStatus.completed 1)
      ∷ done_event (view AnalysisStatus.completed 1)
      ∷ []
unfolding event_generator poll_round get_run_results_since
events_of_rounds = refl

event_generator_at_most_once_example :
    countb (is_row 4) (event_generator rounds (new_stream 100)) ≤ 1
event_generator_at_most_once_example =
    event_generator_at_most_once 4 rounds (new_stream 100) (omega arith)
      (omega arith, (omega arith, tt))
