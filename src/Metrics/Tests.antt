-- ===== src/Metrics/Tests.antt =====
-- The metrics of three rows, of which two have a latency.
use jolly_jesters_mvp.Prelude.{ℕ, Option, none, some, List, [], ◌∷◌, ◌≡◌, refl}
use jolly_jesters_mvp.Enums.{ScrapeStatus}
use jolly_jesters_mvp.Metrics.{MeteredItem, get_run_metrics}

abbrev measured : ScrapeStatus → Option ℕ → MeteredItem
measured status latency = record {
  scrape_status = status;
  latency_ms = latency;
  captcha_solves = some 1;
  retries = none;
}

abbrev items : List MeteredItem
items =
    measured ScrapeStatus.ok (some 90)
    ∷ measured ScrapeStatus.blocked (some 40)
    ∷ measured ScrapeStatus.pending none
    ∷ []

median : (get_run_metrics items).p50_latency_ms ≡ some 90
unfolding get_run_metrics
median = refl
