-- ===== src/StopLoss/Tests.antt =====
-- Runs of the guard on small inputs.
use jolly_jesters_mvp.Prelude.{ℕ, ◌≡◌, refl, true, false, List, [], ◌∷◌, arith}
use jolly_jesters_mvp.Enums.{ScrapeStatus}
use jolly_jesters_mvp.StopLoss.{
  StopLossConfig, consecutive_errors, error_rate, Details, rate, StopLossChecker, Observation,
  entry_of, new_checker, observe, stop, verdict, zero_division, judge, judge_rates, record_item,
  record_items,
}
use jolly_jesters_mvp.StopLoss.Verdict.{Explains, record_item-Explains}
use jolly_jesters_mvp.StopLoss.Window.{Tracks, entries, new_checker-Tracks}
use jolly_jesters_mvp.StopLoss.Streak.{errors_in_a_row_stop}

abbrev config : StopLossConfig
config = record {
  enabled = true;
  window_size = 2;
  max_error_rate = 5000;
  max_captcha_rate = 8000;
  max_consecutive_errors = 3;
  max_retry_rate = 500;
  max_blocked_rate = 1000;
  max_cost_per_1000 = 1000;
}

abbrev seen : ScrapeStatus → Observation
seen s = record { scrape_status = s; captcha_solves = 0; retries = 0; is_blocked = false; cost = 0 }

abbrev items : List (ℕ × Observation)
items = (1, seen ScrapeStatus.ok) ∷ (2, seen ScrapeStatus.error) ∷ (3, seen ScrapeStatus.error) ∷ []

abbrev after : StopLossChecker
after = record {
  config = config;
  window = entry_of (seen ScrapeStatus.ok) ∷ entry_of (seen ScrapeStatus.error) ∷ [];
  consecutive_errors = 1;
}

judge-after :
    (record_item 3 (seen ScrapeStatus.error) after).1 ≡ verdict (stop error_rate (rate 2 5000 2 3))
unfolding record_item judge judge_rates
judge-after = refl

empty_window :
    (record_item 1 (seen ScrapeStatus.ok) (new_checker (record config { window_size = 0 }))).1
    ≡ zero_division
unfolding record_item judge
empty_window = refl

record_item-Explains_example :
    let (c', j) = record_item 3 (seen ScrapeStatus.error) after in
    (c' ≡ observe (entry_of (seen ScrapeStatus.error)) after) × Explains j c'
record_item-Explains_example = record_item-Explains 3 (seen ScrapeStatus.error) after refl

new_checker-Tracks_example : Tracks config (entries items) (record_items items (new_checker config))
new_checker-Tracks_example = new_checker-Tracks config items refl

abbrev disabled : StopLossChecker
disabled = new_checker (record config { enabled = false })

errors_in_a_row_stop_example :
    (d : Details) × ((record_item 9
        (seen ScrapeStatus.blocked)
        (record_items ((4, seen ScrapeStatus.error) ∷ (5, seen ScrapeStatus.error) ∷ []) after)).1
      ≡ verdict (stop consecutive_errors d))
errors_in_a_row_stop_example =
    errors_in_a_row_stop after ((4, seen ScrapeStatus.error) ∷ (5, seen ScrapeStatus.error) ∷ []) 9
      (seen ScrapeStatus.blocked) refl (refl, (refl, tt)) refl (omega arith)
