-- ===== src/Worker/Run/Tests.antt =====
-- A run of three rows, one of them processed before.
use jolly_jesters_mvp.Prelude.{ℕ, Bool, true, false, List, [], ◌∷◌, All, none, ◌≡◌, ◌≢◌}
use jolly_jesters_mvp.Prelude.Int.{ℤ}
use jolly_jesters_mvp.Decimal.Scaled.{scaled}
use jolly_jesters_mvp.Enums.{ScrapeStatus}
use jolly_jesters_mvp.Breaker.{new_breaker}
use jolly_jesters_mvp.StopLoss.{StopLossVerdict, new_checker}
use jolly_jesters_mvp.Worker.Rows.{Item}
use jolly_jesters_mvp.Worker.Batch.Outcome.{IsProcessed}
use jolly_jesters_mvp.Worker.Run.{Input, Mode, Machine, goes_on, was_stopped, raised, rows_after}
use jolly_jesters_mvp.Worker.Run.Rows.{tally}
use jolly_jesters_mvp.Worker.Run.Whole.{IsNotPending, ended, run_rows_outcome}
use jolly_jesters_mvp.Worker.Tests.{settings, category, item, db, messages, round, config, clock}

abbrev pub rows : List (Item ℤ)
rows =
    record item { scrape_status = ScrapeStatus.ok }
    ∷ record item { id = 2; row_number = 2; product_id = none }
    ∷ record item { id = 3; row_number = 3 }
    ∷ []

abbrev pub mode : Mode
mode = record { db_only_mode = true; cache_days = 30; quarantine_ttl = 60 }

abbrev pub inputs : ℕ → Input ℤ
inputs i = record { canceled = false; now = 100; clock = clock; round = round }

abbrev pub machine : Machine ℤ
machine = record {
  db = db;
  guard = new_checker config;
  breaker = new_breaker 10 60;
  cache = [];
  processed = 0;
  requests = 0;
  finished = [];
  left = [];
}

run_rows_outcome_example :
    let after = ended settings category messages mode inputs rows machine in
    (after.1 ≢ raised → (p : ℕ → Bool) → tally p (rows_after after) ≡ tally p rows)
    × (after.1 ≡ goes_on → All IsProcessed (rows_after after) × (after.0.processed ≡ 3))
    × ((row : ℕ) (v : StopLossVerdict)
        → after.1 ≡ was_stopped row v
        → All IsNotPending (rows_after after))
run_rows_outcome_example = run_rows_outcome settings category messages mode inputs rows machine
