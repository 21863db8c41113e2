-- ===== src/Worklist/Tests.antt =====
-- A category with three candidates, of which one was checked long ago.
use jolly_jesters_mvp.Prelude.{ℕ, ◌*◌, true, false, some, String, List, [], ◌∷◌, All, ◌≡◌, refl}
use jolly_jesters_mvp.Prelude.Int.{ℤ, pos}
use jolly_jesters_mvp.Enums.{MarketDataSource}
use jolly_jesters_mvp.Import.Tests.{ascii}
use jolly_jesters_mvp.Runs.{Limits}
use jolly_jesters_mvp.Worklist.{Candidate, one_day, build_cached_worklist}
use jolly_jesters_mvp.Worklist.Eligible.{Lists, build_cached_worklist-Lists}
use jolly_jesters_mvp.Worklist.Start.{Desk}
use jolly_jesters_mvp.Worklist.Refresh.{
  IsFreshRun, refresh_filter, refresh_stale_products, refresh_stale_products-IsFreshRun,
}

abbrev candidate : (id : ℕ) (ean : String) (checked : ℕ) → Candidate ℤ
candidate id ean checked = record {
  product = record { id = id; category_id = 7; ean = ean; name = "n"; purchase_price = pos 100 };
  created_at = id;
  updated_at = checked;
  last_data = some (record {
    source = MarketDataSource.scraping;
    allegro_price = some (pos 200);
    is_not_found = false;
    last_checked_at = some checked;
  });
}

abbrev candidates : List (Candidate ℤ)
candidates =
    candidate 1 "11111111" (100 * one_day)
    ∷ candidate 2 "22222222" (50 * one_day)
    ∷ candidate 3 "33333333" (99 * one_day)
    ∷ []

abbrev desk : Desk ℤ
desk = record {
  categories = record { id = 7; is_active = true } ∷ [];
  candidates = candidates;
  tables = record { runs = []; tasks = [] };
  prepared = [];
  next_run_id = 1;
  next_item_id = 1;
}

abbrev limits : Limits
limits = record { concurrency_global_max = 5; concurrency_per_user = 2 }

abbrev now : ℕ
now = 101 * one_day

worklist_of_week :
    build_cached_worklist ascii now 7 (refresh_filter 7 10) candidates
    ≡ some (candidate 1 "11111111" (100 * one_day) ∷ candidate 3 "33333333" (99 * one_day) ∷ [])
unfolding build_cached_worklist
worklist_of_week = refl

build_cached_worklist-Lists_example :
    Lists ascii now 7
      (refresh_filter 7 10)
      candidates
      (candidate 1 "11111111" (100 * one_day) ∷ candidate 3 "33333333" (99 * one_day) ∷ [])
build_cached_worklist-Lists_example =
    build_cached_worklist-Lists ascii now 7 (refresh_filter 7 10) candidates _ worklist_of_week

refresh_stale_products-IsFreshRun_example :
    All
      (IsFreshRun ascii 7 10 now (λ id. some "task") desk.candidates)
      (refresh_stale_products ascii 7 10 now (λ id. some "task") desk).0.prepared
refresh_stale_products-IsFreshRun_example =
    refresh_stale_products-IsFreshRun ascii 7 10 now (λ id. some "task") desk tt
