-- ===== src/Worker/Tests.antt =====
-- A small table, a result and a batch, with prices in hundredths.
use jolly_jesters_mvp.Prelude.{
  ℕ, ◌+◌, true, false, none, some, String, List, [], ◌∷◌, ◌++◌, All, ◌≡◌, ◌≢◌, refl, arith,
}
use jolly_jesters_mvp.Prelude.Int.{ℤ, pos}
use jolly_jesters_mvp.Decimal.Scaled.{scaled}
use jolly_jesters_mvp.Enums.{AnalysisItemSource, ScrapeStatus}
use jolly_jesters_mvp.Profit.{Category, Settings}
use jolly_jesters_mvp.Json.{null, object, array, field, cons, nil, end}
use jolly_jesters_mvp.Breaker.{CircuitBreaker, opened, new_breaker, is_open}
use jolly_jesters_mvp.StopLoss.{StopLossConfig, is_error_status, new_checker}
use jolly_jesters_mvp.Worker.Rows.{
  AllegroResult, Item, MarketData, EffectiveState, Database, no_metering, new_state, state_of,
  latest_of,
}
use jolly_jesters_mvp.Worker.Cache.{should_fetch_from_scraper}
use jolly_jesters_mvp.Worker.Apply.{apply_scraped_result}
use jolly_jesters_mvp.Worker.Apply.Effects.{
  Numbered, row_of, is_transient, apply_scraped_result_effects,
}
use jolly_jesters_mvp.Worker.Fetch.{
  Fetched, answered, Messages, Cache, Round, error_result, get_or_fetch_batch, fetch_batch,
}
use jolly_jesters_mvp.Worker.Fetch.Complete.{
  Has, get_or_fetch_batch-Has, fetch_batch-results, is_open_first, is_open_again,
}
use jolly_jesters_mvp.Worker.Fetch.Errors.{error_result_is_cached}
use jolly_jesters_mvp.Worker.Batch.{db_only, scraped, Work, Loop, apply_results}
use jolly_jesters_mvp.Worker.Batch.Outcome.{Tracks, apply_results-Tracks}

abbrev pub settings : Settings ℤ
settings = record {
  profitability_min_profit_pln = pos 1500;
  profitability_min_sales = pos 3;
  profitability_max_competition = pos 50;
  eur_to_pln_rate = pos 420;
  smart_delivery_cost_pln = pos 500;
  default_vat_rate = pos 23;
}

abbrev pub category : Category ℤ
category = record {
  commission_rate = some (pos 10);
  vat_rate = none;
  profitability_multiplier = pos 150;
}

abbrev pub item : Item ℤ
item = record {
  id = 1;
  row_number = 1;
  product_id = some 7;
  ean = "590";
  purchase_price_pln = some (pos 2000);
  input_purchase_price = none;
  source = AnalysisItemSource.scraping;
  scrape_status = ScrapeStatus.pending;
  error_message = none;
  allegro_price = none;
  allegro_sold_count = none;
  profitability_score = none;
  profitability_label = none;
  metering = no_metering;
}

abbrev pub result : AllegroResult ℤ
result = record {
  ean = "590";
  products = 1;
  price = some (pos 24600);
  sold_count = some (pos 9);
  is_not_found = false;
  is_temporary_error = false;
  raw_payload = object (field "products" (array (cons null nil)) end);
  error = none;
  scraped_at = none;
  proxy_url_hash = some "a";
  proxy_success = some true;
  metering = no_metering;
}

abbrev pub state : EffectiveState ℤ
state = new_state 7

abbrev pub db : Database ℤ
db = record {
  products = 7 ∷ [];
  states = state ∷ [];
  market = [];
  next_market_id = 1;
  proxies = [];
}

abbrev market : MarketData ℤ
market = row_of 100 7 result 1

abbrev after : Item ℤ × Database ℤ
after = apply_scraped_result settings category 100 7 result (item, db)

apply_scraped_result_effects_example :
    (is_transient settings category 100 7 result item db ≡ true
      → (after.1 ≡ db)
        × (after.0.scrape_status ≡ ScrapeStatus.network_error)
        × (after.0.profitability_label ≡ none))
    × (is_transient settings category 100 7 result item db ≡ false
        → (latest_of 7 after.1 ≡ some market)
          × (after.1.market ≡ [] ++ market ∷ [])
          × Numbered after.1
          × ((s' : EffectiveState ℤ) × (state_of 7 after.1 ≡ some s')
              × (s'.profitability_score ≡ after.0.profitability_score)
              × (s'.profitability_label ≡ after.0.profitability_label)
              × (s'.is_not_found ≡ false)))
apply_scraped_result_effects_example =
    apply_scraped_result_effects settings category 100 7 result item db state tt refl

error_result_is_cached_example :
    let after =
      apply_scraped_result settings category 100 7
        (error_result "590" "circuit_breaker_open")
        (item, db) in
    (after.0.scrape_status ≡ ScrapeStatus.ok)
    × (is_error_status after.0.scrape_status ≡ false)
    × (after.0.allegro_price ≡ none)
    × ((m : MarketData ℤ) × (latest_of 7 after.1 ≡ some m)
        × (m.allegro_price ≡ none)
        × (should_fetch_from_scraper false (some m) 30 200 ≡ false))
error_result_is_cached_example =
    error_result_is_cached settings category 100 200 30 7 "590" "circuit_breaker_open" item db state
      tt refl (omega arith) (omega arith)

abbrev pub messages : Messages
messages = record { unexpected = λ cls. cls }

abbrev pub fetch : ℕ → String → Fetched ℤ
fetch i ean = answered result

abbrev pub eans : List String
eans = "590" ∷ "591" ∷ "590" ∷ []

get_or_fetch_batch-Has_example :
    (d : Cache ℤ) × ((get_or_fetch_batch messages fetch eans []).1 ≡ some d) × All (Has d) eans
get_or_fetch_batch-Has_example = get_or_fetch_batch-Has messages fetch eans []

-- The breaker has tripped at 0, and its minute ends between the two questions.
abbrev tripped : CircuitBreaker
tripped = record (new_breaker 10 60) { failure_count = 10; state = opened }

abbrev pub round : Round ℤ
round = record {
  probe_at = 59;
  reprobe_at = 60;
  done_at = 61;
  batch_exception = none;
  fetch = fetch;
}

some_ean : eans ≢ []
some_ean e = ground arith

fetch_batch-results_example :
    let results = (fetch_batch messages round eans [] tripped 0).results in
    (is_open_first messages round eans [] tripped 0 ≡ false → All (Has results) eans)
    × (is_open_again messages round eans [] tripped 0 ≡ true → All (Has results) eans)
    × (is_open_first messages round eans [] tripped 0 ≡ true
        → is_open_again messages round eans [] tripped 0 ≡ false
        → results ≡ [])
fetch_batch-results_example = fetch_batch-results messages round eans [] tripped 0 some_ean

open_then_half_open :
    (is_open_first messages round eans [] tripped 0 ≡ true)
    × (is_open_again messages round eans [] tripped 0 ≡ false)
unfolding is_open
open_then_half_open = (refl, refl)

abbrev pub config : StopLossConfig
config = record {
  enabled = true;
  window_size = 2;
  max_error_rate = 5000;
  max_captcha_rate = 8000;
  max_consecutive_errors = 3;
  max_retry_rate = 500;
  max_blocked_rate = 1000;
  max_cost_per_1000 = 1000;
}

abbrev work : List (Work ℤ)
work =
    record { item = item; task = db_only none }
    ∷ record { item = record item { id = 2; row_number = 2 }; task = scraped 7 (some result) }
    ∷ []

abbrev loop : Loop ℤ
loop = record { db = db; guard = new_checker config; processed = 0; finished = [] }

abbrev pub clock : ℕ → ℕ
clock row = 100 + row

apply_results-Tracks_example :
    Tracks settings category clock 60 work loop (apply_results settings category clock 60 work loop)
apply_results-Tracks_example = apply_results-Tracks settings category clock 60 work loop
