-- ===== src/Worker/Fetch/Errors.antt =====
-- What an error result does to a row and to the cache.
use jolly_jesters_mvp.Prelude.{ℕ, ◌+◌, ◌*◌, ◌≤◌, ◌<◌, false, none, some, String, ◌≡◌, refl, arith}
use jolly_jesters_mvp.Decimal.{Decimal}
use jolly_jesters_mvp.Enums.{ScrapeStatus}
use jolly_jesters_mvp.Profit.{Category, Settings}
use jolly_jesters_mvp.StopLoss.{is_error_status}
use jolly_jesters_mvp.Worker.Rows.{Item, MarketData, EffectiveState, Database, state_of, latest_of}
use jolly_jesters_mvp.Worker.Cache.{day, should_fetch_from_scraper}
use jolly_jesters_mvp.Worker.Apply.{apply_scraped_result}
use jolly_jesters_mvp.Worker.Apply.Effects.{
  Numbered, row_of, latest_of-stored, apply_scraped_result-stored,
}
use jolly_jesters_mvp.Worker.Fetch.{error_result}

-- The result that stands for an open breaker or an exception gives a row without a price, with the
-- status `ok` that the guard does not count as an error, and is stored as the product's latest market
-- data: within `cache_days` the scraper is not asked for that product again.
pub error_result_is_cached :
    {D : Type 0} ⦃d : Decimal D⦄ (k : Settings D) (c : Category D)
    (now later cache_days product : ℕ) (ean error : String) (item : Item D) (db : Database D)
    (s : EffectiveState D)
    → Numbered db
    → state_of product db ≡ some s
    → 0 < cache_days
    → later ≤ now + cache_days * day
    → let after = apply_scraped_result k c now product (error_result ean error) (item, db) in
      (after.0.scrape_status ≡ ScrapeStatus.ok)
      × (is_error_status after.0.scrape_status ≡ false)
      × (after.0.allegro_price ≡ none)
      × ((m : MarketData D) × (latest_of product after.1 ≡ some m)
          × (m.allegro_price ≡ none)
          × (should_fetch_from_scraper false (some m) cache_days later ≡ false))
unfolding error_result should_fetch_from_scraper
error_result_is_cached k c now later cache_days product ean error item db s numbered e days soon =
    let r = error_result ean error in
    rw (apply_scraped_result-stored k c now product r item db refl) (
      refl,
      refl,
      refl,
      (
        row_of now product r db.next_market_id,
        latest_of-stored k c now product r item db s numbered e,
        refl,
        ground arith,
      ),
    )
