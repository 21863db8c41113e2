-- ===== src/Worker/Apply.antt =====
-- What cached data and a scraper's result do to a row: `_apply_cached_market_data` and
-- `_apply_scraped_result` of backend/app/workers/tasks.py, with `_persist_market_data` and
-- `_update_effective_state` of backend/app/services/analysis_service.py.
pub mod Effects
use jolly_jesters_mvp.Prelude.{
  ℕ, suc, ◌+◌, Bool, true, false, not, ◌&&◌, Option, none, some, String, List, [], ◌∷◌, ◌++◌, ◌==◌,
  if◌then◌else◌, or_else,
}
use jolly_jesters_mvp.Prelude.Int.{ℤ, pos}
use jolly_jesters_mvp.Decimal.{Decimal, is_zero}
use jolly_jesters_mvp.Enums.{ProfitabilityLabel, AnalysisItemSource, ScrapeStatus}
use jolly_jesters_mvp.Profit.{Category, Settings, ProfitabilityEvaluation, evaluate_profitability}
use jolly_jesters_mvp.ProxyPool.{update_first}
use jolly_jesters_mvp.Worker.Rows.{
  AllegroResult, Item, MarketData, EffectiveState, Database, Metering,
}
use jolly_jesters_mvp.Worker.Cache.{extract_offer_count}

abbrev count_of : Option ℕ → Option ℤ
count_of none = none
count_of (some n) = some (pos n)

module _ {D : Type 0} where
  -- The five result columns.
  abbrev pub without_result : Item D → Item D
  without_result item = record item {
    allegro_price = none;
    allegro_sold_count = none;
    profitability_score = none;
    profitability_label = none;
  }

  abbrev pub with_result : Option D → Option ℤ → Option D → ProfitabilityLabel → Item D → Item D
  with_result price sold score label item = record item {
    allegro_price = price;
    allegro_sold_count = sold;
    profitability_score = score;
    profitability_label = some label;
  }

  -- `_persist_market_data`: a new row, never an update.
  unfoldable pub persist_market_data : (now product : ℕ) → AllegroResult D → Database D → Database D
  persist_market_data now product r db = record db {
    market =
        db.market
        ++ record {
          id = db.next_market_id;
          product_id = product;
          allegro_price = r.price;
          allegro_sold_count = r.sold_count;
          is_not_found = r.is_not_found;
          raw_payload = some r.raw_payload;
          last_checked_at = some (or_else r.scraped_at now);
        }
          ∷ [];
    next_market_id = db.next_market_id + 1;
  }

  -- `_update_effective_state`, with the market data row that was just written.
  unfoldable pub update_effective_state :
      (now product market_id : ℕ) → AllegroResult D → Item D → Database D → Database D
  update_effective_state now product market_id r item db = record db {
    states =
        update_first (λ s. s.product_id == product)
          (λ s. record s {
            last_market_data_id = some market_id;
            last_checked_at = some (or_else r.scraped_at now);
            is_not_found = r.is_not_found;
            profitability_score = item.profitability_score;
            profitability_label = item.profitability_label;
            updated_at = some now;
          })
          db.states;
  }

module _ {D : Type 0} ⦃d : Decimal D⦄ (k : Settings D) (c : Category D) where
  -- `item.purchase_price_pln or item.input_purchase_price`
  abbrev pub purchase_price_of : Item D → Option D
  purchase_price_of item = elim item.purchase_price_pln [
    | none ↦ item.input_purchase_price
    | some p ↦ if is_zero p then item.input_purchase_price else some p
  ]

  -- `_apply_cached_market_data`
  unfoldable pub apply_cached_market_data : Item D → Option (MarketData D) → Item D
  apply_cached_market_data item none = record (without_result item) {
    source = AnalysisItemSource.error;
    scrape_status = ScrapeStatus.error;
    error_message = some "missing_cached_data";
  }
  apply_cached_market_data item (some m) =
      if m.is_not_found
      then record (without_result item) {
        source = AnalysisItemSource.baza;
        scrape_status = ScrapeStatus.not_found;
        error_message = none;
      }
      else (let e =
            evaluate_profitability k c (purchase_price_of item) m.allegro_price m.allegro_sold_count
              (count_of (extract_offer_count m.raw_payload)) in
          record (with_result m.allegro_price m.allegro_sold_count e.score e.label item) {
            source = AnalysisItemSource.baza;
            scrape_status = ScrapeStatus.ok;
            error_message = none;
          })

  -- A temporary error that is no "not found": the row keeps the error and the metering.
  abbrev pub apply_temporary_error : AllegroResult D → Item D → Item D
  apply_temporary_error r item = record (without_result item) {
    source = AnalysisItemSource.error;
    scrape_status = ScrapeStatus.network_error;
    error_message = some (or_else r.error "temporary_error");
    metering = r.metering;
  }

  -- The row's part of the other branch, up to the metering.
  abbrev pub apply_final : AllegroResult D → Item D → Item D
  apply_final r item =
      if r.is_not_found
      then record (without_result item) {
        source = AnalysisItemSource.not_found;
        scrape_status = ScrapeStatus.not_found;
        error_message = r.error;
        metering = r.metering;
      }
      else (let e =
            evaluate_profitability k c (purchase_price_of item) r.price r.sold_count
              (some (pos r.products)) in
          record (with_result r.price r.sold_count e.score e.label item) {
            source = AnalysisItemSource.scraping;
            scrape_status = ScrapeStatus.ok;
            error_message = r.error;
            metering = r.metering;
          })

  -- `_apply_scraped_result`
  unfoldable pub apply_scraped_result :
      (now product : ℕ) → AllegroResult D → Item D × Database D → Item D × Database D
  apply_scraped_result now product r (item, db) =
      if r.is_temporary_error && not r.is_not_found
      then (apply_temporary_error r item, db)
      else (let item' = apply_final r item in
          (
            item',
            update_effective_state now product db.next_market_id r item'
                (persist_market_data now product r db),
          ))
