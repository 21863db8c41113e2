-- ===== src/Worker/Rows.antt =====
-- The rows and the results that the worker handles: backend/app/models/analysis_run_item.py,
-- product_effective_state.py, product_market_data.py and backend/app/services/schemas.py.
-- Identifiers are numbers, moments whole microseconds, `total_cost_usd` a whole number of some unit.
use jolly_jesters_mvp.Prelude.{
  ℕ, Bool, false, Option, none, some, String, List, [], ◌∷◌, ◌++◌, ◌==◌, findb,
}
use jolly_jesters_mvp.Prelude.Int.{ℤ}
use jolly_jesters_mvp.Enums.{ProfitabilityLabel, AnalysisItemSource, ScrapeStatus}
use jolly_jesters_mvp.Json.{Json}
use jolly_jesters_mvp.ProxyPool.{NetworkProxy}

-- The metering and fallback fields that a result hands to its row; `latency_ms` is the result's
-- `duration_ms`.
pub record Metering : Type 0 where
  pub latency_ms : Option ℕ
  pub captcha_solves : Option ℕ
  pub retries : Option ℕ
  pub attempts : Option ℕ
  pub strategy : Option String
  pub fallback_level : Option ℕ
  pub proxy_type : Option String
  pub antidetect_tool : Option String
  pub session_id : Option String
  pub cost_breakdown : Option Json
  pub total_cost_usd : Option ℕ
  pub browser_runtime_ms : Option ℕ

abbrev pub no_metering : Metering
no_metering = record {
  latency_ms = none;
  captcha_solves = none;
  retries = none;
  attempts = none;
  strategy = none;
  fallback_level = none;
  proxy_type = none;
  antidetect_tool = none;
  session_id = none;
  cost_breakdown = none;
  total_cost_usd = none;
  browser_runtime_ms = none;
}

-- `AllegroResult`; of the products only their number is read.
pub record AllegroResult (D : Type 0) : Type 0 where
  pub ean : String
  pub products : ℕ
  pub price : Option D
  pub sold_count : Option ℤ
  pub is_not_found : Bool
  pub is_temporary_error : Bool
  pub raw_payload : Json
  pub error : Option String
  pub scraped_at : Option ℕ
  pub proxy_url_hash : Option String
  pub proxy_success : Option Bool
  pub metering : Metering

-- `AnalysisRunItem`
pub record Item (D : Type 0) : Type 0 where
  pub id : ℕ
  pub row_number : ℕ
  pub product_id : Option ℕ
  pub ean : String
  pub purchase_price_pln : Option D
  pub input_purchase_price : Option D
  pub source : AnalysisItemSource
  pub scrape_status : ScrapeStatus
  pub error_message : Option String
  pub allegro_price : Option D
  pub allegro_sold_count : Option ℤ
  pub profitability_score : Option D
  pub profitability_label : Option ProfitabilityLabel
  pub metering : Metering

-- `ProductMarketData`
pub record MarketData (D : Type 0) : Type 0 where
  pub id : ℕ
  pub product_id : ℕ
  pub allegro_price : Option D
  pub allegro_sold_count : Option ℤ
  pub is_not_found : Bool
  pub raw_payload : Option Json
  pub last_checked_at : Option ℕ

-- `ProductEffectiveState`
pub record EffectiveState (D : Type 0) : Type 0 where
  pub product_id : ℕ
  pub last_market_data_id : Option ℕ
  pub last_checked_at : Option ℕ
  pub is_not_found : Bool
  pub profitability_score : Option D
  pub profitability_label : Option ProfitabilityLabel
  pub updated_at : Option ℕ

-- The tables that the worker writes besides its own items.
pub record Database (D : Type 0) : Type 0 where
  pub products : List ℕ
  pub states : List (EffectiveState D)
  pub market : List (MarketData D)
  pub next_market_id : ℕ
  pub proxies : List NetworkProxy

module _ {D : Type 0} where
  -- `product.effective_state`
  abbrev pub state_of : ℕ → Database D → Option (EffectiveState D)
  state_of product db = findb (λ s. s.product_id == product) db.states

  abbrev pub market_row : ℕ → Database D → Option (MarketData D)
  market_row id db = findb (λ m. m.id == id) db.market

  -- `state.last_market_data`
  abbrev pub last_market_data : EffectiveState D → Database D → Option (MarketData D)
  last_market_data s db = elim s.last_market_data_id [ none ↦ none | some id ↦ market_row id db ]

  -- `product.effective_state.last_market_data`
  abbrev pub latest_of : ℕ → Database D → Option (MarketData D)
  latest_of product db = elim (state_of product db) [ none ↦ none | some s ↦ last_market_data s db ]

  abbrev pub new_state : ℕ → EffectiveState D
  new_state product = record {
    product_id = product;
    last_market_data_id = none;
    last_checked_at = none;
    is_not_found = false;
    profitability_score = none;
    profitability_label = none;
    updated_at = none;
  }

  -- `_ensure_product_state`
  unfoldable pub ensure_product_state : ℕ → Database D → Database D
  ensure_product_state product db = elim (state_of product db) [
    | none ↦ record db { states = db.states ++ new_state product ∷ [] }
    | some s ↦ db
  ]
