-- ===== src/Worklist.antt =====
-- The work list of a run over stored data: `build_cached_worklist` and `prepare_cached_analysis_run` of
-- backend/app/services/analysis_service.py. Moments are whole microseconds; a candidate is a row of the
-- query's outer joins: a product with the market data that its effective state names.
pub mod Eligible
pub mod Members
pub mod Start
pub mod Refresh
mod Tests
use jolly_jesters_mvp.Prelude.{
  ℕ, zero, suc, ◌+◌, ◌*◌, Bool, true, false, not, ◌&&◌, ◌||◌, Option, none, some, String, List, [],
  ◌∷◌, length, take, filterb, anyb, ◌==◌, leb, ltb, is_some, if◌then◌else◌, string_eq,
}
use jolly_jesters_mvp.Prelude.Sort.{sort_by}
use jolly_jesters_mvp.Enums.{
  AnalysisStatus, AnalysisItemSource, ScrapeStatus, MarketDataSource, is_source,
}
use jolly_jesters_mvp.Worker.Rows.{Item, no_metering}
use jolly_jesters_mvp.Import.Text.{Unicode, is_empty, is_in, contains, strip, without}
use jolly_jesters_mvp.Import.Rows.{Product}
use jolly_jesters_mvp.Runs.{RunRow}

-- `ProductMarketData`, the columns that the query reads.
pub record LastData (D : Type 0) : Type 0 where
  pub source : MarketDataSource
  pub allegro_price : Option D
  pub is_not_found : Bool
  pub last_checked_at : Option ℕ

pub record Candidate (D : Type 0) : Type 0 where
  pub product : Product D
  pub created_at : ℕ
  pub updated_at : ℕ
  pub last_data : Option (LastData D)

-- The arguments of `build_cached_worklist` besides the category.
pub record CacheFilter : Type 0 where
  pub cache_days : Option ℕ
  pub include_all_cached : Bool
  pub only_with_data : Bool
  pub limit : Option ℕ
  pub source : Option String
  pub ean_contains : Option String

abbrev pub one_day : ℕ
one_day = 24 * 60 * 60 * 1000000

-- `cache_days if cache_days is not None and cache_days > 0 else 30`
abbrev pub days_or_30 : Option ℕ → ℕ
days_or_30 none = 30
days_or_30 (some n) = if ltb 0 n then n else 30

-- `_resolve_cached_cutoff`, as the span before the present that it leaves.
abbrev pub resolve_cached_cutoff : (cache_days : Option ℕ) → (include_all_cached : Bool) → Option ℕ
resolve_cached_cutoff cache_days include_all_cached =
    if include_all_cached then none else some (days_or_30 cache_days * one_day)

-- What the source filter asks for: nothing, a source, or a text that is none.
pub data SourceFilter : Type 0 where
  any_source : SourceFilter
  only : MarketDataSource → SourceFilter
  invalid_source : SourceFilter

abbrev pub source_named : (normalized : String) → SourceFilter
source_named s =
    if is_in ("any" ∷ "all" ∷ []) s
    then any_source
    else if string_eq.beq s "scraping"
    then only MarketDataSource.scraping
    else if string_eq.beq s "api"
    then only MarketDataSource.api
    else invalid_source

abbrev pub resolve_source : Unicode → Option String → SourceFilter
resolve_source u none = any_source
resolve_source u (some s) = if is_empty s then any_source else source_named (u.lower (strip u s))

abbrev pub safe_ean : Unicode → Option String → String
safe_ean u none = ""
safe_ean u (some s) = without ("%" ∷ "_" ∷ "\\" ∷ []) (strip u s)

module _ {D : Type 0} where
  -- A condition on the market data of a candidate, which fails where there is none.
  abbrev pub data_holds : (LastData D → Bool) → Candidate D → Bool
  data_holds p c = elim c.last_data [ none ↦ false | some m ↦ p m ]

  abbrev pub is_since : (now span : ℕ) → LastData D → Bool
  is_since now span m = elim m.last_checked_at [ none ↦ false | some at ↦ leb now (at + span) ]

  abbrev pub has_data : LastData D → Bool
  has_data m = not m.is_not_found && is_some m.allegro_price

  abbrev pub filter_category : (category : ℕ) → List (Candidate D) → List (Candidate D)
  filter_category category cs =
      filterb (λ c. c.product.category_id == category && data_holds (λ m. true) c) cs

  abbrev pub filter_since : (now : ℕ) → (span : Option ℕ) → List (Candidate D) → List (Candidate D)
  filter_since now none cs = cs
  filter_since now (some span) cs = filterb (data_holds (is_since now span)) cs

  abbrev pub filter_data : (only_with_data : Bool) → List (Candidate D) → List (Candidate D)
  filter_data only_with_data cs = if only_with_data then filterb (data_holds has_data) cs else cs

  abbrev pub filter_source : SourceFilter → List (Candidate D) → Option (List (Candidate D))
  filter_source any_source cs = some cs
  filter_source (only s) cs = some (filterb (data_holds (λ m. is_source m.source s)) cs)
  filter_source invalid_source cs = none

  abbrev pub filter_ean : (safe_ean : String) → List (Candidate D) → List (Candidate D)
  filter_ean safe cs = if is_empty safe then cs else filterb (λ c. contains safe c.product.ean) cs

  -- `coalesce(last_checked_at, updated_at)`
  abbrev pub checked_or_updated : Candidate D → ℕ
  checked_or_updated c = elim c.last_data [
    | none ↦ c.updated_at
    | some m ↦ elim m.last_checked_at [ none ↦ c.updated_at | some at ↦ at ]
  ]

  -- The order of the query: the newest check first, and then the newest product.
  abbrev pub is_listed_before : Candidate D → Candidate D → Bool
  is_listed_before c e =
      ltb (checked_or_updated e) (checked_or_updated c)
      || (checked_or_updated e == checked_or_updated c && leb e.created_at c.created_at)

  abbrev pub limit_to : (limit : Option ℕ) → List (Candidate D) → List (Candidate D)
  limit_to none cs = cs
  limit_to (some n) cs = if ltb 0 n then take n cs else cs

  abbrev pub is_seen : (seen : List String) → Candidate D → Bool
  is_seen seen c = anyb (λ e. string_eq.beq e c.product.ean) seen

  -- The loop that drops repeated EANs.
  abbrev pub dedupe_from : (seen : List String) → List (Candidate D) → List (Candidate D)
  dedupe_from seen [] = []
  dedupe_from seen (c ∷ cs) =
      let rest = dedupe_from (c.product.ean ∷ seen) cs in
      if is_seen seen c then dedupe_from seen cs else c ∷ rest

  abbrev pub finish_list :
      (limit : Option ℕ) → (safe : String) → List (Candidate D) → List (Candidate D)
  finish_list limit safe cs =
      dedupe_from [] (limit_to limit (sort_by is_listed_before (filter_ean safe cs)))

  -- `build_cached_worklist`: `none` for the ValueError of a wrong source.
  unfoldable pub build_cached_worklist :
      Unicode → (now category : ℕ) → CacheFilter → List (Candidate D) → Option (List (Candidate D))
  build_cached_worklist u now category f cs =
      let span = resolve_cached_cutoff f.cache_days f.include_all_cached in
      let base =
        filter_data f.only_with_data (filter_since now span (filter_category category cs)) in
      elim (filter_source (resolve_source u f.source) base) [
        | none ↦ none
        | some rows ↦ some (finish_list f.limit (safe_ean u f.ean_contains) rows)
      ]

-- A run over stored data with its rows.
pub record CachedRun (D : Type 0) : Type 0 where
  pub run : RunRow
  pub mode : String
  pub input_source : String
  pub items : List (Item D)

module _ {D : Type 0} where
  abbrev pub cached_item : (id row_number : ℕ) → Product D → Item D
  cached_item id row_number p = record {
    id = id;
    row_number = row_number;
    product_id = some p.id;
    ean = p.ean;
    purchase_price_pln = some p.purchase_price;
    input_purchase_price = some p.purchase_price;
    source = AnalysisItemSource.baza;
    scrape_status = ScrapeStatus.pending;
    error_message = none;
    allegro_price = none;
    allegro_sold_count = none;
    profitability_score = none;
    profitability_label = none;
    metering = no_metering;
  }

  -- `for idx, product in enumerate(products, start=1)`
  abbrev pub cached_items : (id row_number : ℕ) → List (Candidate D) → List (Item D)
  cached_items id row_number [] = []
  cached_items id row_number (c ∷ cs) =
      cached_item id row_number c.product ∷ cached_items (suc id) (suc row_number) cs

  -- `prepare_cached_analysis_run`, with the numbers that the tables give.
  unfoldable pub prepare_cached_analysis_run :
      (now id first_item category : ℕ) → List (Candidate D) → CachedRun D
  prepare_cached_analysis_run now id first_item category products = record {
    run = record {
      id = id;
      tenant_id = none;
      user_id = none;
      category_id = category;
      status = AnalysisStatus.pending;
      error_message = none;
      created_at = now;
      canceled_at = none;
      root_task_id = none;
      total_products = length products;
    };
    mode = "cached";
    input_source = "cache";
    items = cached_items first_item 1 products;
  }
