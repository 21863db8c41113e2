-- ===== src/Worker/Cache.antt =====
-- When cached market data is used: `_is_fresh_market_data`, `_should_fetch_from_scraper`,
-- `_resolve_cache_days` and `_extract_offer_count` of backend/app/workers/tasks.py.
use jolly_jesters_mvp.Prelude.{
  ℕ, ◌+◌, ◌*◌, Bool, true, false, not, Option, none, some, leb, ◌==◌, if◌then◌else◌, ◌≡◌, ◌↔◌, ◌≤◌,
  ◌<◌, arith,
}
use jolly_jesters_mvp.Prelude.Int.{ℤ, pos, pos_part, leb_ℤ}
use jolly_jesters_mvp.Json.{Json, array, object, size, get}
use jolly_jesters_mvp.Worker.Rows.{MarketData}

-- The microseconds of a day.
abbrev pub day : ℕ
day = 86400000000

-- A moment that is missing is not fresh; `checked_at >= now - days` is tested by a sum.
abbrev checked_since : (days now : ℕ) → Option ℕ → Bool
checked_since days now none = false
checked_since days now (some checked_at) = leb now (checked_at + days * day)

unfoldable pub is_fresh_market_data :
    {D : Type 0} → Option (MarketData D) → (cache_days now : ℕ) → Bool
is_fresh_market_data none cache_days now = false
is_fresh_market_data (some m) cache_days now =
    if cache_days == 0 then false else checked_since cache_days now m.last_checked_at

unfoldable pub should_fetch_from_scraper :
    {D : Type 0} → (db_only_mode : Bool) → Option (MarketData D) → (cache_days now : ℕ) → Bool
unfolding is_fresh_market_data
should_fetch_from_scraper db_only_mode market cache_days now =
    if db_only_mode then false else not (is_fresh_market_data market cache_days now)

-- `raw_days` is `int(meta.get("cache_days", 30))`, or `none` where `int` raises.
unfoldable pub resolve_cache_days :
    (db_only_mode : Bool) → (raw_days : Option ℤ) → (cache_ttl_days : ℤ) → ℕ
resolve_cache_days true none ttl = 30
resolve_cache_days true (some days) ttl = if leb_ℤ days (pos 0) then 30 else pos_part days
resolve_cache_days false raw_days ttl = pos_part ttl

abbrev offers_in : Option Json → Option ℕ
offers_in none = none
offers_in (some (array items)) = some (size items)
offers_in (some _) = none

-- A payload that is no object, or whose `products` is no list, has no count.
unfoldable pub extract_offer_count : Option Json → Option ℕ
extract_offer_count none = none
extract_offer_count (some (object fields)) = offers_in (get "products" fields)
extract_offer_count (some _) = none

-- Market data with the moment of its check is used without asking the scraper in the database-only
-- mode, and else exactly when it was checked within a positive number of days up to now.
should_fetch_iff :
    {D : Type 0} (m : MarketData D) (cache_days checked_at now : ℕ)
    → m.last_checked_at ≡ some checked_at
    → (should_fetch_from_scraper true (some m) cache_days now ≡ false)
      × ((should_fetch_from_scraper false (some m) cache_days now ≡ false)
          ↔ ((0 < cache_days) × (now ≤ checked_at + cache_days * day)))
unfolding should_fetch_from_scraper
should_fetch_iff m cache_days checked_at now e = ground arith
