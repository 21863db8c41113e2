-- ===== src/Worker/Fetch.antt =====
-- The scraper's results for a batch: `_get_or_fetch_batch` and `_error_result` of
-- backend/app/workers/tasks.py. The scraper is a parameter: what `provider.fetch` gives for the EAN at
-- a position of the list, a result or an exception with its class name.
pub mod Complete
pub mod Errors
use jolly_jesters_mvp.Prelude.{
  ℕ, suc, Bool, true, false, not, ◌||◌, Option, none, some, String, List, [], ◌∷◌, filterb, is_some,
  Dict, lookup, insert, lookup-insert, string_eq, beq_refl, ◌≡◌, refl, arith, length, ◌+◌, ◌==◌,
  if◌then◌else◌,
}
use jolly_jesters_mvp.Json.{Json, text, object, field, end}
use jolly_jesters_mvp.Breaker.{CircuitBreaker, is_open, record_success, record_failure}
use jolly_jesters_mvp.Worker.Rows.{AllegroResult, no_metering}

pub data Fetched (D : Type 0) : Type 0 where
  answered : AllegroResult D → Fetched D
  threw : (class_name : String) → Fetched D

-- The texts that an error result quotes.
pub record Messages : Type 0 where
  pub unexpected : (class_name : String) → String

abbrev pub Cache : Type 0 → Type 0
Cache D = Dict String (AllegroResult D)

module _ {D : Type 0} where
  unfoldable pub error_result : (ean error : String) → AllegroResult D
  error_result ean error = record {
    ean = ean;
    products = 0;
    price = none;
    sold_count = none;
    is_not_found = false;
    is_temporary_error = false;
    raw_payload = object (field "error" (text error) end);
    error = some error;
    scraped_at = none;
    proxy_url_hash = none;
    proxy_success = none;
    metering = no_metering;
  }

  abbrev pub result_of : Messages → String → Fetched D → AllegroResult D
  result_of msg ean (answered r) = r
  result_of msg ean (threw cls) = error_result ean (msg.unexpected cls)

  -- The loop over `zip(to_fetch, results)`, from position `i` on.
  abbrev pub store_results :
      Messages → (ℕ → String → Fetched D) → (i : ℕ) → (to_fetch : List String) → Cache D → Cache D
  store_results msg fetch i [] cache = cache
  store_results msg fetch i (ean ∷ eans) cache =
      store_results msg fetch (suc i) eans (insert ean (result_of msg ean (fetch i ean)) cache)

  -- `{ean: cache[ean] for ean in eans}`, with `none` for a KeyError.
  abbrev pub select : List String → Cache D → Option (Cache D)
  select [] cache = some []
  select (ean ∷ eans) cache = elim (lookup ean cache) [
    | none ↦ none
    | some r ↦ elim (select eans cache) [ none ↦ none | some d ↦ some (insert ean r d) ]
  ]

  -- The cache that `_get_or_fetch_batch` leaves, and what it returns.
  unfoldable pub get_or_fetch_batch :
      Messages → (ℕ → String → Fetched D) → List String → Cache D → Cache D × Option (Cache D)
  get_or_fetch_batch msg fetch eans cache =
      let cache' =
        store_results msg fetch 0 (filterb (λ e. not (is_some (lookup e cache))) eans) cache in
      (cache', select eans cache')

  -- `{ean: _error_result(ean, error)}` for the EANs of a batch.
  abbrev pub all_errors : (error : String) → List String → Cache D
  all_errors error [] = []
  all_errors error (ean ∷ eans) = insert ean (error_result ean error) (all_errors error eans)

-- What one batch meets: the moments at which the breaker is asked, asked again and told, an
-- exception of `get_provider` or of the event loop, and the scraper.
pub record Round (D : Type 0) : Type 0 where
  pub probe_at : ℕ
  pub reprobe_at : ℕ
  pub done_at : ℕ
  pub batch_exception : Option String
  pub fetch : ℕ → String → Fetched D

-- What the second phase of a batch passes on.
pub record Scraper (D : Type 0) : Type 0 where
  pub breaker : CircuitBreaker
  pub cache : Cache D
  pub results : Cache D
  pub requests : ℕ

module _ {D : Type 0} (msg : Messages) (round : Round D) (eans : List String) where
  abbrev pub failed : (cls : String) → Cache D → CircuitBreaker → ℕ → Scraper D
  failed cls cache b requests = record {
    breaker = record_failure round.done_at b;
    cache = cache;
    results = all_errors (msg.unexpected cls) eans;
    requests = requests;
  }

  -- The body of the `try`; `requests` is counted by the caller's number of items.
  abbrev pub attempt : Cache D → CircuitBreaker → ℕ → Scraper D
  attempt cache b requests = elim round.batch_exception [
    | some cls ↦ failed cls cache b requests
    | none ↦
        let (cache', returned) = get_or_fetch_batch msg round.fetch eans cache in
        elim returned [
          | none ↦ failed "KeyError" cache' b requests
          | some results ↦ record {
            breaker = record_success b;
            cache = cache';
            results = results;
            requests = requests + length eans;
          }
        ]
  ]

  abbrev pub no_results : Cache D → CircuitBreaker → ℕ → Scraper D
  no_results cache b requests = record {
    breaker = b;
    cache = cache;
    results = [];
    requests = requests;
  }

  -- The `if` and the `elif` for items that need scraping. The breaker is asked again where it was open.
  unfoldable pub fetch_needed : Cache D → CircuitBreaker → ℕ → Scraper D
  fetch_needed cache b requests =
      let (b', opened) = is_open round.probe_at b in
      let (b'', still) = is_open round.reprobe_at b' in
      if not opened
      then attempt cache b' requests
      else if still
      then record {
        breaker = b'';
        cache = cache;
        results = all_errors "circuit_breaker_open" eans;
        requests = requests;
      }
      else no_results cache b'' requests

  -- The second phase of a batch.
  unfoldable pub fetch_batch : Cache D → CircuitBreaker → ℕ → Scraper D
  fetch_batch cache b requests =
      if length eans == 0 then no_results cache b requests else fetch_needed cache b requests
