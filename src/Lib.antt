-- ===== src/Lib.antt =====
-- The verification library of the backend: models of the parts of backend/app that decide, and
-- theorems about them.
--
-- The program analyses lists of products. A file that a user uploads becomes a run, with one row for
-- each product, identified by its EAN.
-- The worker (workers/tasks.py) takes the rows in batches of ten, answers a row from stored market data
-- where that is fresh, asks the scraper for the others, applies the profitability rule to each answer,
-- scores the proxy that was used, and tells the stop-loss guard, which may end the run. A circuit breaker
-- stands before the scraper, which is a service of its own and is called by a client that creates a
-- task and polls for its result. At the end of a run the rows with network errors are tried once more.
-- The proxy pool is filled by an import, users log in behind an account lock and carry tokens, programs
-- call with API keys under a rate limit, and tenants watch EANs that are scraped at intervals.
--
-- Runs are also started over stored data, by users and by a daily refresh; they can be canceled, and are
-- watched through a stream of events and by their metrics. The web interface has a login of its own,
-- with a session cookie and a guard against repeated failures.
--
-- Files and sources (paths from the repository's root):
-- - Breaker: CircuitBreaker of backend/app/services/circuit_breaker.py, one function for each method.
--   Breaker/Reach and Breaker/History treat sequences of calls.
-- - StopLoss: StopLossChecker of backend/app/services/stoploss_service.py. `record` is `record_item`: it
--   takes an observation into the window (`observe`) and then judges it (`judge`, `judge_rates`).
-- - Decimal: the interface of decimal numbers that the rule computes with; Decimal/Scaled is an instance
--   in hundredths, which rounds each product down, for examples.
-- - Profit: evaluate_profitability and calculate_profitability of
--   backend/app/services/profitability_service.py.
-- - ProxyPool: backend/app/services/proxy_pool_service.py, its operations as functions on the list of
--   rows of the table. ProxyImport: import_from_csv, with validate_proxy_url of
--   backend/app/utils/validators.py and the unique constraint of backend/app/models/network_proxy.py.
-- - Worker: backend/app/workers/tasks.py with the helpers of backend/app/services/analysis_service.py
--   that it calls. Worker/Rows has the rows of the tables, Worker/Cache the cache policy, Worker/Apply
--   what cached data and a result do to a row, Worker/Fetch the fetching of a batch behind the breaker,
--   Worker/Batch the sorting and the applying of a batch, Worker/Run the loop over the batches,
--   Worker/Retry the retry pass, and Worker/Task `run_analysis_task` from the lock to the completion.
-- - Scraper: backend/app/utils/allegro_scraper_client.py, of which Scraper/Payload reads an answer and
--   Scraper/Client has `fetch_via_allegro_scraper` with its two loops.
-- - Import: backend/app/utils/excel_reader.py (Import/Text, Cells, Columns, Reader and File, from the
--   cells of a sheet on) and backend/app/services/import_service.py (Import/Upload), which makes the
--   run that Worker/Task takes.
-- - Token: `issue_token`, `_decode_token_payload`, `validate_token` and `refresh_token` of
--   backend/app/services/auth_service.py.
-- - Monitor: backend/app/services/monitoring_service.py.
-- - Rates: the currency rates of backend/app/services/settings_service.py.
-- - Alerts: the rules of backend/app/services/alert_engine.py.
-- - Login: the table of failed logins of backend/app/services/auth_service.py, composed as `login` of
--   backend/app/api/v1/tenants.py composes it.
-- - ApiKeys: the rate window, the validation and the revocation of keys of
--   backend/app/services/api_key_service.py, with backend/app/models/api_key.py.
-- - Runs: the run queries and the cancellation of backend/app/services/analysis_service.py, with the
--   limits, the access check, the enqueueing and the cancel handler of backend/app/api/v1/analysis.py.
-- - Worklist: build_cached_worklist and prepare_cached_analysis_run of
--   backend/app/services/analysis_service.py. Worklist/Start has _start_cached_analysis of
--   backend/app/api/v1/analysis.py, and Worklist/Refresh refresh_stale_products of
--   backend/app/workers/scheduled.py.
-- - Stream: get_run_results_since of backend/app/services/analysis_service.py and the event generator of
--   backend/app/api/v1/analysis.py, one `Poll` for each round of its loop.
-- - Metrics: get_run_metrics of backend/app/services/analysis_service.py, up to the rates.
-- - Guard: the session cookie, enforce_basic_auth and login_submit of backend/app/main.py.
-- - Enums: backend/app/models/enums.py. Json: the JSON values of payloads. Prelude: what the others
--   share: lists measured by native numbers, dicts as association lists, and integers.
--
-- State is passed on explicitly: an operation on an object or a table takes it and returns it. A query
-- with `.first()` finds the first row of a list. Moments are whole microseconds, or whole parts of a
-- second in Login; a moment that the code reads from the clock is an argument. Rates and health scores
-- are ten-thousandths, which is what their columns hold. Exceptions are values: a `none`, or a
-- constructor of an outcome. Where an exception ends the loop over a run, the model keeps the state in
-- memory, of which only the committed part would be in the database.
--
-- The scraper's answers, what Python's string methods know of Unicode, the conversion of texts into
-- numbers, the rounding of a number to its column, `urlparse`, base64, hashes, the password check and
-- the answers of the task queue are parameters or part of an input, and no property assumes more of them than its statement says. Two
-- functions run on fuel: `batches_from` of Worker/Run, with one unit for each row, and `poll_from` of
-- Scraper/Client, with one unit for each round of polling, of which the deadline and the wait between
-- rounds allow only so many. The loop of the event stream runs over the list of its rounds.
--
-- The handlers of runs are modelled one at a time: what requests that are handled at the same time do to
-- the limits is not.
--
-- Not modelled: the other HTTP handlers and the schemas, the writing of spreadsheets and the libraries that read
-- them, the texts and the sending of alerts, notifications, billing, the settings record, the
-- registration of users, and in the worker the counters in a run's metadata, the time limit, the
-- recording of the usage and refresh_monitored_eans. The frontend, the scraper in TypeScript, the
-- migrations and the scripts are outside this library.
pub mod Prelude
pub mod Enums
pub mod Breaker
pub mod StopLoss
pub mod Decimal
pub mod Profit
pub mod ProxyPool
pub mod ProxyImport
pub mod Json
pub mod Worker
pub mod Scraper
pub mod Import
pub mod Token
pub mod Monitor
pub mod Rates
pub mod Runs
pub mod Worklist
pub mod Stream
pub mod Guard
pub mod Metrics
pub mod Alerts
pub mod Login
pub mod ApiKeys
