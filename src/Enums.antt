-- ===== src/Enums.antt =====
-- The enumerations of backend/app/models/enums.py. A str-valued enum is a data type with one
-- constructor for each member; `==` between members is a test by clauses.
use jolly_jesters_mvp.Prelude.{Bool, true, false}

pub data ProfitabilityLabel : Type 0 where
  oplacalny nieoplacalny nieokreslony : ProfitabilityLabel

pub data AnalysisStatus : Type 0 where
  pending running completed failed canceled stopped : AnalysisStatus

pub data AnalysisItemSource : Type 0 where
  baza scraping not_found error : AnalysisItemSource

pub data ScrapeStatus : Type 0 where
  pending in_progress ok not_found blocked network_error error stopped_by_guardrail : ScrapeStatus

abbrev pub is_blocked_status : ScrapeStatus → Bool
is_blocked_status ScrapeStatus.blocked = true
is_blocked_status _ = false

abbrev pub is_ok_status : ScrapeStatus → Bool
is_ok_status ScrapeStatus.ok = true
is_ok_status _ = false

abbrev pub is_pending_status : ScrapeStatus → Bool
is_pending_status ScrapeStatus.pending = true
is_pending_status _ = false

abbrev pub is_network_error_status : ScrapeStatus → Bool
is_network_error_status ScrapeStatus.network_error = true
is_network_error_status _ = false

abbrev pub is_canceled : AnalysisStatus → Bool
is_canceled AnalysisStatus.canceled = true
is_canceled _ = false

-- `status in {canceled, stopped}`
abbrev pub is_interrupted : AnalysisStatus → Bool
is_interrupted AnalysisStatus.canceled = true
is_interrupted AnalysisStatus.stopped = true
is_interrupted _ = false

-- `already_processed_statuses` of backend/app/workers/tasks.py.
abbrev pub is_processed_status : ScrapeStatus → Bool
is_processed_status ScrapeStatus.pending = false
is_processed_status ScrapeStatus.in_progress = false
is_processed_status ScrapeStatus.stopped_by_guardrail = false
is_processed_status _ = true

-- `status in {running, pending}`
abbrev pub is_active_status : AnalysisStatus → Bool
is_active_status AnalysisStatus.pending = true
is_active_status AnalysisStatus.running = true
is_active_status _ = false

-- `status in {completed, failed, stopped}`
abbrev pub is_finished_status : AnalysisStatus → Bool
is_finished_status AnalysisStatus.completed = true
is_finished_status AnalysisStatus.failed = true
is_finished_status AnalysisStatus.stopped = true
is_finished_status _ = false

pub data MarketDataSource : Type 0 where
  scraping api : MarketDataSource

abbrev pub is_source : MarketDataSource → MarketDataSource → Bool
is_source MarketDataSource.scraping MarketDataSource.scraping = true
is_source MarketDataSource.api MarketDataSource.api = true
is_source _ _ = false
