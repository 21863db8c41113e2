-- ===== src/Metrics.antt =====
-- The metrics of a run: `get_run_metrics` of backend/app/services/analysis_service.py. A rate is a
-- numerator over a denominator, before it is rounded for display; the estimate of the costs is left out.
pub mod Ranks
mod Tests
use jolly_jesters_mvp.Prelude.{
  ℕ, zero, suc, ◌+◌, ◌*◌, ◌/◌, Bool, true, false, not, ◌&&◌, Option, none, some, List, [], ◌∷◌,
  length, countb, leb, ltb, if◌then◌else◌, or_else,
}
use jolly_jesters_mvp.Prelude.Sort.{sort_by}
use jolly_jesters_mvp.Enums.{ScrapeStatus, is_ok_status, is_blocked_status, is_network_error_status}

-- `AnalysisRunItem`, the columns that the metrics read.
pub record MeteredItem : Type 0 where
  pub scrape_status : ScrapeStatus
  pub latency_ms : Option ℕ
  pub captcha_solves : Option ℕ
  pub retries : Option ℕ

-- `status in {error, network_error}`
abbrev pub is_failed_status : ScrapeStatus → Bool
is_failed_status ScrapeStatus.error = true
is_failed_status ScrapeStatus.network_error = true
is_failed_status _ = false

abbrev pub is_not_found_status : ScrapeStatus → Bool
is_not_found_status ScrapeStatus.not_found = true
is_not_found_status _ = false

abbrev pub latencies_of : List MeteredItem → List ℕ
latencies_of [] = []
latencies_of (i ∷ items) =
    let rest = latencies_of items in elim i.latency_ms [ none ↦ rest | some l ↦ l ∷ rest ]

-- `sum(i.column or 0 for i in items)`
abbrev pub total_of : (MeteredItem → Option ℕ) → List MeteredItem → ℕ
total_of column [] = 0
total_of column (i ∷ items) = or_else (column i) 0 + total_of column items

abbrev pub sum_of : List ℕ → ℕ
sum_of [] = 0
sum_of (n ∷ ns) = n + sum_of ns

-- `xs[n]`, for an `n` that is not negative: `none` is the IndexError.
abbrev pub item_at : ℕ → List ℕ → Option ℕ
item_at n [] = none
item_at zero (x ∷ xs) = some x
item_at (suc n) (x ∷ xs) = item_at n xs

abbrev pub sort_numbers : List ℕ → List ℕ
sort_numbers = sort_by leb

-- `sorted_lat[len(sorted_lat) // 2] if sorted_lat else None`
abbrev pub p50_of : (sorted_lat : List ℕ) → Option ℕ
p50_of [] = none
p50_of (l ∷ ls) = item_at (length (l ∷ ls) / 2) (l ∷ ls)

-- `sorted_lat[int(len(sorted_lat) * 0.95)] if len(sorted_lat) >= 2 else p50`
abbrev pub p95_of : (sorted_lat : List ℕ) → Option ℕ
p95_of ls = if leb 2 (length ls) then item_at (length ls * 95 / 100) ls else p50_of ls

-- A quotient, where the denominator is positive.
abbrev pub rate_of : (part whole : ℕ) → Option (ℕ × ℕ)
rate_of part whole = if ltb 0 whole then some (part, whole) else none

pub record RunMetrics : Type 0 where
  pub total_items : ℕ
  pub completed_items : ℕ
  pub failed_items : ℕ
  pub not_found_items : ℕ
  pub blocked_items : ℕ
  pub avg_latency_ms : Option (ℕ × ℕ)
  pub p50_latency_ms : Option ℕ
  pub p95_latency_ms : Option ℕ
  pub total_captcha_solves : ℕ
  pub total_retries : ℕ
  pub retry_rate : Option (ℕ × ℕ)
  pub captcha_rate : Option (ℕ × ℕ)
  pub blocked_rate : Option (ℕ × ℕ)
  pub network_error_rate : Option (ℕ × ℕ)
  pub success_rate : Option (ℕ × ℕ)

abbrev pub count_status : (ScrapeStatus → Bool) → List MeteredItem → ℕ
count_status p items = countb (λ i. p i.scrape_status) items

abbrev pub processed_of : List MeteredItem → ℕ
processed_of items =
    count_status is_ok_status items
    + count_status is_failed_status items
    + count_status is_not_found_status items
    + count_status is_blocked_status items

-- `float(p) if p else None`: a latency of 0 is shown as missing.
abbrev pub if_positive : Option ℕ → Option ℕ
if_positive none = none
if_positive (some zero) = none
if_positive (some (suc n)) = some (suc n)

abbrev pub average_of : List ℕ → Option (ℕ × ℕ)
average_of ls = if ltb 0 (sum_of ls) then rate_of (sum_of ls) (length ls) else none

-- `get_run_metrics`, for a run that is there, with the rows of the run.
unfoldable pub get_run_metrics : List MeteredItem → RunMetrics
get_run_metrics items =
    let processed = processed_of items in
    let sorted_lat = sort_numbers (latencies_of items) in
    record {
      total_items = length items;
      completed_items = count_status is_ok_status items;
      failed_items = count_status is_failed_status items;
      not_found_items = count_status is_not_found_status items;
      blocked_items = count_status is_blocked_status items;
      avg_latency_ms = average_of (latencies_of items);
      p50_latency_ms = if_positive (p50_of sorted_lat);
      p95_latency_ms = if_positive (p95_of sorted_lat);
      total_captcha_solves = total_of (λ i. i.captcha_solves) items;
      total_retries = total_of (λ i. i.retries) items;
      retry_rate = rate_of (total_of (λ i. i.retries) items) processed;
      captcha_rate = rate_of (total_of (λ i. i.captcha_solves) items) processed;
      blocked_rate = rate_of (count_status is_blocked_status items) (length items);
      network_error_rate = rate_of (count_status is_network_error_status items) (length items);
      success_rate = rate_of (count_status is_ok_status items) (length items);
    }
