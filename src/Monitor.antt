-- ===== src/Monitor.antt =====
-- The watched EANs: backend/app/services/monitoring_service.py over the table of
-- backend/app/models/monitored_ean.py, and the marking of `refresh_monitored_eans` of
-- backend/app/workers/tasks.py. Moments are whole microseconds. The lists for display are left out.
pub mod Watched
mod Tests
use jolly_jesters_mvp.Prelude.{
  ℕ, suc, ◌+◌, ◌*◌, Bool, true, false, not, ◌&&◌, ◌||◌, Option, none, some, String, List, [], ◌∷◌,
  ◌++◌, map, length, take, filterb, findb, countb, anyb, ◌==◌, leb, ltb, if◌then◌else◌, string_eq,
}
use jolly_jesters_mvp.Prelude.Int.{ℤ, pos, ltb_ℤ}
use jolly_jesters_mvp.ProxyPool.{update_first}

pub record MonitoredEan : Type 0 where
  pub tenant_id : String
  pub ean : String
  pub label : Option String
  pub is_active : Bool
  pub priority : ℤ
  pub refresh_interval_minutes : ℕ
  pub last_scraped_at : Option ℕ
  pub next_scrape_at : Option ℕ

-- `label or existing.label`
abbrev pub label_or : Option String → Option String → Option String
label_or none old = old
label_or (some label) old = if string_eq.beq label "" then old else some label

-- The filter of the queries for one EAN.
abbrev pub is_watch : (tenant ean : String) → MonitoredEan → Bool
is_watch tenant ean m = string_eq.beq m.tenant_id tenant && string_eq.beq m.ean ean

abbrev pub new_watch :
    (now : ℕ) (tenant ean : String) → Option String → (priority : ℤ) → (minutes : ℕ) → MonitoredEan
new_watch now tenant ean label priority minutes = record {
  tenant_id = tenant;
  ean = ean;
  label = label;
  is_active = true;
  priority = priority;
  refresh_interval_minutes = minutes;
  last_scraped_at = none;
  next_scrape_at = some now;
}

abbrev pub rewatch :
    (now : ℕ) → Option String → (priority : ℤ) → (minutes : ℕ) → MonitoredEan → MonitoredEan
rewatch now label priority minutes m = record m {
  is_active = true;
  label = label_or label m.label;
  priority = priority;
  refresh_interval_minutes = minutes;
  next_scrape_at = some now;
}

-- `watch_ean`
unfoldable pub watch_ean :
    (now : ℕ) (tenant ean : String)
    → Option String
    → (priority : ℤ) → (minutes : ℕ) → List MonitoredEan
    → List MonitoredEan
watch_ean now tenant ean label priority minutes table =
    if anyb (is_watch tenant ean) table
    then update_first (is_watch tenant ean) (rewatch now label priority minutes) table
    else table ++ new_watch now tenant ean label priority minutes ∷ []

-- `unwatch_ean`
unfoldable pub unwatch_ean : (tenant ean : String) → List MonitoredEan → Bool × List MonitoredEan
unwatch_ean tenant ean table =
    if anyb (is_watch tenant ean) table
    then (true, update_first (is_watch tenant ean) (λ m. record m { is_active = false }) table)
    else (false, table)

-- The EANs of `bulk_watch` that are not in the table.
abbrev pub unwatched : (tenant : String) → List MonitoredEan → List String → List String
unwatched tenant table eans = filterb (λ e. not (anyb (is_watch tenant e) table)) eans

-- `bulk_watch`: the number of new rows, and the table.
unfoldable pub bulk_watch :
    (now : ℕ) (tenant : String)
    → (eans : List String) → (minutes : ℕ) → List MonitoredEan
    → ℕ × List MonitoredEan
bulk_watch now tenant eans minutes table =
    let new = unwatched tenant table eans in
    (length new, table ++ map (λ e. new_watch now tenant e none (pos 0) minutes) new)

abbrev pub minute : ℕ
minute = 60000000

-- `mark_scraped`
abbrev pub mark_scraped : (now : ℕ) → MonitoredEan → MonitoredEan
mark_scraped now m = record m {
  last_scraped_at = some now;
  next_scrape_at = some (now + m.refresh_interval_minutes * minute);
}

-- An active EAN whose moment has come.
abbrev pub is_due : (now : ℕ) → MonitoredEan → Bool
is_due now m = elim m.next_scrape_at [ none ↦ false | some next ↦ m.is_active && leb next now ]

abbrev pub next_or_zero : MonitoredEan → ℕ
next_or_zero m = elim m.next_scrape_at [ none ↦ 0 | some next ↦ next ]

-- `ORDER BY priority DESC, next_scrape_at`
abbrev pub comes_before : MonitoredEan → MonitoredEan → Bool
comes_before a b =
    if ltb_ℤ b.priority a.priority
    then true
    else not (ltb_ℤ a.priority b.priority) && leb (next_or_zero a) (next_or_zero b)

abbrev pub insert_due : MonitoredEan → List MonitoredEan → List MonitoredEan
insert_due m [] = m ∷ []
insert_due m (n ∷ ns) = if comes_before m n then m ∷ n ∷ ns else n ∷ insert_due m ns

abbrev pub sort_due : List MonitoredEan → List MonitoredEan
sort_due [] = []
sort_due (m ∷ ms) = insert_due m (sort_due ms)

-- `get_due_eans`
unfoldable pub get_due_eans : (now limit : ℕ) → List MonitoredEan → List MonitoredEan
get_due_eans now limit table = take limit (sort_due (filterb (is_due now) table))
