-- ===== src/Stream.antt =====
-- The event stream of a run: `get_run_results_since` of backend/app/services/analysis_service.py and
-- `event_generator` of backend/app/api/v1/analysis.py. A poll is what the loop sees in one round: the
-- clock, the run, and its rows with the moments of their last updates. The texts of the events are left
-- out; a row event has the row's number and status.
pub mod Query
pub mod Once
mod Tests
use jolly_jesters_mvp.Prelude.{
  ℕ, zero, suc, ◌+◌, ◌*◌, Bool, true, false, not, ◌&&◌, ◌||◌, Option, none, some, String, List, [],
  ◌∷◌, ◌++◌, take, filterb, ◌==◌, leb, ltb, if◌then◌else◌, string_eq, max,
}
use jolly_jesters_mvp.Prelude.Sort.{sort_by}
use jolly_jesters_mvp.Enums.{AnalysisStatus, ScrapeStatus}
use jolly_jesters_mvp.Import.Text.{is_empty}

-- `AnalysisRunItem`, the columns that the stream reads.
pub record StampedItem : Type 0 where
  pub id : ℕ
  pub scrape_status : ScrapeStatus
  pub error_message : Option String
  pub updated_at : ℕ

-- `AnalysisResultsResponse`, the rows and where the next query goes on.
pub record Updates : Type 0 where
  pub items : List StampedItem
  pub next_since : Option ℕ
  pub next_since_id : Option ℕ

-- A filter that is left out where its bound is None.
abbrev pub filter_after : (StampedItem → ℕ) → Option ℕ → List StampedItem → List StampedItem
filter_after column none items = items
filter_after column (some bound) items = filterb (λ i. ltb bound (column i)) items

abbrev pub has_lower_id : StampedItem → StampedItem → Bool
has_lower_id i j = leb i.id j.id

-- The rows of the query.
abbrev pub updated_items :
    (since since_id : Option ℕ) → (limit : ℕ) → List StampedItem → List StampedItem
updated_items since since_id limit items = take limit (
    sort_by has_lower_id
      (filter_after (λ i. i.id) since_id (filter_after (λ i. i.updated_at) since items)))

-- `items[-1].id`, and the latest update, of rows with a first one.
abbrev pub last_id : StampedItem → List StampedItem → ℕ
last_id i [] = i.id
last_id i (j ∷ items) = last_id j items

abbrev pub latest_update : StampedItem → List StampedItem → ℕ
latest_update i [] = i.updated_at
latest_update i (j ∷ items) = max i.updated_at (latest_update j items)

abbrev pub updates_of : (since since_id : Option ℕ) → List StampedItem → Updates
updates_of since since_id [] = record { items = []; next_since = since; next_since_id = since_id }
updates_of since since_id (i ∷ items) = record {
  items = i ∷ items;
  next_since = some (latest_update i items);
  next_since_id = some (last_id i items);
}

-- `get_run_results_since`, for a run that is there.
unfoldable pub get_run_results_since :
    (since since_id : Option ℕ) → (limit : ℕ) → List StampedItem → Updates
get_run_results_since since since_id limit items =
    updates_of since since_id (updated_items since since_id limit items)

-- The columns of the run that the stream reads.
pub record RunView : Type 0 where
  pub status : AnalysisStatus
  pub processed_products : ℕ
  pub total_products : ℕ
  pub error_message : Option String

pub record Poll : Type 0 where
  pub is_disconnected : Bool
  pub now : ℕ
  pub run : Option RunView
  pub items : List StampedItem

-- The variables of the generator.
pub record StreamState : Type 0 where
  pub last_status : Option AnalysisStatus
  pub last_processed : Option ℕ
  pub last_total : Option ℕ
  pub last_error : Option String
  pub last_heartbeat : ℕ
  pub since : Option ℕ
  pub since_id : Option ℕ

abbrev pub new_stream : (now : ℕ) → StreamState
new_stream now = record {
  last_status = none;
  last_processed = none;
  last_total = none;
  last_error = none;
  last_heartbeat = now;
  since = none;
  since_id = none;
}

pub data StreamEvent : Type 0 where
  status_event progress_event stopped_event done_event : RunView → StreamEvent
  row_event : (id : ℕ) → ScrapeStatus → StreamEvent
  row_error_event : (id : ℕ) → StreamEvent
  not_found_event heartbeat_event : StreamEvent

abbrev pub status_number : AnalysisStatus → ℕ
status_number AnalysisStatus.pending = 0
status_number AnalysisStatus.running = 1
status_number AnalysisStatus.completed = 2
status_number AnalysisStatus.failed = 3
status_number AnalysisStatus.canceled = 4
status_number AnalysisStatus.stopped = 5

abbrev pub is_status : AnalysisStatus → Option AnalysisStatus → Bool
is_status s none = false
is_status s (some t) = status_number s == status_number t

abbrev pub is_number : ℕ → Option ℕ → Bool
is_number n none = false
is_number n (some k) = n == k

abbrev pub is_message : Option String → Option String → Bool
is_message none none = true
is_message (some s) (some t) = string_eq.beq s t
is_message _ _ = false

abbrev pub status_changed : RunView → StreamState → Bool
status_changed r s =
    not (is_status r.status s.last_status) || not (is_message r.error_message s.last_error)

abbrev pub progress_changed : RunView → StreamState → Bool
progress_changed r s =
    not (is_number r.processed_products s.last_processed)
    || not (is_number r.total_products s.last_total)

abbrev pub change_events : RunView → StreamState → List StreamEvent
change_events r s =
    (if status_changed r s then status_event r ∷ [] else [])
    ++ (if progress_changed r s then progress_event r ∷ [] else [])

-- The values that were sent; where nothing changed they are the same already.
abbrev pub remember : RunView → StreamState → StreamState
remember r s = record s {
  last_status = some r.status;
  last_error = r.error_message;
  last_processed = some r.processed_products;
  last_total = some r.total_products;
}

abbrev pub is_scrape_error : ScrapeStatus → Bool
is_scrape_error ScrapeStatus.error = true
is_scrape_error ScrapeStatus.network_error = true
is_scrape_error ScrapeStatus.blocked = true
is_scrape_error _ = false

abbrev pub has_message : Option String → Bool
has_message none = false
has_message (some s) = not (is_empty s)

abbrev pub row_events : List StampedItem → List StreamEvent
row_events [] = []
row_events (i ∷ items) =
    let rest = row_events items in
    row_event i.id i.scrape_status
    ∷ (if is_scrape_error i.scrape_status || has_message i.error_message
        then row_error_event i.id ∷ rest
        else rest)

-- `updates.next_since_id or since_id`, in which 0 counts as missing.
abbrev pub or_before : Option ℕ → Option ℕ → Option ℕ
or_before none before = before
or_before (some zero) before = before
or_before (some (suc n)) before = some (suc n)

abbrev pub wait_from_now : (now : ℕ) → StreamState → StreamState
wait_from_now now s = elim s.since [
  | none ↦ record s { since = some now; since_id = some 0 }
  | some at ↦ s
]

-- `since` and `since_id` after the updates of a poll.
abbrev pub go_on_after : (now : ℕ) → Updates → StreamState → StreamState
go_on_after now u s = elim u.items [
  | [] ↦ wait_from_now now s
  | i ∷ items ↦ record s { since = u.next_since; since_id = or_before u.next_since_id s.since_id }
]

-- `status in {completed, failed, canceled, stopped}`
abbrev pub is_final : AnalysisStatus → Bool
is_final AnalysisStatus.pending = false
is_final AnalysisStatus.running = false
is_final _ = true

abbrev pub is_stopped : AnalysisStatus → Bool
is_stopped AnalysisStatus.stopped = true
is_stopped _ = false

abbrev pub final_events : RunView → List StreamEvent
final_events r =
    if is_stopped r.status then stopped_event r ∷ done_event r ∷ [] else done_event r ∷ []

-- `STREAM_HEARTBEAT_INTERVAL`, in microseconds.
abbrev pub heartbeat_interval : ℕ
heartbeat_interval = 5 * 1000000

abbrev pub beat : (now : ℕ) → StreamState → List StreamEvent × StreamState
beat now s =
    if leb (s.last_heartbeat + heartbeat_interval) now
    then (heartbeat_event ∷ [], record s { last_heartbeat = now })
    else ([], s)

-- The end of a round: the stream ends, or goes on in a state.
abbrev pub end_round : Poll → RunView → StreamState → List StreamEvent × Option StreamState
end_round p r s =
    if is_final r.status then (final_events r, none) else ((beat p.now s).0, some (beat p.now s).1)

abbrev pub with_events :
    List StreamEvent → List StreamEvent × Option StreamState → List StreamEvent × Option StreamState
with_events before (events, next) = (before ++ events, next)

abbrev pub poll_run : Poll → RunView → StreamState → List StreamEvent × Option StreamState
poll_run p r s =
    let u = get_run_results_since s.since s.since_id 200 p.items in
    with_events (change_events r s ++ row_events u.items)
      (end_round p r (go_on_after p.now u (remember r s)))

abbrev pub poll_found : Poll → Option RunView → StreamState → List StreamEvent × Option StreamState
poll_found p none s = (not_found_event ∷ [], none)
poll_found p (some r) s = poll_run p r s

-- One round of the loop.
unfoldable pub poll_round : Poll → StreamState → List StreamEvent × Option StreamState
poll_round p s = if p.is_disconnected then ([], none) else poll_found p p.run s

-- The events of a round, and of the rounds after it, if it does not end the stream.
abbrev pub followed_by :
    (rest : StreamState → List StreamEvent)
    → List StreamEvent × Option StreamState
    → List StreamEvent
followed_by rest (events, none) = events
followed_by rest (events, some s) = events ++ rest s

-- The events of the stream over the rounds.
unfoldable pub event_generator : List Poll → StreamState → List StreamEvent
event_generator [] s = []
event_generator (p ∷ ps) s = followed_by (event_generator ps) (poll_round p s)
