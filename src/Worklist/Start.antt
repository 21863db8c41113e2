-- ===== src/Worklist/Start.antt =====
-- A run over stored data that a user starts: `_start_cached_analysis` of backend/app/api/v1/analysis.py,
-- and the tables that it shares with the scheduled refresh.
use jolly_jesters_mvp.Prelude.{
  ℕ, suc, ◌+◌, Bool, true, false, not, Option, none, some, String, List, [], ◌∷◌, ◌++◌, length,
  findb, ◌==◌, if◌then◌else◌, ◌≡◌, ◌≢◌, ◌⊎◌,
}
use jolly_jesters_mvp.Import.Text.{Unicode}
use jolly_jesters_mvp.Runs.{
  Reply, http_error, replied, RunRow, RunTables, CurrentUser, Limits, check_concurrent_limit,
  enqueue_run, own_run, fail_to_enqueue, record_run_task,
}
use jolly_jesters_mvp.Worklist.{
  Candidate, CacheFilter, CachedRun, build_cached_worklist, prepare_cached_analysis_run,
}

-- `Category`
pub record CategoryRow : Type 0 where
  pub id : ℕ
  pub is_active : Bool

-- The tables, with the next numbers.
pub record Desk (D : Type 0) : Type 0 where
  pub categories : List CategoryRow
  pub candidates : List (Candidate D)
  pub tables : RunTables
  pub prepared : List (CachedRun D)
  pub next_run_id : ℕ
  pub next_item_id : ℕ

module _ {D : Type 0} where
  -- A run with its rows is committed.
  abbrev pub add_cached : CachedRun D → RunTables → Desk D → Desk D
  add_cached run tables desk = record desk {
    tables = tables;
    prepared = desk.prepared ++ run ∷ [];
    next_run_id = suc desk.next_run_id;
    next_item_id = desk.next_item_id + length run.items;
  }

  abbrev pub prepare_on : (now category : ℕ) → List (Candidate D) → Desk D → CachedRun D
  prepare_on now category products desk =
      prepare_cached_analysis_run now desk.next_run_id desk.next_item_id category products

  -- From the work list on, which must not be empty.
  abbrev pub start_with :
      Option CurrentUser
      → (task : Option String) → (now category : ℕ) → Option (List (Candidate D))
      → Desk D
      → Desk D × Reply RunRow
  start_with user task now category none desk = (desk, http_error 400)
  start_with user task now category (some []) desk = (desk, http_error 400)
  start_with user task now category (some (c ∷ cs)) desk =
      let run = prepare_on now category (c ∷ cs) desk in
      let (tables, reply) = enqueue_run user task run.run desk.tables in
      (add_cached run tables desk, reply)

  abbrev pub start_checked :
      Reply Unit → (continue : Desk D × Reply RunRow) → Desk D → Desk D × Reply RunRow
  start_checked (http_error code) continue desk = (desk, http_error code)
  start_checked (replied x) continue desk = continue

  -- A category must be there, and be active.
  abbrev pub start_in :
      Option CategoryRow
      → Unicode
      → Limits
      → Option CurrentUser
      → (task : Option String) → (now : ℕ) → CacheFilter
      → Desk D
      → Desk D × Reply RunRow
  start_in none u k user task now f desk = (desk, http_error 404)
  start_in (some c) u k user task now f desk =
      if not c.is_active
      then (desk, http_error 404)
      else start_checked (check_concurrent_limit k user desk.tables.runs)
          (start_with user task now c.id (build_cached_worklist u now c.id f desk.candidates) desk)
          desk

  -- `_start_cached_analysis`
  unfoldable pub start_cached_analysis :
      Unicode
      → Limits
      → Option CurrentUser
      → (task : Option String) → (now category_id : ℕ) → CacheFilter
      → Desk D
      → Desk D × Reply RunRow
  start_cached_analysis u k user task now category_id f desk =
      start_in (findb (λ c. c.id == category_id) desk.categories) u k user task now f desk

module _ {D : Type 0} where
  -- The run that a request for a list of products adds.
  abbrev pub run_for :
      Option CurrentUser → (now category : ℕ) → List (Candidate D) → Desk D → RunRow
  run_for user now category products desk = own_run user (prepare_on now category products desk).run

  -- A refusal with a status code, which changes nothing.
  abbrev pub Refuses : (code : ℕ) → Desk D → Desk D × Reply RunRow → Type 0
  Refuses code desk r = (r.0 ≡ desk) × (r.1 ≡ http_error code)

  -- The new run without a task: the queue raised an exception, and the run is stored as failed.
  abbrev pub Fails : (new : RunRow) → Desk D → Desk D × Reply RunRow → Type 0
  Fails new desk r =
      (r.1 ≡ http_error 503)
      × (r.0.tables.runs ≡ desk.tables.runs ++ fail_to_enqueue new ∷ [])
      × (r.0.tables.tasks ≡ desk.tables.tasks)

  -- The new run with its task, which is its root and is recorded.
  abbrev pub Queues : (task : String) → (new : RunRow) → Desk D → Desk D × Reply RunRow → Type 0
  Queues task new desk r =
      (r.1 ≡ replied (record new { root_task_id = some task }))
      × (r.0.tables.runs ≡ desk.tables.runs ++ record new { root_task_id = some task } ∷ [])
      × (r.0.tables.tasks ≡ record_run_task new.id task "run_analysis" desk.tables.tasks)

  module _ (u : Unicode) (k : Limits) (user : Option CurrentUser) (task : Option String) (now : ℕ)
      (f : CacheFilter) (desk : Desk D) where
    -- What a request leads to whose work list has products.
    abbrev pub Starts :
        (category : CategoryRow) → List (Candidate D) → Desk D × Reply RunRow → Type 0
    Starts category products r =
        (r.0.prepared ≡ desk.prepared ++ prepare_on now category.id products desk ∷ [])
        × (((task ≡ none) × Fails (run_for user now category.id products desk) desk r)
            ⊎ ((t : String) × (task ≡ some t)
                × Queues t (run_for user now category.id products desk) desk r))

    -- What the work list decides.
    abbrev pub ListOutcome :
        (category : CategoryRow) → Option (List (Candidate D)) → Desk D × Reply RunRow → Type 0
    ListOutcome category worklist r =
        (((worklist ≡ none) ⊎ (worklist ≡ some [])) × Refuses 400 desk r)
        ⊎ ((products : List (Candidate D)) × (worklist ≡ some products)
            × (products ≢ [])
            × Starts category products r)

    -- What the limits decide.
    abbrev pub LimitOutcome : (category : CategoryRow) → Reply Unit → Desk D × Reply RunRow → Type 0
    LimitOutcome category checked r =
        ((code : ℕ) × (checked ≡ http_error code) × Refuses code desk r)
        ⊎ ((checked ≡ replied tt)
            × ListOutcome category (build_cached_worklist u now category.id f desk.candidates) r)

    -- What the category decides.
    abbrev pub StartOutcome : (found : Option CategoryRow) → Desk D × Reply RunRow → Type 0
    StartOutcome found r =
        ((found ≡ none) × Refuses 404 desk r)
        ⊎ ((category : CategoryRow) × (found ≡ some category)
            × (category.is_active ≡ false)
            × Refuses 404 desk r)
        ⊎ ((category : CategoryRow) × (found ≡ some category)
            × (category.is_active ≡ true)
            × LimitOutcome category (check_concurrent_limit k user desk.tables.runs) r)
