-- ===== src/Worklist/Refresh.antt =====
-- The scheduled refresh: `refresh_stale_products` of backend/app/workers/scheduled.py.
use jolly_jesters_mvp.Prelude.{
  ℕ, ◌+◌, ◌*◌, Bool, true, false, ◌&&◌, Option, none, some, String, List, [], ◌∷◌, ◌++◌, length,
  filterb, anyb, All, ◌==◌, ltb, if◌then◌else◌, ◌≡◌, refl, subst, arith, if-elim, if-cases,
}
use jolly_jesters_mvp.Import.Text.{Unicode}
use jolly_jesters_mvp.Runs.{RunRow, is_active_run, record_run_task, update_run}
use jolly_jesters_mvp.Worklist.{
  Candidate, CacheFilter, CachedRun, one_day, days_or_30, data_holds, is_since, cached_items,
  build_cached_worklist, prepare_cached_analysis_run,
}
use jolly_jesters_mvp.Worklist.Eligible.{is_eligible, build_cached_worklist-Lists}
use jolly_jesters_mvp.Worklist.Members.{IsAmong, build_cached_worklist-IsAmong}
use jolly_jesters_mvp.Worklist.Start.{CategoryRow, Desk, add_cached, prepare_on}

-- What the task returns.
pub data Refreshed : Type 0 where
  disabled : Refreshed
  gave_up : Refreshed
  queued : (products : ℕ) → Refreshed

-- The arguments with which the task asks for a work list.
abbrev pub refresh_filter : (days limit : ℕ) → CacheFilter
refresh_filter days limit = record {
  cache_days = some days;
  include_all_cached = false;
  only_with_data = false;
  limit = some limit;
  source = none;
  ean_contains = none;
}

abbrev pub is_busy : (category : ℕ) → List RunRow → Bool
is_busy category runs = anyb (λ r. r.category_id == category && is_active_run r) runs

and_left : (a b : Bool) → (a && b) ≡ true → a ≡ true
and_left a b e = ground arith

and_right : (a b : Bool) → (a && b) ≡ true → b ≡ true
and_right a b e = ground arith

module _ {D : Type 0} (u : Unicode) (days limit now : ℕ)
    (delay : (run_id : ℕ) → Option String) where
  -- The new run is committed before its task is queued.
  abbrev pub commit_prepared : CachedRun D → Desk D → Desk D
  commit_prepared run desk =
      add_cached run (record desk.tables { runs = desk.tables.runs ++ run.run ∷ [] }) desk

  abbrev pub commit_task : (task : String) → CachedRun D → Desk D → Desk D
  commit_task task run desk = record desk {
    tables = record {
      runs = update_run run.run.id (λ r. record r { root_task_id = some task }) desk.tables.runs;
      tasks = record_run_task run.run.id task "scheduled_refresh" desk.tables.tasks;
    };
  }

  -- A category with products to refresh; an exception of the queue ends the task.
  abbrev pub queue_run :
      Option String
      → CachedRun D
      → (rest : Desk D → Desk D × Refreshed) → Desk D
      → Desk D × Refreshed
  queue_run none run rest desk = (commit_prepared run desk, gave_up)
  queue_run (some task) run rest desk = rest (commit_task task run (commit_prepared run desk))

  abbrev pub refresh_list :
      (category : ℕ)
      → Option (List (Candidate D))
      → (rest : ℕ → Desk D → Desk D × Refreshed) → (total : ℕ) → Desk D
      → Desk D × Refreshed
  refresh_list category none rest total desk = (desk, gave_up)
  refresh_list category (some []) rest total desk = rest total desk
  refresh_list category (some (c ∷ cs)) rest total desk =
      queue_run (delay desk.next_run_id) (prepare_on now category (c ∷ cs) desk)
        (rest (total + length (c ∷ cs))) desk

  -- The loop over the categories.
  abbrev pub refresh_categories : List CategoryRow → (total : ℕ) → Desk D → Desk D × Refreshed
  refresh_categories [] total desk = (desk, queued total)
  refresh_categories (c ∷ cs) total desk =
      if is_busy c.id desk.tables.runs
      then refresh_categories cs total desk
      else refresh_list c.id
          (build_cached_worklist u now c.id (refresh_filter days limit) desk.candidates)
          (refresh_categories cs) total desk

  -- `refresh_stale_products`
  unfoldable pub refresh_stale_products : Desk D → Desk D × Refreshed
  refresh_stale_products desk =
      if ltb 0 days
      then refresh_categories (filterb (λ c. c.is_active) desk.categories) 0 desk
      else (desk, disabled)

  -- A run over stored data only, whose rows are those of a list of candidates: all of them are products
  -- of the table whose market data was checked within the last days.
  abbrev pub IsFreshRun : (candidates : List (Candidate D)) → CachedRun D → Type 0
  IsFreshRun candidates run =
      (run.mode ≡ "cached")
      × ((first : ℕ) × (products : List (Candidate D)) × (run.items ≡ cached_items first 1 products)
          × All (IsAmong candidates) products
          × All (λ c. data_holds (is_since now (days * one_day)) c ≡ true) products)

  All-append_one :
      (P : CachedRun D → Type 0) (xs : List (CachedRun D)) (x : CachedRun D)
      → All P xs
      → P x
      → All P (xs ++ x ∷ [])
  All-append_one P [] x h k = (k, tt)
  All-append_one P (y ∷ xs) x h k = (h.0, All-append_one P xs x h.1 k)

  eligible_since :
      (category : ℕ) (c : Candidate D)
      → ltb 0 days ≡ true
      → is_eligible u now category (refresh_filter days limit) c ≡ true
      → data_holds (is_since now (days * one_day)) c ≡ true
  eligible_since category c h e =
      subst (λ n. data_holds (is_since now (n * one_day)) c ≡ true) {x = days_or_30 (some days)}
        (rw (h) refl) (and_right _ _ (and_left _ _ (and_left _ _ (and_left _ _ e))))

  All-eligible_since :
      (category : ℕ) (cs : List (Candidate D))
      → ltb 0 days ≡ true
      → All (λ c. is_eligible u now category (refresh_filter days limit) c ≡ true) cs
      → All (λ c. data_holds (is_since now (days * one_day)) c ≡ true) cs
  All-eligible_since category [] h e = tt
  All-eligible_since category (c ∷ cs) h e =
      (eligible_since category c h e.0, All-eligible_since category cs h e.1)

  prepare_on-IsFreshRun :
      (category : ℕ) (cs cands : List (Candidate D)) (desk : Desk D)
      → desk.candidates ≡ cands
      → ltb 0 days ≡ true
      → build_cached_worklist u now category (refresh_filter days limit) desk.candidates ≡ some cs
      → IsFreshRun cands (prepare_on now category cs desk)
  unfolding prepare_cached_analysis_run
  prepare_on-IsFreshRun category cs cands desk same h e = (
    refl,
    (
      desk.next_item_id,
      cs,
      refl,
      subst (λ l. All (IsAmong l) cs) same
          (build_cached_worklist-IsAmong u now category (refresh_filter days limit) desk.candidates
            cs e),
      All-eligible_since category cs h
          (build_cached_worklist-Lists u now category (refresh_filter days limit) desk.candidates cs
            e).0,
    ),
  )

  -- What the rest of the loop keeps, a category keeps.
  abbrev Keeps : List (Candidate D) → (Desk D → Desk D × Refreshed) → Type 0
  Keeps cands rest =
      (desk : Desk D)
      → desk.candidates ≡ cands
      → All (IsFreshRun cands) desk.prepared
      → All (IsFreshRun cands) (rest desk).0.prepared

  module _ (cands : List (Candidate D)) where
    queue_run-All :
        (o : Option String) (run : CachedRun D) (rest : Desk D → Desk D × Refreshed) (desk : Desk D)
        → desk.candidates ≡ cands
        → Keeps cands rest
        → IsFreshRun cands run
        → All (IsFreshRun cands) desk.prepared
        → All (IsFreshRun cands) (queue_run o run rest desk).0.prepared
    queue_run-All none run rest desk same k f h =
        All-append_one (IsFreshRun cands) desk.prepared run h f
    queue_run-All (some task) run rest desk same k f h =
        k (commit_task task run (commit_prepared run desk)) same
          (All-append_one (IsFreshRun cands) desk.prepared run h f)

    refresh_list-All :
        (category : ℕ) (o : Option (List (Candidate D))) (rest : ℕ → Desk D → Desk D × Refreshed)
        (total : ℕ) (desk : Desk D)
        → desk.candidates ≡ cands
        → ltb 0 days ≡ true
        → build_cached_worklist u now category (refresh_filter days limit) desk.candidates ≡ o
        → ((n : ℕ) → Keeps cands (rest n))
        → All (IsFreshRun cands) desk.prepared
        → All (IsFreshRun cands) (refresh_list category o rest total desk).0.prepared
    refresh_list-All category none rest total desk same d e k h = h
    refresh_list-All category (some []) rest total desk same d e k h = k total desk same h
    refresh_list-All category (some (c ∷ cs)) rest total desk same d e k h =
        queue_run-All (delay desk.next_run_id) (prepare_on now category (c ∷ cs) desk)
          (rest (total + length (c ∷ cs))) desk same (k (total + length (c ∷ cs)))
          (prepare_on-IsFreshRun category (c ∷ cs) cands desk same d e) h

    refresh_categories-All :
        (cs : List CategoryRow) (total : ℕ) (desk : Desk D)
        → desk.candidates ≡ cands
        → ltb 0 days ≡ true
        → All (IsFreshRun cands) desk.prepared
        → All (IsFreshRun cands) (refresh_categories cs total desk).0.prepared
    refresh_categories-All [] total desk same d h = h
    refresh_categories-All (c ∷ cs) total desk same d h =
        if-elim (λ (x : Desk D × Refreshed). All (IsFreshRun cands) x.0.prepared)
          (is_busy c.id desk.tables.runs) (refresh_categories cs total desk) _
          (refresh_categories-All cs total desk same d h)
          (refresh_list-All c.id
            (build_cached_worklist u now c.id (refresh_filter days limit) desk.candidates)
            (refresh_categories cs) total desk same d refl
            (λ n after e. refresh_categories-All cs n after e d) h)

  -- Whatever the queue answers, the runs that the scheduled refresh adds are runs over stored data
  -- only, and their rows are those of candidates of the table whose market data was checked within the
  -- last days: a candidate that was not checked for that long gives none of them a row.
  pub refresh_stale_products-IsFreshRun :
      (desk : Desk D)
      → All (IsFreshRun desk.candidates) desk.prepared
      → All (IsFreshRun desk.candidates) (refresh_stale_products desk).0.prepared
  unfolding refresh_stale_products
  refresh_stale_products-IsFreshRun desk h =
      if-cases (λ (x : Desk D × Refreshed). All (IsFreshRun desk.candidates) x.0.prepared)
        (ltb 0 days) (refresh_categories (filterb (λ c. c.is_active) desk.categories) 0 desk)
        (desk, disabled)
        (λ d.
          refresh_categories-All desk.candidates (filterb (λ c. c.is_active) desk.categories) 0 desk
            refl d h)
        (λ d. h)
