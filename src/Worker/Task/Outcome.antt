-- ===== src/Worker/Task/Outcome.antt =====
-- How a run ends.
use jolly_jesters_mvp.Prelude.{
  ℕ, Bool, true, false, not, ◌||◌, Option, none, some, List, [], ◌∷◌, length, All, ◌≡◌, ◌≢◌, refl,
  ap, ◌∙◌, subst, arith, if-elim,
}
use mathlib.Core.Option.{some-injective}
use jolly_jesters_mvp.Decimal.{Decimal}
use jolly_jesters_mvp.Enums.{AnalysisStatus, is_canceled}
use jolly_jesters_mvp.Profit.{Category, Settings}
use jolly_jesters_mvp.StopLoss.{StopLossVerdict}
use jolly_jesters_mvp.Worker.Rows.{Item}
use jolly_jesters_mvp.Worker.Fetch.{Messages}
use jolly_jesters_mvp.Worker.Batch.Outcome.{IsProcessed}
use jolly_jesters_mvp.Worker.Run.{
  Machine, Flow, goes_on, was_canceled, was_stopped, raised, items_to_process, run_rows, rows_after,
}
use jolly_jesters_mvp.Worker.Run.Rows.{tally}
use jolly_jesters_mvp.Worker.Run.Whole.{IsNotPending, run_rows_outcome}
use jolly_jesters_mvp.Worker.Retry.{retry_pass}
use jolly_jesters_mvp.Worker.Retry.Kept.{retry_pass_keeps}
use jolly_jesters_mvp.Worker.Task.{
  AnalysisRun, TaskInput, fail_run, start_run, complete_run, retried_run, loop_left, finish_run,
  resume_run, check_items, run_analysis_task,
}

module _ {D : Type 0} where
  -- What the final status of a run says of its rows. A run that an exception has left stays `running`.
  abbrev pub Ends : (before : List (Item D)) → AnalysisRun D → Type 0
  Ends before run =
      (run.status ≡ AnalysisStatus.completed
        → All IsProcessed run.items × (run.processed_products ≡ length before))
      × (run.status ≡ AnalysisStatus.stopped → All IsNotPending run.items)
      × (run.status ≢ AnalysisStatus.running → (p : ℕ → Bool) → tally p run.items ≡ tally p before)

  -- Every row is processed and counted, and the rows are those from before.
  abbrev AllDone : (before : List (Item D)) → AnalysisRun D → Type 0
  AllDone before run =
      All IsProcessed run.items
      × (run.processed_products ≡ length before)
      × ((p : ℕ → Bool) → tally p run.items ≡ tally p before)

  -- A run in a status that promises nothing but its rows.
  unpromising :
      (before : List (Item D)) (run : AnalysisRun D)
      → run.status ≢ AnalysisStatus.completed
      → run.status ≢ AnalysisStatus.stopped
      → ((p : ℕ → Bool) → tally p run.items ≡ tally p before)
      → Ends before run
  unpromising before run a b h = (λ e. absurd (a e), λ e. absurd (b e), λ ne. h)

  complete_run-Ends :
      (before : List (Item D)) (input : TaskInput D) (run : AnalysisRun D)
      → AllDone before run
      → Ends before (complete_run input run)
  complete_run-Ends before input run (done, counted, same) =
      if-elim (Ends before) input.canceled_at_end (record run { status = AnalysisStatus.canceled })
        (record run { status = AnalysisStatus.completed; finished_at = some input.ended })
        (unpromising before (record run { status = AnalysisStatus.canceled }) (ground arith)
          (ground arith) same)
        (λ e. (done, counted), λ e. absurd (ground arith), λ ne. same)

  none_to_process : (items : List (Item D)) → items_to_process items ≡ [] → All IsProcessed items
  none_to_process [] e = tt
  none_to_process (i ∷ items) e = ground (arith, none_to_process items)

module _ {D : Type 0} ⦃d : Decimal D⦄ (k : Settings D) (msg : Messages) (input : TaskInput D) where
  retried_run-AllDone :
      (c : Category D) (m : Machine D) (before : List (Item D)) (run : AnalysisRun D)
      → AllDone before run
      → AllDone before (retried_run k msg input c m run)
  retried_run-AllDone c m before run (done, counted, same) =
      let r = retry_pass k c msg input.retry run.items m.db in
      let kept = retry_pass_keeps k c msg input.retry run.items m.db in
      if-elim (AllDone before) (input.canceled_before_retry || input.mode.db_only_mode) run
        (record run {
          items = r.rows;
          retry_pass_attempted = r.attempted;
          retry_pass_recovered = r.recovered;
        })
        (done, counted, same) (kept.2 done, counted, λ p. kept.1 p ∙ same p)

  -- What the loop gives.
  abbrev Loops : (before : List (Item D)) → Machine D × Flow → Type 0
  Loops before after =
      (after.1 ≢ raised → (p : ℕ → Bool) → tally p (rows_after after) ≡ tally p before)
      × (after.1 ≡ goes_on
          → All IsProcessed (rows_after after) × (after.0.processed ≡ length before))
      × ((row : ℕ) (v : StopLossVerdict)
          → after.1 ≡ was_stopped row v
          → All IsNotPending (rows_after after))

  finish_run-Ends :
      (c : Category D) (after : Machine D × Flow) (before : List (Item D)) (run : AnalysisRun D)
      → run.status ≡ AnalysisStatus.running
      → Loops before after
      → Ends before (finish_run k msg input c after run)
  finish_run-Ends c (m, goes_on) before run e (conserved, complete, stopped) =
      let (done, counted) = complete refl in
      complete_run-Ends before input
        (retried_run k msg input c m (loop_left k msg input m goes_on run))
        (retried_run-AllDone c m before (loop_left k msg input m goes_on run)
          (done, counted, conserved (ground arith)))
  finish_run-Ends c (m, was_canceled) before run e (conserved, complete, stopped) =
      (λ x. absurd (ground arith), λ x. absurd (ground arith), λ ne. conserved (ground arith))
  finish_run-Ends c (m, was_stopped row v) before run e (conserved, complete, stopped) =
      (λ x. absurd (ground arith), λ x. stopped row v refl, λ ne. conserved (ground arith))
  finish_run-Ends c (m, raised) before run e (conserved, complete, stopped) =
      (λ x. absurd (ground arith), λ x. absurd (ground arith), λ ne. absurd (ne e))

  -- The loop of a run, if it comes to it.
  abbrev pub loop_of_run : Category D → Machine D → AnalysisRun D → Machine D × Flow
  loop_of_run c m run = run_rows k c msg input.mode input.batch run.items m

  finish_run-ne-running :
      (c : Category D) (after : Machine D × Flow) (run : AnalysisRun D)
      → after.1 ≢ raised
      → (finish_run k msg input c after run).status ≢ AnalysisStatus.running
  finish_run-ne-running c (m, goes_on) run ne =
      if-elim (λ (r : AnalysisRun D). r.status ≢ AnalysisStatus.running) input.canceled_at_end
        (record (retried_run k msg input c m (loop_left k msg input m goes_on run)) {
          status = AnalysisStatus.canceled;
        })
        (record (retried_run k msg input c m (loop_left k msg input m goes_on run)) {
          status = AnalysisStatus.completed;
          finished_at = some input.ended;
        })
        (λ e. ground arith) (λ e. ground arith)
  finish_run-ne-running c (m, was_canceled) run ne = λ e. ground arith
  finish_run-ne-running c (m, was_stopped row v) run ne = λ e. ground arith
  finish_run-ne-running c (m, raised) run ne = absurd (ne refl)

  -- What is claimed of the run that a task leaves.
  abbrev pub Settles : Category D → Machine D → AnalysisRun D → AnalysisRun D → Type 0
  Settles c m run after =
      Ends run.items after
      × ((loop_of_run c m run).1 ≢ raised → after.status ≢ AnalysisStatus.running)

  resume_run-Settles :
      (c : Category D) (m : Machine D) (to_process : List (Item D)) (run : AnalysisRun D)
      → items_to_process run.items ≡ to_process
      → Settles c m run (resume_run k msg input c m to_process run)
  resume_run-Settles c m [] run e = (
    (λ x. (none_to_process run.items e, refl), λ x. absurd (ground arith), λ ne p. refl),
    λ ne x. ground arith,
  )
  resume_run-Settles c m (i ∷ is) run e = (
    finish_run-Ends c (loop_of_run c m run) run.items (start_run input.started run) refl
        (run_rows_outcome k c msg input.mode input.batch run.items m),
    finish_run-ne-running c (loop_of_run c m run) (start_run input.started run),
  )

  check_items-Settles :
      (c : Category D) (m : Machine D) (items : List (Item D)) (run : AnalysisRun D)
      → run.items ≡ items
      → Settles c m run (check_items k msg input c m items run)
  check_items-Settles c m [] run e = (
    unpromising run.items (fail_run input.started "Brak pozycji do analizy" run) (ground arith)
        (ground arith) (λ p. refl),
    λ ne x. ground arith,
  )
  check_items-Settles c m (i ∷ is) run e =
      resume_run-Settles c m (items_to_process (i ∷ is)) run (ap items_to_process e)

  -- A task that does not get the lock, or whose run was canceled, changes nothing, and a run without a
  -- category fails with its rows untouched. Otherwise the run that the task leaves is, if it is
  -- completed, one with every row processed and counted, if it is stopped, one with no pending row, and
  -- unless it is still running, one with the rows it had, each as often; and it is no longer running
  -- unless an exception has ended the loop.
  pub run_analysis_task_outcome :
      (locked : Bool) (category : Option (Category D)) (m : Machine D) (run : AnalysisRun D)
      → let result = run_analysis_task k msg input locked category m (some run) in
        ((not locked || is_canceled run.status) ≡ true → result ≡ some run)
        × ((not locked || is_canceled run.status) ≡ false
            → (after : AnalysisRun D) × (result ≡ some after)
              × (category ≡ none
                  → (after.status ≡ AnalysisStatus.failed) × (after.items ≡ run.items))
              × ((c : Category D) → category ≡ some c → Settles c m run after))
  unfolding run_analysis_task
  run_analysis_task_outcome locked none m run = (
    λ e. rw (e, run_analysis_task),
    λ e. (
      fail_run input.started "Kategoria nie zostala znaleziona" run,
      rw (e, run_analysis_task),
      λ x. (refl, refl),
      λ c x. absurd (ground arith),
    ),
  )
  run_analysis_task_outcome locked (some c) m run = (
    λ e. rw (e, run_analysis_task),
    λ e. (
      check_items k msg input c m run.items run,
      rw (e, run_analysis_task),
      λ x. absurd (ground arith),
      λ c' x.
          subst (λ y. Settles y m run (check_items k msg input c m run.items run))
            (some-injective _ _ x) (check_items-Settles c m run.items run refl),
    ),
  )
