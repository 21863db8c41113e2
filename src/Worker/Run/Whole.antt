-- ===== src/Worker/Run/Whole.antt =====
-- What the loop does to all the rows of a run.
use jolly_jesters_mvp.Prelude.{
  ℕ, ◌+◌, Bool, true, false, List, [], ◌∷◌, ◌++◌, map, length, filterb, All, ◌≡◌, ◌≢◌, refl, sym,
  ap, ◌∙◌, arith, append-nil, subst,
}
use jolly_jesters_mvp.Decimal.{Decimal}
use jolly_jesters_mvp.Enums.{is_processed_status, is_pending_status}
use jolly_jesters_mvp.Profit.{Category, Settings}
use jolly_jesters_mvp.StopLoss.{StopLossVerdict}
use jolly_jesters_mvp.Worker.Rows.{Item}
use jolly_jesters_mvp.Worker.Fetch.{Messages}
use jolly_jesters_mvp.Worker.Batch.Outcome.{IsProcessed}
use jolly_jesters_mvp.Worker.Run.{
  Machine, Mode, Input, Flow, goes_on, was_canceled, was_stopped, raised, batches, items_to_process,
  stop_pending, start_on, run_rows, rows_after,
}
use jolly_jesters_mvp.Worker.Run.Rows.{tally, tally-append, held, Keeps, run_batches-Keeps}
use jolly_jesters_mvp.Worker.Run.Chunks.{concat-batches}

module _ {D : Type 0} where
  tally-split :
      (p : ℕ → Bool) (rows : List (Item D))
      → tally p (filterb (λ i. is_processed_status i.scrape_status) rows)
          + tally p (items_to_process rows)
        ≡ tally p rows
  tally-split p [] = refl
  tally-split p (i ∷ rows) = ground (arith, tally-split p rows)

  already-IsProcessed :
      (rows : List (Item D))
      → All IsProcessed (filterb (λ i. is_processed_status i.scrape_status) rows)
  already-IsProcessed [] = tt
  already-IsProcessed (i ∷ rows) = ground (arith, already-IsProcessed rows)

  tally-stop_pending :
      (p : ℕ → Bool) (rows : List (Item D)) → tally p (map stop_pending rows) ≡ tally p rows
  tally-stop_pending p [] = refl
  tally-stop_pending p (i ∷ rows) = ground (arith, tally-stop_pending p rows)

  tally-rows_after :
      (p : ℕ → Bool) (m : Machine D) (flow : Flow) → tally p (rows_after (m, flow)) ≡ held p m
  unfolding rows_after
  tally-rows_after p m goes_on = tally-append p m.finished m.left
  tally-rows_after p m was_canceled = tally-append p m.finished m.left
  tally-rows_after p m (was_stopped row v) =
      tally-stop_pending p (m.finished ++ m.left) ∙ tally-append p m.finished m.left
  tally-rows_after p m raised = tally-append p m.finished m.left

  -- A row is not pending.
  abbrev pub IsNotPending : Item D → Type 0
  IsNotPending i = is_pending_status i.scrape_status ≡ false

  stop_pending-IsNotPending : (rows : List (Item D)) → All IsNotPending (map stop_pending rows)
  stop_pending-IsNotPending [] = tt
  stop_pending-IsNotPending (i ∷ rows) = (ground arith, stop_pending-IsNotPending rows)

  tally-all : (rows : List (Item D)) → tally (λ n. true) rows ≡ length rows
  tally-all [] = refl
  tally-all (i ∷ rows) = ground (arith, tally-all rows)

module _ {D : Type 0} where
  rows_after-goes_on :
      (m : Machine D) (flow : Flow)
      → flow ≡ goes_on
      → m.left ≡ []
      → All IsProcessed m.finished
      → All IsProcessed (rows_after (m, flow))
  unfolding rows_after
  rows_after-goes_on m goes_on e none_left h =
      subst (All IsProcessed) (sym (ap (λ xs. m.finished ++ xs) none_left ∙ append-nil m.finished))
        h
  rows_after-goes_on m was_canceled e none_left h = absurd (ground arith)
  rows_after-goes_on m (was_stopped row v) e none_left h = absurd (ground arith)
  rows_after-goes_on m raised e none_left h = absurd (ground arith)

  rows_after-stopped :
      (m : Machine D) (flow : Flow) (row : ℕ) (v : StopLossVerdict)
      → flow ≡ was_stopped row v
      → All IsNotPending (rows_after (m, flow))
  unfolding rows_after
  rows_after-stopped m goes_on row v e = absurd (ground arith)
  rows_after-stopped m was_canceled row v e = absurd (ground arith)
  rows_after-stopped m (was_stopped row' v') row v e =
      stop_pending-IsNotPending (m.finished ++ m.left)
  rows_after-stopped m raised row v e = absurd (ground arith)

module _ {D : Type 0} ⦃d : Decimal D⦄ (k : Settings D) (c : Category D) (msg : Messages)
    (mode : Mode) (inputs : ℕ → Input D) (rows : List (Item D)) (m : Machine D) where
  -- The machine and the flow after the loop.
  abbrev pub ended : Machine D × Flow
  ended = run_rows k c msg mode inputs rows m

  run_rows-Keeps : Keeps (items_to_process rows) (start_on k c msg mode rows m) ended
  unfolding run_rows
  run_rows-Keeps =
      subst (λ xs. Keeps xs (start_on k c msg mode rows m) ended)
        (concat-batches (items_to_process rows)).0
        (run_batches-Keeps k c msg mode inputs 0 (batches (items_to_process rows))
          (start_on k c msg mode rows m))

  held-ended : ended.1 ≢ raised → (p : ℕ → Bool) → held p ended.0 ≡ tally p rows
  held-ended ne p = omega (arith, run_rows-Keeps.conserved ne p, tally-split p rows)

  completed-processed : ended.1 ≡ goes_on → ended.0.processed ≡ length rows
  completed-processed e =
      let went : ended.1 ≢ raised = λ e'. absurd (goes_on-ne-raised (sym e ∙ e')) in
      omega (
        arith,
        run_rows-Keeps.counted,
        held-ended went (λ n. true),
        tally-all ended.0.finished,
        tally-all ended.0.left,
        tally-all rows,
        ap length (run_rows-Keeps.complete e),
      )
    where
      goes_on-ne-raised : goes_on ≢ raised
      goes_on-ne-raised h = ground arith

  -- The loop over a run neither loses a row nor has one twice, unless an exception ends it. If it goes
  -- through, every row has a status that a resumed run skips, and the counter is the number of rows;
  -- if the guard stops it, no row is pending.
  pub run_rows_outcome :
      (ended.1 ≢ raised → (p : ℕ → Bool) → tally p (rows_after ended) ≡ tally p rows)
      × (ended.1 ≡ goes_on → All IsProcessed (rows_after ended) × (ended.0.processed ≡ length rows))
      × ((row : ℕ) (v : StopLossVerdict)
          → ended.1 ≡ was_stopped row v
          → All IsNotPending (rows_after ended))
  unfolding rows_after
  run_rows_outcome = (
    λ ne p. tally-rows_after p ended.0 ended.1 ∙ held-ended ne p,
    λ e. (
      rows_after-goes_on ended.0 ended.1 e (run_rows-Keeps.complete e)
          (run_rows-Keeps.done (already-IsProcessed rows)),
      completed-processed e,
    ),
    rows_after-stopped ended.0 ended.1,
  )
