-- ===== src/StopLoss/Streak.antt =====
-- A run of failing items ends in a stop.
use jolly_jesters_mvp.Prelude.{ℕ, suc, ◌+◌, ◌≤◌, ◌≡◌, true, List, [], ◌∷◌, arith, length, All}
use jolly_jesters_mvp.StopLoss.{
  consecutive_errors, Details, StopLossChecker, Observation, entry_of, observe, is_error_status,
  stop, streak, verdict, judge, record_item, record_items,
}
use jolly_jesters_mvp.StopLoss.Window.{enabled_step}

abbrev pub AllErrors : List (ℕ × Observation) → Type 0
AllErrors = All (λ o. is_error_status (o.1).scrape_status ≡ true)

consecutive_errors-record_items :
    (items : List (ℕ × Observation)) (c : StopLossChecker)
    → c.config.enabled ≡ true
    → AllErrors items
    → let c' = record_items items c in
      (c'.config ≡ c.config) × (c'.consecutive_errors ≡ c.consecutive_errors + length items)
consecutive_errors-record_items [] c on h = ground arith
consecutive_errors-record_items ((now, o) ∷ items) c on h =
    let c' = observe (entry_of o) c in
    let (same, count) = consecutive_errors-record_items items c' on h.1 in
    rw (enabled_step now o c on, record_items) (same, ground (arith, count))

-- Whatever an enabled guard was shown before, a run of failing items at least as long as
-- `max_consecutive_errors` makes it stop with the reason `consecutive_errors`, at the run's last item.
pub errors_in_a_row_stop :
    (c : StopLossChecker) (items : List (ℕ × Observation)) (now : ℕ) (o : Observation)
    → c.config.enabled ≡ true
    → AllErrors items
    → is_error_status o.scrape_status ≡ true
    → c.config.max_consecutive_errors ≤ suc (length items)
    → (d : Details) × ((record_item now o (record_items items c)).1
        ≡ verdict (stop consecutive_errors d))
unfolding record_item judge
errors_in_a_row_stop c items now o on h bad long =
    let (same, count) = consecutive_errors-record_items items c on h in
    let c' = record_items items c in
    (
      streak (c'.consecutive_errors + 1) c'.config.max_consecutive_errors now,
      ground (arith, same, count),
    )
