-- ===== src/Worker/Batch/Total.antt =====
-- When the third phase cannot crash.
use jolly_jesters_mvp.Prelude.{
  ℕ, ◌-◌, ◌<◌, none, some, List, [], ◌∷◌, ◌++◌, length, All, ◌≡◌, ◌≢◌, refl, sym, arith,
  length-append, length-drop, Option-cases, inl, inr, subst,
}
use jolly_jesters_mvp.Decimal.{Decimal}
use jolly_jesters_mvp.Profit.{Category, Settings}
use jolly_jesters_mvp.StopLoss.{
  Judgement, verdict, zero_division, StopLossChecker, Observation, append_bounded, entry_of,
  observe, judge, record_item,
}
use jolly_jesters_mvp.Worker.Rows.{Item, Database}
use jolly_jesters_mvp.Worker.Batch.{
  Task, db_only, cache_hit, scraped, Work, Loop, Ending, crashed, apply_task, account, observation,
  result_in, judged, apply_results, items_of,
}
use jolly_jesters_mvp.Worker.Batch.Outcome.{step-judged}

length-append_bounded {ℓ} :
    {A : Type ℓ} (size : ℕ) (e : A) (w : List A) → 0 < size → 0 < length (append_bounded size e w)
length-append_bounded size e w h =
    omega (arith, length-append w (e ∷ []), length-drop (length (w ++ e ∷ []) - size) (w ++ e ∷ []))

judge-ne-zero_division :
    (now : ℕ) (c : StopLossChecker) → 0 < length c.window → judge now c ≢ zero_division
unfolding judge
judge-ne-zero_division now c h = ground arith

-- A guard whose window may hold an entry gives a verdict and keeps its configuration.
record_item-ne-zero_division :
    (now : ℕ) (o : Observation) (c : StopLossChecker)
    → 0 < c.config.window_size
    → let after = record_item now o c in (after.0.config ≡ c.config) × (after.1 ≢ zero_division)
unfolding record_item
record_item-ne-zero_division now o c h =
    let full =
      judge-ne-zero_division now (observe (entry_of o) c)
        (length-append_bounded c.config.window_size (entry_of o) c.window h) in
    (ground arith, ground (arith, full))

module _ {D : Type 0} where
  -- A row that needs a result has one.
  abbrev pub HasResult : Work D → Type 0
  HasResult w = (product : ℕ) → w.task ≢ scraped product none

  judged-ne-crashed :
      (rest : Loop D × Ending D) (l : Loop D) (row : ℕ) (left : List (Item D)) (j : Judgement)
      → j ≢ zero_division
      → rest.1 ≢ crashed
      → (judged rest l row left j).1 ≢ crashed
  judged-ne-crashed rest l row left zero_division ne h = absurd (ne refl)
  judged-ne-crashed rest l row left (verdict v) ne h = ground arith

module _ {D : Type 0} ⦃d : Decimal D⦄ (k : Settings D) (c : Category D) (clock : ℕ → ℕ)
    (ttl : ℕ) where
  apply_task-none :
      (now : ℕ) (item : Item D) (task : Task D) (db : Database D)
      → apply_task k c now item task db ≡ none
      → (product : ℕ) × (task ≡ scraped product none)
  unfolding apply_task
  apply_task-none now item (scraped product none) db e = (product, refl)
  apply_task-none now item (scraped product (some r)) db e = absurd (ground arith)
  apply_task-none now item (db_only none) db e = absurd (ground arith)
  apply_task-none now item (db_only (some m)) db e = absurd (ground arith)
  apply_task-none now item (cache_hit m) db e = absurd (ground arith)

  -- The third phase ends without an exception when every row that waits for a result has one and the
  -- guard's window has a positive size.
  apply_results-ne-crashed :
      (ws : List (Work D)) (l : Loop D)
      → All HasResult ws
      → 0 < l.guard.config.window_size
      → (apply_results k c clock ttl ws l).1 ≢ crashed
  unfolding apply_results
  apply_results-ne-crashed [] l h size = ground arith
  apply_results-ne-crashed (w ∷ ws) l h size =
      elim (Option-cases (apply_task k c (clock w.item.row_number) w.item w.task l.db)) [
        | inl e ↦
            let (product, missing) =
              apply_task-none (clock w.item.row_number) w.item w.task l.db e in
            absurd (h.0 product missing)
        | inr ((item, db), e) ↦
            let (l', j) = account clock ttl w item db l in
            let judgement =
              record_item-ne-zero_division (clock item.row_number)
                (observation item (result_in w.task)) l.guard size in
            rw (step-judged k c clock ttl w ws l item db e) (
              judged-ne-crashed (apply_results k c clock ttl ws l') l' item.row_number (items_of ws)
                j judgement.1
                (apply_results-ne-crashed ws l' h.1
                  (subst (λ g. 0 < g.window_size) (sym judgement.0) size)))
      ]
