-- ===== src/Profit/Reason.antt =====
-- The reason code among the failed thresholds.
use jolly_jesters_mvp.Prelude.{◌≤◌, ◌≡◌, ◌↔◌, true, none, some, List, [], ◌∷◌, arith, Option, refl}
use jolly_jesters_mvp.Prelude.Int.{ℤ}
use jolly_jesters_mvp.Decimal.{Decimal}
use jolly_jesters_mvp.Enums.{ProfitabilityLabel}
use jolly_jesters_mvp.Profit.{
  Threshold, invalid_cost, missing_data, multiplier, profit, volume, competition, priority, has,
  pick_reason, Category, Settings, label_for, evaluate_profitability,
}

pick_reason-has :
    (failed : List Threshold) (r : Threshold) → pick_reason failed ≡ some r → has r failed ≡ true
unfolding pick_reason
pick_reason-has failed r h = ground arith

pick_reason-least :
    (failed : List Threshold) (r q : Threshold)
    → pick_reason failed ≡ some r
    → has q failed ≡ true
    → priority r ≤ priority q
unfolding pick_reason
pick_reason-least failed r invalid_cost h m = ground arith
pick_reason-least failed r missing_data h m = ground arith
pick_reason-least failed r multiplier h m = ground arith
pick_reason-least failed r profit h m = ground arith
pick_reason-least failed r volume h m = ground arith
pick_reason-least failed r competition h m = ground arith

pick_reason-none : (failed : List Threshold) → pick_reason failed ≡ none → failed ≡ []
unfolding pick_reason
pick_reason-none [] h = ground arith
pick_reason-none (invalid_cost ∷ ts) h = ground arith
pick_reason-none (missing_data ∷ ts) h = ground arith
pick_reason-none (multiplier ∷ ts) h = ground arith
pick_reason-none (profit ∷ ts) h = ground arith
pick_reason-none (volume ∷ ts) h = ground arith
pick_reason-none (competition ∷ ts) h = ground arith

module _ {D : Type 0} ⦃d : Decimal D⦄ (k : Settings D) (c : Category D) where
  label_for-none :
      (failed : List Threshold)
      → label_for k c failed ≡ ProfitabilityLabel.oplacalny
      → pick_reason failed ≡ none
  unfolding pick_reason
  label_for-none [] h = refl
  label_for-none (t ∷ ts) h = ground arith

  label_for-nil :
      (failed : List Threshold) → failed ≡ [] → label_for k c failed ≡ ProfitabilityLabel.oplacalny
  label_for-nil failed e = rw e

  -- The reason code is a failed threshold, none that failed comes before it in the list of
  -- priorities, and a product has no reason code exactly when it is profitable.
  reason_code_least :
      (purchase allegro : Option D) (sold offers : Option ℤ)
      → let e = evaluate_profitability k c purchase allegro sold offers in
        ((r : Threshold)
          → e.reason_code ≡ some r
          → (has r e.failed_thresholds ≡ true)
            × ((q : Threshold) → has q e.failed_thresholds ≡ true → priority r ≤ priority q))
        × ((e.reason_code ≡ none) ↔ (e.label ≡ ProfitabilityLabel.oplacalny))
  unfolding evaluate_profitability
  reason_code_least purchase allegro sold offers = (
    λ r h. (pick_reason-has _ r h, λ q. pick_reason-least _ r q h),
    (λ h. label_for-nil _ (pick_reason-none _ h), label_for-none _),
  )
