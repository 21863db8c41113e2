-- ===== src/Profit/Tests.antt =====
-- The rule at prices in hundredths, with the settings that the program has by default.
use jolly_jesters_mvp.Prelude.{◌≡◌, ◌↔◌, refl, Option, none, some, [], ◌∷◌}
use jolly_jesters_mvp.Prelude.Int.{ℤ, pos, ◌+ℤ◌, ◌-ℤ◌}
use jolly_jesters_mvp.Decimal.Scaled.{scaled}
use jolly_jesters_mvp.Enums.{ProfitabilityLabel}
use jolly_jesters_mvp.Profit.{
  Category, Settings, Threshold, profit, volume, evaluate_profitability, calculate_profitability,
}
use jolly_jesters_mvp.Profit.Label.{Pays, label-oplacalny_iff}

abbrev settings : Settings ℤ
settings = record {
  profitability_min_profit_pln = pos 1500;
  profitability_min_sales = pos 3;
  profitability_max_competition = pos 50;
  eur_to_pln_rate = pos 420;
  smart_delivery_cost_pln = pos 500;
  default_vat_rate = pos 23;
}

abbrev category : Category ℤ
category = record {
  commission_rate = some (pos 10);
  vat_rate = none;
  profitability_multiplier = pos 150;
}

-- 20 EUR bought, 246 PLN on Allegro: net 200, cost 84, commission 24.60, delivery 5.
profitable :
    calculate_profitability settings category
      (some (pos 2000))
      (some (pos 24600))
      (some (pos 9))
      (some (pos 4))
    ≡ (some (pos 238), ProfitabilityLabel.oplacalny)
unfolding calculate_profitability evaluate_profitability ◌+ℤ◌ ◌-ℤ◌
profitable = refl

too_few_sales :
    (evaluate_profitability settings category
      (some (pos 2000))
      (some (pos 12300))
      none
      none).failed_thresholds
    ≡ Threshold.multiplier ∷ profit ∷ volume ∷ []
unfolding evaluate_profitability ◌+ℤ◌ ◌-ℤ◌
too_few_sales = refl

-- A category with a VAT rate of 0 is charged the default rate.
zero_vat :
    (evaluate_profitability settings
      (record category { vat_rate = some (pos 0) })
      none
      none
      none
      none).vat_rate
    ≡ pos 23
unfolding evaluate_profitability
zero_vat = refl

label-oplacalny_iff_example :
    ((evaluate_profitability settings category
        (some (pos 2000))
        (some (pos 24600))
        (some (pos 9))
        none).label
      ≡ ProfitabilityLabel.oplacalny)
    ↔ ((p a : ℤ) × (◌≡◌ {A = Option ℤ} (some (pos 2000)) (some p))
        × (◌≡◌ {A = Option ℤ} (some (pos 24600)) (some a))
        × Pays settings category p a (some (pos 9)) none)
label-oplacalny_iff_example =
    label-oplacalny_iff settings category (some (pos 2000)) (some (pos 24600)) (some (pos 9)) none
