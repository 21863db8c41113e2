-- ===== src/Profit.antt =====
-- The profitability rule of backend/app/services/profitability_service.py. Prices and rates are the
-- numbers of the `Decimal` interface, counts are integers. The settings that the module reads from
-- backend/app/core/config.py are a record.
pub mod Label
pub mod Reason
pub mod Cheaper
mod Tests
use jolly_jesters_mvp.Prelude.{
  ℕ, Bool, true, false, not, ◌||◌, ◌&&◌, Option, none, some, List, [], ◌∷◌, ◌++◌, ◌==◌,
  if◌then◌else◌, anyb, findb,
}
use jolly_jesters_mvp.Prelude.Int.{ℤ, ltb_ℤ}
use jolly_jesters_mvp.Decimal.{Decimal, lt, number_or}
use jolly_jesters_mvp.Enums.{ProfitabilityLabel}

-- The fields of a category that the rule reads.
pub record Category (D : Type 0) : Type 0 where
  pub commission_rate : Option D
  pub vat_rate : Option D
  pub profitability_multiplier : D

pub record Settings (D : Type 0) : Type 0 where
  pub profitability_min_profit_pln : D
  pub profitability_min_sales : ℤ
  pub profitability_max_competition : ℤ
  pub eur_to_pln_rate : D
  pub smart_delivery_cost_pln : D
  pub default_vat_rate : D

-- The codes in `failed_thresholds`.
pub data Threshold : Type 0 where
  invalid_cost missing_data multiplier profit volume competition : Threshold

-- A code's place in `REASON_PRIORITY`.
abbrev pub priority : Threshold → ℕ
priority invalid_cost = 0
priority missing_data = 1
priority multiplier = 2
priority profit = 3
priority volume = 4
priority competition = 5

abbrev pub reason_priority : List Threshold
reason_priority = invalid_cost ∷ missing_data ∷ multiplier ∷ profit ∷ volume ∷ competition ∷ []

-- `key in failed`
abbrev pub has : Threshold → List Threshold → Bool
has key failed = anyb (λ t. priority t == priority key) failed

-- `_pick_reason`
unfoldable pub pick_reason : List Threshold → Option Threshold
pick_reason failed = findb (λ key. has key failed) reason_priority

pub record Figures (D : Type 0) : Type 0 where
  pub purchase_pln : D
  pub net_revenue : D
  pub commission_pln : D
  pub profit : D
  pub multiplier : Option D

pub record ProfitabilityEvaluation (D : Type 0) : Type 0 where
  pub score : Option D
  pub label : ProfitabilityLabel
  pub reason_code : Option Threshold
  pub failed_thresholds : List Threshold
  pub commission_rate : D
  pub figures : Option (Figures D)
  pub delivery_cost_pln : D
  pub vat_rate : D

abbrev multiplier_of : {D : Type 0} → Option (Figures D) → Option D
multiplier_of none = none
multiplier_of (some f) = f.multiplier

module _ {D : Type 0} ⦃d : Decimal D⦄ (k : Settings D) (c : Category D) where
  abbrev pub commission_rate_of : D
  commission_rate_of = number_or c.commission_rate d.zero

  abbrev pub vat_rate_of : D
  vat_rate_of = number_or c.vat_rate k.default_vat_rate

  abbrev input_failures : Option D → Option D → List Threshold
  input_failures purchase allegro =
      elim purchase [
        | none ↦ invalid_cost ∷ []
        | some p ↦ if d.le p d.zero then invalid_cost ∷ [] else []
      ]
      ++ elim allegro [ none ↦ missing_data ∷ [] | some a ↦ [] ]

  -- The amounts for a purchase price and an Allegro price that are both usable.
  abbrev pub figures_for : D → D → Figures D
  figures_for p a =
      let purchase_pln = d.mul p k.eur_to_pln_rate in
      let net_revenue = d.div a (d.add d.one vat_rate_of) in
      let commission_pln = d.mul a commission_rate_of in
      record {
        purchase_pln = purchase_pln;
        net_revenue = net_revenue;
        commission_pln = commission_pln;
        profit =
            d.sub (d.sub (d.sub net_revenue purchase_pln) commission_pln) k.smart_delivery_cost_pln;
        multiplier = if lt d.zero purchase_pln then some (d.div net_revenue purchase_pln) else none;
      }

  abbrev figures_of : Option D → Option D → Option (Figures D)
  figures_of none allegro = none
  figures_of (some p) none = none
  figures_of (some p) (some a) = if d.le p d.zero then none else some (figures_for p a)

  abbrev multiplier_fails : Figures D → Bool
  multiplier_fails f = elim f.multiplier [ none ↦ false | some m ↦ lt m c.profitability_multiplier ]

  abbrev volume_fails : Option ℤ → Bool
  volume_fails none = true
  volume_fails (some n) = ltb_ℤ n k.profitability_min_sales

  abbrev competition_fails : Option ℤ → Bool
  competition_fails none = false
  competition_fails (some n) = ltb_ℤ k.profitability_max_competition n

  -- The four threshold checks, each of which may append its code.
  abbrev check_failures : Figures D → (sold offers : Option ℤ) → List Threshold
  check_failures f sold offers =
      (if multiplier_fails f then multiplier ∷ [] else [])
      ++ ((if lt f.profit k.profitability_min_profit_pln then profit ∷ [] else [])
          ++ ((if volume_fails sold then volume ∷ [] else [])
              ++ (if competition_fails offers then competition ∷ [] else [])))

  abbrev pub label_for : List Threshold → ProfitabilityLabel
  label_for failed =
      if has invalid_cost failed || has missing_data failed
      then ProfitabilityLabel.nieokreslony
      else elim failed [
        | [] ↦ ProfitabilityLabel.oplacalny
        | t ∷ ts ↦ ProfitabilityLabel.nieoplacalny
      ]

  unfoldable pub evaluate_profitability :
      (purchase allegro : Option D) (sold offers : Option ℤ) → ProfitabilityEvaluation D
  evaluate_profitability purchase allegro sold offers =
      let figures = figures_of purchase allegro in
      let failed =
        input_failures purchase allegro
        ++ elim figures [ none ↦ [] | some f ↦ check_failures f sold offers ] in
      record {
        score =
            if has invalid_cost failed || has missing_data failed
            then none
            else multiplier_of figures;
        label = label_for failed;
        reason_code = pick_reason failed;
        failed_thresholds = failed;
        commission_rate = commission_rate_of;
        figures = figures;
        delivery_cost_pln = k.smart_delivery_cost_pln;
        vat_rate = vat_rate_of;
      }

  -- `calculate_profitability`, the helper that older call sites use.
  unfoldable pub calculate_profitability :
      (purchase allegro : Option D) (sold offers : Option ℤ) → Option D × ProfitabilityLabel
  calculate_profitability purchase allegro sold offers =
      let e = evaluate_profitability purchase allegro sold offers in (e.score, e.label)
