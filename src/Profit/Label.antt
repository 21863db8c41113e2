-- ===== src/Profit/Label.antt =====
-- When a product counts as profitable.
use jolly_jesters_mvp.Prelude.{
  ◌≡◌, ◌↔◌, ◌⊎◌, inl, inr, refl, true, false, Option, none, some, arith,
}
use jolly_jesters_mvp.Prelude.Int.{ℤ, ◌≤ℤ◌}
use jolly_jesters_mvp.Decimal.{Decimal}
use jolly_jesters_mvp.Enums.{ProfitabilityLabel}
use jolly_jesters_mvp.Profit.{
  Category, Settings, commission_rate_of, vat_rate_of, evaluate_profitability,
}

module _ {D : Type 0} ⦃d : Decimal D⦄ (k : Settings D) (c : Category D) where
  -- What the rule asks of a purchase price in EUR, an Allegro price in PLN and the two counts.
  abbrev pub Pays : D → D → Option ℤ → Option ℤ → Type 0
  Pays p a sold offers =
      let pln = d.mul p k.eur_to_pln_rate in
      let net = d.div a (d.add d.one (vat_rate_of k c)) in
      let profit =
        d.sub (d.sub (d.sub net pln) (d.mul a (commission_rate_of k c)))
          k.smart_delivery_cost_pln in
      (d.le p d.zero ≡ false)
      × (d.le pln d.zero ≡ false → d.le c.profitability_multiplier (d.div net pln) ≡ true)
      × (d.le k.profitability_min_profit_pln profit ≡ true)
      × ((n : ℤ) × (sold ≡ some n) × (k.profitability_min_sales ≤ℤ n))
      × ((n : ℤ) → offers ≡ some n → n ≤ℤ k.profitability_max_competition)

  pub label-Pays :
      (p a : D) (sold offers : Option ℤ)
      → (evaluate_profitability k c (some p) (some a) sold offers).label
        ≡ ProfitabilityLabel.oplacalny
      → Pays p a sold offers
  unfolding evaluate_profitability
  label-Pays p a none none h = ground arith
  label-Pays p a none (some m) h = ground arith
  label-Pays p a (some n) none h =
      (ground arith, ground arith, ground arith, (n, refl, ground arith), λ m e. cc)
  label-Pays p a (some n) (some m) h =
      (ground arith, ground arith, ground arith, (n, refl, ground arith), λ j e. ground arith)

  pub Pays-label :
      (p a : D) (sold offers : Option ℤ)
      → Pays p a sold offers
      → (evaluate_profitability k c (some p) (some a) sold offers).label
        ≡ ProfitabilityLabel.oplacalny
  unfolding evaluate_profitability
  Pays-label p a none offers h = ground arith
  Pays-label p a (some n) none h = ground arith
  Pays-label p a (some n) (some m) h = ground (arith, h.4 m refl)

  label_inputs :
      (purchase allegro : Option D) (sold offers : Option ℤ)
      → (evaluate_profitability k c purchase allegro sold offers).label
        ≡ ProfitabilityLabel.oplacalny
      → (p a : D) × (purchase ≡ some p) × (allegro ≡ some a)
  unfolding evaluate_profitability
  label_inputs none none sold offers h = ground arith
  label_inputs none (some a) sold offers h = ground arith
  label_inputs (some p) none sold offers h = ground arith
  label_inputs (some p) (some a) sold offers h = (p, a, refl, refl)

  -- The label is `oplacalny` exactly when both prices are known and the product pays: a positive
  -- purchase price, a multiplier not below the category's (where the purchase cost is positive), a
  -- profit not below the minimum, enough sales and not too many offers.
  pub label-oplacalny_iff :
      (purchase allegro : Option D) (sold offers : Option ℤ)
      → ((evaluate_profitability k c purchase allegro sold offers).label
          ≡ ProfitabilityLabel.oplacalny)
        ↔ ((p a : D) × (purchase ≡ some p) × (allegro ≡ some a) × Pays p a sold offers)
  label-oplacalny_iff purchase allegro sold offers = (
    λ h.
        let (p, a, e, f) = label_inputs purchase allegro sold offers h in
        (p, a, e, f, label-Pays p a sold offers (rw (e, f) at h)),
    λ (p, a, e, f, pays). rw (e, f) (Pays-label p a sold offers pays),
  )

  -- A price that the rule cannot use as the cost.
  abbrev pub IsInvalidCost : Option D → Type 0
  IsInvalidCost none = Unit
  IsInvalidCost (some p) = d.le p d.zero ≡ true

  -- The label is `nieokreslony` exactly when the purchase price is missing or not positive or the
  -- Allegro price is missing, and then there is no score and no amount.
  label-nieokreslony_iff :
      (purchase allegro : Option D) (sold offers : Option ℤ)
      → let e = evaluate_profitability k c purchase allegro sold offers in
        ((e.label ≡ ProfitabilityLabel.nieokreslony) ↔ (IsInvalidCost purchase ⊎ (allegro ≡ none)))
        × (e.label ≡ ProfitabilityLabel.nieokreslony → (e.score ≡ none) × (e.figures ≡ none))
  unfolding evaluate_profitability
  label-nieokreslony_iff none none sold offers = ((λ h. inl tt, λ h. refl), λ h. (refl, refl))
  label-nieokreslony_iff none (some a) sold offers = ((λ h. inl tt, λ h. refl), λ h. (refl, refl))
  label-nieokreslony_iff (some p) none sold offers =
      ((λ h. inr refl, λ h. ground arith), λ h. ground arith)
  label-nieokreslony_iff (some p) (some a) sold offers =
      ((λ h. ground arith, λ h. ground arith), λ h. ground arith)
