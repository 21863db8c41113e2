-- ===== src/Profit/Cheaper.antt =====
-- A lower purchase price does not make a product unprofitable.
use jolly_jesters_mvp.Prelude.{◌≡◌, true, false, Option, some, arith}
use jolly_jesters_mvp.Prelude.Int.{ℤ}
use jolly_jesters_mvp.Decimal.{Decimal}
use jolly_jesters_mvp.Enums.{ProfitabilityLabel}
use jolly_jesters_mvp.Profit.{
  Category, Settings, vat_rate_of, commission_rate_of, evaluate_profitability,
}
use jolly_jesters_mvp.Profit.Label.{Pays, label-Pays, Pays-label}

module _ {D : Type 0} ⦃d : Decimal D⦄ (k : Settings D) (c : Category D) where
  Pays-cheaper :
      (p q a : D) (sold offers : Option ℤ)
      → d.le d.zero k.eur_to_pln_rate ≡ true
      → d.le d.zero (d.div a (d.add d.one (vat_rate_of k c))) ≡ true
      → d.le q p ≡ true
      → d.le q d.zero ≡ false
      → Pays k c p a sold offers
      → Pays k c q a sold offers
  Pays-cheaper p q a sold offers rate gross cheaper positive (p0, p1, p2, p3, p4) =
      let net = d.div a (d.add d.one (vat_rate_of k c)) in
      let pln_p = d.mul p k.eur_to_pln_rate in
      let pln_q = d.mul q k.eur_to_pln_rate in
      let fee = d.mul a (commission_rate_of k c) in
      let cost_le = d.mul_mono q p k.eur_to_pln_rate rate cheaper in
      (
        positive,
        λ h.
            let h' : d.le pln_p d.zero ≡ false =
              ground (arith, d.le_trans pln_q pln_p d.zero cost_le) in
            d.le_trans _ _ _ (p1 h') (d.div_anti net pln_q pln_p gross h cost_le),
        d.le_trans _ _ _ p2 (
            d.sub_mono _ _ k.smart_delivery_cost_pln
              (d.sub_mono _ _ fee (d.sub_anti pln_q pln_p net cost_le))),
        p3,
        p4,
      )

  -- A profitable product stays profitable at any lower purchase price that is still positive, for a
  -- euro rate and a net revenue that are not negative.
  evaluate_profitability-cheaper :
      (p q a : D) (sold offers : Option ℤ)
      → d.le d.zero k.eur_to_pln_rate ≡ true
      → d.le d.zero (d.div a (d.add d.one (vat_rate_of k c))) ≡ true
      → d.le q p ≡ true
      → d.le q d.zero ≡ false
      → (evaluate_profitability k c (some p) (some a) sold offers).label
        ≡ ProfitabilityLabel.oplacalny
      → (evaluate_profitability k c (some q) (some a) sold offers).label
        ≡ ProfitabilityLabel.oplacalny
  evaluate_profitability-cheaper p q a sold offers rate gross cheaper positive h =
      Pays-label k c q a sold offers (
        Pays-cheaper p q a sold offers rate gross cheaper positive
          (label-Pays k c p a sold offers h))
