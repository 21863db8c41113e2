-- ===== src/Scraper/Price.antt =====
-- Where the price stands among the offers.
use jolly_jesters_mvp.Prelude.{
  ℕ, ◌≤◌, Bool, true, ◌&&◌, ◌⊎◌, if-elim, if-cases, if◌then◌else◌, Option, none, some, List, [],
  ◌∷◌, map, length, countb, All, ◌≡◌, refl, ap, arith, inl, inr,
}
use jolly_jesters_mvp.Prelude.Int.{ℤ}
use jolly_jesters_mvp.Decimal.{Decimal, lt}
use jolly_jesters_mvp.Scraper.Payload.{
  Amount, no_amount, bad_amount, nan_amount, amount_of, ScrapedProduct, joined, add_offer,
  priced_offers, average,
}

module _ {D : Type 0} where
  -- A price is a NaN.
  abbrev pub HasNan : List (ScrapedProduct D) → Type 0
  HasNan [] = ⊥
  HasNan (p ∷ ps) = (p.amount ≡ nan_amount) ⊎ HasNan ps

module _ {D : Type 0} ⦃d : Decimal D⦄ where
  abbrev pub add_price : Amount D → List D → List D
  add_price (amount_of a) rest = if d.le a d.zero then rest else a ∷ rest
  add_price _ rest = rest

  -- The prices that can be read and are above zero, in the order of the answer.
  abbrev pub prices : List (ScrapedProduct D) → List D
  prices [] = []
  prices (p ∷ ps) = add_price p.amount (prices ps)

  -- What the offers of the products are.
  abbrev pub ArePriced : List (ScrapedProduct D) → Option (List (D × Option ℤ)) → Type 0
  ArePriced ps none = HasNan ps
  ArePriced ps (some os) = (map (λ o. o.0) os ≡ prices ps) × ¬ HasNan ps

  add_offer-ArePriced :
      (p : ScrapedProduct D) (ps : List (ScrapedProduct D)) (v : Amount D) (sales : Option ℤ)
      (rest : Option (List (D × Option ℤ)))
      → p.amount ≡ v
      → ArePriced ps rest
      → ArePriced (p ∷ ps) (add_offer v sales rest)
  add_offer-ArePriced p ps no_amount sales none e h = inr h
  add_offer-ArePriced p ps no_amount sales (some os) e h =
      (rw e h.0, λ n. elim n [ inl f ↦ absurd (ground (arith, e)) | inr m ↦ h.1 m ])
  add_offer-ArePriced p ps bad_amount sales none e h = inr h
  add_offer-ArePriced p ps bad_amount sales (some os) e h =
      (rw e h.0, λ n. elim n [ inl f ↦ absurd (ground (arith, e)) | inr m ↦ h.1 m ])
  add_offer-ArePriced p ps nan_amount sales rest e h = inl e
  add_offer-ArePriced p ps (amount_of a) sales none e h =
      if-elim (ArePriced (p ∷ ps)) (d.le a d.zero) none none (inr h) (inr h)
  add_offer-ArePriced p ps (amount_of a) sales (some os) e h =
      let sane : ¬ HasNan (p ∷ ps) =
        λ n. elim n [ inl f ↦ absurd (ground (arith, e)) | inr m ↦ h.1 m ] in
      if-cases (ArePriced (p ∷ ps)) (d.le a d.zero) (some os) (some ((a, sales) ∷ os))
        (λ low. (rw (e, low) h.0, sane)) (λ high. (rw (e, high) (ap (λ l. a ∷ l) h.0), sane))

  pub priced_offers-ArePriced : (ps : List (ScrapedProduct D)) → ArePriced ps (priced_offers ps)
  priced_offers-ArePriced [] = (refl, λ n. n)
  priced_offers-ArePriced (p ∷ ps) =
      add_offer-ArePriced p ps p.amount (joined p.recent_sales_count) (priced_offers ps) refl
        (priced_offers-ArePriced ps)

  abbrev pub equal_to : D → List D → ℕ
  equal_to p = countb (λ a. d.le a p && d.le p a)

  abbrev pub cheaper : D → List D → ℕ
  cheaper p = countb (λ a. lt a p)

  abbrev pub not_dearer : D → List D → ℕ
  not_dearer p = countb (λ a. d.le a p)

  -- Each offer costs no more than those behind it.
  abbrev Ascends : List (D × Option ℤ) → Type 0
  Ascends [] = Unit
  Ascends (o ∷ os) = All (λ q. d.le o.0 q.0 ≡ true) os × Ascends os

  module _ (test : D → Bool) where
    abbrev count : List (D × Option ℤ) → ℕ
    count os = countb test (map (λ o. o.0) os)

  -- At most one offer is cheaper, and at least one is not dearer.
  abbrev IsMiddle : List (D × Option ℤ) → D → Type 0
  IsMiddle os p = (count (λ a. lt a p) os ≤ 1) × (1 ≤ count (λ a. d.le a p) os)

  -- The middle one of the three cheapest prices, the average of two, or the only one.
  pub record IsDerived (xs : List D) (p : D) : Type 0 where
    pub few_cheaper : cheaper p xs ≤ 1
    pub some_not_dearer : 1 ≤ not_dearer p xs
    pub second : 3 ≤ length xs → (2 ≤ not_dearer p xs) × (1 ≤ equal_to p xs)
    pub between_two : (a b : D) → xs ≡ a ∷ b ∷ [] → (p ≡ average a b) ⊎ (p ≡ average b a)
    pub only : (a : D) → xs ≡ a ∷ [] → p ≡ a

  -- What is known of a derived price.
  abbrev pub DerivedFrom : List (ScrapedProduct D) → Option (Option D) → Type 0
  DerivedFrom ps none = HasNan ps
  DerivedFrom ps (some none) = (prices ps ≡ []) × ¬ HasNan ps
  DerivedFrom ps (some (some p)) = IsDerived (prices ps) p × ¬ HasNan ps
