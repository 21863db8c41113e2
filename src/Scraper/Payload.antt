-- ===== src/Scraper/Payload.antt =====
-- What an answer of the scraper becomes: `_extract_priced_offers`, `_derive_price`,
-- `_derive_sold_count` and `_to_result` of backend/app/utils/allegro_scraper_client.py. An answer is
-- read into the values that the code takes from it: of a count that Python converts, the outer option
-- says whether it is there and the inner one whether the conversion works.
use jolly_jesters_mvp.Prelude.{
  ℕ, Bool, false, ◌||◌, Option, none, some, String, List, [], ◌∷◌, length, ◌==◌, if◌then◌else◌,
}
use jolly_jesters_mvp.Prelude.Int.{ℤ, ltb_ℤ}
use jolly_jesters_mvp.Decimal.{Decimal, lt}
use jolly_jesters_mvp.Json.{Json}
use jolly_jesters_mvp.Worker.Rows.{AllegroResult, Metering}

-- What `Decimal(str(amount))` gives: nothing, an exception, a NaN, or a number.
pub data Amount (D : Type 0) : Type 0 where
  no_amount bad_amount nan_amount : Amount D
  amount_of : D → Amount D

pub record ScrapedProduct (D : Type 0) : Type 0 where
  pub amount : Amount D
  pub recent_sales_count : Option (Option ℤ)

pub record Payload (D : Type 0) : Type 0 where
  pub is_no_results : Bool
  pub products : List (ScrapedProduct D)
  pub scraped_at : Option ℕ
  pub proxy_url_hash : Option String
  pub proxy_success : Option Bool
  pub metering : Metering
  pub json : Json

abbrev pub joined {ℓ} : {A : Type ℓ} → Option (Option A) → Option A
joined none = none
joined (some x) = x

-- `max(counts)`, the first of the greatest.
abbrev pub greatest : ℤ → List ℤ → ℤ
greatest best [] = best
greatest best (n ∷ ns) = greatest (if ltb_ℤ best n then n else best) ns

abbrev pub max_of : List ℤ → Option ℤ
max_of [] = none
max_of (n ∷ ns) = some (greatest n ns)

module _ {D : Type 0} where
  -- The counts that can be read.
  abbrev pub sales_counts : List (ScrapedProduct D) → List ℤ
  sales_counts [] = []
  sales_counts (p ∷ ps) = elim (joined p.recent_sales_count) [
    | none ↦ sales_counts ps
    | some n ↦ n ∷ sales_counts ps
  ]

  -- `_derive_sold_count`
  unfoldable pub derive_sold_count : List (ScrapedProduct D) → Option ℤ
  derive_sold_count ps = max_of (sales_counts ps)

module _ {D : Type 0} ⦃d : Decimal D⦄ where
  abbrev pub prepend_offer :
      D × Option ℤ → Option (List (D × Option ℤ)) → Option (List (D × Option ℤ))
  prepend_offer o none = none
  prepend_offer o (some os) = some (o ∷ os)

  -- A product before the others. The comparison of a NaN with 0 stands behind the `try`.
  abbrev pub add_offer :
      Amount D → (sales : Option ℤ) → Option (List (D × Option ℤ)) → Option (List (D × Option ℤ))
  add_offer no_amount sales rest = rest
  add_offer bad_amount sales rest = rest
  add_offer nan_amount sales rest = none
  add_offer (amount_of a) sales rest = if d.le a d.zero then rest else prepend_offer (a, sales) rest

  -- The offers with a price above zero, with their sales; `none` is InvalidOperation.
  abbrev pub priced_offers : List (ScrapedProduct D) → Option (List (D × Option ℤ))
  priced_offers [] = some []
  priced_offers (p ∷ ps) = add_offer p.amount (joined p.recent_sales_count) (priced_offers ps)

  -- `offers.sort(key=...)`, which keeps the order of offers with equal prices.
  abbrev pub insert_offer : D × Option ℤ → List (D × Option ℤ) → List (D × Option ℤ)
  insert_offer o [] = o ∷ []
  insert_offer o (q ∷ qs) = if lt q.0 o.0 then q ∷ insert_offer o qs else o ∷ q ∷ qs

  abbrev pub sort_offers : List (D × Option ℤ) → List (D × Option ℤ)
  sort_offers [] = []
  sort_offers (o ∷ os) = insert_offer o (sort_offers os)

  unfoldable pub extract_priced_offers : List (ScrapedProduct D) → Option (List (D × Option ℤ))
  extract_priced_offers ps = elim (priced_offers ps) [
    | none ↦ none
    | some os ↦ some (sort_offers os)
  ]

  abbrev pub average : D → D → D
  average a b = d.div (d.add a b) (d.add d.one d.one)

  -- The middle one of the three cheapest offers, or what there is of them.
  abbrev pub middle_price : List (D × Option ℤ) → Option D
  middle_price [] = none
  middle_price (o ∷ []) = some o.0
  middle_price (o ∷ p ∷ []) = some (average o.0 p.0)
  middle_price (o ∷ p ∷ q ∷ os) = some p.0

  -- `_derive_price`: `none` is the exception.
  unfoldable pub derive_price : List (ScrapedProduct D) → Option (Option D)
  unfolding extract_priced_offers
  derive_price ps = elim (extract_priced_offers ps) [
    | none ↦ none
    | some os ↦ some (middle_price os)
  ]

  abbrev pub result_with : (ean : String) → Payload D → (price : Option D) → AllegroResult D
  result_with ean payload price = record {
    ean = ean;
    products = length payload.products;
    price = price;
    sold_count = derive_sold_count payload.products;
    is_not_found = payload.is_no_results || length payload.products == 0;
    is_temporary_error = false;
    raw_payload = payload.json;
    error = none;
    scraped_at = payload.scraped_at;
    proxy_url_hash = payload.proxy_url_hash;
    proxy_success = payload.proxy_success;
    metering = payload.metering;
  }

  -- `_to_result`, on an answer whose `ean` the caller has set: `none` is the exception.
  unfoldable pub to_result : (ean : String) → Payload D → Option (AllegroResult D)
  to_result ean payload = elim (derive_price payload.products) [
    | none ↦ none
    | some price ↦ some (result_with ean payload price)
  ]
