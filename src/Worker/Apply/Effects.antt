-- ===== src/Worker/Apply/Effects.antt =====
-- What applying a result leaves in the tables, and that cached data gives the same row again.
use jolly_jesters_mvp.Prelude.{
  ℕ, ◌+◌, ◌<◌, Bool, true, false, not, ◌&&◌, none, some, List, [], ◌∷◌, ◌++◌, ◌==◌, or_else, findb,
  All, ◌≡◌, refl, ◌∙◌, arith, Bool-cases, inl, inr,
}
use jolly_jesters_mvp.Decimal.{Decimal}
use jolly_jesters_mvp.Enums.{ScrapeStatus}
use jolly_jesters_mvp.Profit.{Category, Settings}
use jolly_jesters_mvp.ProxyPool.{update_first}
use jolly_jesters_mvp.Worker.Rows.{
  AllegroResult, Item, MarketData, EffectiveState, Database, state_of, latest_of, last_market_data,
}
use jolly_jesters_mvp.Worker.Cache.{extract_offer_count}
use jolly_jesters_mvp.Worker.Apply.{
  apply_cached_market_data, apply_final, apply_scraped_result, persist_market_data,
  update_effective_state,
}

findb-update_first {ℓ} :
    {A : Type ℓ} (test : A → Bool) (f : A → A) (xs : List A) (x : A)
    → findb test xs ≡ some x
    → test (f x) ≡ true
    → findb test (update_first test f xs) ≡ some (f x)
findb-update_first test f [] x e h = cc
findb-update_first test f (y ∷ xs) x e h = ground (arith, findb-update_first test f xs x)

module _ {D : Type 0} where
  find-fresh :
      (ms : List (MarketData D)) (m : MarketData D)
      → All (λ n. n.id < m.id) ms
      → findb (λ n. n.id == m.id) (ms ++ m ∷ []) ≡ some m
  find-fresh [] m h = ground arith
  find-fresh (n ∷ ms) m h = ground (arith, find-fresh ms m h.1)

  -- The rows of market data are numbered below the next number.
  abbrev pub Numbered : Database D → Type 0
  Numbered db = All (λ m. m.id < db.next_market_id) db.market

  -- The row that a result is stored as.
  abbrev pub row_of : (now product : ℕ) → AllegroResult D → (id : ℕ) → MarketData D
  row_of now product r id = record {
    id = id;
    product_id = product;
    allegro_price = r.price;
    allegro_sold_count = r.sold_count;
    is_not_found = r.is_not_found;
    raw_payload = some r.raw_payload;
    last_checked_at = some (or_else r.scraped_at now);
  }

  latest_of-some :
      (product : ℕ) (db : Database D) (s : EffectiveState D)
      → state_of product db ≡ some s
      → latest_of product db ≡ last_market_data s db
  latest_of-some product db s e = rw (e, latest_of)

  Numbered-append :
      (x : MarketData D) (ms : List (MarketData D))
      → All (λ m. m.id < x.id) ms
      → All (λ m. m.id < x.id + 1) (ms ++ x ∷ [])
  Numbered-append x [] h = (omega arith, tt)
  Numbered-append x (m ∷ ms) h = (omega arith, Numbered-append x ms h.1)

module _ {D : Type 0} ⦃d : Decimal D⦄ (k : Settings D) (c : Category D) (now product : ℕ)
    (r : AllegroResult D) (item : Item D) (db : Database D) where
  -- The state that `_update_effective_state` leaves.
  abbrev updated : EffectiveState D → EffectiveState D
  updated s = record s {
    last_market_data_id = some db.next_market_id;
    last_checked_at = some (or_else r.scraped_at now);
    is_not_found = r.is_not_found;
    profitability_score = (apply_final k c r item).profitability_score;
    profitability_label = (apply_final k c r item).profitability_label;
    updated_at = some now;
  }

  -- Whether the result is a temporary error that the tables never see.
  abbrev pub is_transient : Bool
  is_transient = r.is_temporary_error && not r.is_not_found

  -- The row and the tables after a result that is stored.
  abbrev pub stored : Item D × Database D
  stored = (
    apply_final k c r item,
    update_effective_state now product db.next_market_id r (apply_final k c r item)
        (persist_market_data now product r db),
  )

  pub apply_scraped_result-stored :
      is_transient ≡ false → apply_scraped_result k c now product r (item, db) ≡ stored
  unfolding apply_scraped_result
  apply_scraped_result-stored e = rw e

  state_of-stored :
      (s : EffectiveState D)
      → state_of product db ≡ some s
      → state_of product stored.1 ≡ some (updated s)
  unfolding update_effective_state persist_market_data
  state_of-stored s e =
      findb-update_first (λ s. s.product_id == product) updated db.states s e
        (find-keeps db.states e)
    where
      find-keeps :
          (xs : List (EffectiveState D))
          → findb (λ s. s.product_id == product) xs ≡ some s
          → (s.product_id == product) ≡ true
      find-keeps [] h = cc
      find-keeps (x ∷ xs) h = ground (arith, find-keeps xs)

  pub latest_of-stored :
      (s : EffectiveState D)
      → Numbered db
      → state_of product db ≡ some s
      → latest_of product stored.1 ≡ some (row_of now product r db.next_market_id)
  unfolding update_effective_state persist_market_data
  latest_of-stored s numbered e =
      latest_of-some product stored.1 (updated s) (state_of-stored s e)
      ∙ find-fresh db.market (row_of now product r db.next_market_id) numbered

  -- A temporary error leaves the tables alone. Any other result of a product that has a state, in
  -- tables whose market data is numbered below the next number, becomes the newest row of market data
  -- and the product's latest, no older row changes, and the product's state has the score and the
  -- label that the row of the run has.
  pub apply_scraped_result_effects :
      (s : EffectiveState D)
      → Numbered db
      → state_of product db ≡ some s
      → let after = apply_scraped_result k c now product r (item, db) in
        (is_transient ≡ true
          → (after.1 ≡ db)
            × (after.0.scrape_status ≡ ScrapeStatus.network_error)
            × (after.0.profitability_label ≡ none))
        × (is_transient ≡ false
            → let m = row_of now product r db.next_market_id in
              (latest_of product after.1 ≡ some m)
              × (after.1.market ≡ db.market ++ m ∷ [])
              × Numbered after.1
              × ((s' : EffectiveState D) × (state_of product after.1 ≡ some s')
                  × (s'.profitability_score ≡ after.0.profitability_score)
                  × (s'.profitability_label ≡ after.0.profitability_label)
                  × (s'.is_not_found ≡ r.is_not_found)))
  unfolding apply_scraped_result update_effective_state persist_market_data
  apply_scraped_result_effects s numbered e = (
    λ t. rw t (refl, refl, refl),
    λ t. rw (apply_scraped_result-stored t) (
      latest_of-stored s numbered e,
      refl,
      Numbered-append (row_of now product r db.next_market_id) db.market numbered,
      (updated s, state_of-stored s e, refl, refl, refl),
    ),
  )

  -- A stored result whose payload lists as many products as the result gives the same price, sales,
  -- score, label and status when it is read back as cached data in place of being scraped.
  cached_as_scraped :
      extract_offer_count (some r.raw_payload) ≡ some r.products
      → let cached =
          apply_cached_market_data k c item (some (row_of now product r db.next_market_id)) in
        let scraped = apply_final k c r item in
        (cached.allegro_price ≡ scraped.allegro_price)
        × (cached.allegro_sold_count ≡ scraped.allegro_sold_count)
        × (cached.profitability_score ≡ scraped.profitability_score)
        × (cached.profitability_label ≡ scraped.profitability_label)
        × (cached.scrape_status ≡ scraped.scrape_status)
  unfolding apply_cached_market_data
  cached_as_scraped e = elim (Bool-cases r.is_not_found) [
    | inl found ↦ rw found (refl, refl, refl, refl, refl)
    | inr found ↦ rw (found, e) (refl, refl, refl, refl, refl)
  ]
