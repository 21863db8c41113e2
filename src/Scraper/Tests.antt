-- ===== src/Scraper/Tests.antt =====
-- A scraper that is busy, then raises, then accepts, and a task whose second round has the result.
use jolly_jesters_mvp.Prelude.{
  ℕ, zero, suc, ◌+◌, ◌*◌, ◌≤◌, true, false, none, some, List, [], ◌∷◌, ◌≡◌, refl, arith, ltb,
  if◌then◌else◌,
}
use jolly_jesters_mvp.Prelude.Int.{ℤ, pos}
use jolly_jesters_mvp.Decimal.Scaled.{scaled}
use jolly_jesters_mvp.Json.{null}
use jolly_jesters_mvp.Worker.Rows.{no_metering}
use jolly_jesters_mvp.Scraper.Payload.{
  amount_of, bad_amount, nan_amount, ScrapedProduct, Payload, derive_price,
}
use jolly_jesters_mvp.Scraper.Client.{
  Attempts, create_task, in_work, completed, PollRound, fetch_via_allegro_scraper,
}
use jolly_jesters_mvp.Scraper.Create.{first_answer, Answers, create_task_bounded}
use jolly_jesters_mvp.Scraper.Finish.{Answered, Unreadable, fetch_via_allegro_scraper_answers}

abbrev offer : ℕ → ScrapedProduct ℤ
offer price = record { amount = amount_of (pos price); recent_sales_count = some (some (pos 3)) }

abbrev offers : List (ScrapedProduct ℤ)
offers =
    offer 2100
    ∷ record { amount = bad_amount; recent_sales_count = none }
    ∷ offer 1900
    ∷ offer 0
    ∷ offer 2000
    ∷ []

middle : derive_price offers ≡ some (some (pos 2000))
unfolding derive_price
middle = refl

-- A NaN among the prices raises.
nan_raises :
    derive_price (record { amount = nan_amount; recent_sales_count = none } ∷ offers) ≡ none
unfolding derive_price
nan_raises = refl

abbrev post : Attempts
post zero = some (record { status_code = 429; task_id = some none })
post (suc zero) = none
post (suc (suc n)) = some (record { status_code = 201; task_id = some (some "t1") })

create_task_bounded_example :
    ((create_task post).attempts ≤ 8)
    × ((create_task post).waited ≤ 79)
    × Answers (first_answer post 8 0) (create_task post).outcome
create_task_bounded_example = create_task_bounded post

abbrev payload : Payload ℤ
payload = record {
  is_no_results = false;
  products = offers;
  scraped_at = none;
  proxy_url_hash = none;
  proxy_success = some true;
  metering = no_metering;
  json = null;
}

abbrev rounds : ℕ → PollRound ℤ
rounds n = record {
  started = 5 * n;
  get = λ attempt. if ltb n 1 then some in_work else some (completed payload);
  late = λ attempt. false;
}

rounds-wait : (n : ℕ) → (rounds n).started + 5 ≤ (rounds (suc n)).started
rounds-wait n = omega arith

fetch_via_allegro_scraper_answers_example :
    Answered "590"
      (Unreadable "590" 60 rounds payload post)
      (fetch_via_allegro_scraper "590" 60 rounds [] payload post 21)
fetch_via_allegro_scraper_answers_example =
    fetch_via_allegro_scraper_answers "590" 60 rounds 5 rounds-wait [] payload post 20 (omega arith)
