-- ===== src/Scraper/Client.antt =====
-- `fetch_via_allegro_scraper` of backend/app/utils/allegro_scraper_client.py: the creation of a task
-- with its retries, the polling until a deadline, and the normalising of the answer. The waits of the
-- creation are whole seconds, and moments are whole microseconds. Of the payload of a temporary result
-- only the text is kept.
use jolly_jesters_mvp.Prelude.{
  ℕ, zero, suc, ◌+◌, ◌^◌, min, Bool, true, false, Option, none, some, String, List, anyb, ltb, leb,
  ◌==◌, if◌then◌else◌, string_eq,
}
use jolly_jesters_mvp.Decimal.{Decimal}
use jolly_jesters_mvp.Json.{Json, text, object, field, end}
use jolly_jesters_mvp.Worker.Rows.{AllegroResult, no_metering}
use jolly_jesters_mvp.Scraper.Payload.{Payload, to_result}

-- An answer to `POST /createTask`, with the task's number where its body has one. `none` stands for a
-- body that cannot be read: it is not JSON, or the JSON has another shape, so that reading it raises.
pub record Created : Type 0 where
  pub status_code : ℕ
  pub task_id : Option (Option String)

-- What an attempt gives: `none` where the client raises.
abbrev pub Attempts : Type 0
Attempts = ℕ → Option Created

-- How the creation ends: the last attempt raised, or the last answer, if there was one.
pub data Creation : Type 0 where
  connect_failed : Creation
  responded : Option Created → Creation

pub record Creating : Type 0 where
  pub outcome : Creation
  pub attempts : ℕ
  pub waited : ℕ

-- `min(2 ** backoff_attempt, 16)`
abbrev pub backoff : (attempt : ℕ) → ℕ
backoff attempt = min (2 ^ attempt) 16

-- The loop over the attempts, with `left` of them to come.
unfoldable pub create_from :
    Attempts → (left attempt : ℕ) → (create : Option Created) → (waited : ℕ) → Creating
create_from post zero attempt create waited = record {
  outcome = responded create;
  attempts = attempt;
  waited = waited;
}
create_from post (suc left) attempt create waited =
    let again = λ (create' : Option Created).
      create_from post left (suc attempt) create' (waited + backoff attempt) in
    elim (post attempt) [
      | none ↦
          if leb 7 attempt
          then record { outcome = connect_failed; attempts = suc attempt; waited = waited }
          else again create
      | some r ↦
          if r.status_code == 429
          then again (some r)
          else record { outcome = responded (some r); attempts = suc attempt; waited = waited }
    ]

abbrev pub max_attempts : ℕ
max_attempts = 8

unfoldable pub create_task : Attempts → Creating
create_task post = create_from post max_attempts 0 none 0

-- An answer to `GET /getTaskResult`, read by its status; reading an `unreadable` body raises.
pub data TaskState (D : Type 0) : Type 0 where
  unreadable : TaskState D
  unknown_task : TaskState D
  in_work : TaskState D
  completed : Payload D → TaskState D
  ended_with : (error : Option String) → Json → TaskState D

-- How the client ends: with a result, or with an exception.
pub data FetchOutcome (D : Type 0) : Type 0 where
  raised : FetchOutcome D
  answered : AllegroResult D → FetchOutcome D

-- One round of the polling: the four attempts, and after each of them whether the deadline is past.
pub record PollRound (D : Type 0) : Type 0 where
  pub started : ℕ
  pub get : ℕ → Option (TaskState D)
  pub late : ℕ → Bool

-- `payload.get("error") or "scraper_failed"`
abbrev pub error_text : Option String → String
error_text none = "scraper_failed"
error_text (some e) = if string_eq.beq e "" then "scraper_failed" else e

module _ {D : Type 0} where
  -- The loop over the attempts of a round.
  unfoldable pub poll_once : PollRound D → (left attempt : ℕ) → Option (TaskState D)
  poll_once round zero attempt = none
  poll_once round (suc left) attempt =
      let again = poll_once round left (suc attempt) in
      elim (round.get attempt) [
        | some state ↦ some state
        | none ↦ if round.late attempt then none else again
      ]

  -- A result without data: `error` is the text, and the payload has it.
  abbrev pub failed_result :
      (is_temporary_error : Bool) → (ean error : String) → Json → AllegroResult D
  failed_result is_temporary_error ean error payload = record {
    ean = ean;
    products = 0;
    price = none;
    sold_count = none;
    is_not_found = false;
    is_temporary_error = is_temporary_error;
    raw_payload = payload;
    error = some error;
    scraped_at = none;
    proxy_url_hash = none;
    proxy_success = none;
    metering = no_metering;
  }

  abbrev pub temporary : (ean error : String) → AllegroResult D
  temporary ean error = failed_result true ean error (object (field "error" (text error) end))

  abbrev pub gives_up : (ean error : String) → Option (FetchOutcome D)
  gives_up ean error = some (answered (temporary ean error))

  abbrev pub fetched : Option (AllegroResult D) → FetchOutcome D
  fetched none = raised
  fetched (some r) = answered r

module _ {D : Type 0} ⦃d : Decimal D⦄ (ean : String) (deadline : ℕ) (rounds : ℕ → PollRound D) where
  -- The result of a round that is not the last, or `none` for the next round.
  abbrev pub settled_by : Option (TaskState D) → Option (FetchOutcome D)
  settled_by none = gives_up ean "poll_failed"
  settled_by (some unknown_task) = gives_up ean "task_not_found"
  settled_by (some unreadable) = some raised
  settled_by (some in_work) = none
  settled_by (some (completed payload)) = some (fetched (to_result ean payload))
  settled_by (some (ended_with error json)) =
      some (answered (failed_result false ean (error_text error) json))

  -- The `while True`, on fuel: `none` means that the fuel has run out.
  unfoldable pub poll_from : (fuel n : ℕ) → Option (FetchOutcome D)
  poll_from zero n = none
  poll_from (suc fuel) n =
      let next = poll_from fuel (suc n) in
      if ltb deadline (rounds n).started
      then gives_up ean "timeout"
      else elim (settled_by (poll_once (rounds n) 4 0)) [ some r ↦ some r | none ↦ next ]

  -- The task's number, and the polling.
  abbrev pub follow_id :
      (task_id : Option (Option String))
      → (polled : Option (FetchOutcome D)) → Option (FetchOutcome D)
  follow_id none polled = some raised
  follow_id (some none) polled = gives_up ean "missing_task_id"
  follow_id (some (some id)) polled =
      if string_eq.beq id "" then gives_up ean "missing_task_id" else polled

  -- What follows the creation. Without an answer, reading its text raises.
  abbrev pub follow_task : (fuel : ℕ) → Option Created → Option (FetchOutcome D)
  follow_task fuel none = some raised
  follow_task fuel (some r) =
      let polled = poll_from fuel 0 in
      if r.status_code == 201 then follow_id r.task_id polled else gives_up ean "create_failed"

  abbrev pub follow_creation : (fuel : ℕ) → Creation → Option (FetchOutcome D)
  follow_creation fuel connect_failed = gives_up ean "create_failed"
  follow_creation fuel (responded create) = follow_task fuel create

  -- `fetch_via_allegro_scraper`. `forced` are the EANs that a setting answers by "no results".
  unfoldable pub fetch_via_allegro_scraper :
      (forced : List String)
      → (no_results : Payload D) → Attempts
      → (fuel : ℕ) → Option (FetchOutcome D)
  fetch_via_allegro_scraper forced no_results post fuel =
      if anyb (λ e. string_eq.beq e ean) forced
      then some (fetched (to_result ean no_results))
      else follow_creation fuel (create_task post).outcome
