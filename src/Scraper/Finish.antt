-- ===== src/Scraper/Finish.antt =====
-- The client answers, or raises for an answer that it cannot read.
use jolly_jesters_mvp.Prelude.{
  ℕ, zero, suc, ◌+◌, ◌*◌, ◌≤◌, ◌<◌, true, false, Option, none, some, String, List, anyb, ltb, ◌==◌,
  is_some, ◌≡◌, ◌⊎◌, refl, ap, subst, arith, inl, inr, if-cases, if-elim, Bool-cases, Option-cases,
  string_eq,
}
use jolly_jesters_mvp.Decimal.{Decimal}
use jolly_jesters_mvp.Json.{Json}
use jolly_jesters_mvp.Worker.Rows.{AllegroResult}
use jolly_jesters_mvp.Scraper.Payload.{
  Payload, priced_offers, extract_priced_offers, derive_price, to_result,
}
use jolly_jesters_mvp.Scraper.Price.{HasNan, priced_offers-ArePriced, ArePriced}
use jolly_jesters_mvp.Scraper.Client.{
  Created, Attempts, Creation, connect_failed, responded, create_task, TaskState, unreadable,
  unknown_task, in_work, completed, ended_with, PollRound, poll_once, temporary, failed_result,
  error_text, FetchOutcome, raised, answered, fetched, gives_up, settled_by, poll_from, follow_id,
  follow_creation, fetch_via_allegro_scraper,
}
use jolly_jesters_mvp.Scraper.Create.{retryable, first_answer, Answers, create_task_bounded}

-- Some attempt at the creation is answered with a body that cannot be read.
abbrev pub HasBadBody : Attempts → Type 0
HasBadBody post = (n : ℕ) × (r : Created) × (post n ≡ some r) × (r.task_id ≡ none)

-- The answer that decides is one of the attempts'.
first_answer-post :
    (post : Attempts) (left attempt : ℕ) (r : Created)
    → first_answer post left attempt ≡ some r
    → (n : ℕ) × (post n ≡ some r)
first_answer-post post zero attempt r e = absurd (ground arith)
first_answer-post post (suc left) attempt r e = elim (Bool-cases (retryable (post attempt))) [
  | inl again ↦ first_answer-post post left (suc attempt) r (ground (arith, again))
  | inr final ↦ (attempt, ground (arith, final))
]

-- A creation ends with an answer, unless its last attempt raised; one that is accepted came from an
-- attempt.
abbrev HasCreation : Attempts → Creation → Type 0
HasCreation post connect_failed = Unit
HasCreation post (responded none) = ⊥
HasCreation post (responded (some r)) = (r.status_code == 201) ≡ true → (n : ℕ) × (post n ≡ some r)

responded_same : (r s : Created) → responded (some r) ≡ responded (some s) → s ≡ r
responded_same r s e = ground arith

Answers-HasCreation :
    (post : Attempts) (o : Option Created) (c : Creation)
    → ((r : Created) → o ≡ some r → (n : ℕ) × (post n ≡ some r))
    → Answers o c
    → HasCreation post c
Answers-HasCreation post o connect_failed from h = tt
Answers-HasCreation post none (responded none) from h = h
Answers-HasCreation post (some r) (responded none) from h = absurd (ground arith)
Answers-HasCreation post none (responded (some r)) from h = λ ok. absurd (ground arith)
Answers-HasCreation post (some s) (responded (some r)) from h =
    λ ok. from r (ap (λ x. some x) (responded_same r s h))

module _ {D : Type 0} where
  -- An answer to the polling that cannot be read, or that has a price which is a NaN.
  abbrev pub IsGarbled : TaskState D → Type 0
  IsGarbled unreadable = Unit
  IsGarbled (completed payload) = HasNan payload.products
  IsGarbled _ = ⊥

  abbrev pub HasGarbled : (rounds : ℕ → PollRound D) → Type 0
  HasGarbled rounds =
      (n : ℕ) × (attempt : ℕ) × (state : TaskState D) × ((rounds n).get attempt ≡ some state)
      × IsGarbled state

  -- What is known of the state that a round gives.
  abbrev Found : PollRound D → Option (TaskState D) → Type 0
  Found round none = Unit
  Found round (some state) = (attempt : ℕ) × (round.get attempt ≡ some state)

  poll_once-Found :
      (round : PollRound D) (left attempt : ℕ) → Found round (poll_once round left attempt)
  unfolding poll_once
  poll_once-Found round zero attempt = tt
  poll_once-Found round (suc left) attempt = elim (Option-cases (round.get attempt)) [
    | inl e ↦
        rw (e, poll_once)
          (if-elim (Found round) (round.late attempt) none (poll_once round left (suc attempt)) tt
            (poll_once-Found round left (suc attempt)))
    | inr (state, e) ↦ rw (e, poll_once) (attempt, e)
  ]

module _ {D : Type 0} ⦃d : Decimal D⦄ (ean : String) where
  -- A result is about the EAN that was asked for, and a temporary one has no data.
  pub record IsAnswer (r : AllegroResult D) : Type 0 where
    pub about : r.ean ≡ ean
    pub bare :
        r.is_temporary_error ≡ true
        → (r.price ≡ none)
          × (r.sold_count ≡ none)
          × (r.is_not_found ≡ false)
          × (is_some r.error ≡ true)

  -- A result is there and is an answer, or an exception was raised for a reason.
  abbrev pub Answered : (reason : Type 0) → Option (FetchOutcome D) → Type 0
  Answered reason none = ⊥
  Answered reason (some raised) = reason
  Answered reason (some (answered r)) = IsAnswer r

  temporary-IsAnswer : (error : String) → IsAnswer (temporary ean error)
  temporary-IsAnswer error = record { about = refl; bare = λ e. (refl, refl, refl, refl) }

  to_result-Answered :
      (reason : Type 0) (payload : Payload D)
      → (HasNan payload.products → reason)
      → Answered reason (some (fetched (to_result ean payload)))
  unfolding to_result derive_price extract_priced_offers
  to_result-Answered reason payload because =
      let priced = priced_offers-ArePriced payload.products in
      elim (Option-cases (priced_offers payload.products)) [
        | inl e ↦
            rw (e, to_result, derive_price, extract_priced_offers)
              (because (subst (ArePriced payload.products) e priced))
        | inr (os, e) ↦
            rw (e, to_result, derive_price, extract_priced_offers)
              (record { about = refl; bare = λ t. absurd (ground arith) })
      ]

  failed-IsAnswer : (error : String) (json : Json) → IsAnswer (failed_result false ean error json)
  failed-IsAnswer error json = record { about = refl; bare = λ e. absurd (ground arith) }

module _ {D : Type 0} ⦃d : Decimal D⦄ (ean : String) (deadline : ℕ) (rounds : ℕ → PollRound D)
    (reason : Type 0) (garbled : HasGarbled rounds → reason) where
  settled-IsAnswer :
      (n : ℕ) (state : Option (TaskState D))
      → Found (rounds n) state
      → (settled_by ean deadline rounds state ≡ none)
        ⊎ Answered ean reason (settled_by ean deadline rounds state)
  settled-IsAnswer n none f = inr (temporary-IsAnswer ean "poll_failed")
  settled-IsAnswer n (some unknown_task) f = inr (temporary-IsAnswer ean "task_not_found")
  settled-IsAnswer n (some unreadable) f = inr (garbled (n, f.0, unreadable, f.1, tt))
  settled-IsAnswer n (some in_work) f = inl refl
  settled-IsAnswer n (some (completed payload)) f =
      inr (
        to_result-Answered ean reason payload
          (λ nan. garbled (n, f.0, completed payload, f.1, nan)))
  settled-IsAnswer n (some (ended_with error json)) f =
      inr (failed-IsAnswer ean (error_text error) json)

  settled-or-next :
      (settled next : Option (FetchOutcome D))
      → (settled ≡ none) ⊎ Answered ean reason settled
      → Answered ean reason next
      → Answered ean reason (elim settled [ some r ↦ some r | none ↦ next ])
  settled-or-next none next h g = g
  settled-or-next (some r) next (inl e) g = absurd (ground arith)
  settled-or-next (some r) next (inr h) g = h

  follow_id-Answered :
      (id : Option (Option String)) (polled : Option (FetchOutcome D))
      → (id ≡ none → reason)
      → Answered ean reason polled
      → Answered ean reason (follow_id ean deadline rounds id polled)
  follow_id-Answered none polled bad h = bad refl
  follow_id-Answered (some none) polled bad h = temporary-IsAnswer ean "missing_task_id"
  follow_id-Answered (some (some id)) polled bad h =
      if-elim (Answered ean reason) (string_eq.beq id "") (gives_up ean "missing_task_id") polled
        (temporary-IsAnswer ean "missing_task_id") h

  -- The polling waits between two rounds.
  module _ (poll : ℕ) (waits : (n : ℕ) → (rounds n).started + poll ≤ (rounds (suc n)).started) where
    poll_from-Answered :
        (fuel n : ℕ)
        → deadline < (rounds n).started + fuel * poll
        → Answered ean reason (poll_from ean deadline rounds (suc fuel) n)
    unfolding poll_from
    poll_from-Answered zero n enough =
        if-cases (Answered ean reason) (ltb deadline (rounds n).started) (gives_up ean "timeout") _
          (λ late. temporary-IsAnswer ean "timeout") (λ soon. absurd (ground arith))
    poll_from-Answered (suc fuel) n enough =
        let more : suc fuel * poll ≡ poll + fuel * poll = grind arith in
        if-cases (Answered ean reason) (ltb deadline (rounds n).started) (gives_up ean "timeout") _
          (λ late. temporary-IsAnswer ean "timeout")
          (λ soon.
            settled-or-next (settled_by ean deadline rounds (poll_once (rounds n) 4 0)) _
              (settled-IsAnswer n (poll_once (rounds n) 4 0) (poll_once-Found (rounds n) 4 0))
              (poll_from-Answered fuel (suc n) (omega (arith, waits n))))

    follow_creation-Answered :
        (post : Attempts) (fuel : ℕ) (c : Creation)
        → (HasBadBody post → reason)
        → HasCreation post c
        → deadline < (rounds 0).started + fuel * poll
        → Answered ean reason (follow_creation ean deadline rounds (suc fuel) c)
    follow_creation-Answered post fuel connect_failed bad h enough =
        temporary-IsAnswer ean "create_failed"
    follow_creation-Answered post fuel (responded none) bad h enough = absurd h
    follow_creation-Answered post fuel (responded (some r)) bad h enough =
        if-cases (Answered ean reason) (r.status_code == 201) _ (gives_up ean "create_failed")
          (λ ok.
            let (n, from) = h ok in
            follow_id-Answered r.task_id (poll_from ean deadline rounds (suc fuel) 0)
              (λ e. bad (n, r, from, e)) (poll_from-Answered fuel 0 enough))
          (λ other. temporary-IsAnswer ean "create_failed")

module _ {D : Type 0} ⦃d : Decimal D⦄ (ean : String) (deadline : ℕ) (rounds : ℕ → PollRound D) where
  -- Why the client may raise.
  abbrev pub Unreadable : (no_results : Payload D) → Attempts → Type 0
  Unreadable no_results post = HasBadBody post ⊎ HasGarbled rounds ⊎ HasNan no_results.products

  -- Where each round of the polling starts at least `poll` after the one before it, and the fuel's rounds
  -- reach beyond the deadline, the client ends, whichever attempts raise and whatever the answers say. It
  -- gives a result, which is about the EAN asked for, and which if it is temporary has a text and neither
  -- a price nor a count of sales, and is no "not found"; or it raises, and then the body of an answer
  -- cannot be read or a price in it is a NaN.
  pub fetch_via_allegro_scraper_answers :
      (poll : ℕ) (waits : (n : ℕ) → (rounds n).started + poll ≤ (rounds (suc n)).started)
      (forced : List String) (no_results : Payload D) (post : Attempts) (fuel : ℕ)
      → deadline < (rounds 0).started + fuel * poll
      → Answered ean
          (Unreadable no_results post)
          (fetch_via_allegro_scraper ean deadline rounds forced no_results post (suc fuel))
  unfolding fetch_via_allegro_scraper
  fetch_via_allegro_scraper_answers poll waits forced no_results post fuel enough =
      let reason = Unreadable no_results post in
      let created =
        Answers-HasCreation post (first_answer post 8 0) (create_task post).outcome
          (λ r e. first_answer-post post 8 0 r e) (create_task_bounded post).2 in
      if-elim (Answered ean reason) (anyb (λ e. string_eq.beq e ean) forced)
        (some (fetched (to_result ean no_results))) _
        (to_result-Answered ean reason no_results (λ nan. inr (inr nan)))
        (follow_creation-Answered ean deadline rounds reason (λ g. inr (inl g)) poll waits post fuel
          (create_task post).outcome (λ b. inl b) created enough)
