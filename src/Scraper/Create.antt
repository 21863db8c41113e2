-- ===== src/Scraper/Create.antt =====
-- The creation of a task: its bounds, and what it answers.
use jolly_jesters_mvp.Prelude.{
  ℕ, zero, suc, ◌+◌, ◌≤◌, Bool, true, false, Option, none, some, ◌≡◌, ◌≢◌, inl, inr, refl, sym,
  arith, Bool-cases, Option-cases, ◌==◌, leb, if◌then◌else◌, subst,
}
use jolly_jesters_mvp.Scraper.Client.{
  Created, Attempts, Creation, connect_failed, responded, Creating, backoff, create_from,
  create_task,
}

-- An attempt after which another one is made: it raised, or the scraper was busy.
abbrev pub retryable : Option Created → Bool
retryable none = true
retryable (some r) = r.status_code == 429

-- The first answer that is not "busy", among the attempts that are left.
abbrev pub first_answer : Attempts → (left attempt : ℕ) → Option Created
first_answer post zero attempt = none
first_answer post (suc left) attempt =
    let rest = first_answer post left (suc attempt) in
    if retryable (post attempt) then rest else post attempt

-- The waits of the attempts that are left.
abbrev pub waits : (left attempt : ℕ) → ℕ
waits zero attempt = 0
waits (suc left) attempt = backoff attempt + waits left (suc attempt)

-- A creation that has failed: the last attempt raised, or the scraper was busy to the end.
abbrev pub HasFailed : Creation → Type 0
HasFailed connect_failed = Unit
HasFailed (responded none) = ⊥
HasFailed (responded (some r)) = r.status_code ≡ 429

-- The answer, or the failure.
abbrev pub Answers : Option Created → Creation → Type 0
Answers none c = HasFailed c
Answers (some r) c = c ≡ responded (some r)

record Ends (post : Attempts) (left attempt waited : ℕ) (c : Creating) : Type 0 where
  tries : c.attempts ≤ attempt + left
  bounded : c.waited ≤ waited + waits left attempt
  answer : Answers (first_answer post left attempt) c.outcome

module _ (post : Attempts) where
  abbrev step : (left attempt : ℕ) → Option Created → (waited : ℕ) → Option Created → Creating
  step left attempt create waited none =
      let again = create_from post left (suc attempt) create (waited + backoff attempt) in
      if leb 7 attempt
      then record { outcome = connect_failed; attempts = suc attempt; waited = waited }
      else again
  step left attempt create waited (some r) =
      let again = create_from post left (suc attempt) (some r) (waited + backoff attempt) in
      if r.status_code == 429
      then again
      else record { outcome = responded (some r); attempts = suc attempt; waited = waited }

  create_from-step :
      (left attempt : ℕ) (create : Option Created) (waited : ℕ)
      → create_from post (suc left) attempt create waited
        ≡ step left attempt create waited (post attempt)
  unfolding create_from
  create_from-step left attempt create waited = elim (Option-cases (post attempt)) [
    | inl e ↦ rw (e, create_from)
    | inr (r, e) ↦ rw (e, create_from)
  ]

  -- What holds before an attempt: the answer so far is a busy one, if any attempt has answered.
  abbrev Busy : Option Created → Type 0
  Busy none = Unit
  Busy (some r) = r.status_code ≡ 429

  first_answer-again :
      (left attempt : ℕ)
      → retryable (post attempt) ≡ true
      → first_answer post (suc left) attempt ≡ first_answer post left (suc attempt)
  first_answer-again left attempt t = rw (t, first_answer)

  Ends-again :
      (left attempt waited : ℕ) (c : Creating)
      → retryable (post attempt) ≡ true
      → Ends post left (suc attempt) (waited + backoff attempt) c
      → Ends post (suc left) attempt waited c
  Ends-again left attempt waited c t h = record {
    tries = omega (arith, h.tries);
    bounded = omega (arith, h.bounded);
    answer = subst (λ o. Answers o c.outcome) (sym (first_answer-again left attempt t)) h.answer;
  }

  -- An answer that is not "busy" is final.
  Ends-final :
      (left attempt waited : ℕ) (r : Created)
      → post attempt ≡ some r
      → (r.status_code == 429) ≡ false
      → Ends post
          (suc left)
          attempt
          waited
          (record { outcome = responded (some r); attempts = suc attempt; waited = waited })
  Ends-final left attempt waited r e t = record {
    tries = omega arith;
    bounded = omega arith;
    answer = rw (e, first_answer, t) refl;
  }

  Ends-raised :
      (left attempt waited : ℕ)
      → left ≡ 0
      → post attempt ≡ none
      → Ends post
          (suc left)
          attempt
          waited
          (record { outcome = connect_failed; attempts = suc attempt; waited = waited })
  Ends-raised left attempt waited e0 e = record {
    tries = omega arith;
    bounded = omega arith;
    answer = subst (λ o. Answers o connect_failed) (sym (no_answer left e0)) tt;
  }
    where
      no_answer : (left : ℕ) → left ≡ 0 → first_answer post (suc left) attempt ≡ none
      no_answer zero e0 = rw (e, first_answer)
      no_answer (suc left) e0 = absurd (omega arith)

  create_from-Ends :
      (left attempt : ℕ) (create : Option Created) (waited : ℕ)
      → attempt + left ≡ 8
      → Busy create
      → (left ≡ 0 → create ≢ none)
      → Ends post left attempt waited (create_from post left attempt create waited)
  unfolding create_from
  create_from-Ends zero attempt none waited e busy last = absurd (last refl refl)
  create_from-Ends zero attempt (some r) waited e busy last = record {
    tries = omega arith;
    bounded = omega arith;
    answer = busy;
  }
  create_from-Ends (suc left) attempt create waited e busy last =
      rw (create_from-step left attempt create waited) (elim (Option-cases (post attempt)) [
        | inl p ↦ elim (Bool-cases (leb 7 attempt)) [
          | inl late ↦ rw (p, step, late) (Ends-raised left attempt waited (ground arith) p)
          | inr soon ↦
              rw (p, step, soon)
                (Ends-again left attempt waited _ (rw p) (
                  create_from-Ends left (suc attempt) create (waited + backoff attempt)
                    (omega arith) busy (λ e0. absurd (ground arith))))
        ]
        | inr (r, p) ↦ elim (Bool-cases (r.status_code == 429)) [
          | inl is_busy ↦
              rw (p, step, is_busy)
                (Ends-again left attempt waited _ (rw p is_busy) (
                  create_from-Ends left (suc attempt) (some r) (waited + backoff attempt)
                    (omega arith) (ground arith) (λ e0. ground arith)))
          | inr done ↦ rw (p, step, done) (Ends-final left attempt waited r p done)
        ]
      ])

  -- A creation makes at most 8 attempts and waits at most 79 seconds in all. It ends with the first
  -- answer that is not "busy" (429), and when there is none among the 8 attempts, it has failed.
  pub create_task_bounded :
      let c = create_task post in
      (c.attempts ≤ 8) × (c.waited ≤ 79) × Answers (first_answer post 8 0) c.outcome
  unfolding create_task
  create_task_bounded =
      let h = create_from-Ends 8 0 none 0 refl tt (λ e. absurd (omega arith)) in
      (omega (arith, h.tries), omega (arith, h.bounded), h.answer)
