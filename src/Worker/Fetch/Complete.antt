-- ===== src/Worker/Fetch/Complete.antt =====
-- Which EANs of a batch have a result.
use jolly_jesters_mvp.Prelude.{
  ℕ, suc, Bool, true, false, not, ◌==◌, some, String, List, [], ◌∷◌, filterb, length, is_some,
  lookup, insert, lookup-insert, string_eq, beq_refl, ◌≡◌, ◌≢◌, refl, arith, All, Bool-cases,
  Option-cases, inl, inr, subst,
}
use jolly_jesters_mvp.Breaker.{CircuitBreaker, is_open}
use jolly_jesters_mvp.Worker.Rows.{AllegroResult}
use jolly_jesters_mvp.Worker.Fetch.{
  Fetched, Messages, Cache, result_of, store_results, select, get_or_fetch_batch, error_result,
  all_errors, Round, attempt, fetch_needed, fetch_batch,
}

All-map {ℓ κ κ'} :
    {A : Type ℓ} (P : A → Type κ) (Q : A → Type κ') (f : (x : A) → P x → Q x) (xs : List A)
    → All P xs
    → All Q xs
All-map P Q f [] h = tt
All-map P Q f (x ∷ xs) h = (f x h.0, All-map P Q f xs h.1)

filterb-true {ℓ} :
    {A : Type ℓ} (test : A → Bool) (x : A) (xs : List A)
    → test x ≡ true
    → filterb test (x ∷ xs) ≡ x ∷ filterb test xs
filterb-true test x xs e = rw (e, filterb)

filterb-false {ℓ} :
    {A : Type ℓ} (test : A → Bool) (x : A) (xs : List A)
    → test x ≡ false
    → filterb test (x ∷ xs) ≡ filterb test xs
filterb-false test x xs e = rw (e, filterb)

All-filterb {ℓ κ} :
    {A : Type ℓ} (P : A → Type κ) (test : A → Bool)
    → ((x : A) → test x ≡ false → P x)
    → (xs : List A) → All P (filterb test xs)
    → All P xs
All-filterb P test skipped [] h = tt
All-filterb P test skipped (x ∷ xs) h = elim (Bool-cases (test x)) [
  | inl e ↦
      let kept : All P (x ∷ filterb test xs) = subst (All P) (filterb-true test x xs e) h in
      (kept.0, All-filterb P test skipped xs kept.1)
  | inr e ↦
      (skipped x e, All-filterb P test skipped xs (subst (All P) (filterb-false test x xs e) h))
]

module _ {D : Type 0} where
  -- An EAN has a result.
  abbrev pub Has : Cache D → String → Type 0
  Has cache ean = is_some (lookup ean cache) ≡ true

  Has-insert :
      (k j : String) (r : AllegroResult D) (cache : Cache D)
      → Has cache j
      → Has (insert k r cache) j
  Has-insert k j r cache h = ground (arith, lookup-insert k j r cache)

  insert-Has : (k : String) (r : AllegroResult D) (cache : Cache D) → Has (insert k r cache) k
  insert-Has k r cache = rw (lookup-insert k k r cache, beq_refl k)

module _ {D : Type 0} (msg : Messages) (fetch : ℕ → String → Fetched D) where
  store_results-keeps :
      (i : ℕ) (eans : List String) (cache : Cache D) (j : String)
      → Has cache j
      → Has (store_results msg fetch i eans cache) j
  store_results-keeps i [] cache j h = h
  store_results-keeps i (ean ∷ eans) cache j h =
      let r = result_of msg ean (fetch i ean) in
      store_results-keeps (suc i) eans (insert ean r cache) j (Has-insert ean j r cache h)

  store_results-Has :
      (i : ℕ) (eans : List String) (cache : Cache D)
      → All (Has (store_results msg fetch i eans cache)) eans
  store_results-Has i [] cache = tt
  store_results-Has i (ean ∷ eans) cache =
      let r = result_of msg ean (fetch i ean) in
      (
        store_results-keeps (suc i) eans (insert ean r cache) ean (insert-Has ean r cache),
        store_results-Has (suc i) eans (insert ean r cache),
      )

module _ {D : Type 0} where
  select-Has :
      (eans : List String) (cache : Cache D)
      → All (Has cache) eans
      → (d : Cache D) × (select eans cache ≡ some d) × All (Has d) eans
  select-Has [] cache h = ([], refl, tt)
  select-Has (ean ∷ eans) cache h = elim (Option-cases (lookup ean cache)) [
    | inl e ↦ absurd (ground arith)
    | inr (r, e) ↦
        let (d, s, hs) = select-Has eans cache h.1 in
        (
          insert ean r d,
          rw (e, select, s),
          (
            insert-Has ean r d,
            All-map (Has d) (Has (insert ean r d)) (λ j. Has-insert ean j r d) eans hs,
          ),
        )
  ]

all_errors-Has :
    (D : Type 0) (error : String) (eans : List String)
    → All (Has {D = D} (all_errors error eans)) eans
all_errors-Has D error [] = tt
all_errors-Has D error (ean ∷ eans) =
    let d : Cache D = all_errors error eans in
    let r : AllegroResult D = error_result ean error in
    (
      insert-Has ean r d,
      All-map (Has d) (Has (insert ean r d)) (λ j. Has-insert ean j r d) eans
          (all_errors-Has D error eans),
    )

-- A batch never meets a KeyError: every EAN asked for is in the result, whether it was cached, fetched,
-- repeated in the list, or its fetch threw.
pub get_or_fetch_batch-Has :
    {D : Type 0} (msg : Messages) (fetch : ℕ → String → Fetched D) (eans : List String)
    (cache : Cache D)
    → (d : Cache D) × ((get_or_fetch_batch msg fetch eans cache).1 ≡ some d) × All (Has d) eans
unfolding get_or_fetch_batch
get_or_fetch_batch-Has msg fetch eans cache =
    let missing : String → Bool = λ e. not (is_some (lookup e cache)) in
    let cache' = store_results msg fetch 0 (filterb missing eans) cache in
    select-Has eans cache' (
      All-filterb (Has cache') missing
        (λ e kept. store_results-keeps msg fetch 0 (filterb missing eans) cache e (ground arith))
        eans (store_results-Has msg fetch 0 (filterb missing eans) cache))

attempt-Has :
    {D : Type 0} (msg : Messages) (round : Round D) (eans : List String) (cache : Cache D)
    (b : CircuitBreaker) (requests : ℕ)
    → All (Has (attempt msg round eans cache b requests).results) eans
attempt-Has {D} msg round eans cache b requests = elim (Option-cases round.batch_exception) [
  | inr (cls, e) ↦ rw (e, attempt) (all_errors-Has D (msg.unexpected cls) eans)
  | inl e ↦
      let (d, s, h) = get_or_fetch_batch-Has msg round.fetch eans cache in rw (e, attempt, s) h
]

module _ {D : Type 0} (msg : Messages) (round : Round D) (eans : List String) (cache : Cache D)
    (b : CircuitBreaker) (requests : ℕ) where
  -- Whether the breaker is open when a batch asks it first, and when it asks again.
  abbrev pub is_open_first : Bool
  is_open_first = (is_open round.probe_at b).1

  abbrev pub is_open_again : Bool
  is_open_again = (is_open round.reprobe_at (is_open round.probe_at b).0).1

  closed-Has :
      is_open_first ≡ false → All (Has (fetch_needed msg round eans cache b requests).results) eans
  unfolding fetch_needed
  closed-Has e = rw e (attempt-Has msg round eans cache (is_open round.probe_at b).0 requests)

  open-Has :
      is_open_first ≡ true
      → is_open_again ≡ true
      → All (Has (fetch_needed msg round eans cache b requests).results) eans
  unfolding fetch_needed
  open-Has e s = rw (e, s) (all_errors-Has D "circuit_breaker_open" eans)

  reopened-results :
      is_open_first ≡ true
      → is_open_again ≡ false
      → (fetch_needed msg round eans cache b requests).results ≡ []
  unfolding fetch_needed
  reopened-results e s = rw (e, s)

  fetch_batch-needed :
      eans ≢ []
      → fetch_batch msg round eans cache b requests ≡ fetch_needed msg round eans cache b requests
  unfolding fetch_batch
  fetch_batch-needed ne = elim (Bool-cases (length eans == 0)) [
    | inl e ↦ absurd (ne (length-nil eans e))
    | inr e ↦ rw e
  ]
    where
      length-nil : (xs : List String) → (length xs == 0) ≡ true → xs ≡ []
      length-nil [] e = refl
      length-nil (x ∷ xs) e = absurd (ground arith)

  -- A non-empty batch has a result for every EAN unless the breaker is open when it is asked first and
  -- no longer open when it is asked again; then it has no result at all, although its items await one.
  pub fetch_batch-results :
      eans ≢ []
      → let results = (fetch_batch msg round eans cache b requests).results in
        (is_open_first ≡ false → All (Has results) eans)
        × (is_open_again ≡ true → All (Has results) eans)
        × (is_open_first ≡ true → is_open_again ≡ false → results ≡ [])
  fetch_batch-results ne = rw (fetch_batch-needed ne) (
    closed-Has,
    λ s. elim (Bool-cases is_open_first) [ inl e ↦ open-Has e s | inr e ↦ closed-Has e ],
    reopened-results,
  )
