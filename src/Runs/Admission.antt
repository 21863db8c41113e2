-- ===== src/Runs/Admission.antt =====
-- Who may start a run: the check of backend/app/api/v1/analysis.py against the counts of active runs.
use jolly_jesters_mvp.Prelude.{
  ℕ, zero, suc, ◌+◌, ◌≤◌, ◌<◌, min, Bool, true, ◌&&◌, Option, none, some, String, List, [], ◌∷◌,
  ◌++◌, take, length, countb, filterb, leb, if◌then◌else◌, ◌≡◌, refl, ◌∙◌, ap, ◌↔◌, arith,
  Bool-cases, inl, inr, length-filterb, countb-append,
}
use jolly_jesters_mvp.Prelude.Sort.{sort_by, countb-sort_by, length-sort_by}
use jolly_jesters_mvp.Runs.{
  http_error, replied, RunRow, RunTables, CurrentUser, Limits, is_active_run, is_newer, in_tenant,
  is_owned_by, list_active_runs, check_user_limit, check_concurrent_limit, enqueue_run,
}

take_all {ℓ} : {A : Type ℓ} (n : ℕ) (xs : List A) → length xs ≤ n → take n xs ≡ xs
take_all zero [] h = refl
take_all zero (x ∷ xs) h = absurd (omega arith)
take_all (suc n) [] h = refl
take_all (suc n) (x ∷ xs) h = ap (λ l. x ∷ l) (take_all n xs (omega arith))

length-take {ℓ} : {A : Type ℓ} (n : ℕ) (xs : List A) → length (take n xs) ≡ min n (length xs)
length-take zero xs = omega arith
length-take (suc n) [] = omega arith
length-take (suc n) (x ∷ xs) = omega (arith, length-take n xs)

take_reaches {ℓ} :
    {A : Type ℓ} (n : ℕ) (xs : List A)
    → leb n (length xs) ≡ true
    → leb n (length (take (n + 1) xs)) ≡ true
take_reaches n xs h = rw (length-take (n + 1) xs) (ground arith)

countb-filterb {ℓ} :
    {A : Type ℓ} (p q : A → Bool) (xs : List A)
    → countb q (filterb p xs) ≡ countb (λ x. p x && q x) xs
countb-filterb p q [] = refl
countb-filterb p q (x ∷ xs) = ground (arith, countb-filterb p q xs)

filter_active :
    (runs : List RunRow)
    → countb (λ r. is_active_run r && in_tenant none r) runs ≡ countb is_active_run runs
filter_active [] = refl
filter_active (r ∷ runs) = ground (arith, filter_active runs)

filter_owned :
    (u : CurrentUser) (runs : List RunRow)
    → countb (λ r. (is_active_run r && in_tenant none r) && is_owned_by u r) runs
      ≡ countb (λ r. is_active_run r && is_owned_by u r) runs
filter_owned u [] = refl
filter_owned u (r ∷ runs) = ground (arith, filter_owned u runs)

-- The active runs that a user owns.
abbrev pub owned_active : CurrentUser → List RunRow → ℕ
owned_active u runs = countb (λ r. is_active_run r && is_owned_by u r) runs

abbrev pub IsBelowUserLimit : Limits → Option CurrentUser → List RunRow → Type 0
IsBelowUserLimit k none runs = Unit
IsBelowUserLimit k (some u) runs = owned_active u runs < k.concurrency_per_user

abbrev sorted_active : List RunRow → List RunRow
sorted_active runs = sort_by is_newer (filterb (λ r. is_active_run r && in_tenant none r) runs)

length-sorted_active :
    (runs : List RunRow) → length (sorted_active runs) ≡ countb is_active_run runs
length-sorted_active runs =
    length-sort_by is_newer (filterb (λ r. is_active_run r && in_tenant none r) runs)
    ∙ length-filterb (λ r. is_active_run r && in_tenant none r) runs
    ∙ filter_active runs

length-owned :
    (u : CurrentUser) (runs : List RunRow)
    → length (filterb (is_owned_by u) (sorted_active runs)) ≡ owned_active u runs
length-owned u runs =
    length-filterb (is_owned_by u) (sorted_active runs)
    ∙ countb-sort_by is_newer (is_owned_by u)
        (filterb (λ r. is_active_run r && in_tenant none r) runs)
    ∙ countb-filterb (λ r. is_active_run r && in_tenant none r) (is_owned_by u) runs
    ∙ filter_owned u runs

check_user_limit_iff :
    (k : Limits) (user : Option CurrentUser) (runs : List RunRow)
    → (check_user_limit k user (sorted_active runs) ≡ replied tt) ↔ IsBelowUserLimit k user runs
check_user_limit_iff k none runs = (λ e. tt, λ h. refl)
check_user_limit_iff k (some u) runs =
    rw (length-owned u runs) (λ e. ground arith, λ h. ground arith)

-- The check, for any list of as many rows as there are active runs.
limit_iff :
    (k : Limits) (user : Option CurrentUser) (runs all_active : List RunRow)
    → length all_active ≡ countb is_active_run runs
    → (check_user_limit k user all_active ≡ replied tt) ↔ IsBelowUserLimit k user runs
    → ((if leb k.concurrency_global_max (length (take (k.concurrency_global_max + 1) all_active))
          then http_error 429
          else check_user_limit k user (take (k.concurrency_global_max + 1) all_active))
        ≡ replied tt)
      ↔ ((countb is_active_run runs < k.concurrency_global_max) × IsBelowUserLimit k user runs)
limit_iff k user runs all_active e u =
    elim (Bool-cases (leb k.concurrency_global_max (length all_active))) [
      | inl f ↦
          rw (take_reaches k.concurrency_global_max all_active f)
            (λ g. absurd (ground arith), λ h. absurd (ground arith))
      | inr f ↦
          rw (take_all (k.concurrency_global_max + 1) all_active (ground arith), f)
            (λ g. (ground arith, u.0 g), λ h. u.1 h.1)
    ]

-- A run may be started exactly when fewer runs are pending or running than the global limit, and, for
-- a user who is known, fewer of that user's than the limit for a user: the query, which is cut one
-- row above the global limit, misses none of them.
pub check_concurrent_limit_iff :
    (k : Limits) (user : Option CurrentUser) (runs : List RunRow)
    → (check_concurrent_limit k user runs ≡ replied tt)
      ↔ ((countb is_active_run runs < k.concurrency_global_max) × IsBelowUserLimit k user runs)
unfolding check_concurrent_limit list_active_runs
check_concurrent_limit_iff k user runs =
    limit_iff k user runs (sorted_active runs) (length-sorted_active runs)
      (check_user_limit_iff k user runs)

countb-one_more {ℓ} :
    {A : Type ℓ} (p : A → Bool) (xs : List A) (x : A) → countb p (xs ++ x ∷ []) ≤ countb p xs + 1
countb-one_more p xs x = rw (countb-append p xs (x ∷ [])) (ground arith)

-- An enqueued run is one more row, whatever the queue does.
enqueue_run-countb :
    (p : RunRow → Bool) (user : Option CurrentUser) (task : Option String) (new : RunRow)
    (t : RunTables)
    → countb p (enqueue_run user task new t).0.runs ≤ countb p t.runs + 1
unfolding enqueue_run
enqueue_run-countb p user none new t = countb-one_more p t.runs _
enqueue_run-countb p user (some task) new t = countb-one_more p t.runs _

abbrev pub IsWithinLimits : Limits → Option CurrentUser → List RunRow → Type 0
IsWithinLimits k none runs = countb is_active_run runs ≤ k.concurrency_global_max
IsWithinLimits k (some u) runs =
    (countb is_active_run runs ≤ k.concurrency_global_max)
    × (owned_active u runs ≤ k.concurrency_per_user)

-- A run that is started after the check, with no other in between, leaves at most as many active runs
-- as the global limit, and at most as many of the user's as the limit for a user; also where the
-- queue fails.
pub enqueue_run-IsWithinLimits :
    (k : Limits) (user : Option CurrentUser) (task : Option String) (new : RunRow) (t : RunTables)
    → check_concurrent_limit k user t.runs ≡ replied tt
    → IsWithinLimits k user (enqueue_run user task new t).0.runs
enqueue_run-IsWithinLimits k none task new t e =
    let below = (check_concurrent_limit_iff k none t.runs).0 e in
    omega (arith, below.0, enqueue_run-countb is_active_run none task new t)
enqueue_run-IsWithinLimits k (some u) task new t e =
    let below = (check_concurrent_limit_iff k (some u) t.runs).0 e in
    (
      omega (arith, below.0, enqueue_run-countb is_active_run (some u) task new t),
      omega (
        arith,
        below.1,
        enqueue_run-countb (λ r. is_active_run r && is_owned_by u r) (some u) task new t,
      ),
    )
