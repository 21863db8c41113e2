-- ===== src/Login/Lock.antt =====
-- When an account is locked.
use jolly_jesters_mvp.Prelude.{
  ℕ, suc, ◌+◌, ◌-◌, ◌*◌, ◌≤◌, ◌<◌, true, false, none, some, String, List, [], ◌∷◌, ltb, leb, All,
  ◌≡◌, ◌≢◌, not, refl, ◌∙◌, arith, Bool-cases, Option-cases, inl, inr, lookup, insert, erase,
  lookup-insert, lookup-erase, string_eq, beq_refl, filterb, if◌then◌else◌, length, zero, ◌^◌,
}
use jolly_jesters_mvp.Login.{
  Locks, passed, locked, clean_expired, check_entry, check_account_lock, lockout_seconds,
  is_expired, record_failed_login, record_successful_login, Attempt, Answer, too_many_requests,
  token_issued, unauthorized, answer_checked, login, login_all,
}

-- No entry of the table locks an account, and none counts more than one failure.
abbrev pub AllOpen : Locks → Type 0
AllOpen = All (λ e. (e.1.0 ≤ 1) × (e.1.1 ≡ 0))

clean_expired-AllOpen :
    (now : ℕ) (locks : Locks) → AllOpen locks → AllOpen (clean_expired now locks)
clean_expired-AllOpen now locks h = ground (arith, filter-AllOpen locks h)
  where
    filter-AllOpen :
        (locks : Locks) → AllOpen locks → AllOpen (filterb (λ e. not (is_expired now e.1)) locks)
    filter-AllOpen [] h = tt
    filter-AllOpen (e ∷ locks) h = ground (arith, filter-AllOpen locks h.1)

insert-AllOpen :
    (email : String) (count : ℕ) (locks : Locks)
    → count ≤ 1
    → AllOpen locks
    → AllOpen (insert email (count, 0) locks)
insert-AllOpen email count [] le h = ((le, refl), tt)
insert-AllOpen email count ((j, w) ∷ locks) le h =
    ground (arith, insert-AllOpen email count locks le h.1)

erase-AllOpen : (email : String) (locks : Locks) → AllOpen locks → AllOpen (erase email locks)
erase-AllOpen email [] h = tt
erase-AllOpen email ((j, w) ∷ locks) h = ground (arith, erase-AllOpen email locks h.1)

lookup-open :
    (email : String) (locks : Locks) (count until : ℕ)
    → AllOpen locks
    → lookup email locks ≡ some (count, until)
    → until ≡ 0
lookup-open email [] count until h e = absurd (ground arith)
lookup-open email ((j, w) ∷ locks) count until h e =
    ground (arith, lookup-open email locks count until h.1)

ltb-zero : (n : ℕ) → ltb n 0 ≡ false
ltb-zero n = ground arith

-- In such a table a check passes, and forgets what it found.
check-AllOpen :
    (now : ℕ) (email : String) (locks : Locks)
    → AllOpen locks
    → let after = check_account_lock now email locks in
      AllOpen after.0 × (lookup email after.0 ≡ none) × (after.1 ≡ passed)
unfolding check_account_lock
check-AllOpen now email locks h =
    let cleaned = clean_expired now locks in
    let unlocked = clean_expired-AllOpen now locks h in
    elim (Option-cases (lookup email cleaned)) [
      | inl e ↦ rw (e, check_entry) (unlocked, e, refl)
      | inr ((count, until), e) ↦
          let free : until ≡ 0 = lookup-open email cleaned count until unlocked e in
          rw (e, check_entry, free, ltb-zero now)
            (
              erase-AllOpen email cleaned unlocked,
              lookup-erase email email cleaned ∙ rw (beq_refl email),
              refl,
            )
    ]

abbrev answered : (second : ℕ) → Attempt → Locks → Locks × Answer
answered second a locks =
    if a.authenticated
    then (record_successful_login a.email locks, token_issued)
    else (record_failed_login second a.failed_at a.email locks, unauthorized)

answer-passed :
    (second : ℕ) (a : Attempt) (locks : Locks)
    → (check_account_lock a.checked_at a.email locks).1 ≡ passed
    → login second a locks ≡ answered second a (check_account_lock a.checked_at a.email locks).0
unfolding login
answer-passed second a locks p = rw (p, answer_checked)

login-AllOpen :
    (second : ℕ) (a : Attempt) (locks : Locks)
    → AllOpen locks
    → AllOpen (login second a locks).0 × ((login second a locks).1 ≢ too_many_requests)
unfolding login record_failed_login record_successful_login
login-AllOpen second a locks h =
    let (rest, forgotten, p) = check-AllOpen a.checked_at a.email locks h in
    elim (Bool-cases a.authenticated) [
      | inl e ↦ rw (answer-passed second a locks p, e) (erase-AllOpen a.email _ rest, ground arith)
      | inr e ↦
          rw (answer-passed second a locks p, e, forgotten)
            (insert-AllOpen a.email 1 _ (omega arith) rest, ground arith)
    ]

login_all-AllOpen :
    (second : ℕ) (attempts : List Attempt) (locks : Locks)
    → AllOpen locks
    → AllOpen (login_all second attempts locks)
login_all-AllOpen second [] locks h = h
login_all-AllOpen second (a ∷ attempts) locks h =
    login_all-AllOpen second attempts (login second a locks).0 (login-AllOpen second a locks h).0

-- However many attempts to log in have failed since the table was empty, the next one is not refused:
-- the check before each attempt forgets the failure that was counted, so the count stays at most 1.
pub login_all_never_locks :
    (second : ℕ) (attempts : List Attempt) (a : Attempt)
    → let locks = login_all second attempts [] in
      AllOpen locks × ((login second a locks).1 ≢ too_many_requests)
login_all_never_locks second attempts a =
    let h = login_all-AllOpen second attempts [] tt in
    (h, (login-AllOpen second a (login_all second attempts []) h).1)

power-ge-one : (k : ℕ) → 1 ≤ 2 ^ k
power-ge-one zero = omega arith
power-ge-one (suc k) = omega (arith, power-ge-one k)

lockout_seconds-range : (count : ℕ) → (300 ≤ lockout_seconds count) × (lockout_seconds count ≤ 3600)
lockout_seconds-range count =
    (ground (arith, power-ge-one (count - 5)), ground (arith, power-ge-one (count - 5)))

record_failed_login-entry :
    (second now count until : ℕ) (email : String) (locks : Locks)
    → lookup email locks ≡ some (count, until)
    → 4 ≤ count
    → record_failed_login second now email locks
      ≡ insert email (count + 1, now + lockout_seconds (count + 1) * second) locks
unfolding record_failed_login
record_failed_login-entry second now count until email locks e many =
    let reached : leb 5 (count + 1) ≡ true = ground arith in rw (e, reached)

check-entry :
    (now count until : ℕ) (email : String) (locks : Locks)
    → length locks ≤ 10000
    → lookup email locks ≡ some (count, until)
    → check_account_lock now email locks
      ≡ (if ltb now until then (locks, locked count) else (erase email locks, passed))
unfolding check_account_lock
check-entry now count until email locks small e =
    let kept : ltb 10000 (length locks) ≡ false = ground arith in rw (kept, e)

-- A failure recorded on an entry with four or more of them, in a table of at most 10000 entries, locks
-- the account for between 5 minutes and an hour: a check refuses it with the count before the lock ends,
-- and passes from then on and forgets the account.
record_failed_login-locks :
    (second now later count until : ℕ) (email : String) (locks : Locks)
    → lookup email locks ≡ some (count, until)
    → 4 ≤ count
    → length (record_failed_login second now email locks) ≤ 10000
    → let locks' = record_failed_login second now email locks in
      let seconds = lockout_seconds (count + 1) in
      (300 ≤ seconds)
      × (seconds ≤ 3600)
      × (later < now + seconds * second
          → check_account_lock later email locks' ≡ (locks', locked (count + 1)))
      × (now + seconds * second ≤ later
          → check_account_lock later email locks' ≡ (erase email locks', passed))
record_failed_login-locks second now later count until email locks e many small =
    let until' = now + lockout_seconds (count + 1) * second in
    let locks' = record_failed_login second now email locks in
    let found : lookup email locks' ≡ some (count + 1, until') =
      rw (record_failed_login-entry second now count until email locks e many)
        (lookup-insert email email (count + 1, until') locks ∙ rw (beq_refl email)) in
    let (low, high) = lockout_seconds-range (count + 1) in
    let entry = check-entry later (count + 1) until' email locks' small found in
    (
      low,
      high,
      λ before. let t : ltb later until' ≡ true = ground arith in entry ∙ rw t,
      λ past. let t : ltb later until' ≡ false = ground arith in entry ∙ rw t,
    )
