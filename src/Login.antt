-- ===== src/Login.antt =====
-- The account lock of backend/app/services/auth_service.py and the calls that `login` of
-- backend/app/api/v1/tenants.py makes of it. Moments are whole units of `second` parts of a second.
pub mod Lock
mod Tests
use jolly_jesters_mvp.Prelude.{
  ℕ, ◌+◌, ◌-◌, ◌*◌, ◌^◌, min, Bool, true, false, not, ◌&&◌, Option, none, some, String, List, [],
  ◌∷◌, ltb, leb, ◌==◌, if◌then◌else◌, length, filterb, Dict, lookup, insert, erase, string_eq,
}

-- `(fail_count, locked_until)`, by email.
abbrev pub Locks : Type 0
Locks = Dict String (ℕ × ℕ)

-- `until and now >= until`
abbrev pub is_expired : (now : ℕ) → ℕ × ℕ → Bool
is_expired now (count, until) = not (until == 0) && leb until now

-- The periodic cleaning of a table with more than 10000 entries.
abbrev pub clean_expired : (now : ℕ) → Locks → Locks
clean_expired now locks =
    if ltb 10000 (length locks) then filterb (λ e. not (is_expired now e.1)) locks else locks

pub data Check : Type 0 where
  passed : Check
  locked : (fail_count : ℕ) → Check

abbrev pub check_entry : (now : ℕ) → String → Locks → Option (ℕ × ℕ) → Locks × Check
check_entry now email locks none = (locks, passed)
check_entry now email locks (some (count, until)) =
    if ltb now until then (locks, locked count) else (erase email locks, passed)

-- `check_account_lock`; `locked` is the HTTPException 429.
unfoldable pub check_account_lock : (now : ℕ) → String → Locks → Locks × Check
check_account_lock now email locks =
    let cleaned = clean_expired now locks in check_entry now email cleaned (lookup email cleaned)

abbrev pub fail_count_of : Option (ℕ × ℕ) → ℕ
fail_count_of none = 0
fail_count_of (some (count, until)) = count

-- The seconds of a lock after `count` failures.
abbrev pub lockout_seconds : (count : ℕ) → ℕ
lockout_seconds count = min (300 * 2 ^ (count - 5)) 3600

-- `record_failed_login`, at `second` units to a second.
unfoldable pub record_failed_login : (second now : ℕ) → String → Locks → Locks
record_failed_login second now email locks =
    let count = fail_count_of (lookup email locks) + 1 in
    if leb 5 count
    then insert email (count, now + lockout_seconds count * second) locks
    else insert email (count, 0) locks

unfoldable pub record_successful_login : String → Locks → Locks
record_successful_login email locks = erase email locks

-- A request to log in, at two moments, and whether `authenticate` finds the user.
pub record Attempt : Type 0 where
  pub email : String
  pub checked_at : ℕ
  pub failed_at : ℕ
  pub authenticated : Bool

pub data Answer : Type 0 where
  token_issued unauthorized : Answer
  too_many_requests : Answer

abbrev pub answer_checked : (second : ℕ) → Attempt → Locks × Check → Locks × Answer
answer_checked second a (locks, locked count) = (locks, too_many_requests)
answer_checked second a (locks, passed) =
    if a.authenticated
    then (record_successful_login a.email locks, token_issued)
    else (record_failed_login second a.failed_at a.email locks, unauthorized)

-- `login`
unfoldable pub login : (second : ℕ) → Attempt → Locks → Locks × Answer
login second a locks = answer_checked second a (check_account_lock a.checked_at a.email locks)

abbrev pub login_all : (second : ℕ) → List Attempt → Locks → Locks
login_all second [] locks = locks
login_all second (a ∷ attempts) locks = login_all second attempts (login second a locks).0
