-- ===== src/Login/Tests.antt =====
-- Failing logins, with a unit of one second.
use jolly_jesters_mvp.Prelude.{ℕ, List, [], ◌∷◌, false, ◌≡◌, ◌≢◌, refl, string_eq}
use jolly_jesters_mvp.Login.{
  Locks, check_account_lock, record_failed_login, Attempt, too_many_requests, login, login_all,
}
use jolly_jesters_mvp.Login.Lock.{AllOpen, login_all_never_locks}

abbrev wrong : ℕ → Attempt
wrong now = record { email = "a"; checked_at = now; failed_at = now; authenticated = false }

abbrev attempts : List Attempt
attempts = wrong 1 ∷ wrong 2 ∷ wrong 3 ∷ wrong 4 ∷ wrong 5 ∷ wrong 6 ∷ []

login_all_never_locks_example :
    AllOpen (login_all 1 attempts [])
    × ((login 1 (wrong 7) (login_all 1 attempts [])).1 ≢ too_many_requests)
login_all_never_locks_example = login_all_never_locks 1 attempts (wrong 7)

abbrev locks : Locks
locks = ("a", (4, 0)) ∷ []

counted_once : login_all 1 attempts [] ≡ ("a", (1, 0)) ∷ []
unfolding login check_account_lock record_failed_login
counted_once = refl
