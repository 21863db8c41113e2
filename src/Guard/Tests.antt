-- ===== src/Guard/Tests.antt =====
-- A client that tries wrong passwords, with a signer that copies the moment.
use jolly_jesters_mvp.Prelude.{
  ℕ, ◌*◌, ◌+◌, ◌/◌, ◌≤◌, false, Option, none, some, String, List, [], ◌∷◌, countb, leb, ◌-◌,
  if◌then◌else◌, ◌≡◌, refl, arith,
}
use jolly_jesters_mvp.Prelude.Int.{ℤ, pos, negsuc}
use jolly_jesters_mvp.Import.Tests.{ascii}
use jolly_jesters_mvp.Token.Strings.{Text}
use jolly_jesters_mvp.Guard.{
  Signer, one_second, issue_cookie, validate_cookie, ttl_seconds, WebRequest, is_in_window,
  LoginTry, WebSettings, enforce_basic_auth, login_submit,
}
use jolly_jesters_mvp.Guard.Session.{
  IsLetThrough, issue_cookie_life, enforce_basic_auth-IsLetThrough,
}
use jolly_jesters_mvp.Guard.Failures.{AreLogins, wrong_passwords, wrong_passwords_bounded}

abbrev show_stamp : ℤ → Text
show_stamp (pos n) = (1000 + n) ∷ []
show_stamp (negsuc n) = 45 ∷ (1000 + n) ∷ []

abbrev read_stamp : Text → Option ℤ
read_stamp (n ∷ []) = if leb 1000 n then some (pos (n - 1000)) else none
read_stamp _ = none

abbrev signer : Signer
signer = record { sign = λ t. 7 ∷ t; read_int = read_stamp; show_int = show_stamp }

abbrev settings : WebSettings
settings = record { ui_session_ttl_hours = 1; ui_password = "secret"; is_production = false }

abbrev request : (path : String) → Option Text → WebRequest
request path cookie = record {
  x_forwarded_for = "1.2.3.4, 5.6.7.8";
  x_real_ip = "";
  host = none;
  path = path;
  accept = "text/html";
  jj_session = cookie;
}

abbrev a_try : (at : ℕ) → LoginTry
a_try at = record {
  request = request "/login" none;
  form = record { password = "guess"; csrf_from_form = ""; csrf_from_cookie = "" };
  guarded_at = at;
  submitted_at = at;
}

abbrev tries : List LoginTry
tries = a_try 1 ∷ a_try 2 ∷ a_try 3 ∷ a_try 4 ∷ a_try 5 ∷ a_try 6 ∷ a_try 7 ∷ []

-- The sixth and the seventh request are refused.
five_failures : wrong_passwords ascii signer settings "1.2.3.4" tries [] [] ≡ 5 ∷ 4 ∷ 3 ∷ 2 ∷ 1 ∷ []
unfolding enforce_basic_auth login_submit
five_failures = refl

tries-AreLogins : AreLogins ascii signer settings 0 tries [] 7
unfolding enforce_basic_auth login_submit
tries-AreLogins = (
  omega arith,
  omega arith,
  refl,
  refl,
  (
    omega arith,
    omega arith,
    refl,
    refl,
    (
      omega arith,
      omega arith,
      refl,
      refl,
      (
        omega arith,
        omega arith,
        refl,
        refl,
        (
          omega arith,
          omega arith,
          refl,
          refl,
          (
            omega arith,
            omega arith,
            refl,
            refl,
            (omega arith, omega arith, refl, refl, omega arith),
          ),
        ),
      ),
    ),
  ),
)

wrong_passwords_bounded_example :
    countb (is_in_window 7) (wrong_passwords ascii signer settings "1.2.3.4" tries [] []) ≤ 5
wrong_passwords_bounded_example =
    wrong_passwords_bounded ascii signer settings "1.2.3.4" 7 tries [] tries-AreLogins refl

issue_cookie_life_example :
    validate_cookie signer 1 (60 * one_second) (issue_cookie signer (30 * one_second))
    ≡ leb (60 * one_second) ((30 * one_second / one_second + ttl_seconds 1) * one_second)
issue_cookie_life_example =
    issue_cookie_life signer 1 (30 * one_second) (60 * one_second) (refl, tt) refl

enforce_basic_auth-IsLetThrough_example :
    IsLetThrough signer 1
      (60 * one_second)
      (request "/" (some (issue_cookie signer (30 * one_second))))
      (enforce_basic_auth ascii signer 1
        (60 * one_second)
        (request "/" (some (issue_cookie signer (30 * one_second))))
        []).1
enforce_basic_auth-IsLetThrough_example =
    enforce_basic_auth-IsLetThrough signer 1 ascii (60 * one_second)
      (request "/" (some (issue_cookie signer (30 * one_second)))) []
