-- ===== src/Guard.antt =====
-- The login of the web interface and its guard against repeated failures: the session cookie,
-- `enforce_basic_auth` and `login_submit` of backend/app/main.py. Moments are whole microseconds. The
-- keyed hash in base64 and the reading and writing of integers are parameters; a signature that is not
-- ASCII, on which the comparison raises, is left out.
pub mod Session
pub mod Table
pub mod Failures
mod Tests
use text.Mathlib.Text.{starts_with}
use jolly_jesters_mvp.Prelude.{
  ℕ, zero, suc, ◌+◌, ◌*◌, ◌/◌, Bool, true, false, not, ◌&&◌, ◌||◌, Option, none, some, String, List,
  [], ◌∷◌, ◌++◌, filterb, length, Dict, lookup, insert, erase, leb, ltb, max, anyb, ◌==◌,
  if◌then◌else◌, string_eq,
}
use jolly_jesters_mvp.Prelude.Int.{ℤ, pos, negsuc}
use jolly_jesters_mvp.Import.Text.{Unicode, is_empty, strip, contains}
use jolly_jesters_mvp.Token.Strings.{Text, text_eq, dot, equals, rstrip}

-- `urlsafe_b64encode` of `hmac` with the password, `int` and `str`.
pub record Signer : Type 0 where
  pub sign : Text → Text
  pub read_int : Text → Option ℤ
  pub show_int : ℤ → Text

abbrev pub one_second : ℕ
one_second = 1000000

-- `_sign_session`
abbrev pub sign_session : Signer → ℤ → Text
sign_session c timestamp = rstrip equals (c.sign (c.show_int timestamp))

-- `_issue_cookie`
unfoldable pub issue_cookie : Signer → (now : ℕ) → Text
issue_cookie c now =
    let timestamp = pos (now / one_second) in c.show_int timestamp ++ dot ∷ sign_session c timestamp

-- A character before the first part.
abbrev pub before_first : ℕ → Option (Text × Text) → Option (Text × Text)
before_first x none = none
before_first x (some p) = some (x ∷ p.0, p.1)

-- `token.split(".", 1)`: `none` where there is no dot.
abbrev pub split_once : Text → Option (Text × Text)
split_once [] = none
split_once (x ∷ s) =
    let rest = before_first x (split_once s) in if x == dot then some ([], s) else rest

-- `max(1, settings.ui_session_ttl_hours or 24) * 3600`
abbrev pub ttl_seconds : (ui_session_ttl_hours : ℕ) → ℕ
ttl_seconds zero = 24 * 3600
ttl_seconds (suc hours) = suc hours * 3600

-- `time.time() - ts > ttl_seconds`
abbrev pub session_expired : (now ttl : ℕ) → ℤ → Bool
session_expired now ttl (pos ts) = ltb ((ts + ttl) * one_second) now
session_expired now ttl (negsuc n) = ltb (ttl * one_second) (now + suc n * one_second)

abbrev pub validate_parts : Signer → (hours now : ℕ) → (sig : Text) → Option ℤ → Bool
validate_parts c hours now sig none = false
validate_parts c hours now sig (some ts) =
    not (session_expired now (ttl_seconds hours) ts) && text_eq.beq sig (sign_session c ts)

abbrev pub validate_split : Signer → (hours now : ℕ) → Option (Text × Text) → Bool
validate_split c hours now none = false
validate_split c hours now (some p) = validate_parts c hours now p.1 (c.read_int p.0)

-- `_validate_cookie`
unfoldable pub validate_cookie : Signer → (hours now : ℕ) → Text → Bool
validate_cookie c hours now token = validate_split c hours now (split_once token)

-- `FAILED_AUTH`
abbrev pub FailedAuth : Type 0
FailedAuth = Dict String (List ℕ)

abbrev pub fail_window : ℕ
fail_window = 600 * one_second

abbrev pub fail_limit : ℕ
fail_limit = 5

abbrev pub before_comma : String → String
before_comma String.[] = ""
before_comma (String.◌∷◌ c s) =
    let rest = String.◌∷◌ c (before_comma s) in
    if starts_with (String.◌∷◌ c s) "," then "" else rest

-- A request, with what the handlers read of it.
pub record WebRequest : Type 0 where
  pub x_forwarded_for : String
  pub x_real_ip : String
  pub host : Option String
  pub path : String
  pub accept : String
  pub jj_session : Option Text

abbrev pub or_text : String → String → String
or_text s t = if is_empty s then t else s

-- `client_ip`
abbrev pub client_ip : Unicode → WebRequest → String
client_ip u r =
    or_text (strip u (before_comma r.x_forwarded_for))
      (or_text r.x_real_ip (elim r.host [ none ↦ "unknown" | some h ↦ h ]))

abbrev pub is_in_window : (now : ℕ) → ℕ → Bool
is_in_window now at = leb now (at + fail_window)

abbrev pub purge_entry : (now : ℕ) → (ip : String) → Option (List ℕ) → FailedAuth → FailedAuth
purge_entry now ip none table = table
purge_entry now ip (some times) table = insert ip (filterb (is_in_window now) times) table

-- Failures of one client that are too old are dropped.
abbrev pub purge_failures : (now : ℕ) → (ip : String) → FailedAuth → FailedAuth
purge_failures now ip table = purge_entry now ip (lookup ip table) table

abbrev pub times_of : Option (List ℕ) → List ℕ
times_of none = []
times_of (some times) = times

abbrev pub failures_of : (ip : String) → FailedAuth → List ℕ
failures_of ip table = times_of (lookup ip table)

abbrev pub is_blocked : (ip : String) → FailedAuth → Bool
is_blocked ip table = leb fail_limit (length (failures_of ip table))

-- The emergency cleanup.
abbrev pub clean_failures : FailedAuth → FailedAuth
clean_failures table = if ltb 10000 (length table) then [] else table

-- What becomes of a request.
pub data Access : Type 0 where
  passed_on unauthorized redirected too_many : Access

-- `session_cookie and _validate_cookie(session_cookie)`
abbrev pub has_session : Signer → (hours now : ℕ) → (session_cookie : Option Text) → Bool
has_session c hours now none = false
has_session c hours now (some []) = false
has_session c hours now (some (x ∷ s)) = validate_cookie c hours now (x ∷ s)

abbrev pub wants_html : WebRequest → Bool
wants_html r = contains "text/html" r.accept || contains "*/*" r.accept

abbrev pub refuse : WebRequest → Access
refuse r =
    if starts_with r.path "/api"
    then unauthorized
    else if wants_html r
    then redirected
    else unauthorized

-- The part of `enforce_basic_auth` after the guard.
abbrev pub check_session :
    Signer → (hours now : ℕ) → (ip : String) → WebRequest → FailedAuth → FailedAuth × Access
check_session c hours now ip r table =
    if starts_with r.path "/healthz" || starts_with r.path "/login"
    then (table, passed_on)
    else if has_session c hours now r.jj_session
    then (erase ip table, passed_on)
    else (table, refuse r)

-- `enforce_basic_auth`, outside of tests.
unfoldable pub enforce_basic_auth :
    Unicode → Signer → (hours now : ℕ) → WebRequest → FailedAuth → FailedAuth × Access
enforce_basic_auth u c hours now r table =
    let ip = client_ip u r in
    let purged = purge_failures now ip (clean_failures table) in
    if is_blocked ip purged then (purged, too_many) else check_session c hours now ip r purged

-- What `login_submit` answers; a success has the new cookie.
pub data LoginReply : Type 0 where
  csrf_failed too_many_attempts not_configured invalid_password : LoginReply
  logged_in : (cookie : Text) → LoginReply

-- The form, and the CSRF cookie.
pub record LoginForm : Type 0 where
  pub password : String
  pub csrf_from_form : String
  pub csrf_from_cookie : String

abbrev pub csrf_fails : (is_production : Bool) → LoginForm → Bool
csrf_fails is_production f =
    is_production
    && (is_empty f.csrf_from_form
        || is_empty f.csrf_from_cookie
        || not (string_eq.beq f.csrf_from_form f.csrf_from_cookie))

abbrev pub add_failure : (now : ℕ) → (ip : String) → FailedAuth → FailedAuth
add_failure now ip table = insert ip (failures_of ip table ++ now ∷ []) table

abbrev pub check_password :
    Signer
    → (ui_password : String) → (now : ℕ) → (ip : String) → LoginForm
    → FailedAuth
    → FailedAuth × LoginReply
check_password c ui_password now ip f table =
    if is_empty ui_password
    then (table, not_configured)
    else if not (string_eq.beq f.password ui_password)
    then (add_failure now ip table, invalid_password)
    else (table, logged_in (issue_cookie c now))

-- `login_submit`, at one moment.
unfoldable pub login_submit :
    Signer
    → (is_production : Bool) → (ui_password : String) → (now : ℕ) → (ip : String) → LoginForm
    → FailedAuth
    → FailedAuth × LoginReply
login_submit c is_production ui_password now ip f table =
    let purged = purge_failures now ip table in
    if csrf_fails is_production f
    then (table, csrf_failed)
    else if is_blocked ip purged
    then (purged, too_many_attempts)
    else check_password c ui_password now ip f purged

-- A request to log in, with the moments at which the middleware and the handler read the clock.
pub record LoginTry : Type 0 where
  pub request : WebRequest
  pub form : LoginForm
  pub guarded_at : ℕ
  pub submitted_at : ℕ

-- The settings that the login reads.
pub record WebSettings : Type 0 where
  pub ui_session_ttl_hours : ℕ
  pub ui_password : String
  pub is_production : Bool

-- The handler runs for a request that the middleware passes on.
abbrev pub submit_if_passed :
    Signer
    → WebSettings
    → (ip : String) → LoginTry
    → FailedAuth × Access
    → FailedAuth × Option LoginReply
submit_if_passed c k ip a (table, passed_on) =
    let (after, reply) =
      login_submit c k.is_production k.ui_password a.submitted_at ip a.form table in
    (after, some reply)
submit_if_passed c k ip a (table, access) = (table, none)

-- A request to log in, through the middleware and the handler.
abbrev pub try_login :
    Unicode → Signer → WebSettings → LoginTry → FailedAuth → FailedAuth × Option LoginReply
try_login u c k a table =
    submit_if_passed c k (client_ip u a.request) a
      (enforce_basic_auth u c k.ui_session_ttl_hours a.guarded_at a.request table)
