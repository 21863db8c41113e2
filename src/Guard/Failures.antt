-- ===== src/Guard/Failures.antt =====
-- How many wrong passwords a client can try: the requests to log in from any clients, one after another.
use text.Mathlib.Text.{starts_with}
use jolly_jesters_mvp.Prelude.{
  ℕ, suc, ◌+◌, ◌≤◌, Bool, true, false, not, ◌||◌, Option, some, String, List, [], ◌∷◌, ◌++◌, countb,
  length, lookup, ltb, if◌then◌else◌, string_eq, ◌≡◌, refl, ap, ◌∙◌, sym, subst, arith, Bool-cases,
  inl, inr, if-elim, if-cases, countb-append, countb-le-length, beq_refl,
}
use jolly_jesters_mvp.Import.Text.{Unicode, is_empty}
use jolly_jesters_mvp.Guard.{
  Signer, FailedAuth, WebRequest, client_ip, is_in_window, purge_failures, failures_of, is_blocked,
  clean_failures, Access, passed_on, too_many, check_session, enforce_basic_auth, LoginReply,
  csrf_failed, too_many_attempts, not_configured, invalid_password, logged_in, LoginForm,
  csrf_fails, add_failure, check_password, issue_cookie, login_submit, LoginTry, WebSettings,
  submit_if_passed, try_login,
}
use jolly_jesters_mvp.Guard.Table.{
  recent_failures, failures_of-insert-same, failures_of-insert-other, recent_failures-purge_entry,
}

-- The moments at which a wrong password of one client is answered, the latest first.
abbrev pub failed_at : (client ip : String) → (at : ℕ) → Option LoginReply → List ℕ → List ℕ
failed_at client ip at (some invalid_password) h = if string_eq.beq client ip then at ∷ h else h
failed_at client ip at _ h = h

-- The history and the table have the same recent failures of a client, five at most.
abbrev Agrees : (ip : String) → (t : ℕ) → (h : List ℕ) → FailedAuth → Type 0
Agrees ip t h table =
    (n : ℕ)
    → t ≤ n
    → (countb (is_in_window n) h ≡ recent_failures n ip table) × (countb (is_in_window n) h ≤ 5)

Agrees-purge :
    (ip client : String) (t now : ℕ) (h : List ℕ) (table : FailedAuth)
    → t ≤ now
    → Agrees ip t h table
    → Agrees ip now h (purge_failures now client table)
Agrees-purge ip client t now h table le a n g =
    let before = a n (omega arith) in
    (
      before.0
          ∙ sym (recent_failures-purge_entry now n client ip (lookup client table) table g refl),
      before.1,
    )

Agrees-later :
    (ip : String) (t now : ℕ) (h : List ℕ) (table : FailedAuth)
    → t ≤ now
    → Agrees ip t h table
    → Agrees ip now h table
Agrees-later ip t now h table le a n g = a n (omega arith)

countb-failure :
    (n at : ℕ) (times : List ℕ)
    → countb (is_in_window n) (times ++ at ∷ []) ≡ countb (is_in_window n) (at ∷ times)
countb-failure n at times = rw (countb-append (is_in_window n) times) (ground arith)

count_more :
    (n at k : ℕ) (h : List ℕ)
    → countb (is_in_window n) h ≤ k
    → countb (is_in_window n) (at ∷ h) ≤ k + 1
count_more n at k h e = ground arith

below_limit :
    (ip : String) (table : FailedAuth)
    → is_blocked ip table ≡ false
    → length (failures_of ip table) ≤ 4
below_limit ip table e = ground arith

own_failure :
    (ip : String) (now : ℕ) (h : List ℕ) (table : FailedAuth)
    → is_blocked ip table ≡ false
    → Agrees ip now h table
    → Agrees ip now (now ∷ h) (add_failure now ip table)
own_failure ip now h table free a n g =
    let times = failures_of ip table in
    let before = a n g in
    let few : countb (is_in_window n) h ≤ 4 =
      omega (arith, before.0, countb-le-length (is_in_window n) times, below_limit ip table free) in
    (
      ap (λ c. if is_in_window n now then suc c else c) before.0
          ∙ sym (
              ap (countb (is_in_window n))
                (failures_of-insert-same ip ip (times ++ now ∷ []) table (beq_refl ip))
              ∙ countb-failure n now times),
      count_more n now 4 h few,
    )

-- A wrong password is answered only to a client that is not blocked.
Agrees-add_failure :
    (ip client : String) (now : ℕ) (h : List ℕ) (table : FailedAuth)
    → is_blocked client table ≡ false
    → Agrees ip now h table
    → Agrees ip now
        (failed_at client ip now (some invalid_password) h)
        (add_failure now client table)
Agrees-add_failure ip client now h table free a n g = elim (Bool-cases (string_eq.beq client ip)) [
  | inl same ↦ rw (same) (
      subst (λ j. Agrees ip now (now ∷ h) (add_failure now j table))
        (sym ((string_eq.beq_iff client ip).0 same))
        (own_failure ip now h table
          (subst (λ j. is_blocked j table ≡ false) ((string_eq.beq_iff client ip).0 same) free) a)
        n g)
  | inr other ↦ rw (other) (
    (a n g).0
        ∙ sym (
            ap (countb (is_in_window n)) (
              failures_of-insert-other client ip (failures_of client table ++ now ∷ []) table
                other)),
    (a n g).1,
  )
]

module _ (ip client : String) (c : Signer) (k : WebSettings) (f : LoginForm) (h : List ℕ) where
  abbrev AgreesAfter : (now : ℕ) → FailedAuth × LoginReply → Type 0
  AgreesAfter now (table, reply) = Agrees ip now (failed_at client ip now (some reply) h) table

  check_password-AgreesAfter :
      (now : ℕ) (table : FailedAuth)
      → is_blocked client table ≡ false
      → Agrees ip now h table
      → AgreesAfter now (check_password c k.ui_password now client f table)
  check_password-AgreesAfter now table free a =
      if-elim (AgreesAfter now) (is_empty k.ui_password) (table, not_configured) _ a
        (if-elim (AgreesAfter now) (not (string_eq.beq f.password k.ui_password))
          (add_failure now client table, invalid_password) (table, logged_in (issue_cookie c now))
          (Agrees-add_failure ip client now h table free a) a)

  login_submit-AgreesAfter :
      (t now : ℕ) (table : FailedAuth)
      → t ≤ now
      → Agrees ip t h table
      → AgreesAfter now (login_submit c k.is_production k.ui_password now client f table)
  unfolding login_submit
  login_submit-AgreesAfter t now table le a =
      let purged = purge_failures now client table in
      let b = Agrees-purge ip client t now h table le a in
      if-elim (AgreesAfter now) (csrf_fails k.is_production f) (table, csrf_failed) _
        (Agrees-later ip t now h table le a)
        (if-cases (AgreesAfter now) (is_blocked client purged) (purged, too_many_attempts) _
          (λ e. b) (λ e. check_password-AgreesAfter now purged e b))

clean_small : (table : FailedAuth) → ltb 10000 (length table) ≡ false → clean_failures table ≡ table
clean_small table s = rw (s) refl

choose_access :
    (b : Bool) (table : FailedAuth) (out : FailedAuth × Access)
    → out ≡ (table, passed_on)
    → (if b then (table, too_many) else out) ≡ (table, (if b then too_many else passed_on))
choose_access true table out e = refl
choose_access false table out e = e

either_way : (a b : Bool) → b ≡ true → (a || b) ≡ true
either_way a b e = ground arith

module _ (u : Unicode) (c : Signer) (k : WebSettings) where
  abbrev guarded_by : (now : ℕ) → WebRequest → FailedAuth → FailedAuth × Access
  guarded_by now r table =
      let ip = client_ip u r in
      let purged = purge_failures now ip table in
      if is_blocked ip purged
      then (purged, too_many)
      else check_session c k.ui_session_ttl_hours now ip r purged

  -- The middleware, for a login with a table that is not cleared: it purges, and blocks or passes on.
  enforce_login :
      (now : ℕ) (r : WebRequest) (table : FailedAuth)
      → starts_with r.path "/login" ≡ true
      → ltb 10000 (length table) ≡ false
      → enforce_basic_auth u c k.ui_session_ttl_hours now r table ≡ (
        purge_failures now (client_ip u r) table,
        (if is_blocked (client_ip u r) (purge_failures now (client_ip u r) table)
            then too_many
            else passed_on),
      )
  unfolding enforce_basic_auth
  enforce_login now r table l s =
      let ip = client_ip u r in
      let purged = purge_failures now ip table in
      ap (guarded_by now r) (clean_small table s)
      ∙ choose_access (is_blocked ip purged) purged
          (check_session c k.ui_session_ttl_hours now ip r purged)
          (rw (either_way (starts_with r.path "/healthz") (starts_with r.path "/login") l) refl)

  -- One request after another, none before the one it follows, each to the login page and each with a
  -- table that is not cleared.
  abbrev pub AreLogins : (t : ℕ) → List LoginTry → FailedAuth → (last : ℕ) → Type 0
  AreLogins t [] table last = t ≤ last
  AreLogins t (a ∷ tries) table last =
      (t ≤ a.guarded_at)
      × (a.guarded_at ≤ a.submitted_at)
      × (starts_with a.request.path "/login" ≡ true)
      × (ltb 10000 (length table) ≡ false)
      × AreLogins a.submitted_at tries (try_login u c k a table).0 last

  -- The moments at which a wrong password of one client is answered over all requests.
  abbrev pub wrong_passwords : (ip : String) → List LoginTry → FailedAuth → (h : List ℕ) → List ℕ
  wrong_passwords ip [] table h = h
  wrong_passwords ip (a ∷ tries) table h =
      let out = try_login u c k a table in
      wrong_passwords ip tries out.0 (failed_at (client_ip u a.request) ip a.submitted_at out.1 h)

  submit_if_passed-Agrees :
      (ip client : String) (t : ℕ) (h : List ℕ) (a : LoginTry) (table : FailedAuth) (blocked : Bool)
      → t ≤ a.submitted_at
      → Agrees ip t h table
      → let out =
          submit_if_passed c k client a (table, (if blocked then too_many else passed_on)) in
        Agrees ip a.submitted_at (failed_at client ip a.submitted_at out.1 h) out.0
  submit_if_passed-Agrees ip client t h a table true le g =
      Agrees-later ip t a.submitted_at h table le g
  submit_if_passed-Agrees ip client t h a table false le g =
      login_submit-AgreesAfter ip client c k a.form h t a.submitted_at table le g

  try_login-Agrees :
      (ip : String) (t : ℕ) (h : List ℕ) (a : LoginTry) (table : FailedAuth)
      → t ≤ a.guarded_at
      → a.guarded_at ≤ a.submitted_at
      → starts_with a.request.path "/login" ≡ true
      → ltb 10000 (length table) ≡ false
      → Agrees ip t h table
      → let out = try_login u c k a table in
        Agrees ip a.submitted_at (failed_at (client_ip u a.request) ip a.submitted_at out.1 h) out.0
  try_login-Agrees ip t h a table le later l s g =
      let client = client_ip u a.request in
      subst
        (λ (e : FailedAuth × Access).
          Agrees ip a.submitted_at
            (failed_at client ip a.submitted_at (submit_if_passed c k client a e).1 h)
            (submit_if_passed c k client a e).0)
        (sym (enforce_login a.guarded_at a.request table l s))
        (submit_if_passed-Agrees ip client a.guarded_at h a
          (purge_failures a.guarded_at client table) _ later
          (Agrees-purge ip client t a.guarded_at h table le g))

  wrong_passwords-Agrees :
      (ip : String) (t last : ℕ) (h : List ℕ) (tries : List LoginTry) (table : FailedAuth)
      → AreLogins t tries table last
      → Agrees ip t h table
      → countb (is_in_window last) (wrong_passwords ip tries table h) ≤ 5
  wrong_passwords-Agrees ip t last h [] table r g = (g last r).1
  wrong_passwords-Agrees ip t last h (a ∷ tries) table (le, later, l, s, r) g =
      wrong_passwords-Agrees ip a.submitted_at last _ tries (try_login u c k a table).0 r
        (try_login-Agrees ip t h a table le later l s g)

  -- Of any sequence of requests to log in, from a table without failures of a client and never with
  -- more than 10000 clients, at most five wrong passwords of that client are answered as wrong within
  -- any ten minutes that end at or after the last request.
  pub wrong_passwords_bounded :
      (ip : String) (last : ℕ) (tries : List LoginTry) (table : FailedAuth)
      → AreLogins 0 tries table last
      → failures_of ip table ≡ []
      → countb (is_in_window last) (wrong_passwords ip tries table []) ≤ 5
  wrong_passwords_bounded ip last tries table r e =
      wrong_passwords-Agrees ip 0 last [] tries table r
        (λ n g. (sym (ap (countb (is_in_window n)) e), omega arith))
