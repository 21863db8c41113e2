-- ===== src/Guard/Session.antt =====
-- The session cookie, and who passes the middleware.
use text.Mathlib.Text.{starts_with}
use jolly_jesters_mvp.Prelude.{
  ℕ, ◌+◌, ◌*◌, ◌/◌, Bool, true, false, not, ◌&&◌, ◌||◌, Option, none, some, String, [], ◌∷◌, ◌++◌,
  leb, ltb, ◌==◌, ==_iff, if◌then◌else◌, ◌≡◌, ◌⊎◌, inl, inr, refl, ap, ◌∙◌, arith, if-cases,
  if-elim, erase, string_eq,
}
use jolly_jesters_mvp.Prelude.Int.{ℤ, pos}
use jolly_jesters_mvp.Import.Text.{Unicode}
use jolly_jesters_mvp.Token.Strings.{Text, text_eq, dot, Lacks, Joins}
use jolly_jesters_mvp.Guard.{
  Signer, one_second, sign_session, issue_cookie, split_once, ttl_seconds, session_expired,
  validate_parts, validate_split, before_first, validate_cookie, FailedAuth, WebRequest, client_ip,
  purge_failures, is_blocked, clean_failures, Access, passed_on, unauthorized, redirected, too_many,
  wants_html, has_session, refuse, check_session, enforce_basic_auth,
}

split_once-append : (s t : Text) → Lacks dot s → split_once (s ++ dot ∷ t) ≡ some (s, t)
split_once-append [] t h = refl
split_once-append (x ∷ s) t h = rw (h.0, split_once-append s t h.1) refl

beq_same : (s : Text) → text_eq.beq s s ≡ true
beq_same s = (text_eq.beq_iff s s).1 refl

not_after : (a b : ℕ) (t : Bool) → t ≡ true → (not (ltb a b) && t) ≡ leb b a
not_after a b t e = ground arith

before_first-Joins :
    (x : ℕ) (s : Text) (o : Option (Text × Text))
    → Joins dot s o
    → Joins dot (x ∷ s) (before_first x o)
before_first-Joins x s none h = tt
before_first-Joins x s (some p) h = ap (λ t. x ∷ t) h

split_once-Joins : (s : Text) → Joins dot s (split_once s)
split_once-Joins [] = tt
split_once-Joins (x ∷ s) =
    if-cases (Joins dot (x ∷ s)) (x == dot) (some ([], s)) (before_first x (split_once s))
      (λ e. ap (λ y. y ∷ s) ((==_iff x dot).0 e))
      (λ e. before_first-Joins x s (split_once s) (split_once-Joins s))

and_parts : (a b : Bool) → (not a && b) ≡ true → (a ≡ false) × (b ≡ true)
and_parts a b e = ground arith

one_of : (a b : Bool) → (a || b) ≡ true → (a ≡ true) ⊎ (b ≡ true)
one_of true b e = inl refl
one_of false b e = inr e

module _ (c : Signer) (hours : ℕ) where
  -- A cookie is accepted until its time to live, from the second in which it was issued, is over, and
  -- then no more; for a writing of the moment without a dot that is read back as the moment.
  pub issue_cookie_life :
      (issued now : ℕ)
      → Lacks dot (c.show_int (pos (issued / one_second)))
      → c.read_int (c.show_int (pos (issued / one_second))) ≡ some (pos (issued / one_second))
      → validate_cookie c hours now (issue_cookie c issued)
        ≡ leb now ((issued / one_second + ttl_seconds hours) * one_second)
  unfolding validate_cookie issue_cookie
  issue_cookie_life issued now l e =
      let shown = c.show_int (pos (issued / one_second)) in
      let sig = sign_session c (pos (issued / one_second)) in
      ap (validate_split c hours now) (split_once-append shown sig l)
      ∙ ap (validate_parts c hours now sig) e
      ∙ not_after ((issued / one_second + ttl_seconds hours) * one_second) now _ (beq_same sig)

  -- The parts of a valid cookie.
  abbrev pub IsSigned : (now : ℕ) → Text → Type 0
  IsSigned now token =
      (shown : Text) × (ts : ℤ) × (token ≡ shown ++ dot ∷ sign_session c ts)
      × (c.read_int shown ≡ some ts)
      × (session_expired now (ttl_seconds hours) ts ≡ false)

  validate_parts-IsSigned :
      (now : ℕ) (token shown sig : Text) (o : Option ℤ)
      → token ≡ shown ++ dot ∷ sig
      → c.read_int shown ≡ o
      → validate_parts c hours now sig o ≡ true
      → IsSigned now token
  validate_parts-IsSigned now token shown sig none j r e = absurd (ground arith)
  validate_parts-IsSigned now token shown sig (some ts) j r e =
      let parts =
        and_parts (session_expired now (ttl_seconds hours) ts) (text_eq.beq sig (sign_session c ts))
          e in
      (
        shown,
        ts,
        j ∙ ap (λ t. shown ++ dot ∷ t) ((text_eq.beq_iff sig (sign_session c ts)).0 parts.1),
        r,
        parts.0,
      )

  validate_split-IsSigned :
      (now : ℕ) (token : Text) (o : Option (Text × Text))
      → Joins dot token o
      → validate_split c hours now o ≡ true
      → IsSigned now token
  validate_split-IsSigned now token none j e = absurd (ground arith)
  validate_split-IsSigned now token (some p) j e =
      validate_parts-IsSigned now token p.0 p.1 (c.read_int p.0) j refl e

  validate_cookie-IsSigned :
      (now : ℕ) (token : Text) → validate_cookie c hours now token ≡ true → IsSigned now token
  unfolding validate_cookie
  validate_cookie-IsSigned now token e =
      validate_split-IsSigned now token (split_once token) (split_once-Joins token) e

  -- Why a request is let through.
  abbrev pub IsLetThrough : (now : ℕ) → WebRequest → Access → Type 0
  IsLetThrough now r passed_on =
      (starts_with r.path "/healthz" ≡ true)
      ⊎ ((starts_with r.path "/login" ≡ true)
          ⊎ ((token : Text) × (r.jj_session ≡ some token) × IsSigned now token))
  IsLetThrough now r _ = Unit

  has_session-IsSigned :
      (now : ℕ) (o : Option Text)
      → has_session c hours now o ≡ true
      → (token : Text) × (o ≡ some token) × IsSigned now token
  has_session-IsSigned now none e = absurd (ground arith)
  has_session-IsSigned now (some []) e = absurd (ground arith)
  has_session-IsSigned now (some (x ∷ s)) e = (x ∷ s, refl, validate_cookie-IsSigned now (x ∷ s) e)

  refuse-IsLetThrough : (now : ℕ) (r : WebRequest) → IsLetThrough now r (refuse r)
  refuse-IsLetThrough now r =
      if-elim (IsLetThrough now r) (starts_with r.path "/api") unauthorized
        (if wants_html r then redirected else unauthorized) tt
        (if-elim (IsLetThrough now r) (wants_html r) redirected unauthorized tt tt)

  check_session-IsLetThrough :
      (now : ℕ) (ip : String) (r : WebRequest) (table : FailedAuth)
      → IsLetThrough now r (check_session c hours now ip r table).1
  check_session-IsLetThrough now ip r table =
      if-cases (λ (x : FailedAuth × Access). IsLetThrough now r x.1)
        (starts_with r.path "/healthz" || starts_with r.path "/login") (table, passed_on)
        (if has_session c hours now r.jj_session
          then (erase ip table, passed_on)
          else (table, refuse r))
        (λ e. elim (one_of _ _ e) [ inl h ↦ inl h | inr l ↦ inr (inl l) ])
        (λ e.
          if-cases (λ (x : FailedAuth × Access). IsLetThrough now r x.1)
            (has_session c hours now r.jj_session) (erase ip table, passed_on) (table, refuse r)
            (λ h. inr (inr (has_session-IsSigned now r.jj_session h)))
            (λ h. refuse-IsLetThrough now r))

  -- The middleware lets a request through only if its path is that of the health check or of the
  -- login, or if it has a cookie of a readable moment, whose time to live is not over, with the
  -- signature of that moment.
  pub enforce_basic_auth-IsLetThrough :
      (u : Unicode) (now : ℕ) (r : WebRequest) (table : FailedAuth)
      → IsLetThrough now r (enforce_basic_auth u c hours now r table).1
  unfolding enforce_basic_auth
  enforce_basic_auth-IsLetThrough u now r table =
      let ip = client_ip u r in
      let purged = purge_failures now ip (clean_failures table) in
      if-elim (λ (x : FailedAuth × Access). IsLetThrough now r x.1) (is_blocked ip purged)
        (purged, too_many) (check_session c hours now ip r purged) tt
        (check_session-IsLetThrough now ip r purged)
