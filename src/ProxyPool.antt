-- ===== src/ProxyPool.antt =====
-- The proxy pool of backend/app/services/proxy_pool_service.py. `health_score` is a column
-- Numeric(5, 4) and so a whole number of ten-thousandths; a moment is a whole number of
-- microseconds, as `datetime` keeps it. A query with `.first()` finds the first row.
pub mod Scoring
pub mod Alone
pub mod Health
mod Tests
use jolly_jesters_mvp.Prelude.{
  ℕ, ◌+◌, ◌-◌, ◌*◌, min, Bool, true, false, not, ◌&&◌, ◌||◌, Option, none, some, String, List, [],
  ◌∷◌, map, ltb, leb, ◌==◌, if◌then◌else◌, Eq, string_eq, filterb, findb, countb, length,
}
use jolly_jesters_mvp.Prelude.Int.{ℤ, pos, negsuc, sub_ℕ}

-- The texts that `quarantine_reason` is given, with what they quote.
pub data QuarantineReason : Type 0 where
  auto : QuarantineReason
  given : String → QuarantineReason
  dead : (fails health : ℕ) → QuarantineReason

pub record NetworkProxy : Type 0 where
  pub id : ℕ
  pub url : String
  pub url_hash : Option String
  pub label : Option String
  pub is_active : Bool
  pub success_count : ℕ
  pub fail_count : ℕ
  pub last_success_at : Option ℕ
  pub last_fail_at : Option ℕ
  pub health_score : ℕ
  pub quarantine_until : Option ℕ
  pub quarantine_reason : Option QuarantineReason

abbrev pub min_health_score : ℕ
min_health_score = 0

abbrev pub max_health_score : ℕ
max_health_score = 10000

abbrev pub health_decay_factor : ℕ
health_decay_factor = 500

abbrev pub health_recovery_factor : ℕ
health_recovery_factor = 200

abbrev pub consecutive_fails_quarantine : ℕ
consecutive_fails_quarantine = 5

-- A row as `NetworkProxy(url=..., url_hash=..., label=...)` makes it, with the column defaults.
abbrev pub new_proxy : (id : ℕ) → (url hash : String) → Option String → NetworkProxy
new_proxy id url hash label = record {
  id = id;
  url = url;
  url_hash = some hash;
  label = label;
  is_active = true;
  success_count = 0;
  fail_count = 0;
  last_success_at = none;
  last_fail_at = none;
  health_score = max_health_score;
  quarantine_until = none;
  quarantine_reason = none;
}

-- The body of `record_success`, on the row that was found.
unfoldable pub succeed : (now : ℕ) → NetworkProxy → NetworkProxy
succeed now p = record p {
  success_count = p.success_count + 1;
  last_success_at = some now;
  health_score = min max_health_score (p.health_score + health_recovery_factor);
}

abbrev recent_fails_since : (failed_at : ℕ) → Option ℕ → ℕ → ℕ
recent_fails_since failed_at none fails = fails
recent_fails_since failed_at (some success_at) fails =
    if leb failed_at success_at then 0 else min fails consecutive_fails_quarantine

-- `_count_recent_consecutive_fails`
abbrev pub count_recent_consecutive_fails : NetworkProxy → ℕ
count_recent_consecutive_fails p = elim p.last_fail_at [
  | none ↦ 0
  | some failed_at ↦ recent_fails_since failed_at p.last_success_at p.fail_count
]

-- The body of `quarantine_proxy`: 15 failures and a health below 0.3 also deactivate the proxy.
unfoldable pub quarantine : (now duration : ℕ) → QuarantineReason → NetworkProxy → NetworkProxy
quarantine now duration reason p =
    if leb 15 p.fail_count && ltb p.health_score 3000
    then record p {
      quarantine_until = some (now + duration);
      quarantine_reason = some (dead p.fail_count p.health_score);
      is_active = false;
    }
    else record p { quarantine_until = some (now + duration); quarantine_reason = some reason }

-- `max(MIN_HEALTH_SCORE, ...)`
abbrev pub at_least_min : ℤ → ℕ
at_least_min (pos n) = if leb min_health_score n then n else min_health_score
at_least_min (negsuc n) = min_health_score

-- The writes that `record_failure` makes before it looks at the recent failures.
abbrev pub decay : (now : ℕ) → NetworkProxy → NetworkProxy
decay now p = record p {
  fail_count = p.fail_count + 1;
  last_fail_at = some now;
  health_score = at_least_min (sub_ℕ p.health_score health_decay_factor);
}

-- The body of `record_failure`, with `_quarantine_minutes()` as a duration.
unfoldable pub fail : (now ttl : ℕ) → NetworkProxy → NetworkProxy
unfolding quarantine
fail now ttl p =
    let p' = decay now p in
    if leb consecutive_fails_quarantine (count_recent_consecutive_fails p')
    then quarantine now ttl auto p'
    else p'

unfoldable pub unquarantine : NetworkProxy → NetworkProxy
unquarantine p = record p { quarantine_until = none; quarantine_reason = none }

-- An update of the object that `.first()` returned.
abbrev pub update_first {ℓ} : {A : Type ℓ} → (A → Bool) → (A → A) → List A → List A
update_first test f [] = []
update_first test f (x ∷ xs) = if test x then f x ∷ xs else x ∷ update_first test f xs

abbrev pub has_hash : String → NetworkProxy → Bool
has_hash hash p = elim p.url_hash [ none ↦ false | some h ↦ string_eq.beq h hash ]

unfoldable pub record_success : (now : ℕ) → String → List NetworkProxy → List NetworkProxy
record_success now hash = update_first (has_hash hash) (succeed now)

unfoldable pub record_failure : (now ttl : ℕ) → String → List NetworkProxy → List NetworkProxy
record_failure now ttl hash = update_first (has_hash hash) (fail now ttl)

unfoldable pub quarantine_proxy :
    (now duration : ℕ) → QuarantineReason → (id : ℕ) → List NetworkProxy → List NetworkProxy
quarantine_proxy now duration reason id =
    update_first (λ p. p.id == id) (quarantine now duration reason)

unfoldable pub unquarantine_proxy : (id : ℕ) → List NetworkProxy → List NetworkProxy
unquarantine_proxy id = update_first (λ p. p.id == id) unquarantine

-- `quarantine_until <= now`, which is false of a missing moment.
abbrev pub quarantine_expired : (now : ℕ) → NetworkProxy → Bool
quarantine_expired now p = elim p.quarantine_until [ none ↦ false | some t ↦ leb t now ]

-- `quarantine_until > now`
abbrev pub is_quarantined : (now : ℕ) → NetworkProxy → Bool
is_quarantined now p = elim p.quarantine_until [ none ↦ false | some t ↦ ltb now t ]

-- The filter of `get_active_proxy_urls` and of `list_proxies`.
abbrev pub is_available : (now : ℕ) → NetworkProxy → Bool
is_available now p = p.is_active && not (is_quarantined now p)

pub record Healthcheck : Type 0 where
  pub checked : ℕ
  pub recovered : ℕ

-- `run_healthcheck` walks the active proxies and lifts the quarantines that have run out.
abbrev pub recover : (now : ℕ) → NetworkProxy → NetworkProxy
recover now p = if p.is_active && quarantine_expired now p then unquarantine p else p

unfoldable pub run_healthcheck : (now : ℕ) → List NetworkProxy → List NetworkProxy × Healthcheck
unfolding unquarantine
run_healthcheck now pool = (
  map (recover now) pool,
  record {
    checked = countb (λ p. p.is_active) pool;
    recovered = countb (λ p. p.is_active && quarantine_expired now p) pool;
  },
)

pub record HealthSummary : Type 0 where
  pub total : ℕ
  pub active : ℕ
  pub dead : ℕ
  pub quarantined : ℕ

-- The counts of `get_health_summary`.
unfoldable pub get_health_summary : (now : ℕ) → List NetworkProxy → HealthSummary
get_health_summary now pool = record {
  total = length pool;
  active = countb (λ p. p.is_active) pool;
  dead = countb (λ p. not p.is_active) pool;
  quarantined = countb (is_quarantined now) pool;
}
