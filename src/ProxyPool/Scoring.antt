-- ===== src/ProxyPool/Scoring.antt =====
-- Bounds of the score, and when a failure quarantines.
use jolly_jesters_mvp.Prelude.{
  ℕ, ◌≤◌, ◌<◌, ◌≡◌, ◌≢◌, false, none, List, [], ◌∷◌, arith, String, All, Bool, Bool-cases, inl, inr,
  ◌==◌, ◌&&◌, map, if-elim,
}
use jolly_jesters_mvp.ProxyPool.{
  NetworkProxy, QuarantineReason, max_health_score, succeed, fail, quarantine, unquarantine,
  update_first, record_success, record_failure, quarantine_proxy, unquarantine_proxy, has_hash,
  quarantine_expired, recover, run_healthcheck,
}

-- The score is at most 1, a proxy with a failure has the moment of its last one, and an inactive proxy
-- has at least 15 failures.
pub record IsValid (p : NetworkProxy) : Type 0 where
  pub bounded : p.health_score ≤ max_health_score
  pub dated : 0 < p.fail_count → p.last_fail_at ≢ none
  pub retired : p.is_active ≡ false → 15 ≤ p.fail_count

succeed-IsValid : (now : ℕ) (p : NetworkProxy) → IsValid p → IsValid (succeed now p)
unfolding succeed
succeed-IsValid now p v = ground arith

fail-IsValid : (now ttl : ℕ) (p : NetworkProxy) → IsValid p → IsValid (fail now ttl p)
unfolding fail
fail-IsValid now ttl p v = ground arith

quarantine-IsValid :
    (now duration : ℕ) (r : QuarantineReason) (p : NetworkProxy)
    → IsValid p
    → IsValid (quarantine now duration r p)
unfolding quarantine
quarantine-IsValid now duration r p v = ground arith

unquarantine-IsValid : (p : NetworkProxy) → IsValid p → IsValid (unquarantine p)
unfolding unquarantine
unquarantine-IsValid p v = ground arith

module _ (P : NetworkProxy → Type 0) (test : NetworkProxy → Bool) (f : NetworkProxy → NetworkProxy)
    (keeps : (p : NetworkProxy) → P p → P (f p)) where
  update_first-All : (pool : List NetworkProxy) → All P pool → All P (update_first test f pool)
  update_first-All [] h = tt
  update_first-All (p ∷ pool) h = elim (Bool-cases (test p)) [
    | inl e ↦ rw e (keeps p h.0, h.1)
    | inr e ↦ rw e (h.0, update_first-All pool h.1)
  ]

recover-IsValid : (now : ℕ) (p : NetworkProxy) → IsValid p → IsValid (recover now p)
recover-IsValid now p v =
    if-elim IsValid (p.is_active && quarantine_expired now p) (unquarantine p) p
      (unquarantine-IsValid p v) v

map-recover-All :
    (now : ℕ) (pool : List NetworkProxy) → All IsValid pool → All IsValid (map (recover now) pool)
map-recover-All now [] h = tt
map-recover-All now (p ∷ pool) h = (recover-IsValid now p h.0, map-recover-All now pool h.1)

-- A call of one of the operations that change rows of the pool.
pub data Operation : Type 0 where
  success : (now : ℕ) → String → Operation
  failure : (now ttl : ℕ) → String → Operation
  isolate : (now duration : ℕ) → QuarantineReason → (id : ℕ) → Operation
  release : (id : ℕ) → Operation
  check_all : (now : ℕ) → Operation

abbrev pub perform : Operation → List NetworkProxy → List NetworkProxy
perform (success now hash) pool = record_success now hash pool
perform (failure now ttl hash) pool = record_failure now ttl hash pool
perform (isolate now duration r id) pool = quarantine_proxy now duration r id pool
perform (release id) pool = unquarantine_proxy id pool
perform (check_all now) pool = (run_healthcheck now pool).0

-- Every operation keeps a well-formed pool well formed: no score is above 1, each proxy with
-- a failure has the moment of its last one, and no proxy is inactive with fewer than 15 failures.
pub perform-IsValid :
    (op : Operation) (pool : List NetworkProxy) → All IsValid pool → All IsValid (perform op pool)
unfolding record_success record_failure quarantine_proxy unquarantine_proxy run_healthcheck
perform-IsValid (success now hash) pool h =
    update_first-All IsValid (has_hash hash) (succeed now) (succeed-IsValid now) pool h
perform-IsValid (failure now ttl hash) pool h =
    update_first-All IsValid (has_hash hash) (fail now ttl) (fail-IsValid now ttl) pool h
perform-IsValid (isolate now duration r id) pool h =
    update_first-All IsValid (λ p. p.id == id) (quarantine now duration r)
      (quarantine-IsValid now duration r) pool h
perform-IsValid (check_all now) pool h = map-recover-All now pool h
perform-IsValid (release id) pool h =
    update_first-All IsValid (λ p. p.id == id) unquarantine unquarantine-IsValid pool h
