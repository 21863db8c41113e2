-- ===== src/ProxyPool/Health.antt =====
-- The available proxies and the summary.
use jolly_jesters_mvp.Prelude.{
  ℕ, ◌+◌, ◌≡◌, refl, not, ◌&&◌, List, [], ◌∷◌, arith, map, length, countb,
}
use jolly_jesters_mvp.ProxyPool.{
  NetworkProxy, is_quarantined, is_available, quarantine_expired, recover, run_healthcheck,
  unquarantine, get_health_summary,
}

-- The inactive proxies that are still in quarantine.
abbrev pub dead_quarantined : (now : ℕ) → List NetworkProxy → ℕ
dead_quarantined now = countb (λ p. not p.is_active && is_quarantined now p)

available-count :
    (now : ℕ) (pool : List NetworkProxy)
    → countb (is_available now) pool + countb (is_quarantined now) pool
      ≡ countb (λ p. p.is_active) pool + dead_quarantined now pool
available-count now [] = refl
available-count now (p ∷ pool) = ground (arith, available-count now pool)

-- The summary counts inactive proxies among the quarantined: the number of proxies offered for use
-- plus the summary's `quarantined` is its `active` plus the inactive proxies in quarantine, so that
-- `active - quarantined` misses the available ones by that number.
get_health_summary-available :
    (now : ℕ) (pool : List NetworkProxy)
    → let s = get_health_summary now pool in
      (countb (is_available now) pool + s.quarantined ≡ s.active + dead_quarantined now pool)
      × (s.active + s.dead ≡ s.total)
unfolding get_health_summary
get_health_summary-available now pool = (available-count now pool, active-add-dead pool)
  where
    active-add-dead :
        (pool : List NetworkProxy)
        → countb (λ p. p.is_active) pool + countb (λ p. not p.is_active) pool ≡ length pool
    active-add-dead [] = refl
    active-add-dead (p ∷ pool) = ground (arith, active-add-dead pool)

recover-is_available :
    (now : ℕ) (p : NetworkProxy) → is_available now (recover now p) ≡ is_available now p
unfolding unquarantine
recover-is_available now p = ground arith

count-recover :
    (now : ℕ) (pool : List NetworkProxy)
    → (countb (λ p. p.is_active && quarantine_expired now p) (map (recover now) pool) ≡ 0)
      × (countb (is_available now) (map (recover now) pool) ≡ countb (is_available now) pool)
      × (countb (λ p. p.is_active) (map (recover now) pool) ≡ countb (λ p. p.is_active) pool)
unfolding unquarantine
count-recover now [] = (refl, refl, refl)
count-recover now (p ∷ pool) =
    let (a, b, c) = count-recover now pool in
    (ground (arith, a), ground (arith, b), ground (arith, c))

-- A healthcheck lifts every quarantine of an active proxy that has run out: a second one at the same
-- moment recovers none, and as many proxies are active and available after it as before.
run_healthcheck_settles :
    (now : ℕ) (pool : List NetworkProxy)
    → let (pool', r) = run_healthcheck now pool in
      ((run_healthcheck now pool').1.recovered ≡ 0)
      × ((run_healthcheck now pool').1.checked ≡ r.checked)
      × (countb (is_available now) pool' ≡ countb (is_available now) pool)
unfolding run_healthcheck
run_healthcheck_settles now pool = let (a, b, c) = count-recover now pool in (a, c, b)
