-- ===== src/ProxyPool/Alone.antt =====
-- What failures alone do to a proxy, and one failure after old ones.
use jolly_jesters_mvp.Prelude.{
  ℕ, suc, ◌+◌, ◌-◌, ◌*◌, ◌≤◌, ◌<◌, ◌≡◌, ◌↔◌, none, some, List, [], ◌∷◌, arith, String, Option,
  length, ltb, add-zero, subst,
}
use jolly_jesters_mvp.ProxyPool.{NetworkProxy, new_proxy, fail}

abbrev pub fail_all : (ttl : ℕ) → List ℕ → NetworkProxy → NetworkProxy
fail_all ttl [] p = p
fail_all ttl (now ∷ times) p = fail_all ttl times (fail now ttl p)

-- A proxy that has failed `n` times and never succeeded.
pub record HasFailed (n : ℕ) (p : NetworkProxy) : Type 0 where
  pub counted : p.fail_count ≡ n
  pub score : p.health_score ≡ 10000 - 500 * n
  pub never : p.last_success_at ≡ none
  pub active : p.is_active ≡ ltb n 15
  pub isolated : (p.quarantine_until ≡ none) ↔ (n < 5)

fail-HasFailed :
    (n now ttl : ℕ) (p : NetworkProxy) → HasFailed n p → HasFailed (suc n) (fail now ttl p)
unfolding fail
fail-HasFailed n now ttl p h = record {
  counted = ground arith;
  score = ground arith;
  never = ground arith;
  active = ground arith;
  isolated = ground arith;
}

fail_all-HasFailed :
    (times : List ℕ) (n ttl : ℕ) (p : NetworkProxy)
    → HasFailed n p
    → HasFailed (n + length times) (fail_all ttl times p)
fail_all-HasFailed [] n ttl p h = rw add-zero h
fail_all-HasFailed (now ∷ times) n ttl p h =
    let e : n + suc (length times) ≡ suc n + length times = omega arith in
    rw e (fail_all-HasFailed times (suc n) ttl (fail now ttl p) (fail-HasFailed n now ttl p h))

-- A new proxy that only ever fails loses 0.05 of its score each time, is quarantined from the fifth
-- failure on and not before, and stays active up to the fourteenth failure and no longer.
new_proxy-HasFailed :
    (id : ℕ) (url hash : String) (label : Option String) (ttl : ℕ) (times : List ℕ)
    → HasFailed (length times) (fail_all ttl times (new_proxy id url hash label))
new_proxy-HasFailed id url hash label ttl times =
    let e : 0 + length times ≡ length times = omega arith in
    subst (λ n. HasFailed n (fail_all ttl times (new_proxy id url hash label))) e
      (fail_all-HasFailed times 0 ttl (new_proxy id url hash label) (ground arith))

-- The count is not one of consecutive failures: a proxy with four old failures whose last request
-- succeeded is quarantined by a single new failure.
fail_after_success :
    (p : NetworkProxy) (succeeded_at now ttl : ℕ)
    → 4 ≤ p.fail_count
    → p.last_success_at ≡ some succeeded_at
    → succeeded_at < now
    → (fail now ttl p).quarantine_until ≡ some (now + ttl)
unfolding fail
fail_after_success p succeeded_at now ttl old success later = ground arith
