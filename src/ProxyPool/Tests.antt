-- ===== src/ProxyPool/Tests.antt =====
-- Runs of the pool on small inputs.
use jolly_jesters_mvp.Prelude.{ℕ, ◌≡◌, refl, false, none, some, List, [], ◌∷◌, arith, All}
use jolly_jesters_mvp.ProxyPool.{NetworkProxy, new_proxy, fail, dead, get_health_summary}
use jolly_jesters_mvp.ProxyPool.Scoring.{IsValid, failure, perform, perform-IsValid}
use jolly_jesters_mvp.ProxyPool.Alone.{fail_all}

abbrev fresh : NetworkProxy
fresh = new_proxy 1 "http://a" "a" none

abbrev times : List ℕ
times = 1 ∷ 2 ∷ 3 ∷ 4 ∷ 5 ∷ 6 ∷ 7 ∷ 8 ∷ 9 ∷ 10 ∷ 11 ∷ 12 ∷ 13 ∷ 14 ∷ 15 ∷ []

-- Fifteen failures deactivate a proxy, and its quarantine is recorded with the reason.
abbrev retired : NetworkProxy
retired = record fresh {
  is_active = false;
  fail_count = 15;
  last_fail_at = some 15;
  health_score = 2500;
  quarantine_until = some 115;
  quarantine_reason = some (dead 15 2500);
}

fail_all-times : fail_all 100 times fresh ≡ retired
unfolding fail
fail_all-times = refl

abbrev old : NetworkProxy
old = record fresh { fail_count = 4; last_success_at = some 50; quarantine_until = some 10 }

abbrev pool : List NetworkProxy
pool = old ∷ retired ∷ fresh ∷ []

summary-pool : (get_health_summary 20 pool).quarantined ≡ 1
unfolding get_health_summary
summary-pool = refl

perform-IsValid_example : All IsValid (perform (failure 16 100 "a") (fresh ∷ []))
perform-IsValid_example = perform-IsValid (failure 16 100 "a") (fresh ∷ []) (ground arith)
