-- ===== src/Breaker/Tests.antt =====
-- Runs of the breaker on small inputs.
use jolly_jesters_mvp.Prelude.{◌<◌, ◌≡◌, ◌↔◌, refl, List, [], ◌∷◌, arith}
use jolly_jesters_mvp.Breaker.{
  CircuitBreaker, closed, opened, half_open, new_breaker, record_success, record_failure, is_open,
  Call, fail, probe, perform_all,
}
use jolly_jesters_mvp.Breaker.Reach.{IsValid, perform_all-IsValid}
use jolly_jesters_mvp.Breaker.History.{failures_from, closed_iff}

-- Two failures open it, a late probe makes it half-open, and a failure opens it again.
abbrev calls : List Call
calls = fail 5 ∷ fail 6 ∷ probe 70 ∷ fail 71 ∷ probe 72 ∷ []

abbrev tripped : CircuitBreaker
tripped = record {
  failure_threshold = 2;
  recovery_timeout = 60;
  failure_count = 2;
  state = half_open;
  last_failure_time = 6;
}

perform_all-calls :
    ((perform_all calls (new_breaker 2 60)).state ≡ opened)
    × ((perform_all (fail 5 ∷ fail 6 ∷ probe 70 ∷ []) (new_breaker 2 60)) ≡ tripped)
unfolding record_success record_failure is_open
perform_all-calls = (refl, refl)

perform_all-IsValid_example : IsValid (perform_all calls (new_breaker 2 60))
perform_all-IsValid_example = perform_all-IsValid calls (new_breaker 2 60) (omega arith)

closed_iff_example :
    ((perform_all calls (new_breaker 2 60)).state ≡ closed) ↔ (failures_from 0 calls < 2)
closed_iff_example = closed_iff 2 60 calls (omega arith)
