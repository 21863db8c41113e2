-- ===== src/Breaker/History.antt =====
-- The breaker against its history: what decides is the number of failures since the last success.
use jolly_jesters_mvp.Prelude.{ℕ, ◌+◌, ◌<◌, ◌≡◌, ◌∙◌, ◌↔◌, List, [], ◌∷◌, arith}
use jolly_jesters_mvp.Breaker.{
  closed, CircuitBreaker, new_breaker, record_success, record_failure, is_open, Call, succeed, fail,
  probe, perform, perform_all,
}
use jolly_jesters_mvp.Breaker.Reach.{perform_all-IsValid}

-- The failures since the last success, where `n` stood before the calls.
abbrev pub failures_from : ℕ → List Call → ℕ
failures_from n [] = n
failures_from n (succeed ∷ calls) = failures_from 0 calls
failures_from n (fail now ∷ calls) = failures_from (n + 1) calls
failures_from n (probe now ∷ calls) = failures_from n calls

failure_count-perform_all :
    (calls : List Call) (c : CircuitBreaker)
    → (perform_all calls c).failure_count ≡ failures_from c.failure_count calls
unfolding record_success record_failure is_open
failure_count-perform_all [] c = ground arith
failure_count-perform_all (succeed ∷ calls) c = failure_count-perform_all calls (record_success c)
failure_count-perform_all (fail now ∷ calls) c =
    failure_count-perform_all calls (record_failure now c)
failure_count-perform_all (probe now ∷ calls) c =
    ground (arith, failure_count-perform_all calls (is_open now c).0)

perform-threshold :
    (call : Call) (c : CircuitBreaker) → (perform call c).failure_threshold ≡ c.failure_threshold
unfolding record_success record_failure is_open
perform-threshold succeed c = ground arith
perform-threshold (fail now) c = ground arith
perform-threshold (probe now) c = ground arith

perform_all-threshold :
    (calls : List Call) (c : CircuitBreaker)
    → (perform_all calls c).failure_threshold ≡ c.failure_threshold
perform_all-threshold [] c = ground arith
perform_all-threshold (call ∷ calls) c =
    perform_all-threshold calls (perform call c) ∙ perform-threshold call c

-- After any calls on a new breaker of a positive threshold, it is closed exactly when fewer failures
-- than the threshold have come since the last success, whatever the clock and the probes.
pub closed_iff :
    (threshold timeout : ℕ) (calls : List Call)
    → 0 < threshold
    → ((perform_all calls (new_breaker threshold timeout)).state ≡ closed)
      ↔ (failures_from 0 calls < threshold)
closed_iff threshold timeout calls pos =
    let c = new_breaker threshold timeout in
    ground (
      arith,
      perform_all-IsValid calls c,
      failure_count-perform_all calls c,
      perform_all-threshold calls c,
    )
