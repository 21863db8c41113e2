-- ===== src/Breaker/Reach.antt =====
-- What holds of every breaker that method calls can reach.
use jolly_jesters_mvp.Prelude.{ℕ, ◌+◌, ◌≤◌, ◌<◌, ◌≡◌, true, false, List, [], ◌∷◌, arith}
use jolly_jesters_mvp.Breaker.{
  State, closed, opened, half_open, CircuitBreaker, record_success, record_failure, is_open, Call,
  succeed, fail, probe, perform, perform_all,
}

-- A closed breaker has counted fewer failures than the threshold, any other at least as many.
abbrev pub Counted : State → CircuitBreaker → Type 0
Counted closed c = c.failure_count < c.failure_threshold
Counted opened c = c.failure_threshold ≤ c.failure_count
Counted half_open c = c.failure_threshold ≤ c.failure_count

abbrev pub IsValid : CircuitBreaker → Type 0
IsValid c = (0 < c.failure_threshold) × Counted c.state c

pub perform-IsValid : (call : Call) (c : CircuitBreaker) → IsValid c → IsValid (perform call c)
unfolding record_success record_failure is_open
perform-IsValid succeed c h = ground arith
perform-IsValid (fail now) c h = ground arith
perform-IsValid (probe now) c h = ground arith

-- From a well-formed breaker, every sequence of method calls keeps the failure count and the state in
-- step: closed below the threshold, open or half-open from it on.
pub perform_all-IsValid :
    (calls : List Call) (c : CircuitBreaker) → IsValid c → IsValid (perform_all calls c)
perform_all-IsValid [] c h = h
perform_all-IsValid (call ∷ calls) c h =
    perform_all-IsValid calls (perform call c) (perform-IsValid call c h)

-- In a well-formed breaker whose failures have reached the threshold, one more failure opens it again
-- from that moment, and `is_open` answers true at every later time before the recovery timeout and false from then on.
record_failure-reopens :
    (c : CircuitBreaker) (now later : ℕ)
    → IsValid c
    → c.failure_threshold ≤ c.failure_count
    → let c' = record_failure now c in
      (c'.state ≡ opened)
      × (now + c.recovery_timeout ≤ later → (is_open later c').1 ≡ false)
      × (later < now + c.recovery_timeout → is_open later c' ≡ (c', true))
unfolding record_failure is_open
record_failure-reopens c now later h tripped = ground arith
