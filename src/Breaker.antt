-- ===== src/Breaker.antt =====
-- The circuit breaker of backend/app/services/circuit_breaker.py. `time.time()` is an argument, a
-- number of clock ticks; `name` is used in log lines only and is left out.
pub mod Reach
pub mod History
mod Tests
use jolly_jesters_mvp.Prelude.{ℕ, ◌+◌, Bool, true, false, List, [], ◌∷◌, leb, if◌then◌else◌}

pub data State : Type 0 where
  closed opened half_open : State

pub record CircuitBreaker : Type 0 where
  pub failure_threshold : ℕ
  pub recovery_timeout : ℕ
  pub failure_count : ℕ
  pub state : State
  pub last_failure_time : ℕ

-- A breaker as it is constructed, with its three private fields at their defaults.
abbrev pub new_breaker : ℕ → ℕ → CircuitBreaker
new_breaker threshold timeout = record {
  failure_threshold = threshold;
  recovery_timeout = timeout;
  failure_count = 0;
  state = closed;
  last_failure_time = 0;
}

unfoldable pub record_success : CircuitBreaker → CircuitBreaker
record_success c = record c { failure_count = 0; state = closed }

unfoldable pub record_failure : (now : ℕ) → CircuitBreaker → CircuitBreaker
record_failure now c =
    let count = c.failure_count + 1 in
    record c {
      failure_count = count;
      last_failure_time = now;
      state = if leb c.failure_threshold count then opened else c.state;
    }

-- `elapsed >= recovery_timeout`, without the subtraction.
abbrev pub recovery_due : (now : ℕ) → CircuitBreaker → Bool
recovery_due now c = leb (c.last_failure_time + c.recovery_timeout) now

abbrev is_open_in : State → (now : ℕ) → CircuitBreaker → CircuitBreaker × Bool
is_open_in closed now c = (c, false)
is_open_in opened now c =
    if recovery_due now c then (record c { state = half_open }, false) else (c, true)
is_open_in half_open now c = (c, false)

unfoldable pub is_open : (now : ℕ) → CircuitBreaker → CircuitBreaker × Bool
is_open now c = is_open_in c.state now c

-- A call of one of the three methods, with the clock's reading.
pub data Call : Type 0 where
  succeed : Call
  fail probe : (now : ℕ) → Call

abbrev pub perform : Call → CircuitBreaker → CircuitBreaker
perform succeed c = record_success c
perform (fail now) c = record_failure now c
perform (probe now) c = (is_open now c).0

abbrev pub perform_all : List Call → CircuitBreaker → CircuitBreaker
perform_all [] c = c
perform_all (call ∷ calls) c = perform_all calls (perform call c)
