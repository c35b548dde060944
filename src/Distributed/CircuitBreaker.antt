-- ===== src/Distributed/CircuitBreaker.antt =====
-- The circuit breaker of src/distributed/distributed.c. Each critical section is one operation:
-- `circuit_breaker_call` has two of them, with the caller's function between. The count and
-- the threshold are ints, kept as their 32-bit patterns (Common/Words): the count's increment wraps
-- around and the comparison is signed. Past INT_MAX the increment is undefined in C; the theorems
-- keep the count below.
pub mod Calls
pub mod Schedule
use backend_in_c.Prelude.{ℕ, ◌+◌, Option, none, some, Bool, true, false, ltb, if◌then◌else◌}
use backend_in_c.Common.{int_of, error_invalid_param, error_timeout}
use backend_in_c.Common.Words.{ℤ, is_zero, sub64, inc_int, leb_int}

pub data CircuitState : Type 0 where
  circuit_closed circuit_open circuit_half_open : CircuitState

pub record CircuitBreaker : Type 0 where
  pub state : CircuitState
  -- int
  pub failure_count : ℕ
  -- int
  pub failure_threshold : ℕ
  pub timeout_ms : ℕ
  pub last_failure_time : ℕ

-- `circuit_breaker_create`
unfoldable pub create : ℕ → ℕ → CircuitBreaker
create failure_threshold timeout_ms = record {
  state = circuit_closed;
  failure_count = 0;
  failure_threshold = failure_threshold;
  timeout_ms = timeout_ms;
  last_failure_time = 0;
}

-- The first critical section of `circuit_breaker_call`: whether the call goes on.
unfoldable pub enter : ℕ → CircuitBreaker → Bool × CircuitBreaker
enter now b = elim b.state [
  | circuit_open ↦
      if ltb b.timeout_ms (sub64 now b.last_failure_time)
      then (true, record b { state = circuit_half_open })
      else (false, b)
  | _ ↦ (true, b)
]

-- `circuit_breaker_record_success`
unfoldable pub record_success : CircuitBreaker → CircuitBreaker
record_success b = elim b.state [
  | circuit_half_open ↦ record b { state = circuit_closed; failure_count = 0 }
  | _ ↦ b
]

-- `circuit_breaker_record_failure` at the time `now`
unfoldable pub record_failure : ℕ → CircuitBreaker → CircuitBreaker
record_failure now b =
    let failure_count = inc_int b.failure_count in
    record b {
      state = if leb_int b.failure_threshold failure_count then circuit_open else b.state;
      failure_count = failure_count;
      last_failure_time = now;
    }

unfoldable pub record_result : ℕ → ℤ → CircuitBreaker → CircuitBreaker
unfolding record_success record_failure
record_result now result b = if is_zero result then record_success b else record_failure now b

-- `circuit_breaker_call` with no other thread in between: `now` is read on entry and `now'` by the
-- recording of a failure. The caller's function changes a world of its own.
unfoldable pub call {ℓ} :
    {W : Type ℓ}
    → ℕ
    → ℕ
    → Option (W → ℤ × W)
    → W
    → Option CircuitBreaker
    → ℤ × W × Option CircuitBreaker
unfolding enter record_result
call now now' (some func) w (some b) =
    let (allowed, b') = enter now b in
    let (result, w') = func w in
    if allowed
    then (result, w', some (record_result now' result b'))
    else (int_of error_timeout, w, some b')
call now now' func w b = (int_of error_invalid_param, w, b)

-- `circuit_breaker_get_state`
unfoldable pub get_state : Option CircuitBreaker → CircuitState
get_state none = circuit_open
get_state (some b) = b.state
