-- ===== src/Distributed/CircuitBreaker/Schedule.antt =====
-- Threads that share a circuit breaker of src/distributed/distributed.c: the critical sections of
-- their calls, in any order.
use backend_in_c.Common.Words.{int_limit}
use backend_in_c.Prelude.{ℕ, ◌+◌, ◌<◌, ◌≡◌, ◌↔◌, arith}
use backend_in_c.Distributed.CircuitBreaker.{
  circuit_closed, CircuitBreaker, create, enter, record_success, record_failure,
}

-- One critical section of some thread. A failure is recorded only below INT_MAX failures: at INT_MAX
-- the increment of the int is undefined.
pub data Step (b b' : CircuitBreaker) : Type 0 where
  enters : (now : ℕ) → b' ≡ (enter now b).1 → Step b b'
  succeeds : b' ≡ record_success b → Step b b'
  fails : (now : ℕ) → b.failure_count + 1 < int_limit → b' ≡ record_failure now b → Step b b'

pub data Reach (b : CircuitBreaker) : CircuitBreaker → Type 0 where
  here : Reach b b
  next : {c d : CircuitBreaker} → Reach b c → Step c d → Reach b d

-- The breaker is closed exactly while it has counted fewer failures than its threshold. Both are ints
-- that are not negative, so that their patterns are the numbers.
pub record IsTripped (b : CircuitBreaker) : Type 0 where
  pub closed : (b.state ≡ circuit_closed) ↔ (b.failure_count < b.failure_threshold)
  pub positive : 0 < b.failure_threshold
  pub threshold : b.failure_threshold < int_limit
  pub count : b.failure_count < int_limit

abbrev SameSettings : CircuitBreaker → CircuitBreaker → Type 0
SameSettings b c = (c.failure_threshold ≡ b.failure_threshold) × (c.timeout_ms ≡ b.timeout_ms)

enter-IsTripped : (now : ℕ) (b : CircuitBreaker) → IsTripped b → IsTripped (enter now b).1
unfolding enter
enter-IsTripped now b h = ground arith

success-IsTripped : (b : CircuitBreaker) → IsTripped b → IsTripped (record_success b)
unfolding record_success
success-IsTripped b h = ground arith

failure-IsTripped :
    (now : ℕ) (b : CircuitBreaker)
    → b.failure_count + 1 < int_limit
    → IsTripped b
    → IsTripped (record_failure now b)
unfolding record_failure
failure-IsTripped now b few h = ground arith

Step-IsTripped : {b b' : CircuitBreaker} → Step b b' → IsTripped b → IsTripped b'
Step-IsTripped {b} (enters now e) h = rw e (enter-IsTripped now b h)
Step-IsTripped {b} (succeeds e) h = rw e (success-IsTripped b h)
Step-IsTripped {b} (fails now few e) h = rw e (failure-IsTripped now b few h)

Reach-keeps : {b c : CircuitBreaker} → IsTripped b → Reach b c → IsTripped c
Reach-keeps h here = h
Reach-keeps h (next r s) = Step-IsTripped s (Reach-keeps h r)

create-IsTripped :
    (threshold timeout : ℕ)
    → 0 < threshold
    → threshold < int_limit
    → IsTripped (create threshold timeout)
unfolding create
create-IsTripped threshold timeout h fits = ground arith

-- Of a breaker that was created with a threshold from 1 to INT_MAX and is used by any threads in any
-- order, with no failure recorded while its count is INT_MAX, it holds that it is closed exactly while
-- fewer failures are counted than the threshold, and that the count is an int from 0 to INT_MAX.
pub Reach-IsTripped :
    (threshold timeout : ℕ) {b : CircuitBreaker}
    → 0 < threshold
    → threshold < int_limit
    → Reach (create threshold timeout) b
    → IsTripped b
Reach-IsTripped threshold timeout h fits r =
    Reach-keeps (create-IsTripped threshold timeout h fits) r
