-- ===== src/Distributed/CircuitBreaker/Calls.antt =====
-- What the calls through a circuit breaker of src/distributed/distributed.c do to it, one caller at
-- a time.
use backend_in_c.Prelude.{
  ℕ, ◌+◌, ◌≤◌, ◌<◌, ◌≡◌, refl, List, [], ◌∷◌, ◌++◌, some, true, false, arith, leb, if◌then◌else◌,
  Bool-cases, inl, inr,
}
use backend_in_c.Common.{int_of, error_timeout}
use backend_in_c.Common.Words.{ℤ, is_zero, u64, int_limit}
use backend_in_c.Distributed.CircuitBreaker.{
  circuit_closed, circuit_open, CircuitBreaker, enter, record_result, call,
}

-- The outcomes of calls, each with the time at which a failure is recorded; the calls of a closed
-- breaker need no time on entry.
abbrev pub Outcomes : Type 0
Outcomes = List (ℤ × ℕ)

unfoldable pub run : Outcomes → CircuitBreaker → CircuitBreaker
run [] b = b
run ((result, now) ∷ rest) b = run rest (record_result now result (enter now b).1)

unfoldable pub failures : Outcomes → ℕ
failures [] = 0
failures ((result, now) ∷ rest) = (if is_zero result then 0 else 1) + failures rest

enter-closed : (now : ℕ) (b : CircuitBreaker) → b.state ≡ circuit_closed → (enter now b).1 ≡ b
unfolding enter
enter-closed now b shut = ground arith

success-closed :
    (now : ℕ) (result : ℤ) (b : CircuitBreaker)
    → b.state ≡ circuit_closed
    → is_zero result ≡ true
    → record_result now result b ≡ b
unfolding record_result
success-closed now result b shut fine = ground arith

-- What a run that stays below the threshold keeps.
pub record Counts (n : ℕ) (b c : CircuitBreaker) : Type 0 where
  pub closed : c.state ≡ circuit_closed
  pub count : c.failure_count ≡ b.failure_count + n
  pub threshold : c.failure_threshold ≡ b.failure_threshold
  pub timeout : c.timeout_ms ≡ b.timeout_ms

failure-Counts :
    (now : ℕ) (result : ℤ) (b : CircuitBreaker)
    → b.state ≡ circuit_closed
    → is_zero result ≡ false
    → b.failure_count + 1 < b.failure_threshold
    → b.failure_threshold < int_limit
    → Counts 1 b (record_result now result b)
unfolding record_result
failure-Counts now result b shut bad few fits = ground arith

run-append : (rs qs : Outcomes) (b : CircuitBreaker) → run (rs ++ qs) b ≡ run qs (run rs b)
unfolding run
run-append [] qs b = refl
run-append ((result, now) ∷ rest) qs b =
    run-append rest qs (record_result now result (enter now b).1)

-- A closed breaker with a threshold of at most INT_MAX counts every failure, and no success clears the
-- count: as long as the failures
-- stay below the threshold the breaker stays closed, with all of them counted.
pub run-Counts :
    (rs : Outcomes) (b : CircuitBreaker)
    → b.state ≡ circuit_closed
    → b.failure_count + failures rs < b.failure_threshold
    → b.failure_threshold < int_limit
    → Counts (failures rs) b (run rs b)
unfolding run failures
run-Counts [] b shut few fits = ground arith
run-Counts ((result, now) ∷ rest) b shut few fits = elim (Bool-cases (is_zero result)) [
  | inl fine ↦
      rw (enter-closed now b shut, success-closed now result b shut fine, fine)
        (let ih = run-Counts rest b shut (ground arith) fits in ground (arith, ih))
  | inr bad ↦
      let one = failure-Counts now result b shut bad (ground arith) fits in
      let ih =
        run-Counts rest (record_result now result b) one.closed (ground (arith, one))
          (ground (arith, one)) in
      rw (enter-closed now b shut, bad) (ground (arith, one, ih))
]

failure-opens :
    (now : ℕ) (result : ℤ) (b : CircuitBreaker)
    → b.state ≡ circuit_closed
    → is_zero result ≡ false
    → b.failure_count + 1 ≡ b.failure_threshold
    → b.failure_threshold < int_limit
    → let c = run ((result, now) ∷ []) b in (c.state ≡ circuit_open) × (c.last_failure_time ≡ now)
unfolding run enter record_result
failure-opens now result b shut bad full fits = ground arith

-- With one failure less than the threshold counted, which is at most INT_MAX, the next failure opens the breaker and is timed.
pub run-opens :
    (rs : Outcomes) (result : ℤ) (now : ℕ) (b : CircuitBreaker)
    → b.state ≡ circuit_closed
    → b.failure_count + failures rs + 1 ≡ b.failure_threshold
    → b.failure_threshold < int_limit
    → is_zero result ≡ false
    → let c = run (rs ++ (result, now) ∷ []) b in
      (c.state ≡ circuit_open) × (c.last_failure_time ≡ now)
run-opens rs result now b shut full fits bad =
    let h = run-Counts rs b shut (omega arith) fits in
    rw (run-append rs ((result, now) ∷ []) b)
      (failure-opens now result (run rs b) h.closed bad (omega arith) (omega arith))

-- Of an open breaker that has counted fewer than INT_MAX failures and at least its threshold, and whose last failure was at a time not after `now`: up to the timeout a call runs
-- nothing and changes nothing; later it runs the function once and returns its result, and its
-- success closes the breaker with no failure counted, while its failure is counted and leaves it
-- open from the time of the recording.
pub call_open :
    {W : Type 0} (now now' : ℕ) (func : W → ℤ × W) (w : W) (b : CircuitBreaker)
    → b.state ≡ circuit_open
    → b.failure_threshold ≤ b.failure_count
    → b.failure_count + 1 < int_limit
    → b.last_failure_time ≤ now
    → now < u64
    → call now now' (some func) w (some b) ≡ (
        if leb now (b.last_failure_time + b.timeout_ms)
        then (int_of error_timeout, w, some b)
        else (
          (func w).0,
          (func w).1,
          some (
              if is_zero (func w).0
              then record b { state = circuit_closed; failure_count = 0 }
              else record b { failure_count = b.failure_count + 1; last_failure_time = now' }),
        ))
unfolding call
call_open now now' func w b is_open tripped small past fits = ground arith
