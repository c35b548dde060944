-- ===== src/Distributed/RetryPolicy.antt =====
-- The retries of src/distributed/distributed.c. The caller's function enters as the results of its
-- calls, by the number of the attempt; `scale` is the multiplication of a delay by the double
-- `backoff_multiplier` and the cast back to uint64_t.
pub mod Attempts
use backend_in_c.Prelude.{
  ℕ, zero, suc, ◌+◌, ◌-◌, ◌*◌, ◌/◌, ◌%◌, List, [], ◌∷◌, Option, none, some, if◌then◌else◌,
}
use backend_in_c.Common.{int_of, error_invalid_param}
use backend_in_c.Common.Words.{ℤ, pos, negsuc, is_zero}

pub record RetryPolicy : Type 0 where
  pub max_retries : ℤ
  pub initial_delay_ms : ℕ
  pub scale : ℕ → ℕ

-- `retry_policy_create`
unfoldable pub create : ℤ → ℕ → (ℕ → ℕ) → RetryPolicy
create max_retries initial_delay_ms scale = record {
  max_retries = max_retries;
  initial_delay_ms = initial_delay_ms;
  scale = scale;
}

-- The argument of `nanosleep` for a delay.
pub record Timespec : Type 0 where
  pub tv_sec : ℕ
  pub tv_nsec : ℕ

unfoldable pub timespec_of : ℕ → Timespec
timespec_of delay_ms = record { tv_sec = delay_ms / 1000; tv_nsec = delay_ms % 1000 * 1_000_000 }

-- What a run leaves: its result, how many calls it made, and the sleeps between them.
pub record Outcome : Type 0 where
  pub result : ℤ
  pub calls : ℕ
  pub sleeps : List Timespec

-- The loop from an attempt on, with as many attempts after it as `left`.
unfoldable pub attempts : (ℕ → ℕ) → (ℕ → ℤ) → ℕ → ℕ → ℕ → Outcome
unfolding timespec_of
attempts scale func attempt delay_ms zero = record {
  result = func attempt;
  calls = attempt + 1;
  sleeps = [];
}
attempts scale func attempt delay_ms (suc left) =
    let rest = attempts scale func (attempt + 1) (scale delay_ms) left in
    if is_zero (func attempt)
    then record { result = func attempt; calls = attempt + 1; sleeps = [] }
    else record rest { sleeps = timespec_of delay_ms ∷ rest.sleeps }

-- `retry_with_policy`. With a negative `max_retries` the loop has no turn, and the result is what
-- the variable `result` happens to hold.
unfoldable pub retry_with_policy : ℤ → Option (ℕ → ℤ) → Option RetryPolicy → Outcome
unfolding attempts
retry_with_policy uninit (some func) (some policy) = elim policy.max_retries [
  | pos max_retries ↦ attempts policy.scale func 0 policy.initial_delay_ms max_retries
  | negsuc _ ↦ record { result = uninit; calls = 0; sleeps = [] }
]
retry_with_policy uninit func policy = record {
  result = int_of error_invalid_param;
  calls = 0;
  sleeps = [];
}
