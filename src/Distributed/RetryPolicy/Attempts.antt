-- ===== src/Distributed/RetryPolicy/Attempts.antt =====
-- How often src/distributed/distributed.c retries, and how long it waits.
use backend_in_c.Prelude.{
  ℕ, zero, suc, ◌+◌, ◌-◌, ◌*◌, ◌≤◌, ◌<◌, ◌≡◌, refl, ◌∙◌, ap, List, [], ◌∷◌, map, some, true, false,
  arith,
}
use backend_in_c.Common.Words.{ℤ, pos, is_zero}
use backend_in_c.Distributed.RetryPolicy.{
  RetryPolicy, timespec_of, Outcome, attempts, retry_with_policy,
}

-- The delays of `n` sleeps, each from the one before.
unfoldable pub delays : (ℕ → ℕ) → ℕ → ℕ → List ℕ
delays scale delay_ms zero = []
delays scale delay_ms (suc n) = delay_ms ∷ delays scale (scale delay_ms) n

-- Calls from `from` on, `n` of them, that all fail.
abbrev pub AllFail : (ℕ → ℤ) → ℕ → ℕ → Type 0
AllFail func from zero = Unit {0}
AllFail func from (suc n) = (is_zero (func from) ≡ false) × AllFail func (from + 1) n

abbrev pub after : (ℕ → ℕ) → (ℕ → ℤ) → ℕ → ℕ → ℕ → Outcome
after scale func delay_ms last n = record {
  result = func last;
  calls = last + 1;
  sleeps = map timespec_of (delays scale delay_ms n);
}

attempts-now :
    (scale : ℕ → ℕ) (func : ℕ → ℤ) (attempt delay_ms left : ℕ)
    → is_zero (func attempt) ≡ true
    → attempts scale func attempt delay_ms left ≡ after scale func delay_ms attempt 0
unfolding attempts delays
attempts-now scale func attempt delay_ms zero ok = refl
attempts-now scale func attempt delay_ms (suc left) ok = rw ok refl

attempts-later :
    (scale : ℕ → ℕ) (func : ℕ → ℤ) (attempt delay_ms left last n : ℕ)
    → is_zero (func attempt) ≡ false
    → attempts scale func (attempt + 1) (scale delay_ms) left
      ≡ after scale func (scale delay_ms) last n
    → attempts scale func attempt delay_ms (suc left) ≡ after scale func delay_ms last (suc n)
unfolding attempts delays
attempts-later scale func attempt delay_ms left last n bad ih = rw (bad, ih) refl

attempts-stops :
    (scale : ℕ → ℕ) (func : ℕ → ℤ) (attempt delay_ms k more last : ℕ)
    → attempt + k ≡ last
    → AllFail func attempt k
    → is_zero (func last) ≡ true
    → attempts scale func attempt delay_ms (k + more) ≡ after scale func delay_ms last k
attempts-stops scale func attempt delay_ms zero more last e fail ok =
    let e' : attempt ≡ last = omega arith in
    rw e' (attempts-now scale func last delay_ms (0 + more) ok)
attempts-stops scale func attempt delay_ms (suc k) more last e fail ok =
    let e' : suc k + more ≡ suc (k + more) = omega arith in
    rw e' (
      attempts-later scale func attempt delay_ms (k + more) last k fail.0 (
        attempts-stops scale func (attempt + 1) (scale delay_ms) k more last (omega arith) fail.1
          ok))

attempts-fail :
    (scale : ℕ → ℕ) (func : ℕ → ℤ) (attempt delay_ms k last : ℕ)
    → attempt + k ≡ last
    → AllFail func attempt k
    → attempts scale func attempt delay_ms k ≡ after scale func delay_ms last k
unfolding attempts delays
attempts-fail scale func attempt delay_ms zero last e fail =
    let e' : attempt ≡ last = omega arith in rw e' refl
attempts-fail scale func attempt delay_ms (suc k) last e fail =
    attempts-later scale func attempt delay_ms k last k fail.0
      (attempts-fail scale func (attempt + 1) (scale delay_ms) k last (omega arith) fail.1)

-- If the first `k` calls fail, `k` at most the maximum of retries, and the next one succeeds, that
-- call is the last and its result is returned. There is one sleep after each failed call, the first
-- as long as the initial delay and each other as long as the one before it, scaled.
pub retry_succeeds :
    (uninit : ℤ) (policy : RetryPolicy) (func : ℕ → ℤ) (n k : ℕ)
    → policy.max_retries ≡ pos n
    → k ≤ n
    → AllFail func 0 k
    → is_zero (func k) ≡ true
    → retry_with_policy uninit (some func) (some policy)
      ≡ after policy.scale func policy.initial_delay_ms k k
unfolding retry_with_policy
retry_succeeds uninit policy func n k e within fail ok =
    let split : n ≡ k + (n - k) = omega arith in
    rw e (
      ap (attempts policy.scale func 0 policy.initial_delay_ms) split
      ∙ attempts-stops policy.scale func 0 policy.initial_delay_ms k (n - k) k (omega arith) fail
          ok)

-- With a maximum of `n` retries, if the first `n` calls fail, the function is called once more and
-- never again, and the result is that of the last call, whatever it is. There is one sleep after
-- each of the first `n` calls, the first as long as the initial delay and each other as long as the
-- one before it, scaled.
pub retry_exhausts :
    (uninit : ℤ) (policy : RetryPolicy) (func : ℕ → ℤ) (n : ℕ)
    → policy.max_retries ≡ pos n
    → AllFail func 0 n
    → retry_with_policy uninit (some func) (some policy)
      ≡ after policy.scale func policy.initial_delay_ms n n
unfolding retry_with_policy
retry_exhausts uninit policy func n e fail =
    rw e (attempts-fail policy.scale func 0 policy.initial_delay_ms n n (omega arith) fail)

-- A delay is slept in full, and its nanoseconds are in the range that `nanosleep` accepts.
pub timespec_exact :
    (delay_ms : ℕ)
    → ((timespec_of delay_ms).tv_nsec < 1_000_000_000)
      × ((timespec_of delay_ms).tv_sec * 1_000_000_000 + (timespec_of delay_ms).tv_nsec
          ≡ delay_ms * 1_000_000)
unfolding timespec_of
timespec_exact delay_ms = omega arith
