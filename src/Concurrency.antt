-- ===== src/Concurrency.antt =====
-- The counter of src/concurrency/concurrency.c, the only part of the module that keeps a state. Its
-- value is a volatile uint64_t: a function that changes it is a load and a store, which the functions
-- here make at once.
pub mod Races
pub mod Tests
use backend_in_c.Prelude.{ℕ, ◌+◌, ◌%◌}
use backend_in_c.Common.Words.{u64, sub64}

pub record AtomicCounter : Type 0 where
  pub value : ℕ

-- `atomic_counter_create`, where there is memory
unfoldable pub create : ℕ → AtomicCounter
create initial_value = record { value = initial_value }

-- `atomic_counter_increment`
unfoldable pub increment : AtomicCounter → ℕ × AtomicCounter
increment c = let value = (c.value + 1) % u64 in (value, record { value = value })

-- `atomic_counter_decrement`
unfoldable pub decrement : AtomicCounter → ℕ × AtomicCounter
decrement c = let value = sub64 c.value 1 in (value, record { value = value })

-- `atomic_counter_add`
unfoldable pub add : ℕ → AtomicCounter → ℕ × AtomicCounter
add delta c = let value = (c.value + delta) % u64 in (value, record { value = value })

-- `atomic_counter_get`
unfoldable pub get : AtomicCounter → ℕ
get c = c.value

-- `atomic_counter_set`
unfoldable pub set : ℕ → AtomicCounter → AtomicCounter
set value c = record { value = value }
