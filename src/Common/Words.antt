-- ===== src/Common/Words.antt =====
-- Words of the C program: uint64_t with its wrap-around, and int.
use backend_in_c.Prelude.{
  ℕ, zero, suc, ◌+◌, ◌-◌, ◌%◌, ◌^◌, ◌≤◌, ◌<◌, ◌≡◌, Bool, true, false, leb, arith,
}

abbrev pub u64 : ℕ
u64 = 2 ^ 64

-- `a - b` in uint64_t: it wraps where `b` is above `a`.
abbrev pub sub64 : ℕ → ℕ → ℕ
sub64 a b = (a + u64 - b) % u64

pub sub64_forward : (a b : ℕ) → b ≤ a → a < u64 → sub64 a b ≡ a - b
sub64_forward a b h k = omega arith

-- An int that is kept as its bit pattern, below `u32`: the numbers from 0 on are below `int_limit`,
-- INT_MAX + 1.
abbrev pub int_limit : ℕ
int_limit = 2 ^ 31

-- `n + 1` of an int as two's complement machines have it; past INT_MAX the language leaves it
-- undefined, so that what is proved keeps below.
abbrev pub inc_int : ℕ → ℕ
inc_int n = (n + 1) % 2 ^ 32

-- `a <= b` of two ints, by their patterns
abbrev pub leb_int : ℕ → ℕ → Bool
leb_int a b = leb ((a + int_limit) % 2 ^ 32) ((b + int_limit) % 2 ^ 32)

-- An int as a number; `negsuc n` is -(n + 1).
pub data ℤ : Type 0 where
  pos : ℕ → ℤ
  negsuc : ℕ → ℤ

-- `result == SUCCESS`
abbrev pub is_zero : ℤ → Bool
is_zero (pos zero) = true
is_zero (pos (suc n)) = false
is_zero (negsuc n) = false

-- `a <= b` of ints
abbrev pub leb_ℤ : ℤ → ℤ → Bool
leb_ℤ (pos a) (pos b) = leb a b
leb_ℤ (pos a) (negsuc b) = false
leb_ℤ (negsuc a) (pos b) = true
leb_ℤ (negsuc a) (negsuc b) = leb b a
