-- ===== src/HashTable/Hash.antt =====
-- `hash_string` of src/database/database.c and `hash_key` of src/cache/cache.c: djb2 in uint32_t.
-- `int c = *key++` reads a char, which is signed on the targets of the Makefile: a byte from 128 on
-- is added as a negative number.
use backend_in_c.Prelude.{
  ℕ, ◌+◌, ◌-◌, ◌*◌, ◌%◌, ◌^◌, ◌<◌, [], ◌∷◌, arith, ltb, CString, if◌then◌else◌,
}

abbrev pub u32 : ℕ
u32 = 2 ^ 32

-- The uint32_t that a signed char converts to.
unfoldable pub char_value : ℕ → ℕ
char_value c = if ltb c 128 then c else c + u32 - 256

unfoldable pub hash_step : ℕ → ℕ → ℕ
unfolding char_value
hash_step hash c = (((hash * 2 ^ 5) % u32 + hash) % u32 + char_value c) % u32

unfoldable pub hash_from : ℕ → CString → ℕ
unfolding hash_step
hash_from hash [] = hash
hash_from hash (c ∷ str) = hash_from (hash_step hash c) str

unfoldable pub hash_string : CString → ℕ
unfolding hash_from
hash_string = hash_from 5381

hash_from-lt : (hash : ℕ) (str : CString) → hash < u32 → hash_from hash str < u32
unfolding hash_from
hash_from-lt hash [] h = h
hash_from-lt hash (c ∷ str) h = hash_from-lt (hash_step hash c) str (omega arith)

-- The hash is a uint32_t, whatever the key.
pub hash_string-lt : (str : CString) → hash_string str < u32
unfolding hash_string
hash_string-lt str = hash_from-lt 5381 str (omega arith)
