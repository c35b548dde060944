-- ===== src/Wal/Words.antt =====
-- Unsigned words in a struct of src/database/database.c, as the little-endian bytes in memory.
use native.Mathlib.Nat.{pow-suc}
use backend_in_c.Prelude.{
  ℕ, zero, suc, ◌+◌, ◌*◌, ◌/◌, ◌%◌, ◌^◌, ◌<◌, ◌≡◌, refl, [], ◌∷◌, arith, Bytes, length, ap,
}

-- The low `w` bytes of a word: a store to a field of that width drops the rest.
unfoldable pub le_bytes : ℕ → ℕ → Bytes
le_bytes zero v = []
le_bytes (suc w) v = v % 256 ∷ le_bytes w (v / 256)

unfoldable pub of_le_bytes : Bytes → ℕ
of_le_bytes [] = 0
of_le_bytes (b ∷ bs) = b + 256 * of_le_bytes bs

pub length-le_bytes : (w v : ℕ) → length (le_bytes w v) ≡ w
unfolding le_bytes
length-le_bytes zero v = refl
length-le_bytes (suc w) v = ap suc (length-le_bytes w (v / 256))

-- A word that fits its field is read back as it was stored.
pub of_le_bytes-le_bytes : (w v : ℕ) → v < 256 ^ w → of_le_bytes (le_bytes w v) ≡ v
unfolding le_bytes of_le_bytes
of_le_bytes-le_bytes zero v h = omega arith
of_le_bytes-le_bytes (suc w) v h =
    let h' : v < 256 ^ w * 256 = rw pow-suc at h in
    rw (of_le_bytes-le_bytes w (v / 256) (omega arith)) (omega arith)
