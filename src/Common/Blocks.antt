-- ===== src/Common/Blocks.antt =====
-- The allocation wrappers of src/common/common.c, and how many blocks of memory are allocated. What
-- `malloc`, `calloc` and `realloc` give is an argument; where a wrapper exits the process there is no
-- result.
use backend_in_c.Prelude.{
  ℕ, zero, suc, ◌+◌, ◌<◌, ◌≡◌, ◌≢◌, refl, Option, none, some, arith, ltb, ◌&&◌, if◌then◌else◌, ap,
}

-- An address that is not NULL.
abbrev pub Address : Type 0
Address = ℕ

-- `safe_malloc`
unfoldable pub safe_malloc : Option Address → ℕ → Option (Option Address)
safe_malloc (some p) size = some (some p)
safe_malloc none size = if ltb 0 size then none else some none

-- `safe_calloc`
unfoldable pub safe_calloc : Option Address → ℕ → ℕ → Option (Option Address)
safe_calloc (some p) nmemb size = some (some p)
safe_calloc none nmemb size = if ltb 0 nmemb && ltb 0 size then none else some none

-- `safe_realloc`
unfoldable pub safe_realloc : Option Address → ℕ → Option (Option Address)
safe_realloc (some p) size = some (some p)
safe_realloc none size = if ltb 0 size then none else some none

-- `safe_free` of a variable that holds a pointer, or of NULL: the block that is handed to `free`, and
-- what the variable holds then.
unfoldable pub safe_free : Option (Option Address) → Option Address × Option (Option Address)
safe_free none = (none, none)
safe_free (some none) = (none, some none)
safe_free (some (some p)) = (some p, some none)

-- A wrapper that returns has a block, unless no bytes were asked for.
pub safe_calloc-some :
    (given : Option Address) (nmemb size : ℕ) {p : Option Address}
    → 0 < nmemb
    → 0 < size
    → safe_calloc given nmemb size ≡ some p
    → p ≢ none
unfolding safe_calloc
safe_calloc-some (some a) nmemb size {p} n s e = λ absent. cc (e, absent)
safe_calloc-some none nmemb size {p} n s e = ground arith

-- Freeing a variable twice hands its block to `free` once.
pub safe_free-twice : (p : Option Address) → safe_free (safe_free (some p)).1 ≡ (none, some none)
unfolding safe_free
safe_free-twice none = refl
safe_free-twice (some a) = refl

-- How many blocks are allocated; none if more were freed than had been allocated.
abbrev pub Blocks : Type 0
Blocks = Option ℕ

unfoldable pub allocate : ℕ → Blocks → Blocks
allocate n none = none
allocate n (some live) = some (live + n)

unfoldable pub release : ℕ → Blocks → Blocks
release n none = none
release zero (some live) = some live
release (suc n) (some zero) = none
release (suc n) (some (suc live)) = release n (some live)

release_lem : (n live : ℕ) → release n (some (live + n)) ≡ some live
unfolding release
release_lem zero live = ap (λ (n : ℕ). some n) (omega arith)
release_lem (suc n) live =
    let e : live + suc n ≡ suc (live + n) = omega arith in rw e (release_lem n live)

pub release-to : (n all rest : ℕ) → all ≡ rest + n → release n (some all) ≡ some rest
release-to n all rest e = rw e (release_lem n rest)
