-- ===== src/HashTable/Blocks.antt =====
-- The blocks of memory of the hash table of src/database/database.c: what its functions allocate and
-- free, and `hash_table_destroy`. A table of n buckets has two blocks; an entry has its own, its
-- key's and its value's, for which `malloc` is asked for the value's bytes. Whether `malloc` gives a
-- block for no bytes is the C library's choice, and an argument.
use backend_in_c.Prelude.{
  ℕ, zero, suc, ◌+◌, ◌-◌, ◌≤◌, ◌<◌, ◌≡◌, refl, ap, List, [], ◌∷◌, ◌++◌, Option, none, some, inl,
  inr, Option-cases, Bool-cases, Bool, arith, CString, Bytes, str_eq, ◌==◌, ◌&&◌, not,
  if◌then◌else◌, length, get_or, set, concat, some_inj,
}
use backend_in_c.Common.Blocks.{Blocks, allocate, release, release-to}
use backend_in_c.Assoc.{
  Assoc, find, update, remove, update-find, update-found, remove-find, remove-found,
}
use backend_in_c.HashTable.{
  Table, put, lookup, delete, insert, bucket_of, chain_of, with_chain, entries,
}
use backend_in_c.HashTable.Placed.{IsPlaced, bucket_of-lt}

-- `safe_malloc(value_size)`
unfoldable pub value_blocks : Bool → Bytes → ℕ
value_blocks empty v = if length v == 0 && not empty then 0 else 1

-- What `hash_table_put` of a key does to the blocks: the old value is freed and the new one
-- allocated, or a new entry, its key and its value are.
unfoldable pub put_blocks : Bool → Table → CString → Bytes → Blocks → Blocks
put_blocks empty t key value blocks = elim (lookup t key) [
  | some old ↦ allocate (value_blocks empty value) (release (value_blocks empty old) blocks)
  | none ↦ allocate (2 + value_blocks empty value) blocks
]

-- What `hash_table_delete` does to the blocks.
unfoldable pub delete_blocks : Bool → Table → CString → Blocks → Blocks
delete_blocks empty t key blocks = elim (lookup t key) [
  | some old ↦ release (2 + value_blocks empty old) blocks
  | none ↦ blocks
]

-- The inner loop of `hash_table_destroy`
unfoldable pub destroy_chain : Bool → Assoc Bytes → Blocks → Blocks
destroy_chain empty [] blocks = blocks
destroy_chain empty ((key, value) ∷ es) blocks =
    destroy_chain empty es (release 1 (release (value_blocks empty value) (release 1 blocks)))

-- Its loop over the buckets, from a bucket on
unfoldable pub destroy_buckets : Bool → ℕ → ℕ → Table → Blocks → Blocks
unfolding destroy_chain
destroy_buckets empty zero i t blocks = blocks
destroy_buckets empty (suc n) i t blocks =
    destroy_buckets empty n (i + 1) t (destroy_chain empty (get_or t.buckets i []) blocks)

-- `hash_table_destroy`
unfoldable pub destroy : Bool → Option Table → Blocks → Blocks
unfolding destroy_buckets
destroy empty none blocks = blocks
destroy empty (some t) blocks =
    release 1 (release 1 (destroy_buckets empty t.bucket_count 0 t blocks))

-- How many blocks the entries have.
unfoldable pub blocks_of : Bool → Assoc Bytes → ℕ
blocks_of empty [] = 0
blocks_of empty ((k, v) ∷ es) = (2 + value_blocks empty v) + blocks_of empty es

pub blocks_of-append :
    (empty : Bool) (c d : Assoc Bytes)
    → blocks_of empty (c ++ d) ≡ blocks_of empty c + blocks_of empty d
unfolding blocks_of
blocks_of-append empty [] d = omega arith
blocks_of-append empty ((k, v) ∷ c) d = omega (arith, blocks_of-append empty c d)

blocks_of-concat-set :
    (empty : Bool) (xss : List (Assoc Bytes)) (i : ℕ) (c : Assoc Bytes)
    → i < length xss
    → blocks_of empty (concat (set xss i c)) + blocks_of empty (get_or xss i [])
      ≡ blocks_of empty (concat xss) + blocks_of empty c
blocks_of-concat-set empty [] i c h = absurd (omega arith)
blocks_of-concat-set empty (x ∷ xss) zero c h =
    omega (arith, blocks_of-append empty c (concat xss), blocks_of-append empty x (concat xss))
blocks_of-concat-set empty (x ∷ xss) (suc i) c h = omega (
  arith,
  blocks_of-append empty x (concat (set xss i c)),
  blocks_of-append empty x (concat xss),
  blocks_of-concat-set empty xss i c (omega arith),
)

blocks_of-update :
    (empty : Bool) (k : CString) (v old : Bytes) (c : Assoc Bytes) {d : Assoc Bytes}
    → update k v c ≡ some d
    → find k c ≡ some old
    → blocks_of empty d + value_blocks empty old ≡ blocks_of empty c + value_blocks empty v
unfolding update find blocks_of
blocks_of-update empty k v old [] e f = absurd (cc e)
blocks_of-update empty k v old ((j, w) ∷ c) {d} e f = elim (Bool-cases (str_eq j k)) [
  | inl same ↦ ground (arith, same, e, f)
  | inr other ↦ elim (Option-cases (update k v c)) [
    | inl absent ↦ let e' = rw (other, absent) at e in absurd (cc e')
    | inr (r, there) ↦
        ground (arith, other, there, e, f, blocks_of-update empty k v old c {d = r} there)
  ]
]

blocks_of-remove :
    (empty : Bool) (k : CString) (old : Bytes) (c : Assoc Bytes) {d : Assoc Bytes}
    → remove k c ≡ some d
    → find k c ≡ some old
    → blocks_of empty d + (2 + value_blocks empty old) ≡ blocks_of empty c
unfolding remove find blocks_of
blocks_of-remove empty k old [] e f = absurd (cc e)
blocks_of-remove empty k old ((j, w) ∷ c) {d} e f = elim (Bool-cases (str_eq j k)) [
  | inl same ↦ ground (arith, same, e, f)
  | inr other ↦ elim (Option-cases (remove k c)) [
    | inl absent ↦ let e' = rw (other, absent) at e in absurd (cc e')
    | inr (r, there) ↦
        ground (arith, other, there, e, f, blocks_of-remove empty k old c {d = r} there)
  ]
]

-- An entry's blocks are among those of its chain, and a chain's among those of the table.
blocks_of-find :
    (empty : Bool) (k : CString) (old : Bytes) (c : Assoc Bytes)
    → find k c ≡ some old
    → 2 + value_blocks empty old ≤ blocks_of empty c
unfolding find blocks_of
blocks_of-find empty k old [] f = absurd (cc f)
blocks_of-find empty k old ((j, w) ∷ c) f = elim (Bool-cases (str_eq j k)) [
  | inl same ↦ let e = some_inj (rw same at f) in rw e (omega arith)
  | inr other ↦ let f' = rw other at f in omega (arith, blocks_of-find empty k old c f')
]

-- A write to the chain of a key.
blocks_of-with_chain :
    (empty : Bool) (t : Table) (k : CString) (c : Assoc Bytes)
    → IsPlaced t
    → blocks_of empty (entries (with_chain t k c)) + blocks_of empty (chain_of t k)
      ≡ blocks_of empty (entries t) + blocks_of empty c
unfolding with_chain chain_of
blocks_of-with_chain empty t k c h =
    blocks_of-concat-set empty t.buckets (bucket_of t k) c (bucket_of-lt t k h)

chain-le :
    (empty : Bool) (t : Table) (k : CString)
    → IsPlaced t
    → blocks_of empty (chain_of t k) ≤ blocks_of empty (entries t)
unfolding blocks_of
chain-le empty t k h = omega (arith, blocks_of-with_chain empty t k [] h)

-- An update of an entry, and a new one.
put-update :
    (empty : Bool) (t : Table) (k : CString) (v old : Bytes) (d : Assoc Bytes) (live : ℕ)
    → IsPlaced t
    → update k v (chain_of t k) ≡ some d
    → find k (chain_of t k) ≡ some old
    → allocate
        (value_blocks empty v)
        (release (value_blocks empty old) (some (live + blocks_of empty (entries t))))
      ≡ some (live + blocks_of empty (entries (with_chain t k d)))
unfolding allocate
put-update empty t k v old d live h e f =
    let c = chain_of t k in
    let B = blocks_of empty (entries t) in
    let within = blocks_of-find empty k old c f in
    let below = chain-le empty t k h in
    let changed = blocks_of-update empty k v old c {d = d} e f in
    let whole = blocks_of-with_chain empty t k d h in
    let n = value_blocks empty old in
    rw (release-to n (live + B) ((live + B) - n) (omega (arith, within, below)))
      (ap (λ (m : ℕ). some m) (omega (arith, within, below, changed, whole)))

put-insert :
    (empty : Bool) (t : Table) (k : CString) (v : Bytes) (live : ℕ)
    → IsPlaced t
    → allocate (2 + value_blocks empty v) (some (live + blocks_of empty (entries t)))
      ≡ some (live + blocks_of empty (entries (with_chain t k ((k, v) ∷ chain_of t k))))
unfolding allocate blocks_of
put-insert empty t k v live h =
    let whole = blocks_of-with_chain empty t k ((k, v) ∷ chain_of t k) h in
    ap (λ (m : ℕ). some m) (omega (arith, whole))

found-update :
    (k : CString) (v : Bytes) (c : Assoc Bytes) {d : Assoc Bytes}
    → update k v c ≡ some d
    → (old : Bytes) × (find k c ≡ some old)
found-update k v c {d} e = elim (Option-cases (find k c)) [
  | inr (old, there) ↦ (old, there)
  | inl absent ↦ let there = update-found k v c {d = d} e in absurd (cc (there, absent))
]

-- A put leaves the blocks of the table that it leaves.
pub put-blocks :
    (empty : Bool) (t : Table) (k : CString) (v : Bytes) (live : ℕ)
    → IsPlaced t
    → put_blocks empty t k v (some (live + blocks_of empty (entries t)))
      ≡ some (live + blocks_of empty (entries (put t (some k) v).1))
unfolding put_blocks put insert lookup
put-blocks empty t k v live h = elim (Option-cases (update k v (chain_of t k))) [
  | inr (d, e) ↦
      let (old, there) = found-update k v (chain_of t k) {d = d} e in
      rw (there, put_blocks) (rw (e, insert) (put-update empty t k v old d live h e there))
  | inl e ↦
      rw (update-find k v (chain_of t k) e, put_blocks)
        (rw (e, insert) (put-insert empty t k v live h))
]

pub delete-blocks :
    (empty : Bool) (t : Table) (k : CString) (live : ℕ)
    → IsPlaced t
    → delete_blocks empty t k (some (live + blocks_of empty (entries t)))
      ≡ some (live + blocks_of empty (entries (delete t (some k)).1))
unfolding delete_blocks delete lookup
delete-blocks empty t k live h = elim (Option-cases (remove k (chain_of t k))) [
  | inl e ↦ rw (remove-find k (chain_of t k) e, delete_blocks) (rw (e, delete) refl)
  | inr (d, e) ↦ elim (Option-cases (find k (chain_of t k))) [
    | inl absent ↦
        let there = remove-found k (chain_of t k) {d = d} e in absurd (cc (there, absent))
    | inr (old, f) ↦
        let taken = blocks_of-remove empty k old (chain_of t k) {d = d} e f in
        let whole = blocks_of-with_chain empty t k d h in
        rw (f, delete_blocks)
          (rw (e, delete)
            (release-to (2 + value_blocks empty old) _ _ (omega (arith, taken, whole))))
  ]
]
