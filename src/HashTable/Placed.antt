-- ===== src/HashTable/Placed.antt =====
-- Where the entries of the hash table of src/database/database.c stand: the invariant that its
-- operations keep, and what the walk over all the buckets sees under it.
use backend_in_c.Prelude.{
  ℕ, zero, suc, ◌+◌, ◌-◌, ◌≤◌, ◌<◌, ◌≡◌, refl, List, [], ◌∷◌, none, some, inl, inr, Option-cases,
  Bool-cases, arith, CString, Bytes, str_eq, str_eq_refl, eq_of_str_eq, length, get_or, concat,
  length-set, length-append, length-replicate, get_or-replicate, get_or-set, length-concat-set,
  ◌==◌, ap, subst, if◌then◌else◌, replicate,
}
use backend_in_c.Assoc.{
  Assoc, find, count, update, remove, count-append, find-append, find-eq-none, count-eq-zero,
  update-find, count-update, length-update, count-remove-le, length-remove,
}
use backend_in_c.HashTable.{Table, create, bucket_of, chain_of, with_chain, insert, lookup, entries}

-- Every key has at most one entry, in its own bucket, and `size` counts the entries.
pub record IsPlaced (t : Table) : Type 0 where
  pub sized : length t.buckets ≡ t.bucket_count
  pub nonempty : 0 < t.bucket_count
  pub placed :
      (k : CString) (i : ℕ)
      → count k (get_or t.buckets i []) ≤ (if bucket_of t k == i then 1 else 0)
  pub counted : length (entries t) ≡ t.size

pub bucket_of-lt : (t : Table) (k : CString) → IsPlaced t → bucket_of t k < length t.buckets
unfolding bucket_of
bucket_of-lt t k h = omega (arith, h.sized, h.nonempty)

-- One bucket of the table with the chain of `k` written anew.
pub bucket-with_chain :
    (t : Table) (k : CString) (c : Assoc Bytes) (i : ℕ)
    → IsPlaced t
    → get_or (with_chain t k c).buckets i []
      ≡ (if bucket_of t k == i then c else get_or t.buckets i [])
unfolding with_chain
bucket-with_chain t k c i h = get_or-set t.buckets (bucket_of t k) i c [] (bucket_of-lt t k h)

concat-replicate : (n : ℕ) → concat (replicate {A = Assoc Bytes} n []) ≡ []
concat-replicate zero = refl
concat-replicate (suc n) = concat-replicate n

pub create-IsPlaced : (n : ℕ) → 0 < n → IsPlaced (create n)
unfolding create count
create-IsPlaced n h = record {
  sized = length-replicate n [];
  nonempty = h;
  placed = λ k i. rw (get_or-replicate {A = Assoc Bytes} n i []) (omega arith);
  counted = ap length (concat-replicate n);
}

-- A chain that is written keeps the invariant if it has no more entries under any key, except one
-- under its own key.
with_chain-IsPlaced :
    (t : Table) (k : CString) (c : Assoc Bytes) (n : ℕ)
    → IsPlaced t
    → ((q : CString) → count q c ≤ (if bucket_of t q == bucket_of t k then 1 else 0))
    → length c + t.size ≡ length (chain_of t k) + n
    → IsPlaced (record (with_chain t k c) { size = n })
unfolding with_chain bucket_of chain_of
with_chain-IsPlaced t k c n h once size =
    let at = bucket_of-lt t k h in
    record {
      sized = rw length-set h.sized;
      nonempty = h.nonempty;
      placed = λ q i.
          rw (get_or-set t.buckets (bucket_of t k) i c [] at)
            (ground (arith, once q, h.placed q i));
      counted = omega (arith, h.counted, length-concat-set t.buckets (bucket_of t k) c at);
    }

pub count-of_other :
    (t : Table) (k q : CString)
    → IsPlaced t
    → count q (chain_of t k) ≤ (if bucket_of t q == bucket_of t k then 1 else 0)
unfolding chain_of
count-of_other t k q h = h.placed q (bucket_of t k)

length-get_or-le :
    (xss : List (Assoc Bytes)) (i : ℕ) → length (get_or xss i []) ≤ length (concat xss)
length-get_or-le [] i = omega arith
length-get_or-le (x ∷ xss) zero = simp length-append (omega arith)
length-get_or-le (x ∷ xss) (suc i) = simp length-append (omega (arith, length-get_or-le xss i))

pub length-chain-le : (t : Table) (k : CString) → IsPlaced t → length (chain_of t k) ≤ t.size
unfolding chain_of
length-chain-le t k h = omega (arith, h.counted, length-get_or-le t.buckets (bucket_of t k))

-- A new entry for an absent key is the only one under it.
fresh-once :
    (t : Table) (k q : CString) (v : Bytes)
    → IsPlaced t
    → find k (chain_of t k) ≡ none
    → count q ((k, v) ∷ chain_of t k) ≤ (if bucket_of t q == bucket_of t k then 1 else 0)
unfolding count
fresh-once t k q v h absent = elim (Bool-cases (str_eq k q)) [
  | inl same ↦
      subst
        (λ r. count r ((k, v) ∷ chain_of t k) ≤ (if bucket_of t r == bucket_of t k then 1 else 0))
        (eq_of_str_eq k q same)
        (ground (arith, count-eq-zero k (chain_of t k) absent, str_eq_refl k))
  | inr other ↦ ground (arith, count-of_other t k q h)
]

pub insert-IsPlaced : (t : Table) (k : CString) (v : Bytes) → IsPlaced t → IsPlaced (insert t k v)
unfolding insert count
insert-IsPlaced t k v h = elim (Option-cases (update k v (chain_of t k))) [
  | inr (d, e) ↦
      rw (e, insert)
        (with_chain-IsPlaced t k d t.size h
          (λ q. rw (count-update k v (chain_of t k) q e) (count-of_other t k q h))
          (omega (arith, length-update k v (chain_of t k) e)))
  | inl e ↦
      rw (e, insert)
        (with_chain-IsPlaced t k ((k, v) ∷ chain_of t k) (t.size + 1) h
          (λ q. fresh-once t k q v h (update-find k v (chain_of t k) e)) (omega arith))
]

-- The table that a deletion of a present key leaves.
pub remove-IsPlaced :
    (t : Table) (k : CString) {d : Assoc Bytes}
    → IsPlaced t
    → remove k (chain_of t k) ≡ some d
    → IsPlaced (record (with_chain t k d) { size = t.size - 1 })
remove-IsPlaced t k {d} h e =
    with_chain-IsPlaced t k d (t.size - 1) h
      (λ q. omega (arith, count-remove-le k (chain_of t k) {d = d} q e, count-of_other t k q h))
      (omega (arith, length-remove k (chain_of t k) {d = d} e, length-chain-le t k h))

-- The walk over all the buckets meets at most one entry under a key, and it is the one that a
-- lookup finds.
count-concat-zero :
    (xss : List (Assoc Bytes)) (k : CString)
    → ((i : ℕ) → count k (get_or xss i []) ≤ 0)
    → count k (concat xss) ≡ 0
unfolding count
count-concat-zero [] k h = refl
count-concat-zero (x ∷ xss) k h =
    rw count-append (omega (arith, h 0, count-concat-zero xss k (λ i. h (suc i))))

concat-bucket :
    (xss : List (Assoc Bytes)) (k : CString) (b : ℕ)
    → ((i : ℕ) → count k (get_or xss i []) ≤ (if b == i then 1 else 0))
    → (count k (concat xss) ≡ count k (get_or xss b []))
      × (find k (concat xss) ≡ find k (get_or xss b []))
unfolding count find
concat-bucket [] k b h = (refl, refl)
concat-bucket (x ∷ xss) k zero h =
    let rest = count-concat-zero xss k (λ i. ground (arith, h (suc i))) in
    (
      rw count-append (omega (arith, rest)),
      rw (find-append, find-eq-none k (concat xss) rest) (ground arith),
    )
concat-bucket (x ∷ xss) k (suc b) h =
    let rest = concat-bucket xss k b (λ i. ground (arith, h (suc i))) in
    let first : count k x ≡ 0 = ground (arith, h 0) in
    (
      rw count-append (omega (arith, rest.0, first)),
      rw (find-append, find-eq-none k x first) rest.1,
    )

pub find-entries : (t : Table) (k : CString) → IsPlaced t → find k (entries t) ≡ lookup t k
unfolding lookup
find-entries t k h = (concat-bucket t.buckets k (bucket_of t k) (h.placed k)).1

pub count-entries-le : (t : Table) (k : CString) → IsPlaced t → count k (entries t) ≤ 1
count-entries-le t k h =
    ground (
      arith,
      (concat-bucket t.buckets k (bucket_of t k) (h.placed k)).0,
      h.placed k (bucket_of t k),
    )
