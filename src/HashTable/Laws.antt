-- ===== src/HashTable/Laws.antt =====
-- The hash table of src/database/database.c as a finite map from keys to values.
use backend_in_c.Prelude.{
  ℕ, ◌+◌, ◌-◌, ◌≡◌, refl, ◌∙◌, [], ◌∷◌, Option, none, some, inl, inr, Option-cases, arith, CString,
  Bytes, str_eq, eq_of_str_eq, get_or-set, get_or-replicate, if◌then◌else◌, is_some, true,
}
use backend_in_c.Common.{ErrorCode, success, error_not_found}
use backend_in_c.Assoc.{
  Assoc, find, update, update-find, update-found, remove, find-update, remove-find, remove-found,
  length-remove, find-remove,
}
use backend_in_c.HashTable.Placed.{
  IsPlaced, insert-IsPlaced, bucket_of-lt, remove-IsPlaced, count-of_other, length-chain-le,
}
use backend_in_c.HashTable.{
  Table, create, bucket_of, chain_of, with_chain, insert, put, lookup, delete,
}

pub lookup-create : (n : ℕ) (k : CString) → lookup (create n) k ≡ none
unfolding lookup create bucket_of
lookup-create n k = rw (get_or-replicate {A = Assoc Bytes} n) refl

-- A lookup of `q` after the chain of `k` is replaced by one that reads as `f`.
lookup-with_chain :
    (t : Table) (k : CString) (c : Assoc Bytes) (n : ℕ) (q : CString) (found : Option Bytes)
    → IsPlaced t
    → find q c ≡ (if str_eq k q then found else find q (chain_of t k))
    → lookup (record (with_chain t k c) { size = n }) q ≡ (if str_eq k q then found else lookup t q)
unfolding lookup with_chain bucket_of
lookup-with_chain t k c n q found h reads =
    rw (get_or-set t.buckets (bucket_of t k) (bucket_of t q) c [] (bucket_of-lt t k h))
      (ground (arith, eq_of_str_eq k q))

pub lookup-insert :
    (t : Table) (k q : CString) (v : Bytes)
    → IsPlaced t
    → lookup (insert t k v) q ≡ (if str_eq k q then some v else lookup t q)
unfolding insert
lookup-insert t k q v h = elim (Option-cases (update k v (chain_of t k))) [
  | inr (d, e) ↦
      rw (e, insert)
        (lookup-with_chain t k d t.size q (some v) h (find-update k v (chain_of t k) q e))
  | inl e ↦
      rw (e, insert)
        (lookup-with_chain t k ((k, v) ∷ chain_of t k) (t.size + 1) q (some v) h
          (unfold find in refl))
]

-- What a deletion of `k` does: it reports whether the key was there, and removes just that key.
pub record Deletes (t : Table) (k : CString) (r : ErrorCode × Table) : Type 0 where
  pub code : r.0 ≡ (if is_some (lookup t k) then success else error_not_found)
  pub kept : IsPlaced r.1
  pub reads : (q : CString) → lookup r.1 q ≡ (if str_eq k q then none else lookup t q)
  pub size : r.1.size + (if is_some (lookup t k) then 1 else 0) ≡ t.size

find-chain_of : (t : Table) (k : CString) → lookup t k ≡ find k (chain_of t k)
unfolding lookup
find-chain_of t k = refl

absent-Deletes :
    (t : Table) (k : CString) → IsPlaced t → lookup t k ≡ none → Deletes t k (error_not_found, t)
absent-Deletes t k h e = record {
  code = rw e;
  kept = h;
  reads = λ q. ground (arith, eq_of_str_eq k q);
  size = rw e (omega arith);
}

found-Deletes :
    (t : Table) (k : CString)
    → IsPlaced t
    → (d : Assoc Bytes) → remove k (chain_of t k) ≡ some d
    → is_some (lookup t k) ≡ true
    → Deletes t k (success, record (with_chain t k d) { size = t.size - 1 })
found-Deletes t k h d e there = record {
  code = rw there;
  kept = remove-IsPlaced t k {d = d} h e;
  reads = λ q.
      lookup-with_chain t k d (t.size - 1) q none h
        (find-remove k (chain_of t k) {d = d} q e (ground (arith, count-of_other t k q h)));
  size = rw there (omega (arith, length-remove k (chain_of t k) {d = d} e, length-chain-le t k h));
}

-- In a well-formed table a delete succeeds exactly if the key is there, keeps the table
-- well-formed, makes the key absent and leaves every other key as it was; the size falls by one
-- exactly if the key was there.
pub delete-Deletes : (t : Table) (k : CString) → IsPlaced t → Deletes t k (delete t (some k))
unfolding delete
delete-Deletes t k h = elim (Option-cases (remove k (chain_of t k))) [
  | inr (d, e) ↦
      rw (e, delete)
        (found-Deletes t k h d e (rw (find-chain_of t k) (remove-found k (chain_of t k) {d = d} e)))
  | inl e ↦
      rw (e, delete) (absent-Deletes t k h (find-chain_of t k ∙ remove-find k (chain_of t k) e))
]

-- What a write of `v` under `k` does: the key reads as `v`, every other key as before, and `size`
-- grows exactly if the key was absent.
pub record Puts (t : Table) (k : CString) (v : Bytes) (r : ErrorCode × Table) : Type 0 where
  pub code : r.0 ≡ success
  pub kept : IsPlaced r.1
  pub reads : (q : CString) → lookup r.1 q ≡ (if str_eq k q then some v else lookup t q)
  pub size : r.1.size ≡ t.size + (if is_some (lookup t k) then 0 else 1)

size-insert :
    (t : Table) (k : CString) (v : Bytes)
    → (insert t k v).size ≡ t.size + (if is_some (lookup t k) then 0 else 1)
unfolding insert lookup
size-insert t k v = elim (Option-cases (update k v (chain_of t k))) [
  | inr (d, e) ↦ rw (e, insert) (ground (arith, update-found k v (chain_of t k) {d = d} e))
  | inl e ↦ rw (e, insert) (ground (arith, update-find k v (chain_of t k) e))
]

-- In a well-formed table a put succeeds, keeps the table well-formed, makes the key read as the
-- value and leaves every other key as it was; the size grows by one exactly if the key was absent.
pub put-Puts : (t : Table) (k : CString) (v : Bytes) → IsPlaced t → Puts t k v (put t (some k) v)
unfolding put
put-Puts t k v h = record {
  code = refl;
  kept = insert-IsPlaced t k v h;
  reads = λ q. lookup-insert t k q v h;
  size = size-insert t k v;
}
