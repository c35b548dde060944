-- ===== src/HashTable/Destroy.antt =====
-- The hash table of src/database/database.c from its creation to its destruction.
use backend_in_c.Prelude.{
  ℕ, zero, suc, ◌+◌, ◌<◌, ◌≡◌, refl, ap, List, [], ◌∷◌, some, Bool, arith, CString, Bytes, length,
  get_or, concat, ◌∙◌, replicate,
}
use backend_in_c.Common.Blocks.{Blocks, allocate, release, release-to}
use backend_in_c.Assoc.{Assoc}
use backend_in_c.HashTable.{Table, create, put, delete, entries}
use backend_in_c.HashTable.Placed.{IsPlaced, create-IsPlaced}
use backend_in_c.HashTable.Laws.{put-Puts, delete-Deletes}
use backend_in_c.HashTable.Blocks.{
  value_blocks, put_blocks, delete_blocks, destroy_chain, destroy_buckets, destroy, blocks_of,
  blocks_of-append, put-blocks, delete-blocks,
}

-- The calls that change a table.
pub data Call : Type 0 where
  puts : CString → Bytes → Call
  deletes : CString → Call

-- A table and the blocks of the process, call by call.
unfoldable pub run : Bool → List Call → Table → Blocks → Table × Blocks
run empty [] t blocks = (t, blocks)
run empty (puts key value ∷ calls) t blocks =
    run empty calls (put t (some key) value).1 (put_blocks empty t key value blocks)
run empty (deletes key ∷ calls) t blocks =
    run empty calls (delete t (some key)).1 (delete_blocks empty t key blocks)

-- `hash_table_create`: the table, and its array of buckets
unfoldable pub create_blocks : Blocks → Blocks
create_blocks blocks = allocate 2 blocks

destroy_chain_lem :
    (empty : Bool) (es : Assoc Bytes) (live : ℕ)
    → destroy_chain empty es (some (live + blocks_of empty es)) ≡ some live
unfolding destroy_chain blocks_of
destroy_chain_lem empty [] live = ap (λ (n : ℕ). some n) (omega arith)
destroy_chain_lem empty ((k, v) ∷ es) live =
    let rest = live + blocks_of empty es in
    let n = value_blocks empty v in
    let first =
      release-to 1 (live + ((2 + n) + blocks_of empty es)) ((rest + 1) + n) (omega arith) in
    let second = release-to n ((rest + 1) + n) (rest + 1) (omega arith) in
    let third = release-to 1 (rest + 1) rest (omega arith) in
    ap (λ b. destroy_chain empty es (release 1 (release n b))) first
    ∙ ap (λ b. destroy_chain empty es (release 1 b)) second
    ∙ ap (destroy_chain empty es) third
    ∙ destroy_chain_lem empty es live

-- The buckets that the loop has still to free.
destroy_buckets_lem :
    (empty : Bool) (t : Table) (xss : List (Assoc Bytes)) (n i live : ℕ)
    → length xss ≡ n
    → ((j : ℕ) → get_or t.buckets (i + j) [] ≡ get_or xss j [])
    → destroy_buckets empty n i t (some (live + blocks_of empty (concat xss))) ≡ some live
unfolding destroy_buckets blocks_of
destroy_buckets_lem empty t [] zero i live e rest = ap (λ (n : ℕ). some n) (omega arith)
destroy_buckets_lem empty t [] (suc n) i live e rest = absurd (omega arith)
destroy_buckets_lem empty t (xs ∷ xss) zero i live e rest = absurd (omega arith)
destroy_buckets_lem empty t (xs ∷ xss) (suc n) i live e rest =
    let here : get_or t.buckets i [] ≡ xs =
      ap (λ k. get_or t.buckets k []) (omega arith) ∙ rest 0 in
    let split : live + blocks_of empty (concat (xs ∷ xss))
        ≡ (live + blocks_of empty (concat xss)) + blocks_of empty xs =
      omega (arith, blocks_of-append empty xs (concat xss)) in
    let chain = destroy_chain_lem empty xs (live + blocks_of empty (concat xss)) in
    rw (here, split, chain)
      (destroy_buckets_lem empty t xss n (i + 1) live (omega arith)
        (λ j. ap (λ k. get_or t.buckets k []) (omega arith) ∙ rest (suc j)))

destroy_lem :
    (empty : Bool) (t : Table) (live : ℕ)
    → IsPlaced t
    → destroy empty (some t) (some ((live + 2) + blocks_of empty (entries t))) ≡ some live
unfolding destroy
destroy_lem empty t live h =
    let buckets =
      destroy_buckets_lem empty t t.buckets t.bucket_count 0 (live + 2) h.sized
        (λ j. ap (λ k. get_or t.buckets k []) (omega arith)) in
    ap (λ b. release 1 (release 1 b)) buckets
    ∙ ap (release 1) (release-to 1 (live + 2) (live + 1) (omega arith))
    ∙ release-to 1 (live + 1) live (omega arith)

-- The table is well-formed, and beside its blocks so many are allocated.
abbrev Beside : Bool → ℕ → Table × Blocks → Type 0
Beside empty live r = IsPlaced r.0 × (r.1 ≡ some (live + blocks_of empty (entries r.0)))

run-Beside :
    (empty : Bool) (calls : List Call) (t : Table) (blocks : Blocks) (live : ℕ)
    → Beside empty live (t, blocks)
    → Beside empty live (run empty calls t blocks)
unfolding run
run-Beside empty [] t blocks live h = h
run-Beside empty (puts k v ∷ calls) t blocks live (placed, e) =
    run-Beside empty calls (put t (some k) v).1 (put_blocks empty t k v blocks) live (
      (put-Puts t k v placed).kept,
      ap (put_blocks empty t k v) e ∙ put-blocks empty t k v live placed,
    )
run-Beside empty (deletes k ∷ calls) t blocks live (placed, e) =
    run-Beside empty calls (delete t (some k)).1 (delete_blocks empty t k blocks) live (
      (delete-Deletes t k placed).kept,
      ap (delete_blocks empty t k) e ∙ delete-blocks empty t k live placed,
    )

concat-none : (n : ℕ) → concat (replicate {A = Assoc Bytes} n []) ≡ []
concat-none zero = refl
concat-none (suc n) = concat-none n

created :
    (empty : Bool) (n live : ℕ)
    → create_blocks (some live) ≡ some ((live + 2) + blocks_of empty (entries (create n)))
unfolding create_blocks allocate create
created empty n live =
    let nothing : blocks_of empty (concat (replicate n [])) ≡ 0 =
      unfold blocks_of in ap (blocks_of empty) (concat-none n) in
    ap (λ (m : ℕ). some m) (omega (arith, nothing))

-- Whatever keys are put into a new table with buckets and deleted from it, with values without bytes
-- too, whether or not `malloc` gives a block for them: destroying the table leaves as many blocks
-- allocated as there were before it was created.
pub calls-destroy :
    (empty : Bool) (calls : List Call) (n live : ℕ)
    → 0 < n
    → let r = run empty calls (create n) (create_blocks (some live)) in
      destroy empty (some r.0) r.1 ≡ some live
calls-destroy empty calls n live h =
    let r = run empty calls (create n) (create_blocks (some live)) in
    let (placed, e) =
      run-Beside empty calls (create n) (create_blocks (some live)) (live + 2)
        (create-IsPlaced n h, created empty n live) in
    ap (destroy empty (some r.0)) e ∙ destroy_lem empty r.0 live placed
