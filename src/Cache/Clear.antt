-- ===== src/Cache/Clear.antt =====
-- `cache_create`, `cache_clear` and `cache_destroy` of src/cache/cache.c.
use backend_in_c.Prelude.{
  ℕ, zero, suc, ◌+◌, ◌*◌, ◌%◌, ◌≤◌, ◌<◌, ◌≡◌, refl, ap, subst, ◌∙◌, List, [], ◌∷◌, Option, none,
  some, inl, inr, Bool-cases, Bool, true, false, arith, length, ltb, ◌==◌, if◌then◌else◌, eq_of_==,
  ne_of_==,
}
use backend_in_c.Common.Words.{u64}
use backend_in_c.HashTable.Hash.{hash_string}
use backend_in_c.Cache.{Ptr, EvictionPolicy, Cache, write, bucket_of, create}
use backend_in_c.Cache.Calls.{free_all, cleared}
use backend_in_c.Cache.Lists.{occurrences, first_or, Linked, write-same, write-other}
use backend_in_c.Cache.Chains.{Chain}
use backend_in_c.Cache.Invariant.{IsCached}

-- A cache of some size whose table has a bucket is empty at first.
pub create-IsCached :
    (max_size : ℕ) (policy : EvictionPolicy)
    → 0 < max_size
    → max_size * 2 < u64
    → IsCached (create max_size policy) []
unfolding create
create-IsCached max_size policy positive fits = record {
  chains = λ i. [];
  list = record { head = refl; tail = refl; linked = tt };
  size = refl;
  once = λ p. omega arith;
  chained = λ i. refl;
  placed = λ i p inside. absurd (omega (arith, inside));
  same = λ k. refl;
  live = λ p. refl;
  fresh = λ p above. refl;
  bounded = omega arith;
  sized = omega (arith, positive, fits);
}

both :
    (p : Ptr) (xs : List Ptr) (b : Bool)
    → (if ltb 0 (occurrences p xs) then false else false)
      ≡ (if ltb 0 (occurrences p (p ∷ xs)) then false else b)
both p xs b = ground arith

skipped :
    (p q : Ptr) (xs : List Ptr) (b : Bool)
    → (p == q) ≡ false
    → (if ltb 0 (occurrences q xs) then false else b)
      ≡ (if ltb 0 (occurrences q (p ∷ xs)) then false else b)
skipped p q xs b other = ground arith

-- The loop frees every entry of the list, and no other.
free_all-frees :
    (fuel : ℕ) (prev next : Ptr → Option Ptr) (b : Option Ptr) (xs : List Ptr) (live : Ptr → Bool)
    → length xs < fuel
    → Linked prev next b xs none
    → (q : Ptr)
    → free_all fuel next (first_or xs none) live q
      ≡ (if ltb 0 (occurrences q xs) then false else live q)
unfolding free_all
free_all-frees zero prev next b xs live enough l q = absurd (omega arith)
free_all-frees (suc fuel) prev next b [] live enough l q = refl
free_all-frees (suc fuel) prev next b (p ∷ xs) live enough l q =
    ap (λ t. free_all fuel next t (write live p false) q) l.0.1
    ∙ free_all-frees fuel prev next (some p) xs (write live p false) (omega arith) l.1 q
    ∙ merged
  where
    merged :
        (if ltb 0 (occurrences q xs) then false else write live p false q)
        ≡ (if ltb 0 (occurrences q (p ∷ xs)) then false else live q)
    merged = elim (Bool-cases (p == q)) [
      | inl same ↦
          subst
            (λ t.
              (if ltb 0 (occurrences t xs) then false else write live p false t)
              ≡ (if ltb 0 (occurrences t (p ∷ xs)) then false else live t))
            (eq_of_== p q same) (rw (write-same live p false) (both p xs (live p)))
      | inr other ↦
          rw (write-other live p q false (ne_of_== p q other)) (skipped p q xs (live q) other)
    ]

module _ {c : Cache} {xs : List Ptr} (h : IsCached c xs) where
  -- After `cache_clear`, no entry is allocated.
  pub cleared-live : (p : Ptr) → (cleared c).live p ≡ false
  unfolding cleared
  cleared-live p =
      ap (λ t. free_all (c.size + 1) c.next t c.live p) h.list.head
      ∙ free_all-frees (c.size + 1) c.prev c.next none xs c.live (omega (arith, h.size))
          h.list.linked p
      ∙ ap (λ b. if ltb 0 (occurrences p xs) then false else b) (h.live p)
      ∙ neither (ltb 0 (occurrences p xs))
    where
      neither : (b : Bool) → (if b then false else b) ≡ false
      neither true = refl
      neither false = refl

  -- Above the table's size there are no chains.
  outside : (i : ℕ) (ys : List Ptr) → h.chains i ≡ ys → c.hash_size ≤ i → c.hash_table i ≡ none
  unfolding bucket_of
  outside i [] e above = subst (Chain c.hash_next (c.hash_table i)) e (h.chained i)
  outside i (p ∷ ys) e above =
      let there : 0 < occurrences p (h.chains i) = first p ys (h.chains i) e in
      absurd (far (hash_string (c.item p).key) c.hash_size i h.sized above (h.placed i p there))
    where
      first : (p : Ptr) (ys zs : List Ptr) → zs ≡ p ∷ ys → 0 < occurrences p zs
      first p ys zs e = rw e (ground arith)

      far : (n m i : ℕ) → 0 < m → m ≤ i → n % m ≡ i → ⊥
      far n m i positive above e = ground arith

  pub cleared-IsCached : IsCached (cleared c) []
  unfolding cleared
  cleared-IsCached = record {
    chains = λ i. [];
    list = record { head = refl; tail = refl; linked = tt };
    size = refl;
    once = λ p. omega arith;
    chained = λ i. elim (Bool-cases (ltb i c.hash_size)) [
      | inl below ↦ rw below refl
      | inr above ↦ rw above (outside i (h.chains i) refl (ground arith))
    ];
    placed = λ i p inside. absurd (omega (arith, inside));
    same = λ k. refl;
    live = λ p. cleared-live p;
    fresh = λ p above. refl;
    bounded = omega arith;
    sized = h.sized;
  }
