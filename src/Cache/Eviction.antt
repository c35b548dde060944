-- ===== src/Cache/Eviction.antt =====
-- Eviction in src/cache/cache.c: which entry `find_victim` picks, and that the loop of
-- `evict_if_needed` takes out one entry at most.
use backend_in_c.Prelude.{
  ℕ, zero, suc, ◌+◌, ◌<◌, ◌≡◌, refl, ap, ◌∙◌, List, [], ◌∷◌, Option, none, some, inl, inr,
  Bool-cases, Bool, true, false, arith, length, ltb, leb, if◌then◌else◌,
}
use backend_in_c.Cache.{
  Ptr, Item, EvictionPolicy, eviction_lru, eviction_lfu, Cache, remove_entry, least_used,
  find_victim, evicted, evict, evict_if_needed,
}
use backend_in_c.Cache.Lists.{occurrences, first_or, last_or, Linked, last_or-some, last_or-occurs}
use backend_in_c.Cache.Keys.{without, length-without}
use backend_in_c.Cache.Invariant.{IsCached}
use backend_in_c.Cache.Remove.{remove_entry-IsCached, remove_entry-kept}
use backend_in_c.Cache.Moves.{rewritten-IsCached}

-- The first entry with the least accesses, of `v` and a list behind it.
abbrev pub least : (Ptr → Item) → Ptr → List Ptr → Ptr
least item v [] = v
least item v (p ∷ xs) =
    least item (if ltb (item p).access_count (item v).access_count then p else v) xs

-- The entry to evict.
abbrev pub victim : EvictionPolicy → (Ptr → Item) → List Ptr → Option Ptr
victim policy item [] = none
victim eviction_lru item (p ∷ xs) = last_or none (p ∷ xs)
victim eviction_lfu item (p ∷ xs) = some (least item p xs)

least_used-least :
    (fuel : ℕ) (item : Ptr → Item) (prev next : Ptr → Option Ptr) (b : Option Ptr) (v : Ptr)
    (xs : List Ptr)
    → length xs < fuel
    → Linked prev next b xs none
    → least_used fuel item next v (first_or xs none) ≡ least item v xs
unfolding least_used
least_used-least zero item prev next b v xs enough l = absurd (omega arith)
least_used-least (suc fuel) item prev next b v [] enough l = refl
least_used-least (suc fuel) item prev next b v (p ∷ xs) enough l =
    let w = if ltb (item p).access_count (item v).access_count then p else v in
    ap (least_used fuel item next w) l.0.1
    ∙ least_used-least fuel item prev next (some p) w xs (omega arith) l.1

-- The comparison with `v` comes first in `find_victim`, which starts at the head.
least_self : (item : Ptr → Item) (p : Ptr) (xs : List Ptr) → least item p (p ∷ xs) ≡ least item p xs
least_self item p xs =
    let kept : (if ltb (item p).access_count (item p).access_count then p else p) ≡ p =
      ground arith in
    ap (λ t. least item t xs) kept

module _ {c : Cache} {xs : List Ptr} (h : IsCached c xs) where
  pub find_victim-victim : find_victim c ≡ victim c.policy c.item xs
  unfolding find_victim
  find_victim-victim = by_policy c.policy xs h.list.head h.list.tail h.list.linked h.size
    where
      by_policy :
          (policy : EvictionPolicy) (xs : List Ptr)
          → c.head ≡ first_or xs none
          → c.tail ≡ last_or none xs
          → Linked c.prev c.next none xs none
          → c.size ≡ length xs
          → (elim policy [
            | eviction_lru ↦ c.tail
            | eviction_lfu ↦ elim c.head [
              | none ↦ none
              | some p ↦ some (least_used (c.size + 1) c.item c.next p (some p))
            ]
          ])
            ≡ victim policy c.item xs
      by_policy eviction_lru [] head tail l size = tail
      by_policy eviction_lru (p ∷ xs) head tail l size = tail
      by_policy eviction_lfu [] head tail l size = rw head refl
      by_policy eviction_lfu (p ∷ xs) head tail l size = rw head (
          ap (λ (t : Ptr). some t)
            (least_used-least (c.size + 1) c.item c.prev c.next none p (p ∷ xs) (omega arith) l
              ∙ least_self c.item p xs))

behind :
    (v p q : Ptr) (xs : List Ptr) → 0 < occurrences q (p ∷ xs) → 0 < occurrences q (v ∷ (p ∷ xs))
behind v p q xs there = omega arith

between :
    (v p q : Ptr) (xs : List Ptr) → 0 < occurrences q (v ∷ xs) → 0 < occurrences q (v ∷ (p ∷ xs))
between v p q xs there = omega arith

least-occurs :
    (item : Ptr → Item) (v : Ptr) (xs : List Ptr) → 0 < occurrences (least item v xs) (v ∷ xs)
least-occurs item v [] = ground arith
least-occurs item v (p ∷ xs) =
    pick (least-occurs item p xs) (least-occurs item v xs)
      (ltb (item p).access_count (item v).access_count)
  where
    pick :
        0 < occurrences (least item p xs) (p ∷ xs)
        → 0 < occurrences (least item v xs) (v ∷ xs)
        → (less : Bool) → 0 < occurrences (least item (if less then p else v) xs) (v ∷ (p ∷ xs))
    pick mine older true = behind v p (least item p xs) xs mine
    pick mine older false = between v p (least item v xs) xs older

-- Where there are entries, one is picked.
pub victim-some :
    (policy : EvictionPolicy) (item : Ptr → Item) (xs : List Ptr)
    → 0 < length xs
    → (v : Ptr) × (victim policy item xs ≡ some v) × (0 < occurrences v xs)
victim-some policy item [] some_there = absurd (omega arith)
victim-some eviction_lru item (p ∷ xs) some_there =
    let (v, e) = last_or-some p xs in (v, e, last_or-occurs (p ∷ xs) v e)
victim-some eviction_lfu item (p ∷ xs) some_there = (least item p xs, refl, least-occurs item p xs)

pub evicted-IsCached :
    {c : Cache} {xs : List Ptr} (v : Ptr)
    → IsCached c xs
    → 0 < occurrences v xs
    → IsCached (evicted v c) (without v xs)
unfolding evicted
evicted-IsCached {c} v h there =
    rewritten-IsCached (remove_entry v c).item (remove_entry v c).hits (remove_entry v c).misses _
      (λ q. refl) (remove_entry-IsCached v h there)

evicted-max_size :
    {c : Cache} {xs : List Ptr} (v : Ptr)
    → IsCached c xs
    → 0 < occurrences v xs
    → (evicted v c).max_size ≡ c.max_size
unfolding evicted
evicted-max_size v h there = (remove_entry-kept v h there).0

-- The entries that stay when room is made for one more.
abbrev pub trimmed : Cache → List Ptr → List Ptr
trimmed c xs =
    if leb c.max_size (length xs)
    then elim (victim c.policy c.item xs) [ none ↦ xs | some v ↦ without v xs ]
    else xs

evict-below : (fuel : ℕ) (c : Cache) → c.size < c.max_size → evict fuel c ≡ c
unfolding evict
evict-below zero c below = refl
evict-below (suc fuel) c below =
    let over : leb c.max_size c.size ≡ false = ground arith in rw over refl

evict-full :
    (fuel : ℕ) (c : Cache) (v : Ptr)
    → leb c.max_size c.size ≡ true
    → find_victim c ≡ some v
    → evict (suc fuel) c ≡ evict fuel (evicted v c)
unfolding evict
evict-full fuel c v over e = rw (over, e) refl

-- The loop ends after an entry at most, and leaves room.
pub evict_if_needed_lem :
    {c : Cache} {xs : List Ptr}
    → IsCached c xs
    → 0 < c.max_size
    → evict_if_needed c ≡ (
        if leb c.max_size (length xs)
        then elim (victim c.policy c.item xs) [ none ↦ c | some v ↦ evicted v c ]
        else c)
unfolding evict_if_needed
evict_if_needed_lem {c} {xs} h positive = elim (Bool-cases (leb c.max_size (length xs))) [
  | inl full ↦
      let filled : 0 < length xs = ground arith in
      let (v, e, there) = victim-some c.policy c.item xs filled in
      let h' = evicted-IsCached v h there in
      let over : leb c.max_size c.size ≡ true = rw h.size full in
      rw (full, e)
        (ap (λ (n : ℕ). evict n c) (one_more c.size)
          ∙ evict-full c.size c v over (find_victim-victim h ∙ e)
          ∙ evict-below c.size (evicted v c) (
              omega
                (arith, h'.size, length-without v xs there, h.bounded, evicted-max_size v h there)))
  | inr room ↦
      let below : leb c.max_size c.size ≡ false = rw h.size room in
      rw room (evict-below (c.size + 1) c (ground arith))
]
  where
    one_more : (n : ℕ) → n + 1 ≡ suc n
    one_more n = omega arith

-- In a well-formed cache that may hold an entry, the loop of `evict_if_needed` ends with room for one
-- more: a cache that is full loses the entry at the tail by LRU, and the first of those read least by
-- LFU, and one that is not full loses none. The cache stays well formed.
pub evict_if_needed-IsCached :
    {c : Cache} {xs : List Ptr}
    → IsCached c xs
    → 0 < c.max_size
    → IsCached (evict_if_needed c) (trimmed c xs) × (length (trimmed c xs) < c.max_size)
evict_if_needed-IsCached {c} {xs} h positive =
    rw (evict_if_needed_lem h positive) (elim (Bool-cases (leb c.max_size (length xs))) [
      | inl full ↦
          let filled : 0 < length xs = ground arith in
          let (v, e, there) = victim-some c.policy c.item xs filled in
          rw (full, e)
            (evicted-IsCached v h there, omega (arith, h.bounded, length-without v xs there))
      | inr room ↦ rw room (h, ground arith)
    ])
