-- ===== src/Cache/Refinement.antt =====
-- src/cache/cache.c does what the model says: each call, and any sequence of them from
-- `cache_create` on.
use backend_in_c.Prelude.{
  ℕ, ◌+◌, ◌%◌, ◌<◌, ◌≡◌, refl, sym, ap, subst, ◌∙◌, List, [], ◌∷◌, map, Option, none, some, inl,
  inr, Bool-cases, Option-cases, false, arith, length, leb, ◌==◌, if◌then◌else◌, CString, Bytes,
}
use backend_in_c.Common.{success, error_not_found}
use backend_in_c.Common.Words.{u64}
use backend_in_c.Cache.{
  Ptr, Item, Cache, write, bucket_of, find_entry, remove_entry, evicted, evict_if_needed,
  add_to_head,
}
use backend_in_c.Cache.Calls.{insert, refresh, hit, put_with_ttl, get, delete}
use backend_in_c.Cache.Lists.{occurrences, write-same}
use backend_in_c.Cache.Chains.{newest, with_key, walk-newest}
use backend_in_c.Cache.Keys.{without, with_key-found}
use backend_in_c.Cache.Invariant.{IsCached, length-chain-le}
use backend_in_c.Cache.Remove.{remove_entry-IsCached, remove_entry-kept}
use backend_in_c.Cache.Moves.{rewritten-IsCached}
use backend_in_c.Cache.Insert.{insert-IsCached}
use backend_in_c.Cache.Eviction.{
  victim-some, evict_if_needed_lem, evict_if_needed-IsCached, trimmed,
}
use backend_in_c.Cache.Model.{lookup, evict_one, model_put, model_get, model_delete}
use backend_in_c.Cache.Entries.{item?, lookup-map, newest-some, map-without, map-write-absent}
use backend_in_c.Cache.Victims.{map-without-victim}
use backend_in_c.Cache.Touch.{view, Represents, SameView, touch-Represents}

-- The search in the table finds what a search of the whole list finds.
pub find_entry-newest :
    {c : Cache} {xs : List Ptr} (now : ℕ) (k : CString)
    → IsCached c xs
    → find_entry now k c ≡ newest now c.item (with_key c.item k xs)
unfolding find_entry
find_entry-newest {c} {xs} now k h =
    let b = bucket_of c k in
    walk-newest (c.size + 1) now k c.item c.hash_next (c.hash_table b) (h.chains b)
      (omega (arith, length-chain-le h b)) (h.chained b)
    ∙ ap (newest now c.item) (h.same k)

-- In a well-formed cache the search in the chain of a key's bucket gives the first entry with the key of
-- the whole list, and nothing if that one has expired or there is none.
pub find_entry-lookup :
    {c : Cache} {xs : List Ptr} (now : ℕ) (k : CString)
    → IsCached c xs
    → item? c.item (find_entry now k c) ≡ lookup now k (map c.item xs)
find_entry-lookup {c} {xs} now k h =
    ap (item? c.item) (find_entry-newest now k h) ∙ sym (lookup-map c.item now k xs)

-- An entry that is found is the first with its key.
found-first :
    {c : Cache} {xs : List Ptr} (now : ℕ) (k : CString) (p : Ptr)
    → IsCached c xs
    → find_entry now k c ≡ some p
    → (rest : List Ptr) × (with_key c.item k xs ≡ p ∷ rest)
found-first {c} {xs} now k p h e =
    newest-some c.item now p (with_key c.item k xs) (sym (find_entry-newest now k h) ∙ e)

-- What is left when room is made.
trimmed-view :
    {c : Cache} {xs : List Ptr}
    → IsCached c xs
    → 0 < c.max_size
    → SameView c (evict_if_needed c)
      × (map c.item (trimmed c xs) ≡ (
          if leb c.max_size (length (map c.item xs))
          then evict_one c.policy (map c.item xs)
          else map c.item xs))
unfolding evicted
trimmed-view {c} {xs} h positive =
    rw (evict_if_needed_lem h positive, length-map c.item xs)
      (elim (Bool-cases (leb c.max_size (length xs))) [
        | inl full ↦
            let (v, e, there) = victim-some c.policy c.item xs (ground arith) in
            let (size, item, policy) = remove_entry-kept v h there in
            rw (full, e)
              (
                record { max_size = size; policy = policy; item = item },
                map-without-victim c.item c.policy v xs h.once e,
              )
        | inr room ↦ rw room (record { max_size = refl; policy = refl; item = refl }, refl)
      ])
  where
    length-map : (item : Ptr → Item) (xs : List Ptr) → length (map item xs) ≡ length xs
    length-map item [] = refl
    length-map item (x ∷ xs) = omega (arith, length-map item xs)

insert-Represents :
    {c : Cache} {xs : List Ptr} (e : Item)
    → IsCached c xs
    → 0 < c.max_size
    → Represents (insert e (evict_if_needed c)) (record {
      max_size = c.max_size;
      policy = c.policy;
      entries =
          e
          ∷ (if leb c.max_size (length (map c.item xs))
              then evict_one c.policy (map c.item xs)
              else map c.item xs);
    })
unfolding insert add_to_head
insert-Represents {c} {xs} e h positive =
    let (s, kept) = trimmed-view h positive in
    let (h1, room) = evict_if_needed-IsCached h positive in
    let c1 = evict_if_needed c in
    let ys = trimmed c xs in
    record {
      order = c1.next_free ∷ ys;
      cached = insert-IsCached e h1 (subst (λ n. length ys < n) (sym s.max_size) room);
      shown = λ i. record {
        max_size = s.max_size i;
        policy = s.policy i;
        entries =
            (map-new c1.item c1.next_free e ys (h1.fresh c1.next_free (omega arith))
                ∙ ap (λ f. e ∷ map f ys) s.item
                ∙ ap (λ t. e ∷ t) kept)
              i;
      };
    }
  where
    map-new :
        (item : Ptr → Item) (p : Ptr) (e : Item) (ys : List Ptr)
        → occurrences p ys ≡ 0
        → map (write item p e) (p ∷ ys) ≡ e ∷ map item ys
    map-new item p e ys out = rw (write-same item p e, map-write-absent item p e ys out) refl

module _ {c : Cache} {xs : List Ptr} (h : IsCached c xs) (now : ℕ) (k : CString) where
  -- What `find_entry` finds, with what the model finds.
  looked_up :
      {o : Option Ptr} → find_entry now k c ≡ o → lookup now k (map c.item xs) ≡ item? c.item o
  looked_up e = sym (find_entry-lookup now k h) ∙ ap (item? c.item) e

  pub put-view :
      (now' : ℕ) (v : Bytes) (ttl : ℕ)
      → 0 < c.max_size
      → length v == 0 ≡ false
      → (c' : Cache) × (put_with_ttl now now' (some k) (some v) ttl (some c) ≡ (success, some c'))
        × Represents c' (model_put now now' k v ttl (view c xs))
  unfolding put_with_ttl refresh
  put-view now' v ttl positive filled = elim (Option-cases (find_entry now k c)) [
    | inl e ↦
        let new : Item = record {
          key = k;
          value = v;
          timestamp = now';
          ttl_ms = ttl;
          access_count = 0;
        } in
        (
          insert new (evict_if_needed c),
          rw (filled, e) refl,
          rw (looked_up e) (insert-Represents new h positive),
        )
    | inr (p, e) ↦
        let (rest, first) = found-first now k p h e in
        let new : Item = record (c.item p) { value = v; timestamp = now'; ttl_ms = ttl } in
        (
          refresh p v now' ttl c,
          rw (filled, e) refl,
          rw (looked_up e) (touch-Represents p k new c.hits rest h first refl),
        )
  ]

  pub get-view :
      (c' : Cache) × (get now (some k) (some c) ≡ elim (lookup now k (map c.item xs)) [
        | some e ↦ (success, some e.value, some c')
        | none ↦ (error_not_found, none, some c')
      ])
      × Represents c' (model_get now k (view c xs))
  unfolding get hit
  get-view = elim (Option-cases (find_entry now k c)) [
    | inl e ↦ (
      record c { misses = (c.misses + 1) % u64 },
      rw (looked_up e, e, get) refl,
      rw (looked_up e) (record {
        order = xs;
        cached = rewritten-IsCached c.item c.hits ((c.misses + 1) % u64) c.evictions (λ q. refl) h;
        shown = refl;
      }),
    )
    | inr (p, e) ↦
        let (rest, first) = found-first now k p h e in
        let new : Item = record (c.item p) { access_count = ((c.item p).access_count + 1) % u64 } in
        (
          hit p c,
          rw (looked_up e, e, get) refl,
          rw (looked_up e) (touch-Represents p k new ((c.hits + 1) % u64) rest h first refl),
        )
  ]

  pub delete-view :
      (c' : Cache) × (delete now (some k) (some c) ≡ elim (lookup now k (map c.item xs)) [
        | some e ↦ (success, some c')
        | none ↦ (error_not_found, some c')
      ])
      × Represents c' (model_delete now k (view c xs))
  unfolding delete
  delete-view = elim (Option-cases (find_entry now k c)) [
    | inl e ↦ (
      c,
      rw (looked_up e, e, delete) refl,
      rw (looked_up e) (record { order = xs; cached = h; shown = refl }),
    )
    | inr (p, e) ↦
        let (rest, first) = found-first now k p h e in
        let (there, mine) = with_key-found c.item k p xs rest first in
        let (size, item, policy) = remove_entry-kept p h there in
        (
          remove_entry p c,
          rw (looked_up e, e, delete) refl,
          rw (looked_up e) (record {
            order = without p xs;
            cached = remove_entry-IsCached p h there;
            shown = λ i. record {
              max_size = size i;
              policy = policy i;
              entries =
                  (ap (λ f. map f (without p xs)) item ∙ map-without c.item p k xs rest first) i;
            };
          }),
        )
  ]
