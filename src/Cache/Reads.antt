-- ===== src/Cache/Reads.antt =====
-- What a `cache_get` after a `cache_put_with_ttl` of src/cache/cache.c gives.
use backend_in_c.Prelude.{
  ℕ, ◌≤◌, ◌<◌, ◌≡◌, refl, sym, ap, ◌∙◌, List, [], ◌∷◌, none, some, inl, inr, ◌⊎◌, Bool-cases,
  Option-cases, Bool, true, false, ◌&&◌, arith, length, ltb, leb, ◌==◌, if◌then◌else◌, CString,
  Bytes, str_eq, eq_of_str_eq, str_eq_refl, some_inj, ◌≢◌,
}
use backend_in_c.Common.{success}
use backend_in_c.Common.Words.{sub64}
use backend_in_c.Cache.{Ptr, Item, EvictionPolicy, eviction_lru, eviction_lfu, Cache, expired}
use backend_in_c.Cache.Calls.{put_with_ttl, get}
use backend_in_c.Cache.Invariant.{IsCached}
use backend_in_c.Cache.Model.{Model, lookup, drop_key, set_key, used, evict_one, model_put}
use backend_in_c.Cache.Touch.{view}
use backend_in_c.Cache.Refinement.{put-view, get-view}

lookup-first :
    (now : ℕ) (k : CString) (e : Item) (es : List Item)
    → e.key ≡ k
    → expired now e ≡ false
    → lookup now k (e ∷ es) ≡ some e
lookup-first now k e es same fresh =
    let mine : str_eq e.key k ≡ true = rw same (str_eq_refl k) in rw (mine, fresh) refl

lookup-set_key :
    (now now' : ℕ) (k : CString) (new e : Item) (es : List Item)
    → lookup now k es ≡ some e
    → new.key ≡ k
    → expired now' new ≡ false
    → lookup now' k (set_key k new es) ≡ some new
lookup-set_key now now' k new e [] found same fresh = absurd cc
lookup-set_key now now' k new e (x ∷ es) found same fresh = elim (Bool-cases (str_eq x.key k)) [
  | inl mine ↦ rw mine (lookup-first now' k new es same fresh)
  | inr other ↦
      rw (other, other) (lookup-set_key now now' k new e es (rw other at found) same fresh)
]

lookup-used :
    (policy : EvictionPolicy) (now now' : ℕ) (k : CString) (new e : Item) (es : List Item)
    → lookup now k es ≡ some e
    → new.key ≡ k
    → expired now' new ≡ false
    → lookup now' k (used policy k new es) ≡ some new
lookup-used eviction_lru now now' k new e es found same fresh =
    lookup-first now' k new (drop_key k es) same fresh
lookup-used eviction_lfu now now' k new e es found same fresh =
    lookup-set_key now now' k new e es found same fresh

lookup-key :
    (now : ℕ) (k : CString) (e : Item) (es : List Item) → lookup now k es ≡ some e → e.key ≡ k
lookup-key now k e [] found = absurd cc
lookup-key now k e (x ∷ es) found = elim (Bool-cases (str_eq x.key k)) [
  | inl mine ↦ elim (Bool-cases (expired now x)) [
    | inl old ↦ absurd (none-some e (rw (mine, old) at found))
    | inr fresh ↦
        let same : x ≡ e = some_inj (rw (mine, fresh) at found) in
        ap (λ (t : Item). t.key) (sym same) ∙ eq_of_str_eq x.key k mine
  ]
  | inr other ↦ lookup-key now k e es (rw other at found)
]
  where
    none-some : (e : Item) → none ≢ some e
    none-some e = λ s. cc

fresh_enough :
    (now' at : ℕ) (ttl : ℕ) (e : Item)
    → e.timestamp ≡ at
    → e.ttl_ms ≡ ttl
    → (ttl ≡ 0) ⊎ (sub64 now' at ≤ ttl)
    → expired now' e ≡ false
unfolding expired
fresh_enough now' at ttl e f g (inl never) = rw (f, g, never) refl
fresh_enough now' at ttl e f g (inr soon) =
    let kept : ltb ttl (sub64 now' at) ≡ false = ground arith in
    rw (f, g, kept) (and_false (ltb 0 ttl))
  where
    and_false : (b : Bool) → b && false ≡ false
    and_false true = refl
    and_false false = refl

lookup-model_put :
    (now now' now2 : ℕ) (k : CString) (v : Bytes) (ttl : ℕ) (m : Model)
    → (ttl ≡ 0) ⊎ (sub64 now2 now' ≤ ttl)
    → (new : Item) × (lookup now2 k (model_put now now' k v ttl m).entries ≡ some new)
      × (new.value ≡ v)
lookup-model_put now now' now2 k v ttl m fresh = elim (Option-cases (lookup now k m.entries)) [
  | inl absent ↦
      let new : Item = record {
        key = k;
        value = v;
        timestamp = now';
        ttl_ms = ttl;
        access_count = 0;
      } in
      let in_time = fresh_enough now2 now' ttl new refl refl fresh in
      let rest =
        if leb m.max_size (length m.entries) then evict_one m.policy m.entries else m.entries in
      let added : (model_put now now' k v ttl m).entries ≡ new ∷ rest =
        rw (absent, model_put) refl in
      (new, ap (lookup now2 k) added ∙ lookup-first now2 k new rest refl in_time, refl)
  | inr (e, found) ↦
      let new : Item = record e { value = v; timestamp = now'; ttl_ms = ttl } in
      let in_time = fresh_enough now2 now' ttl new refl refl fresh in
      (
        new,
        rw (found, model_put)
            (lookup-used m.policy now now2 k new e m.entries found
              (lookup-key now k e m.entries found) in_time),
        refl,
      )
]

-- What is put under a key in a cache with room for an entry at least is what the next read of the key
-- gives, unless it has a lifetime and the read is later than that: whether the key was there or not, by
-- both policies, and also if another entry was evicted.
pub put-get :
    {c : Cache} {xs : List Ptr} (now now' now2 : ℕ) (k : CString) (v : Bytes) (ttl : ℕ)
    → IsCached c xs
    → 0 < c.max_size
    → length v == 0 ≡ false
    → (ttl ≡ 0) ⊎ (sub64 now2 now' ≤ ttl)
    → (c1 c2 : Cache) × (put_with_ttl now now' (some k) (some v) ttl (some c) ≡ (success, some c1))
      × (get now2 (some k) (some c1) ≡ (success, some v, some c2))
put-get {c} {xs} now now' now2 k v ttl h positive filled fresh =
    let (c1, e, r) = put-view h now k now' v ttl positive filled in
    let (c2, f, r2) = get-view r.cached now2 k in
    let (new, found, same) = lookup-model_put now now' now2 k v ttl (view c xs) fresh in
    let there = ap (λ (t : Model). lookup now2 k t.entries) r.shown ∙ found in
    (c1, c2, e, f ∙ rw there (ap (λ t. (success, some t, some c2)) same))
