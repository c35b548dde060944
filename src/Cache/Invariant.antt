-- ===== src/Cache/Invariant.antt =====
-- The invariant of src/cache/cache.c: its list and its chains hold the same entries. `remove_entry`
-- keeps it.
use backend_in_c.Prelude.{
  ℕ, ◌+◌, ◌-◌, ◌≤◌, ◌<◌, ◌≡◌, sym, ap, subst, ◌∙◌, List, [], ◌∷◌, ◌++◌, Option, none, inl, inr,
  Bool-cases, false, arith, length, ltb, CString,
}
use backend_in_c.Cache.{Ptr, Cache, write, bucket_of, remove_from_list, free_entry, remove_entry}
use backend_in_c.Cache.Lists.{occurrences, first_or, last_or}
use backend_in_c.Cache.Recency.{Once, IsList, spliced, remove_from_list_lem}
use backend_in_c.Cache.Chains.{Chain, with_key, rechained, unlink_chain-rechained}
use backend_in_c.Cache.Keys.{length-le-of_occurrences, occurrences-with_key}

-- The cache holds the entries `xs`, most recently used first, in the list and in the chains of the
-- table: under each key the chain of its bucket has the same entries as the list, in the same order.
-- The entries allocated are these.
pub record IsCached (c : Cache) (xs : List Ptr) : Type 0 where
  pub chains : ℕ → List Ptr
  pub list : IsList c xs
  pub size : c.size ≡ length xs
  pub once : Once xs
  pub chained : (i : ℕ) → Chain c.hash_next (c.hash_table i) (chains i)
  pub placed : (i : ℕ) (p : Ptr) → 0 < occurrences p (chains i) → bucket_of c (c.item p).key ≡ i
  pub same : (k : CString) → with_key c.item k (chains (bucket_of c k)) ≡ with_key c.item k xs
  pub live : (p : Ptr) → c.live p ≡ ltb 0 (occurrences p xs)
  pub fresh : (p : Ptr) → c.next_free ≤ p → occurrences p xs ≡ 0
  pub bounded : length xs ≤ c.max_size
  pub sized : 0 < c.hash_size

module _ {c : Cache} {xs : List Ptr} (h : IsCached c xs) where
  -- A chain holds no other entries than the list, and none more often.
  pub occurrences-chain-le : (i : ℕ) (p : Ptr) → occurrences p (h.chains i) ≤ occurrences p xs
  occurrences-chain-le i p = elim (Bool-cases (ltb 0 (occurrences p (h.chains i)))) [
    | inl there ↦
        let e = h.placed i p (ground arith) in
        omega (
          arith,
          occurrences-with_key c.item p (h.chains i),
          occurrences-with_key c.item p xs,
          ap (occurrences p) (h.same (c.item p).key),
          ap (λ b. occurrences p (with_key c.item (c.item p).key (h.chains b))) e,
        )
    | inr absent ↦ ground arith
  ]

  pub length-chain-le : (i : ℕ) → length (h.chains i) ≤ c.size
  length-chain-le i =
      omega (arith, length-le-of_occurrences (h.chains i) xs (occurrences-chain-le i), h.size)

  -- An entry of the list is in the chain of its bucket.
  pub occurrences-own_chain :
      (p : Ptr) → occurrences p (h.chains (bucket_of c (c.item p).key)) ≡ occurrences p xs
  occurrences-own_chain p =
      sym (occurrences-with_key c.item p (h.chains (bucket_of c (c.item p).key)))
      ∙ ap (occurrences p) (h.same (c.item p).key)
      ∙ occurrences-with_key c.item p xs

-- The cache without `p`, by its neighbours in its chain and in the list.
abbrev pub removed : Ptr → ℕ → Option Ptr → Option Ptr → Option Ptr → Cache → Cache
removed p b above before behind c =
    let c' = spliced before behind (rechained b above (c.hash_next p) c) in
    record c' { live = write c.live p false; size = c.size - 1 }

pub rechained-IsList :
    (b : ℕ) (pr nx : Option Ptr) (c : Cache) (xs : List Ptr)
    → IsList c xs
    → IsList (rechained b pr nx c) xs
rechained-IsList b pr nx c xs l = record { head = l.head; tail = l.tail; linked = l.linked }

pub remove_entry-removed :
    {c : Cache} {xs : List Ptr} (p : Ptr) (us vs before behind : List Ptr)
    → (h : IsCached c xs) → xs ≡ before ++ p ∷ behind
    → h.chains (bucket_of c (c.item p).key) ≡ us ++ p ∷ vs
    → occurrences p us ≡ 0
    → remove_entry p c
      ≡ removed p
          (bucket_of c (c.item p).key)
          (last_or none us)
          (last_or none before)
          (first_or behind none)
          c
unfolding remove_entry free_entry
remove_entry-removed {c} {xs} p us vs before behind h e f out =
    let b = bucket_of c (c.item p).key in
    let c1 = rechained b (last_or none us) (c.hash_next p) c in
    let short = length-chain-le h b in
    let size = ap {B = ℕ} length f in
    let unlinked =
      unlink_chain-rechained (c.size + 1) b p none (c.hash_table b) us vs c
        (omega (arith, short, size, length-front us vs)) out
        (subst (Chain c.hash_next (c.hash_table b)) f (h.chained b)) in
    let list1 =
      rechained-IsList b (last_or none us) (c.hash_next p) c (before ++ p ∷ behind)
        (subst (IsList c) e h.list) in
    ap (λ t. free_entry p (remove_from_list p t)) unlinked
    ∙ ap (free_entry p) (remove_from_list_lem c1 p before behind (subst Once e h.once) list1)
  where
    length-front : (us vs : List Ptr) → length us < length (us ++ p ∷ vs)
    length-front [] vs = omega arith
    length-front (u ∷ us) vs = omega (arith, length-front us vs)
