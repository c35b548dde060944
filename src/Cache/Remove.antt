-- ===== src/Cache/Remove.antt =====
-- `remove_entry` of src/cache/cache.c takes an entry out of the list and out of its chain.
use backend_in_c.Prelude.{
  ℕ, ◌+◌, ◌≤◌, ◌<◌, ◌≡◌, ◌≢◌, refl, sym, ap, subst, ◌∙◌, List, ◌∷◌, ◌++◌, Option, none, inl, inr,
  Bool-cases, Option-cases, false, arith, ltb, ◌==◌, if◌then◌else◌, eq_of_==, ne_of_==, pos_of_ltb,
  eq-zero_of_ltb,
}
use backend_in_c.Cache.{Ptr, Cache, write, bucket_of, remove_entry}
use backend_in_c.Cache.Lists.{
  occurrences, occurrences-append, first_or, last_or, last_or-occurs, write-same, write-other,
}
use backend_in_c.Cache.Recency.{Once, IsList, spliced, spliced-IsList}
use backend_in_c.Cache.Chains.{Chain, Chain-frame, rechained, Chain-rechained}
use backend_in_c.Cache.Keys.{
  without, without-absent, occurrences-without, length-without, split_at, with_key-without,
}
use backend_in_c.Cache.Invariant.{
  IsCached, occurrences-chain-le, occurrences-own_chain, rechained-IsList, removed,
  remove_entry-removed,
}

-- The links of one chain are no business of another.
rechained-other :
    (c : Cache) (b i : ℕ) (us : List Ptr) (nx : Option Ptr) (xs : List Ptr)
    → b ≢ i
    → ((p : Ptr) → 0 < occurrences p us → occurrences p xs ≡ 0)
    → Chain c.hash_next (c.hash_table i) xs
    → let c' = rechained b (last_or none us) nx c in Chain c'.hash_next (c'.hash_table i) xs
rechained-other c b i us nx xs differ apart h = elim (Option-cases (last_or none us)) [
  | inl e ↦ rw (e, write-other c.hash_table b i nx differ) h
  | inr (r, e) ↦ rw e (
      Chain-frame c.hash_next (write c.hash_next r nx) (c.hash_table i) xs
        (λ p there. write-other c.hash_next r p nx (λ rp.
          absurd (omega (arith, apart r (last_or-occurs us r e), ap (λ t. occurrences t xs) rp))))
        h)
]

-- What is allocated once `p` is not.
live-gone : (p m : ℕ) {n : ℕ} → n ≤ 1 → m + (if p == p then 1 else 0) ≡ n → false ≡ ltb 0 m
live-gone p m once e = ground arith

live-kept :
    (p q m : ℕ) {n : ℕ} → (p == q) ≡ false → m + (if p == q then 1 else 0) ≡ n → ltb 0 n ≡ ltb 0 m
live-kept p q m differ e = ground arith

module _ {c : Cache} {xs : List Ptr} (p : Ptr) (h : IsCached c xs)
    (there : 0 < occurrences p xs) where
  removed-chained :
      (us vs : List Ptr) (i : ℕ)
      → h.chains (bucket_of c (c.item p).key) ≡ us ++ p ∷ vs
      → without p (h.chains (bucket_of c (c.item p).key)) ≡ us ++ vs
      → let c' = rechained (bucket_of c (c.item p).key) (last_or none us) (c.hash_next p) c in
        Chain c'.hash_next (c'.hash_table i) (without p (h.chains i))
  removed-chained us vs i f g =
      let b = bucket_of c (c.item p).key in
      elim (Bool-cases (b == i)) [
        | inl same ↦
            let e = eq_of_== b i same in
            subst
              (λ t.
                let c' = rechained b (last_or none us) (c.hash_next p) c in
                Chain c'.hash_next (c'.hash_table t) (without p (h.chains t)))
              e
              (rw g (
                Chain-rechained c b p us vs
                  (λ q. omega (arith, h.once q, occurrences-chain-le h b q, ap (occurrences q) f))
                  (subst (Chain c.hash_next (c.hash_table b)) f (h.chained b))))
        | inr other ↦
            let e = ne_of_== b i other in
            let absent : occurrences p (h.chains i) ≡ 0 = not_elsewhere i (λ q. e q) in
            rw (without-absent p (h.chains i) absent) (
              rechained-other c b i us (c.hash_next p) (h.chains i) e
                (λ q inside. apart us vs i q f e inside) (h.chained i))
      ]
    where
      zero_or :
          (q : Ptr) (i : ℕ) → (bucket_of c (c.item q).key ≢ i) → occurrences q (h.chains i) ≡ 0
      zero_or q i differ = elim (Bool-cases (ltb 0 (occurrences q (h.chains i)))) [
        | inl in_it ↦ absurd (differ (h.placed i q (pos_of_ltb (occurrences q (h.chains i)) in_it)))
        | inr out ↦ eq-zero_of_ltb (occurrences q (h.chains i)) out
      ]

      not_elsewhere : (i : ℕ) → (bucket_of c (c.item p).key ≢ i) → occurrences p (h.chains i) ≡ 0
      not_elsewhere i differ = zero_or p i differ

      apart :
          (us vs : List Ptr) (i : ℕ) (q : Ptr)
          → h.chains (bucket_of c (c.item p).key) ≡ us ++ p ∷ vs
          → bucket_of c (c.item p).key ≢ i
          → 0 < occurrences q us
          → occurrences q (h.chains i) ≡ 0
      apart us vs i q f differ inside = zero_or q i (λ qi. differ (
          sym (
            h.placed (bucket_of c (c.item p).key) q
              (omega (arith, ap (occurrences q) f, occurrences-append q us (p ∷ vs), inside)))
          ∙ qi))

  -- Without an entry that it holds, the cache holds the others, in the same order.
  removed-IsCached :
      (us vs before behind : List Ptr)
      → h.chains (bucket_of c (c.item p).key) ≡ us ++ p ∷ vs
      → without p (h.chains (bucket_of c (c.item p).key)) ≡ us ++ vs
      → xs ≡ before ++ p ∷ behind
      → without p xs ≡ before ++ behind
      → IsCached
          (removed p
            (bucket_of c (c.item p).key)
            (last_or none us)
            (last_or none before)
            (first_or behind none)
            c)
          (without p xs)
  unfolding bucket_of
  removed-IsCached us vs before behind f g e k =
      let b = bucket_of c (c.item p).key in
      let c1 = rechained b (last_or none us) (c.hash_next p) c in
      let parted = subst (IsList c) e h.list in
      let once' = subst Once e h.once in
      let l =
        spliced-IsList c1 p before behind once'
          (rechained-IsList b (last_or none us) (c.hash_next p) c (before ++ p ∷ behind) parted) in
      record {
        chains = λ i. without p (h.chains i);
        list =
            let l' =
              subst (IsList (spliced (last_or none before) (first_or behind none) c1)) (sym k) l in
            record { head = l'.head; tail = l'.tail; linked = l'.linked };
        size = omega (arith, h.size, length-without p xs there);
        once = λ q. omega (arith, h.once q, occurrences-without p q xs there);
        chained = λ i. removed-chained us vs i f g;
        placed = λ i q inside. h.placed i q (fewer i q inside);
        same = λ key.
            with_key-without c.item p key (h.chains (bucket_of c key))
            ∙ ap (without p) (h.same key)
            ∙ sym (with_key-without c.item p key xs);
        live = λ q. gone q;
        fresh = λ q above. omega (arith, h.fresh q above, occurrences-without p q xs there);
        bounded = omega (arith, h.bounded, length-without p xs there);
        sized = h.sized;
      }
    where
      fewer :
          (i : ℕ) (q : Ptr)
          → 0 < occurrences q (without p (h.chains i))
          → 0 < occurrences q (h.chains i)
      fewer i q inside = elim (Bool-cases (ltb 0 (occurrences p (h.chains i)))) [
        | inl in_it ↦ omega (
          arith,
          occurrences-without p q (h.chains i) (pos_of_ltb (occurrences p (h.chains i)) in_it),
          inside,
        )
        | inr out ↦
            subst (λ t. 0 < occurrences q t)
              (without-absent p (h.chains i) (eq-zero_of_ltb (occurrences p (h.chains i)) out))
              inside
      ]

      gone : (q : Ptr) → write c.live p false q ≡ ltb 0 (occurrences q (without p xs))
      gone q = elim (Bool-cases (p == q)) [
        | inl same ↦
            let pq = eq_of_== p q same in
            subst (λ t. write c.live p false t ≡ ltb 0 (occurrences t (without p xs))) pq
              (write-same c.live p false
                ∙ live-gone p (occurrences p (without p xs)) (h.once p)
                    (occurrences-without p p xs there))
        | inr differ ↦
            write-other c.live p q false (ne_of_== p q differ)
            ∙ h.live q
            ∙ live-kept p q (occurrences q (without p xs)) differ (occurrences-without p q xs there)
      ]

  -- Removing an entry that a well-formed cache holds leaves a well-formed cache with the others, in the
  -- same order.
  pub remove_entry-IsCached : IsCached (remove_entry p c) (without p xs)
  remove_entry-IsCached =
      let own = occurrences-own_chain h p in
      let (us, vs, f, out, g) =
        split_at p (h.chains (bucket_of c (c.item p).key)) (omega (arith, own)) in
      let (before, behind, e, out', k) = split_at p xs there in
      subst (λ t. IsCached t (without p xs))
        (sym (remove_entry-removed p us vs before behind h e f out))
        (removed-IsCached us vs before behind f g e k)

  -- The fields that do not tell where an entry stands are as before.
  pub remove_entry-kept :
      ((remove_entry p c).max_size ≡ c.max_size)
      × ((remove_entry p c).item ≡ c.item)
      × ((remove_entry p c).policy ≡ c.policy)
  remove_entry-kept =
      let own = occurrences-own_chain h p in
      let (us, vs, f, out, g) =
        split_at p (h.chains (bucket_of c (c.item p).key)) (omega (arith, own)) in
      let (before, behind, e, out', k) = split_at p xs there in
      rw (remove_entry-removed p us vs before behind h e f out) (refl, refl, refl)
