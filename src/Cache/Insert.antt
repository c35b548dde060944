-- ===== src/Cache/Insert.antt =====
-- A new entry of src/cache/cache.c, first in its chain and first in the list.
use backend_in_c.Prelude.{
  ℕ, ◌+◌, ◌≤◌, ◌<◌, ◌≡◌, ◌≢◌, refl, sym, ap, subst, ◌∙◌, List, ◌∷◌, some, inl, inr, Bool-cases,
  true, false, arith, length, ltb, ◌==◌, CString, str_eq, eq_of_str_eq, eq_of_==, ne_of_==,
}
use backend_in_c.Cache.{Ptr, Item, Cache, write, bucket_of, add_to_head}
use backend_in_c.Cache.Calls.{insert}
use backend_in_c.Cache.Lists.{occurrences, write-same, write-other}
use backend_in_c.Cache.Recency.{IsList, add_to_head-IsList}
use backend_in_c.Cache.Chains.{Chain, Chain-frame, with_key}
use backend_in_c.Cache.Keys.{with_key-frame}
use backend_in_c.Cache.Invariant.{IsCached, occurrences-chain-le}

older-occurs :
    (q p : Ptr) (ys : List Ptr)
    → (p == q) ≡ false
    → 0 < occurrences q (p ∷ ys)
    → 0 < occurrences q ys
older-occurs q p ys elsewhere inside = ground arith

with_key-cons :
    (item : Ptr → Item) (k : CString) (p : Ptr) (xs ys : List Ptr)
    → with_key item k xs ≡ with_key item k ys
    → with_key item k (p ∷ xs) ≡ with_key item k (p ∷ ys)
with_key-cons item k p xs ys s = rw s refl

with_key-other :
    (item : Ptr → Item) (k : CString) (p : Ptr) (xs : List Ptr)
    → str_eq (item p).key k ≡ false
    → with_key item k (p ∷ xs) ≡ with_key item k xs
with_key-other item k p xs other = rw other refl

not_key : (k k' : CString) {k2 : CString} → k ≢ k' → k2 ≡ k → str_eq k2 k' ≡ false
not_key k k' {k2} apart s = elim (Bool-cases (str_eq k2 k')) [
  | inl eq ↦ absurd (apart (sym s ∙ eq_of_str_eq k2 k' eq))
  | inr ne ↦ ne
]

module _ {c : Cache} {xs : List Ptr} (e : Item) (h : IsCached c xs) where
  absent : (i : ℕ) → occurrences c.next_free (h.chains i) ≡ 0
  absent i = omega (arith, h.fresh c.next_free (omega arith), occurrences-chain-le h i c.next_free)

  differ :
      (q : Ptr) (ys : List Ptr)
      → occurrences c.next_free ys ≡ 0
      → 0 < occurrences q ys
      → c.next_free ≢ q
  differ q ys out there = λ s. absurd (omega (arith, ap (λ t. occurrences t ys) s))

  -- The chains with the new entry.
  grown : ℕ → List Ptr
  grown = write h.chains (bucket_of c e.key) (c.next_free ∷ h.chains (bucket_of c e.key))

  grown-chained :
      (i : ℕ)
      → let b = bucket_of c e.key in
        Chain
          (write c.hash_next c.next_free (c.hash_table b))
          (write c.hash_table b (some c.next_free) i)
          (grown i)
  unfolding grown
  grown-chained i =
      let p = c.next_free in
      let b = bucket_of c e.key in
      let f = write c.hash_next p (c.hash_table b) in
      let framed = λ (j : ℕ).
        Chain-frame c.hash_next f (c.hash_table j) (h.chains j)
          (λ q there.
            write-other c.hash_next p q (c.hash_table b) (differ q (h.chains j) (absent j) there))
          (h.chained j) in
      elim (Bool-cases (b == i)) [
        | inl same ↦
            subst
              (λ t. Chain f (write c.hash_table b (some p) t) (write h.chains b (p ∷ h.chains b) t))
              (eq_of_== b i same)
              (rw (write-same c.hash_table b (some p), write-same h.chains b (p ∷ h.chains b))
                (refl, rw (write-same c.hash_next p (c.hash_table b)) (framed b)))
        | inr other ↦
            let apart = ne_of_== b i other in
            rw
              (
                write-other c.hash_table b i (some p) apart,
                write-other h.chains b i (p ∷ h.chains b) apart,
              )
              (framed i)
      ]

  grown-placed :
      (i : ℕ) (q : Ptr)
      → 0 < occurrences q (grown i)
      → bucket_of c (write c.item c.next_free e q).key ≡ i
  unfolding grown
  grown-placed i q inside =
      let p = c.next_free in
      let b = bucket_of c e.key in
      let item = write c.item p e in
      elim (Bool-cases (p == q)) [
        | inl here ↦
            let pq = eq_of_== p q here in
            elim (Bool-cases (b == i)) [
              | inl same ↦
                  subst (λ t. bucket_of c (item t).key ≡ i) pq
                    (ap (λ (t : Item). bucket_of c t.key) (write-same c.item p e)
                      ∙ eq_of_== b i same)
              | inr other ↦
                  let kept = write-other h.chains b i (p ∷ h.chains b) (ne_of_== b i other) in
                  absurd (
                    omega (
                      arith,
                      ap (occurrences q) kept,
                      inside,
                      absent i,
                      ap (λ t. occurrences t (h.chains i)) pq,
                    ))
            ]
        | inr elsewhere ↦
            ap (λ (t : Item). bucket_of c t.key) (write-other c.item p q e (ne_of_== p q elsewhere))
            ∙ h.placed i q (older i q elsewhere inside)
      ]
    where
      older :
          (i : ℕ) (q : Ptr)
          → (c.next_free == q) ≡ false
          → 0
            < occurrences q
                (write h.chains (bucket_of c e.key) (c.next_free ∷ h.chains (bucket_of c e.key)) i)
          → 0 < occurrences q (h.chains i)
      older i q elsewhere inside =
          let p = c.next_free in
          let b = bucket_of c e.key in
          elim (Bool-cases (b == i)) [
            | inl same ↦
                let bi = eq_of_== b i same in
                subst (λ t. 0 < occurrences q (h.chains t)) bi
                  (older-occurs q p (h.chains b) elsewhere (
                    subst (λ t. 0 < occurrences q t) (write-same h.chains b (p ∷ h.chains b))
                      (subst (λ t. 0 < occurrences q (write h.chains b (p ∷ h.chains b) t)) (sym bi)
                        inside)))
            | inr other ↦
                subst (λ t. 0 < occurrences q t)
                  (write-other h.chains b i (p ∷ h.chains b) (ne_of_== b i other)) inside
          ]

  grown-same :
      (k : CString)
      → with_key (write c.item c.next_free e) k (grown (bucket_of c k))
        ≡ with_key (write c.item c.next_free e) k (c.next_free ∷ xs)
  unfolding grown
  grown-same k =
      let p = c.next_free in
      let b = bucket_of c e.key in
      let item = write c.item p e in
      let framed = λ (ys : List Ptr) (out : occurrences p ys ≡ 0).
        with_key-frame c.item item k ys (λ q there.
          ap (λ (t : Item). t.key) (write-other c.item p q e (differ q ys out there))) in
      let old : with_key item k (h.chains (bucket_of c k)) ≡ with_key item k xs =
        framed (h.chains (bucket_of c k)) (absent (bucket_of c k))
        ∙ h.same k
        ∙ sym (framed xs (h.fresh p (omega arith))) in
      let mine = ap (λ (t : Item). t.key) (write-same c.item p e) in
      elim (Bool-cases (b == bucket_of c k)) [
        | inl same ↦
            let bk = eq_of_== b (bucket_of c k) same in
            let there =
              subst (λ t. write h.chains b (p ∷ h.chains b) t ≡ p ∷ h.chains t) bk
                (write-same h.chains b (p ∷ h.chains b)) in
            ap (with_key item k) there ∙ with_key-cons item k p (h.chains (bucket_of c k)) xs old
        | inr other ↦
            let differs = ne_of_== b (bucket_of c k) other in
            ap (with_key item k) (write-other h.chains b (bucket_of c k) (p ∷ h.chains b) differs)
            ∙ old
            ∙ sym (
                with_key-other item k p xs
                  (not_key e.key k (λ s. differs (ap (bucket_of c) s)) mine))
      ]

  inserted-IsList : IsList (insert e c) (c.next_free ∷ xs)
  unfolding insert
  inserted-IsList =
      let p = c.next_free in
      let b = bucket_of c e.key in
      let c1 = record c {
        item = write c.item p e;
        hash_next = write c.hash_next p (c.hash_table b);
        hash_table = write c.hash_table b (some p);
        live = write c.live p true;
        next_free = p + 1;
      } in
      let l =
        add_to_head-IsList c1 p xs (h.fresh p (omega arith)) h.once
          (record { head = h.list.head; tail = h.list.tail; linked = h.list.linked }) in
      record { head = l.head; tail = l.tail; linked = l.linked }

  -- An entry more, where there is room for it.
  pub insert-IsCached : length xs < c.max_size → IsCached (insert e c) (c.next_free ∷ xs)
  unfolding insert add_to_head bucket_of
  insert-IsCached room = record {
    chains = grown;
    list = inserted-IsList;
    size = omega (arith, h.size);
    once = λ q. one c.next_free q xs (h.fresh c.next_free (omega arith)) (h.once q);
    chained = grown-chained;
    placed = grown-placed;
    same = grown-same;
    live = λ q. elim (Bool-cases (c.next_free == q)) [
      | inl here ↦
          subst (λ t. write c.live c.next_free true t ≡ ltb 0 (occurrences t (c.next_free ∷ xs)))
            (eq_of_== c.next_free q here)
            (write-same c.live c.next_free true ∙ first c.next_free xs)
      | inr other ↦
          write-other c.live c.next_free q true (ne_of_== c.next_free q other)
          ∙ h.live q
          ∙ ap (ltb 0) (older c.next_free q xs other)
    ];
    fresh = λ q above. unused c.next_free q xs above (h.fresh q (omega arith));
    bounded = omega arith;
    sized = h.sized;
  }
    where
      one :
          (p q : Ptr) (xs : List Ptr)
          → occurrences p xs ≡ 0
          → occurrences q xs ≤ 1
          → occurrences q (p ∷ xs) ≤ 1
      one p q xs out once = elim (Bool-cases (p == q)) [
        | inl here ↦ subst (λ t. occurrences t (p ∷ xs) ≤ 1) (eq_of_== p q here) (ground arith)
        | inr other ↦ ground arith
      ]

      first : (p : Ptr) (xs : List Ptr) → true ≡ ltb 0 (occurrences p (p ∷ xs))
      first p xs = ground arith

      older :
          (p q : Ptr) (xs : List Ptr) → (p == q) ≡ false → occurrences q xs ≡ occurrences q (p ∷ xs)
      older p q xs other = ground arith

      unused :
          (p q : Ptr) (xs : List Ptr)
          → p + 1 ≤ q
          → occurrences q xs ≡ 0
          → occurrences q (p ∷ xs) ≡ 0
      unused p q xs above out = ground arith
