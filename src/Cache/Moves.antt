-- ===== src/Cache/Moves.antt =====
-- An entry of src/cache/cache.c that is used: its fields are written and, by LRU, `move_to_head`
-- puts it first.
use backend_in_c.Prelude.{
  ℕ, ◌<◌, ◌≡◌, refl, sym, ap, subst, ◌∙◌, List, [], ◌∷◌, none, inl, inr, Bool-cases, true, arith,
  ltb, ◌==◌, CString, str_eq, eq_of_str_eq, eq_of_==, ne_of_==,
}
use backend_in_c.Cache.{Ptr, Item, Cache, write, bucket_of, same_ptr, add_to_head, move_to_head}
use backend_in_c.Cache.Lists.{occurrences, first_or, last_or, write-same, write-other}
use backend_in_c.Cache.Recency.{
  Once, IsList, spliced, remove_from_list_lem, spliced-IsList, add_to_head-IsList,
}
use backend_in_c.Cache.Chains.{with_key}
use backend_in_c.Cache.Keys.{
  without, without-absent, occurrences-without, occurrences-without_self, length-without, split_at,
  occurrences-with_key-other, with_key-without, with_key-frame,
}
use backend_in_c.Cache.Invariant.{IsCached}

pub write-key :
    (item : Ptr → Item) (p : Ptr) (e : Item)
    → e.key ≡ (item p).key
    → (q : Ptr) → (write item p e q).key ≡ (item q).key
write-key item p e same q = elim (Bool-cases (p == q)) [
  | inl here ↦
      let pq = eq_of_== p q here in
      subst (λ t. (write item p e t).key ≡ (item t).key) pq
        (ap (λ (t : Item). t.key) (write-same item p e) ∙ same)
  | inr other ↦ ap (λ (t : Item). t.key) (write-other item p q e (ne_of_== p q other))
]

-- Entries that keep their keys stay where they are.
pub rewritten-IsCached :
    {c : Cache} {xs : List Ptr} (item : Ptr → Item) (hits misses evictions : ℕ)
    → ((q : Ptr) → (item q).key ≡ (c.item q).key)
    → IsCached c xs
    → IsCached (record c { item = item; hits = hits; misses = misses; evictions = evictions }) xs
unfolding bucket_of
rewritten-IsCached {c} {xs} item hits misses evictions keys h = record {
  chains = h.chains;
  list = record { head = h.list.head; tail = h.list.tail; linked = h.list.linked };
  size = h.size;
  once = h.once;
  chained = h.chained;
  placed = λ i q inside. ap (λ k. bucket_of c k) (keys q) ∙ h.placed i q inside;
  same = λ k.
      with_key-frame c.item item k (h.chains (bucket_of c k)) (λ q there. keys q)
      ∙ h.same k
      ∙ sym (with_key-frame c.item item k xs (λ q there. keys q));
  live = h.live;
  fresh = h.fresh;
  bounded = h.bounded;
  sized = h.sized;
}

-- The first entry with a key stays the first with it when it is put first of all.
with_key-first :
    (item : Ptr → Item) (p : Ptr) (xs rest : List Ptr) (k : CString)
    → with_key item (item p).key xs ≡ p ∷ rest
    → with_key item k xs ≡ with_key item k (p ∷ without p xs)
with_key-first item p xs rest k e = elim (Bool-cases (str_eq (item p).key k)) [
  | inl mine ↦
      let same = eq_of_str_eq (item p).key k mine in
      let e' = subst (λ t. with_key item t xs ≡ p ∷ rest) same e in
      let here : p == p ≡ true = ground arith in
      rw (mine, with_key-without item p k xs, e', here) refl
  | inr other ↦
      rw
        (
          other,
          with_key-without item p k xs,
          without-absent p (with_key item k xs) (occurrences-with_key-other item p k xs other),
        )
        refl
]

occurrences-moved :
    (p q : Ptr) (xs : List Ptr)
    → 0 < occurrences p xs
    → occurrences q (p ∷ without p xs) ≡ occurrences q xs
occurrences-moved p q xs there = omega (arith, occurrences-without p q xs there)

-- The cache after an entry is taken out of the list and put first has the same chains.
relinked-IsCached :
    {c : Cache} {xs : List Ptr} (p : Ptr) (rest before behind : List Ptr)
    → IsCached c xs
    → 0 < occurrences p xs
    → with_key c.item (c.item p).key xs ≡ p ∷ rest
    → IsList
        (add_to_head p (spliced (last_or none before) (first_or behind none) c))
        (p ∷ without p xs)
    → IsCached
        (add_to_head p (spliced (last_or none before) (first_or behind none) c))
        (p ∷ without p xs)
unfolding add_to_head bucket_of
relinked-IsCached {c} {xs} p rest before behind h there e l = record {
  chains = h.chains;
  list = l;
  size = omega (arith, h.size, length-without p xs there);
  once = λ q. omega (arith, occurrences-moved p q xs there, h.once q);
  chained = h.chained;
  placed = h.placed;
  same = λ k. h.same k ∙ with_key-first c.item p xs rest k e;
  live = λ q. h.live q ∙ ap (ltb 0) (sym (occurrences-moved p q xs there));
  fresh = λ q above. occurrences-moved p q xs there ∙ h.fresh q above;
  bounded = omega (arith, h.bounded, length-without p xs there);
  sized = h.sized;
}

moved-head :
    (c : Cache) (p : Ptr) (xs : List Ptr)
    → c.head ≡ first_or xs none
    → same_ptr c.head p ≡ true
    → (ys : List Ptr) × (xs ≡ p ∷ ys)
unfolding same_ptr
moved-head c p [] e same = absurd (ground (arith, ap (λ t. same_ptr t p) e))
moved-head c p (x ∷ xs) e same =
    let here : x ≡ p = eq_of_== x p (sym (ap (λ t. same_ptr t p) e) ∙ same) in
    (xs, ap (λ t. t ∷ xs) here)

-- `move_to_head` of the first entry with its key.
pub move_to_head-IsCached :
    {c : Cache} {xs : List Ptr} (p : Ptr) (rest : List Ptr)
    → IsCached c xs
    → 0 < occurrences p xs
    → with_key c.item (c.item p).key xs ≡ p ∷ rest
    → IsCached (move_to_head p c) (p ∷ without p xs)
unfolding move_to_head
move_to_head-IsCached {c} {xs} p rest h there e = elim (Bool-cases (same_ptr c.head p)) [
  | inl first ↦
      let (ys, f) = moved-head c p xs h.list.head first in
      let here : p == p ≡ true = ground arith in
      let kept : p ∷ without p xs ≡ xs = rw (f, here) refl in
      rw first (subst (IsCached c) (sym kept) h)
  | inr later ↦
      let (before, behind, f, out, k) = split_at p xs there in
      let parted = subst (IsList c) f h.list in
      let once = subst Once f h.once in
      let c' = spliced (last_or none before) (first_or behind none) c in
      let l = subst (IsList c') (sym k) (spliced-IsList c p before behind once parted) in
      let gone : Once (without p xs) =
        λ q. omega (arith, occurrences-without p q xs there, h.once q) in
      let away : occurrences p (without p xs) ≡ 0 =
        occurrences-without_self p xs there (h.once p) in
      rw (later, remove_from_list_lem c p before behind once parted)
        (relinked-IsCached p rest before behind h there e
          (add_to_head-IsList c' p (without p xs) away gone l))
]
