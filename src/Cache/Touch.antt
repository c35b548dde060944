-- ===== src/Cache/Touch.antt =====
-- An entry of src/cache/cache.c that is found and used, against the model.
use backend_in_c.Prelude.{
  ℕ, ◌≤◌, ◌<◌, ◌≡◌, refl, ap, ◌∙◌, List, ◌∷◌, map, Option, none, some, inl, inr, Bool-cases,
  CString, eq_of_str_eq,
}
use backend_in_c.Cache.{
  Ptr, Item, EvictionPolicy, eviction_lru, eviction_lfu, Cache, write, same_ptr, unlink_before,
  unlink_behind, remove_from_list, add_to_head, move_to_head,
}
use backend_in_c.Cache.Calls.{touch}
use backend_in_c.Cache.Lists.{occurrences, write-same}
use backend_in_c.Cache.Chains.{with_key}
use backend_in_c.Cache.Keys.{without, occurrences-without_self, with_key-found, with_key-frame}
use backend_in_c.Cache.Invariant.{IsCached}
use backend_in_c.Cache.Moves.{write-key, rewritten-IsCached, move_to_head-IsCached}
use backend_in_c.Cache.Model.{Model, used}
use backend_in_c.Cache.Entries.{map-without, map-write, map-write-absent}

abbrev pub view : Cache → List Ptr → Model
view c xs = record { max_size = c.max_size; policy = c.policy; entries = map c.item xs }

-- The cache is well formed, and the model has its entries in their order.
pub record Represents (c : Cache) (m : Model) : Type 0 where
  pub order : List Ptr
  pub cached : IsCached c order
  pub shown : view c order ≡ m

-- The links are not part of the view.
pub record SameView (c c' : Cache) : Type 0 where
  pub max_size : c'.max_size ≡ c.max_size
  pub policy : c'.policy ≡ c.policy
  pub item : c'.item ≡ c.item

unlink_before-SameView : (p : Ptr) (c : Cache) → SameView c (unlink_before p c)
unfolding unlink_before
unlink_before-SameView p c = by_link (c.prev p)
  where
    by_link :
        (o : Option Ptr)
        → SameView c (elim o [
          | some r ↦ record c { next = write c.next r (c.next p) }
          | none ↦ record c { head = c.next p }
        ])
    by_link none = record { max_size = refl; policy = refl; item = refl }
    by_link (some r) = record { max_size = refl; policy = refl; item = refl }

unlink_behind-SameView : (p : Ptr) (c : Cache) → SameView c (unlink_behind p c)
unfolding unlink_behind
unlink_behind-SameView p c = by_link (c.next p)
  where
    by_link :
        (o : Option Ptr)
        → SameView c (elim o [
          | some r ↦ record c { prev = write c.prev r (c.prev p) }
          | none ↦ record c { tail = c.prev p }
        ])
    by_link none = record { max_size = refl; policy = refl; item = refl }
    by_link (some r) = record { max_size = refl; policy = refl; item = refl }

move_to_head-SameView : (p : Ptr) (c : Cache) → SameView c (move_to_head p c)
unfolding move_to_head add_to_head remove_from_list
move_to_head-SameView p c =
    let u = unlink_before-SameView p c in
    let v = unlink_behind-SameView p (unlink_before p c) in
    elim (Bool-cases (same_ptr c.head p)) [
      | inl first ↦ record {
        max_size = rw first refl;
        policy = rw first refl;
        item = rw first refl;
      }
      | inr later ↦ record {
        max_size = rw later (v.max_size ∙ u.max_size);
        policy = rw later (v.policy ∙ u.policy);
        item = rw later (v.item ∙ u.item);
      }
    ]

touch-SameView : (p : Ptr) (c : Cache) → SameView c (touch p c)
unfolding touch
touch-SameView p c = by_policy c.policy
  where
    by_policy :
        (policy : EvictionPolicy)
        → SameView c (elim policy [ eviction_lru ↦ move_to_head p c | eviction_lfu ↦ c ])
    by_policy eviction_lru = move_to_head-SameView p c
    by_policy eviction_lfu = record { max_size = refl; policy = refl; item = refl }

-- The order after an entry is used.
abbrev touched : EvictionPolicy → Ptr → List Ptr → List Ptr
touched eviction_lru p xs = p ∷ without p xs
touched eviction_lfu p xs = xs

touch-IsCached :
    {c : Cache} {xs : List Ptr} (p : Ptr) (rest : List Ptr)
    → IsCached c xs
    → 0 < occurrences p xs
    → with_key c.item (c.item p).key xs ≡ p ∷ rest
    → IsCached (touch p c) (touched c.policy p xs)
unfolding touch
touch-IsCached {c} {xs} p rest h there e = by_policy c.policy
  where
    by_policy :
        (policy : EvictionPolicy)
        → IsCached
            (elim policy [ eviction_lru ↦ move_to_head p c | eviction_lfu ↦ c ])
            (touched policy p xs)
    by_policy eviction_lru = move_to_head-IsCached p rest h there e
    by_policy eviction_lfu = h

map-touched :
    (item : Ptr → Item) (policy : EvictionPolicy) (p : Ptr) (k : CString) (new : Item)
    (xs rest : List Ptr)
    → 0 < occurrences p xs
    → occurrences p xs ≤ 1
    → with_key item k xs ≡ p ∷ rest
    → map (write item p new) (touched policy p xs) ≡ used policy k new (map item xs)
map-touched item eviction_lru p k new xs rest there once e =
    rw
      (
        write-same item p new,
        map-write-absent item p new (without p xs) (occurrences-without_self p xs there once),
        map-without item p k xs rest e,
      )
      refl
map-touched item eviction_lfu p k new xs rest there once e = map-write item p k new xs rest once e

-- The first entry under a key, with its fields written, takes the place that the policy gives it.
pub touch-Represents :
    {c : Cache} {xs : List Ptr} (p : Ptr) (k : CString) (new : Item) (hits : ℕ) (rest : List Ptr)
    → IsCached c xs
    → with_key c.item k xs ≡ p ∷ rest
    → new.key ≡ (c.item p).key
    → Represents (touch p (record c { item = write c.item p new; hits = hits })) (record {
      max_size = c.max_size;
      policy = c.policy;
      entries = used c.policy k new (map c.item xs);
    })
touch-Represents {c} {xs} p k new hits rest h e same =
    let (there, mine) = with_key-found c.item k p xs rest e in
    let keys = write-key c.item p new same in
    let c1 : Cache = record c { item = write c.item p new; hits = hits } in
    let own : (write c.item p new p).key ≡ k = keys p ∙ eq_of_str_eq (c.item p).key k mine in
    let first =
      ap (λ t. with_key (write c.item p new) t xs) own
      ∙ with_key-frame c.item (write c.item p new) k xs (λ q inside. keys q)
      ∙ e in
    let s = touch-SameView p c1 in
    record {
      order = touched c.policy p xs;
      cached =
          touch-IsCached p rest
            (rewritten-IsCached (write c.item p new) hits c.misses c.evictions keys h) there first;
      shown = λ i. record {
        max_size = s.max_size i;
        policy = s.policy i;
        entries =
            (ap (λ f. map f (touched c.policy p xs)) s.item
                ∙ map-touched c.item c.policy p k new xs rest there (h.once p) e)
              i;
      };
    }
